-- ===== src/Block/Parse/Bounds.antt =====
-- A request that `Request::parse` accepts stays on the disk.
use mathlib.Core.Path.{subst, sym}
use herm_os_test.Prelude.{ℕ, ◌+◌, ◌*◌, ◌/◌, ◌≤◌, ◌<◌, ◌≡◌, ◌⊎◌, ok, arith, u64_mod}
use herm_os_test.Block.Types.{RequestType, read_in, write_out, Request, sector_size, offset}
use herm_os_test.Block.Host.{Host}
use herm_os_test.Block.Parse.{parse}
use herm_os_test.Block.Parse.Spec.{Extent, IsRequest, parse_iff}

abbrev pub IsTransfer : RequestType → Type 0
IsTransfer t = (t ≡ read_in) ⊎ (t ≡ write_out)

module _ (h : Host) where
  open h use {World, Chain}

  transfer-Extent :
      (t : RequestType) (sector size n : ℕ)
      → IsTransfer t
      → Extent h t sector size n
      → sector * sector_size + size ≤ n * sector_size
  transfer-Extent read_in sector size n tr e = e.1
  transfer-Extent write_out sector size n tr e = e.1
  transfer-Extent _ sector size n tr e = absurd (ground arith)

  Extent-of :
      {w : World} {c : Chain} {n : ℕ} {r : Request}
      → IsRequest h w c n r
      → Extent h r.type r.sector r.data_len n
  Extent-of {n = n} q =
      subst (λ (x : Request). Extent h x.type x.sector x.data_len n) (sym q.result) q.extent

  -- A read or write that `parse` accepts for a disk of `disk_size` bytes, a u64, touches bytes of
  -- the disk only, and the u64 shift that computes its byte offset loses no bit of the sector
  -- number.
  pub parse-in_bounds :
      (w : World) (c : Chain) (disk_size : ℕ) (r : Request)
      → disk_size < u64_mod
      → parse h w c (disk_size / sector_size) ≡ ok r
      → IsTransfer r.type
      → (offset r ≡ r.sector * sector_size) × (offset r + r.data_len ≤ disk_size)
  unfolding offset
  parse-in_bounds w c disk_size r hd e tr =
      let q = (parse_iff h w c (disk_size / sector_size) r (omega arith)).0 e in
      let fits : r.sector * sector_size + r.data_len ≤ disk_size / sector_size * sector_size =
        transfer-Extent r.type r.sector r.data_len _ tr (Extent-of q) in
      (omega arith, omega arith)
