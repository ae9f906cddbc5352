-- ===== src/Block/Parse/Spec.antt =====
-- What a chain of descriptors must look like to be a request, stated without the code's order.
use herm_os_test.Prelude.{
  ℕ, ◌+◌, ◌*◌, ◌%◌, ◌≤◌, ◌<◌, ◌≡◌, ◌↔◌, Bool, true, false, some, ok, ok_or, >>=-eq-ok, >>-eq-ok,
  ok_or-eq-ok, map_err-eq-ok, arith, u64_mod, inl, inr, Bool-cases,
}
use herm_os_test.Block.Types.{
  descriptor_chain_too_short, RequestType, read_in, write_out, flush, get_device_id, RequestHeader,
  Request, sector_size,
}
use herm_os_test.Block.Host.{Host}
use herm_os_test.Block.Parse.{
  request_type_from, layout, Layout, check_direction, check_transfer, check_validity, check_status,
  parse,
}

-- the direction that the data descriptor must have
abbrev pub Direction : RequestType → Bool → Type 0
Direction read_in writable = writable ≡ true
Direction get_device_id writable = writable ≡ true
Direction write_out writable = writable ≡ false
Direction _ writable = Unit {0}

module _ (h : Host) where
  open h use {
    World, Chain, GuestMemoryError, blk_id_bytes, addr, len, is_write_only, has_next,
    next_descriptor, read_header,
  }

  -- the data lies on a disk of `n` sectors, in bytes
  abbrev pub Extent : RequestType → ℕ → ℕ → ℕ → Type 0
  Extent read_in sector size n =
      (size % sector_size ≡ 0) × (sector * sector_size + size ≤ n * sector_size)
  Extent write_out sector size n =
      (size % sector_size ≡ 0) × (sector * sector_size + size ≤ n * sector_size)
  Extent get_device_id sector size n = blk_id_bytes ≤ size
  Extent _ sector size n = Unit {0}

  -- only a flush may leave the data descriptor out
  pub data Shape (w : World) (t : RequestType) (d : Chain) (l : Layout Chain) : Type 0 where
    bare :
        has_next d ≡ false
        → t ≡ flush
        → l ≡ record { data_addr = 0; data_len = 0; status_desc = d }
        → Shape w t d l
    full :
        (s : Chain)
        → has_next d ≡ true
        → next_descriptor w d ≡ some s
        → Direction t (is_write_only d)
        → l ≡ record { data_addr = addr d; data_len = len d; status_desc = s }
        → Shape w t d l

  pub record IsRequest (w : World) (c : Chain) (n : ℕ) (r : Request) : Type 0 where
    pub readable : is_write_only c ≡ false
    pub header : RequestHeader
    pub header_read : read_header w (addr c) ≡ ok header
    pub second : Chain
    pub second_next : next_descriptor w c ≡ some second
    pub parts : Layout Chain
    pub shape : Shape w (request_type_from h header.request_type) second parts
    pub extent : Extent (request_type_from h header.request_type) header.sector parts.data_len n
    pub status_writable : is_write_only parts.status_desc ≡ true
    pub status_long : 1 ≤ len parts.status_desc
    pub result : r ≡ record {
      type = request_type_from h header.request_type;
      data_len = parts.data_len;
      status_addr = addr parts.status_desc;
      sector = header.sector;
      data_addr = parts.data_addr;
    }

  check_direction_iff :
      (t : RequestType) (b : Bool) → (check_direction h t b ≡ ok tt) ↔ Direction t b
  unfolding check_direction
  check_direction_iff read_in b = (λ e. ground arith, λ e. ground arith)
  check_direction_iff _ b = (λ e. ground arith, λ e. ground arith)

  check_transfer_iff :
      (sector size n : ℕ)
      → n < u64_mod
      → (check_transfer h sector size n ≡ ok tt)
        ↔ ((size % sector_size ≡ 0) × (sector * sector_size + size ≤ n * sector_size))
  unfolding check_transfer
  check_transfer_iff sector size n hn = (λ e. ground arith, λ e. ground arith)

  check_validity_iff :
      (t : RequestType) (sector size n : ℕ)
      → n < u64_mod
      → (check_validity h t sector size n ≡ ok tt) ↔ Extent t sector size n
  check_validity_iff read_in sector size n hn =
      unfold check_validity in check_transfer_iff sector size n hn
  check_validity_iff write_out sector size n hn =
      unfold check_validity in check_transfer_iff sector size n hn
  check_validity_iff _ sector size n hn =
      unfold check_validity in (λ e. ground arith, λ e. ground arith)

  check_status_iff :
      (s : Chain) → (check_status h s ≡ ok tt) ↔ ((is_write_only s ≡ true) × (1 ≤ len s))
  unfolding check_status
  check_status_iff s = (λ e. ground arith, λ e. ground arith)

  layout-Shape :
      (w : World) (t : RequestType) (d : Chain) (l : Layout Chain)
      → layout h w t d ≡ ok l
      → Shape w t d l
  unfolding layout
  layout-Shape w t d l e = elim (Bool-cases (has_next d)) [
    | inl more ↦
        let (s, found, rest) =
          >>=-eq-ok (ok_or descriptor_chain_too_short (next_descriptor w d)) _ (rw more at e) in
        let (dir, result) = >>-eq-ok (check_direction h t (is_write_only d)) _ rest in
        full s more (ok_or-eq-ok _ _ found) ((check_direction_iff t (is_write_only d)).0 dir) (cc)
    | inr last ↦ bare last (ground arith) (ground arith)
  ]

  Shape-layout :
      (w : World) (t : RequestType) (d : Chain) (l : Layout Chain)
      → Shape w t d l
      → layout h w t d ≡ ok l
  unfolding layout
  Shape-layout w t d l (bare last t_flush result) = ground arith
  Shape-layout w t d l (full s more e dir result) =
      rw (more, e, (check_direction_iff t (is_write_only d)).1 dir) (ground arith)

  parse-IsRequest :
      (w : World) (c : Chain) (n : ℕ) (r : Request)
      → n < u64_mod
      → parse h w c n ≡ ok r
      → IsRequest w c n r
  unfolding parse
  parse-IsRequest w c n r hn e = elim (Bool-cases (is_write_only c)) [
    | inl wo ↦ absurd (ground arith)
    | inr ro ↦
        let (hd, found, e1) = >>=-eq-ok _ _ (rw ro at e) in
        let (d, second, e2) = >>=-eq-ok _ _ e1 in
        let (l, parts, e3) = >>=-eq-ok _ _ e2 in
        let (valid, e4) = >>-eq-ok _ _ e3 in
        let (status, e5) = >>-eq-ok _ _ e4 in
        let t = request_type_from h hd.request_type in
        record {
          readable = ro;
          header = hd;
          header_read = map_err-eq-ok _ _ found;
          second = d;
          second_next = ok_or-eq-ok _ _ second;
          parts = l;
          shape = layout-Shape w t d l parts;
          extent = (check_validity_iff t hd.sector l.data_len n hn).0 valid;
          status_writable = ((check_status_iff l.status_desc).0 status).0;
          status_long = ((check_status_iff l.status_desc).0 status).1;
          result = cc;
        }
  ]

  IsRequest-parse :
      (w : World) (c : Chain) (n : ℕ) (r : Request)
      → n < u64_mod
      → IsRequest w c n r
      → parse h w c n ≡ ok r
  unfolding parse
  IsRequest-parse w c n r hn q =
      let t = request_type_from h q.header.request_type in
      rw
        (
          q.readable,
          q.header_read,
          q.second_next,
          Shape-layout w t q.second q.parts q.shape,
          (check_validity_iff t q.header.sector q.parts.data_len n hn).1 q.extent,
          (check_status_iff q.parts.status_desc).1 (q.status_writable, q.status_long),
        )
        (cc (q.result))

  -- On a disk of n sectors, n a u64, `parse` succeeds with `r` exactly when the chain spells the
  -- request `r`: a readable header, for all requests but a bare flush a data descriptor in the
  -- direction of the request, data that lie on the disk, and a status descriptor that the device
  -- may write.
  pub parse_iff :
      (w : World) (c : Chain) (n : ℕ) (r : Request)
      → n < u64_mod
      → (parse h w c n ≡ ok r) ↔ IsRequest w c n r
  parse_iff w c n r hn = (parse-IsRequest w c n r hn, IsRequest-parse w c n r hn)
