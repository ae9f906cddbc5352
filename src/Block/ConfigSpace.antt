-- ===== src/Block/ConfigSpace.antt =====
-- The guest's view of the config space: `read_config` and `write_config` of virtio/device.rs.
use mathlib.Core.List.{append-nil}
use herm_os_test.Prelude.{
  ℕ, ◌+◌, ◌≤◌, ◌<◌, ◌≡◌, refl, ◌∙◌, min, not, List, ◌++◌, Option, none, some, if◌then◌else◌, arith,
  length, length-append, length-take, length-drop, take-append, drop-append, drop_all, take, drop,
  leb, ltb, u64_mod,
}
use herm_os_test.Block.Types.{cfg_fails}
use herm_os_test.Block.Device.{State, tally}
use herm_os_test.Block.Disk.{copy_prefix}

-- `bytes.get(start..)`
abbrev pub get_from : ℕ → List ℕ → Option (List ℕ)
get_from start bytes = if leb start (length bytes) then some (drop start bytes) else none

-- `copy_from_slice` of as many bytes as both sides have, where the source is the longer one
copy_prefix_all :
    (src rest dst : List ℕ)
    → length dst ≡ length src
    → copy_prefix (min (length (src ++ rest)) (length dst)) (src ++ rest) dst ≡ src
copy_prefix_all src rest dst e =
    let n : min (length (src ++ rest)) (length dst) ≡ length src =
      omega (arith, length-append src rest) in
    rw (n, take-append (length src) src rest refl, drop_all (length src) dst (omega arith))
      (append-nil src)

module _ {W : Type 0} where
  -- The caller's buffer, filled from its start as far as the config space goes.
  unfoldable pub read_config : ℕ → List ℕ → State W → List ℕ × State W
  read_config offset buffer s = elim (get_from offset s.dev.config_space) [
    | some bytes ↦ (copy_prefix (min (length bytes) (length buffer)) bytes buffer, s)
    | none ↦ (buffer, tally cfg_fails s)
  ]

  -- `start.checked_add(data.len())`, then `get_mut(start..end)`; usize has 64 bits
  unfoldable pub write_config : ℕ → List ℕ → State W → State W
  write_config offset new s =
      let end = offset + length new in
      if not (ltb end u64_mod)
      then tally cfg_fails s
      else if not (leb end (length s.dev.config_space))
      then tally cfg_fails s
      else record s {
        dev = record s.dev {
          config_space = take offset s.dev.config_space ++ (new ++ drop end s.dev.config_space);
        };
      }

  -- Whatever the driver writes and wherever, the config space keeps its size.
  pub write_config-length :
      (offset : ℕ) (new : List ℕ) (s : State W)
      → length (write_config offset new s).dev.config_space ≡ length s.dev.config_space
  unfolding write_config
  write_config-length offset new s =
      let cs = s.dev.config_space in
      ground (
        arith,
        length-append (take offset cs) (new ++ drop (offset + length new) cs),
        length-append new (drop (offset + length new) cs),
        length-take offset cs,
        length-drop (offset + length new) cs,
      )

  write_config_inside :
      (offset : ℕ) (new : List ℕ) (s : State W)
      → offset + length new ≤ length s.dev.config_space
      → length s.dev.config_space < u64_mod
      → (write_config offset new s).dev.config_space
        ≡ take offset s.dev.config_space ++ (new ++ drop (offset + length new) s.dev.config_space)
  unfolding write_config
  write_config_inside offset new s fits small = ground arith

  pub read_config_inside :
      (offset : ℕ) (buffer : List ℕ) (s : State W)
      → offset ≤ length s.dev.config_space
      → (read_config offset buffer s).0 ≡ (
          let bytes = drop offset s.dev.config_space in
          copy_prefix (min (length bytes) (length buffer)) bytes buffer)
  unfolding read_config
  read_config_inside offset buffer s fits = ground arith

  -- What the driver writes within the config space, which is shorter than 2^64 bytes, is what it
  -- reads back there, into a buffer of that size.
  pub read_config-write_config :
      (offset : ℕ) (new buffer : List ℕ) (s : State W)
      → offset + length new ≤ length s.dev.config_space
      → length s.dev.config_space < u64_mod
      → length buffer ≡ length new
      → (read_config offset buffer (write_config offset new s)).0 ≡ new
  read_config-write_config offset new buffer s fits small e =
      let cs = s.dev.config_space in
      let rest = drop (offset + length new) cs in
      read_config_inside offset buffer (write_config offset new s)
        (omega (arith, write_config-length offset new s))
      ∙ rw
          (
            write_config_inside offset new s fits small,
            drop-append offset (take offset cs) (new ++ rest)
                (omega (arith, length-take offset cs (omega arith))),
          )
          (copy_prefix_all new rest buffer e)
