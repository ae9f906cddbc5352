-- ===== src/Block/Parse.antt =====
-- `Request::parse` of virtio/request.rs, guard by guard in the order of the code.
pub mod Bounds
pub mod Spec
use herm_os_test.Prelude.{
  ℕ, ◌+◌, ◌/◌, ◌%◌, Bool, not, ◌&&◌, Outcome, ok, err, ◌>>=◌, ◌>>◌, ok_or, map_err, ltb, ◌==◌,
  if◌then◌else◌, u64_mod,
}
use herm_os_test.Block.Types.{
  RequestType, read_in, write_out, flush, get_device_id, unsupported, is_in, is_out, is_flush,
  is_get_id, Request, VirtioBlockError, descriptor_chain_too_short, descriptor_length_too_small,
  guest_memory, invalid_data_length, invalid_offset, unexpected_read_only_descriptor,
  unexpected_write_only_descriptor, sector_size,
}
use herm_os_test.Block.Host.{Host}

-- what the header names, where the data lies, and the descriptor of the status byte
pub record Layout (C : Type 0) : Type 0 where
  pub data_addr : ℕ
  pub data_len : ℕ
  pub status_desc : C

module _ (h : Host) where
  open h use {
    World, Chain, GuestMemoryError, blk_t_in, blk_t_out, blk_t_flush, blk_t_get_id, blk_id_bytes,
    addr, len, is_write_only, has_next, next_descriptor, read_header,
  }

  abbrev pub Parsed : Type 0 → Type 0
  Parsed A = Outcome (VirtioBlockError GuestMemoryError) A

  -- `RequestType::from(u32)`
  unfoldable pub request_type_from : ℕ → RequestType
  request_type_from value =
      if value == blk_t_in
      then read_in
      else if value == blk_t_out
      then write_out
      else if value == blk_t_flush
      then flush
      else if value == blk_t_get_id
      then get_device_id
      else unsupported value

  -- the data descriptor must let the device read or write, as the request wants
  unfoldable pub check_direction : RequestType → Bool → Parsed (Unit {0})
  check_direction type write_only =
      if write_only && is_out type
      then err unexpected_write_only_descriptor
      else if not write_only && is_in type
      then err unexpected_read_only_descriptor
      else if not write_only && is_get_id type
      then err unexpected_read_only_descriptor
      else ok tt

  -- only flush requests are allowed to skip the data descriptor
  unfoldable pub without_data : RequestType → Chain → Parsed (Layout Chain)
  without_data type desc =
      if not (is_flush type)
      then err descriptor_chain_too_short
      else ok (record { data_addr = 0; data_len = 0; status_desc = desc })

  unfoldable pub with_data : World → RequestType → Chain → Parsed (Layout Chain)
  unfolding check_direction
  with_data w type data_desc = do
    status_desc ← ok_or descriptor_chain_too_short (next_descriptor w data_desc)
    check_direction type (is_write_only data_desc)
    ok (record { data_addr = addr data_desc; data_len = len data_desc; status_desc = status_desc })

  -- the second and the third descriptor of the chain
  unfoldable pub layout : World → RequestType → Chain → Parsed (Layout Chain)
  unfolding with_data without_data
  layout w type desc = if not (has_next desc) then without_data type desc else with_data w type desc

  -- the length is a number of sectors, and the last of them lies on the disk
  unfoldable pub check_transfer : ℕ → ℕ → ℕ → Parsed (Unit {0})
  check_transfer sector data_len num_disk_sectors =
      if not (data_len % sector_size == 0)
      then err invalid_data_length
      else let top_sector = sector + data_len / sector_size in
        if not (ltb top_sector u64_mod)
        then err invalid_offset
        else if ltb num_disk_sectors top_sector
        then err invalid_offset
        else ok tt

  unfoldable pub check_validity : RequestType → ℕ → ℕ → ℕ → Parsed (Unit {0})
  unfolding check_transfer
  check_validity read_in sector data_len n = check_transfer sector data_len n
  check_validity write_out sector data_len n = check_transfer sector data_len n
  check_validity get_device_id sector data_len n =
      if ltb data_len blk_id_bytes then err invalid_data_length else ok tt
  check_validity flush sector data_len n = ok tt
  check_validity (unsupported op) sector data_len n = ok tt

  unfoldable pub check_status : Chain → Parsed (Unit {0})
  check_status status_desc =
      if not (is_write_only status_desc)
      then err unexpected_read_only_descriptor
      else if ltb (len status_desc) 1
      then err descriptor_length_too_small
      else ok tt

  unfoldable pub parse : World → Chain → ℕ → Parsed Request
  parse w avail_desc num_disk_sectors =
      if is_write_only avail_desc then err unexpected_write_only_descriptor else do
        header ← map_err guest_memory (read_header w (addr avail_desc))
        let type = request_type_from header.request_type
        desc ← ok_or descriptor_chain_too_short (next_descriptor w avail_desc)
        parts ← layout w type desc
        check_validity type header.sector parts.data_len num_disk_sectors
        check_status parts.status_desc
        ok (record {
          type = type;
          data_len = parts.data_len;
          status_addr = addr parts.status_desc;
          sector = header.sector;
          data_addr = parts.data_addr;
        })
