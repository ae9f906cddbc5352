-- ===== src/Block/Finish/Reports.antt =====
-- What a finished request tells the guest: the status byte, and the length in the used ring.
use herm_os_test.Prelude.{ℕ, ◌+◌, ◌<◌, ◌≡◌, ◌≢◌, ◌⊎◌, Outcome, ok, err, arith, u32_mod}
use herm_os_test.Block.Types.{
  RequestType, read_in, flush, get_device_id, unsupported, PendingRequest, IoErr,
}
use herm_os_test.Block.Host.{Host}
use herm_os_test.Block.Finish.{Ctx, finish}

module _ {E : Type 0} where
  -- all that was asked for was transferred
  abbrev pub Completes : RequestType → ℕ → Outcome E ℕ → Type 0
  Completes (unsupported op) data_len res = ⊥
  Completes flush data_len (ok n) = Unit {0}
  Completes _ data_len (ok n) = n ≡ data_len
  Completes _ data_len (err e) = ⊥

  -- a request that the device knows failed, or moved another number of bytes
  abbrev pub Fails : RequestType → ℕ → Outcome E ℕ → Type 0
  Fails (unsupported op) data_len res = ⊥
  Fails flush data_len (ok n) = ⊥
  Fails _ data_len (ok n) = n ≢ data_len
  Fails _ data_len (err e) = Unit {0}

abbrev pub IsUnsupported : RequestType → Type 0
IsUnsupported (unsupported op) = Unit {0}
IsUnsupported _ = ⊥

module _ (h : Host) where
  open h use {World, GuestMemoryError, BlockIoError, blk_s_ok, blk_s_ioerr, blk_s_unsupp, write_obj}

  abbrev Res : Type 0
  Res = Outcome (IoErr GuestMemoryError BlockIoError) ℕ

  -- Finishing a request writes one status byte to guest memory and nothing else: `S_OK` if all
  -- that was asked for was transferred (any success, for a flush), `S_UNSUPP` for a type that the
  -- device does not know, and `S_IOERR` otherwise.
  pub finish-status_byte :
      (p : PendingRequest) (res : Res) (c : Ctx World)
      → (Completes p.type p.data_len res
          × ((finish h p res c).1.world ≡ (write_obj blk_s_ok p.status_addr c.world).1))
        ⊎ (Fails p.type p.data_len res
            × ((finish h p res c).1.world ≡ (write_obj blk_s_ioerr p.status_addr c.world).1))
        ⊎ (IsUnsupported p.type
            × ((finish h p res c).1.world ≡ (write_obj blk_s_unsupp p.status_addr c.world).1))
  unfolding finish
  finish-status_byte p res c = ground arith

  -- the bytes that the request put into guest memory for the driver to read
  abbrev moved : RequestType → Res → ℕ
  moved read_in (ok n) = n
  moved get_device_id (ok n) = n
  moved _ _ = 0

  -- the length for the used ring: the status byte counts, and a failed status write reports nothing
  abbrev used_len : Outcome GuestMemoryError (Unit {0}) → ℕ → ℕ
  used_len (ok _) n = n + 1
  used_len (err e) n = 0

  -- When the write to the status address ends the same for every status code, and the bytes moved
  -- plus one fit a u32: the used length is the bytes put into guest memory plus the status byte
  -- if that write succeeds, and 0 if it fails; the descriptor index is the request's.
  finish-used_len :
      (p : PendingRequest) (res : Res) (c : Ctx World) (o : Outcome GuestMemoryError (Unit {0}))
      → ((code : ℕ) → (write_obj code p.status_addr c.world).0 ≡ o)
      → moved p.type res + 1 < u32_mod
      → ((finish h p res c).0.num_bytes_to_mem ≡ used_len o (moved p.type res))
        × ((finish h p res c).0.desc_idx ≡ p.desc_idx)
  unfolding finish
  finish-used_len p res c o hw hn = ground (arith, hw blk_s_ok, hw blk_s_ioerr, hw blk_s_unsupp)
