-- ===== src/Block/Process/DeviceId.antt =====
-- Requests for the device id, and requests that the device does not know.
use herm_os_test.Prelude.{
  ℕ, ◌≡◌, ◌≢◌, ◌⊎◌, inl, inr, Bool-cases, refl, String, List, Outcome, ok, err, ◌==◌, arith,
}
use herm_os_test.Block.Types.{get_device_id, Metric, Request, to_pending_request}
use herm_os_test.Block.Host.{Host}
use herm_os_test.Block.Finish.{
  Ctx, from_data, report, finish_status, write_status_and_finish, finish,
}
use herm_os_test.Block.Process.{id_written, execute, process_as, process}

module _ (h : Host) where
  open h use {World, GuestMemoryError, blk_id_bytes, blk_s_ok, blk_s_ioerr, write_slice, write_obj}

  -- the status that the device reports when the id could be written, or not
  abbrev pub IdStatus : Outcome GuestMemoryError (Unit {0}) → ℕ → ℕ → Type 0
  IdStatus (ok _) data_len status =
      ((data_len ≡ blk_id_bytes) × (status ≡ blk_s_ok))
      ⊎ ((data_len ≢ blk_id_bytes) × (status ≡ blk_s_ioerr))
  IdStatus (err e) data_len status = status ≡ blk_s_ioerr

  abbrev Ends : ℕ → ℕ → Outcome GuestMemoryError (Unit {0}) × World → World → Type 0
  Ends data_len status_addr written w =
      (status : ℕ) × IdStatus written.0 data_len status
      × (w ≡ (write_obj status status_addr written.1).1)

  then_id-Ends :
      (data_len status_addr idx : ℕ) (metrics : List Metric)
      (written : Outcome GuestMemoryError (Unit {0}) × World)
      → Ends data_len status_addr written
          (execute h
            (record {
              type = get_device_id;
              data_len = data_len;
              status_addr = status_addr;
              desc_idx = idx;
            })
            (id_written h written.0)
            (record { world = written.1; metrics = metrics })).1.world
  unfolding execute finish write_status_and_finish finish_status from_data report
  then_id-Ends data_len status_addr idx metrics (ok u, w) =
      elim (Bool-cases (blk_id_bytes == data_len)) [
        | inl same ↦ (blk_s_ok, inl (ground arith, refl), simp same)
        | inr other ↦ (blk_s_ioerr, inr (ground arith, refl), simp other)
      ]
  then_id-Ends data_len status_addr idx metrics (err e, w) = (blk_s_ioerr, refl, refl)

  -- A request for the device id writes the id to the data address, and then reports success exactly
  -- when that could be written and the buffer of the driver is exactly as long as the id; a longer
  -- buffer, which `parse` accepts, ends in the status for an I/O error.
  pub process-IdStatus :
      (drive_id : String) (image_id : List ℕ) (r : Request) (idx : ℕ) (c : Ctx World)
      → r.type ≡ get_device_id
      → (status : ℕ) × IdStatus (write_slice image_id r.data_addr c.world).0 r.data_len status
        × ((process h drive_id image_id r idx c).1.world
            ≡ (write_obj status r.status_addr (write_slice image_id r.data_addr c.world).1).1)
  unfolding process process_as to_pending_request
  process-IdStatus drive_id image_id r idx c at =
      let written = write_slice image_id r.data_addr c.world in
      rw at (then_id-Ends r.data_len r.status_addr idx c.metrics written)
