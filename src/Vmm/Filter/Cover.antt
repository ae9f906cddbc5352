-- ===== src/Vmm/Filter/Cover.antt =====
-- The families that the benchmark measures are apart, and together they are the whole state.
use herm_os_test.Prelude.{◌≡◌, ◌≢◌, refl, List, [], ◌∷◌, ◌++◌, Option, none, some, arith}
use herm_os_test.Vmm.Filter.{
  BenchmarkDeviceRestoreKind, all, balloon, block, net, vsock, entropy, pmem, virtio_mem,
  DeviceKinds, DeviceStates, default_states, benchmark_filter_mmio_state,
}

-- the first that is there
abbrev pub or_else : {A : Type 0} → Option A → Option A → Option A
or_else none y = y
or_else (some x) y = some x

append-nil : {A : Type 0} (xs : List A) → xs ++ [] ≡ xs
append-nil [] = refl
append-nil (x ∷ xs) = simp (append-nil xs)

or_else-none : {A : Type 0} (x : Option A) → or_else x none ≡ x
or_else-none none = refl
or_else-none (some x) = refl

module _ (k : DeviceKinds) where
  -- two states put together, device by device
  abbrev pub join : DeviceStates k → DeviceStates k → DeviceStates k
  join s t = record {
    block_devices = s.block_devices ++ t.block_devices;
    net_devices = s.net_devices ++ t.net_devices;
    vsock_device = or_else s.vsock_device t.vsock_device;
    balloon_device = or_else s.balloon_device t.balloon_device;
    mmds = or_else s.mmds t.mmds;
    entropy_device = or_else s.entropy_device t.entropy_device;
    pmem_devices = s.pmem_devices ++ t.pmem_devices;
    memory_device = or_else s.memory_device t.memory_device;
  }

  abbrev pub join_filtered : DeviceStates k → List BenchmarkDeviceRestoreKind → DeviceStates k
  join_filtered s [] = default_states k
  join_filtered s (kind ∷ kinds) =
      join (benchmark_filter_mmio_state k s kind) (join_filtered s kinds)

  -- The states of the seven single families, put together, are the whole state: no device family
  -- is left out of the benchmarks, and none is in two of them.
  pub benchmark_filter_mmio_state-cover :
      (s : DeviceStates k)
      → join_filtered s (balloon ∷ block ∷ net ∷ vsock ∷ entropy ∷ pmem ∷ virtio_mem ∷ [])
        ≡ benchmark_filter_mmio_state k s all
  unfolding benchmark_filter_mmio_state
  benchmark_filter_mmio_state-cover s = simp (
    append-nil s.block_devices,
    append-nil s.net_devices,
    append-nil s.pmem_devices,
    or_else-none s.vsock_device,
    or_else-none s.balloon_device,
    or_else-none s.mmds,
    or_else-none s.entropy_device,
    or_else-none s.memory_device,
  )

  -- the families apart from `all`
  abbrev IsFamily : BenchmarkDeviceRestoreKind → Type 0
  IsFamily kind = kind ≢ all

  -- Filtering for one family what was filtered for another leaves no device at all.
  pub benchmark_filter_mmio_state-apart :
      (s : DeviceStates k) (kind other : BenchmarkDeviceRestoreKind)
      → kind ≢ all
      → other ≢ all
      → kind ≢ other
      → benchmark_filter_mmio_state k (benchmark_filter_mmio_state k s kind) other
        ≡ default_states k
  unfolding benchmark_filter_mmio_state
  benchmark_filter_mmio_state-apart s kind other single alone apart = ground arith
