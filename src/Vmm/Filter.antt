-- ===== src/Vmm/Filter.antt =====
-- lib.rs: the device state that one benchmark restores. `P` has the types of the device states.
pub mod Cover
use herm_os_test.Prelude.{ℕ, List, [], Option, none}

pub data BenchmarkDeviceRestoreKind : Type 0 where
  all balloon block net vsock entropy pmem virtio_mem : BenchmarkDeviceRestoreKind

pub record DeviceKinds : Type 1 where
  pub BlockState : Type 0
  pub NetState : Type 0
  pub VsockState : Type 0
  pub BalloonState : Type 0
  pub MmdsState : Type 0
  pub EntropyState : Type 0
  pub PmemState : Type 0
  pub MemoryState : Type 0

-- the fields of `DeviceStates` that the source names
pub record DeviceStates (k : DeviceKinds) : Type 0 where
  pub block_devices : List k.BlockState
  pub net_devices : List k.NetState
  pub vsock_device : Option k.VsockState
  pub balloon_device : Option k.BalloonState
  pub mmds : Option k.MmdsState
  pub entropy_device : Option k.EntropyState
  pub pmem_devices : List k.PmemState
  pub memory_device : Option k.MemoryState

module _ (k : DeviceKinds) where
  -- `DeviceStates::default()`
  abbrev pub default_states : DeviceStates k
  default_states = record {
    block_devices = [];
    net_devices = [];
    vsock_device = none;
    balloon_device = none;
    mmds = none;
    entropy_device = none;
    pmem_devices = [];
    memory_device = none;
  }

  unfoldable pub benchmark_filter_mmio_state :
      DeviceStates k → BenchmarkDeviceRestoreKind → DeviceStates k
  benchmark_filter_mmio_state s all = s
  benchmark_filter_mmio_state s balloon = record default_states {
    balloon_device = s.balloon_device;
  }
  benchmark_filter_mmio_state s block = record default_states { block_devices = s.block_devices }
  benchmark_filter_mmio_state s net = record default_states {
    net_devices = s.net_devices;
    mmds = s.mmds;
  }
  benchmark_filter_mmio_state s vsock = record default_states { vsock_device = s.vsock_device }
  benchmark_filter_mmio_state s entropy = record default_states {
    entropy_device = s.entropy_device;
  }
  benchmark_filter_mmio_state s pmem = record default_states { pmem_devices = s.pmem_devices }
  benchmark_filter_mmio_state s virtio_mem = record default_states {
    memory_device = s.memory_device;
  }
