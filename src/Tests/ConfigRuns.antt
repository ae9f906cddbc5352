-- ===== src/Tests/ConfigRuns.antt =====
-- The configuration of five devices, of which two interfaces share an MMDS.
use herm_os_test.Prelude.{ℕ, ◌≡◌, true, List, [], ◌∷◌, Option, none, some, returned}
use herm_os_test.Vmm.Config.{DeviceType, block_type, net_type, balloon_type, Devices, full_config}
use herm_os_test.Vmm.Config.Collected.{select, last_of}
use herm_os_test.Vmm.Config.Expected.{full_config-described}

data SomeDevice : Type 0 where
  a_block a_balloon : ℕ → SomeDevice
  a_net : ℕ → Option ℕ → SomeDevice

abbrev type_of : SomeDevice → DeviceType
type_of (a_block n) = block_type
type_of (a_balloon n) = balloon_type
type_of (a_net n mmds) = net_type

abbrev block_in : SomeDevice → Option ℕ
block_in (a_block n) = some n
block_in _ = none

abbrev balloon_in : SomeDevice → Option ℕ
balloon_in (a_balloon n) = some n
balloon_in _ = none

abbrev net_in : SomeDevice → Option (ℕ × Option ℕ)
net_in (a_net n mmds) = some (n, mmds)
net_in _ = none

abbrev spaces : Option ℕ → Option (ℕ × ℕ)
spaces none = none
spaces (some m) = some (m, 169)

abbrev devices : Devices
devices = record {
  Device = SomeDevice;
  Net = ℕ × Option ℕ;
  Mmds = ℕ;
  InterfaceId = ℕ;
  Ipv4 = ℕ;
  Version = ℕ;
  BlockConfig = ℕ;
  NetConfig = ℕ;
  PmemConfig = ℕ;
  BalloonConfig = ℕ;
  VsockConfig = ℕ;
  EntropyConfig = ℕ;
  HotplugConfig = ℕ;
  device_type = type_of;
  as_block = block_in;
  as_net = net_in;
  as_pmem = λ x. none;
  as_balloon = balloon_in;
  as_vsock = λ x. none;
  as_entropy = λ x. none;
  as_mem = λ x. none;
  net_config = λ n. n.0;
  net_id = λ n. n.0;
  mmds_ns = λ n. spaces n.1;
  lock = λ m. true;
  version = λ m. 2;
  imds_compat = λ m. true;
}

abbrev five_devices : List SomeDevice
five_devices = a_block 1 ∷ a_net 2 none ∷ a_balloon 3 ∷ a_net 4 (some 8) ∷ a_net 5 (some 8) ∷ []

full_config-described_example :
    full_config devices five_devices
    ≡ returned (record {
      balloon = some 3;
      drives = 1 ∷ [];
      mmds_config = some (record {
        version_of = 2;
        ipv4_address = some 169;
        network_interfaces = 4 ∷ 5 ∷ [];
        imds = true;
      });
      network_interfaces = 2 ∷ 4 ∷ 5 ∷ [];
      vsock = none;
      entropy = none;
      pmem_devices = [];
      memory_hotplug = none;
    })
unfolding select last_of
full_config-described_example = full_config-described devices five_devices
