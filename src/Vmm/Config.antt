-- ===== src/Vmm/Config.antt =====
-- lib.rs: `full_config` and `get_mmds`, which read the configuration of the devices.
pub mod Collected
pub mod Fields
pub mod Expected
use herm_os_test.Prelude.{
  Bool, true, false, List, [], ◌∷◌, ◌++◌, Option, none, some, Run, returned, panicked,
  if◌then◌else◌, bind_run,
}

-- `VirtioDeviceType`
pub data DeviceType : Type 0 where
  block_type net_type pmem_type balloon_type vsock_type rng_type mem_type : DeviceType

-- The devices. `as_block` and the others are the downcast of a device, with the configuration that is
-- read of it; `lock` is whether the lock of the MMDS is not poisoned.
pub record Devices : Type 1 where
  pub Device : Type 0
  pub Net : Type 0
  pub Mmds : Type 0
  pub InterfaceId : Type 0
  pub Ipv4 : Type 0
  pub Version : Type 0
  pub BlockConfig : Type 0
  pub NetConfig : Type 0
  pub PmemConfig : Type 0
  pub BalloonConfig : Type 0
  pub VsockConfig : Type 0
  pub EntropyConfig : Type 0
  pub HotplugConfig : Type 0
  pub device_type : Device → DeviceType
  pub as_block : Device → Option BlockConfig
  pub as_net : Device → Option Net
  pub as_pmem : Device → Option PmemConfig
  pub as_balloon : Device → Option BalloonConfig
  pub as_vsock : Device → Option VsockConfig
  pub as_entropy : Device → Option EntropyConfig
  pub as_mem : Device → Option HotplugConfig
  pub net_config : Net → NetConfig
  pub net_id : Net → InterfaceId
  pub mmds_ns : Net → Option (Mmds × Ipv4)
  pub lock : Mmds → Bool
  pub version : Mmds → Version
  pub imds_compat : Mmds → Bool

module _ (d : Devices) where
  open d use {
    Device, Net, Mmds, InterfaceId, Ipv4, Version, BlockConfig, NetConfig, PmemConfig,
    BalloonConfig, VsockConfig, EntropyConfig, HotplugConfig, device_type, as_block, as_net,
    as_pmem, as_balloon, as_vsock, as_entropy, as_mem, net_config, net_id, mmds_ns, lock, version,
    imds_compat,
  }

  pub record MmdsConfig : Type 0 where
    pub version_of : Version
    pub ipv4_address : Option Ipv4
    pub network_interfaces : List InterfaceId
    pub imds : Bool

  -- the variables of `full_config`
  pub record Found : Type 0 where
    pub block : List BlockConfig
    pub net : List NetConfig
    pub net_with_mmds : List InterfaceId
    pub pmem : List PmemConfig
    pub balloon : Option BalloonConfig
    pub vsock : Option VsockConfig
    pub entropy : Option EntropyConfig
    pub memory_hotplug : Option HotplugConfig
    pub mmds_ipv4_address : Option Ipv4
    pub mmds_ref : Option Mmds

  abbrev pub nothing_found : Found
  nothing_found = record {
    block = [];
    net = [];
    net_with_mmds = [];
    pmem = [];
    balloon = none;
    vsock = none;
    entropy = none;
    memory_hotplug = none;
    mmds_ipv4_address = none;
    mmds_ref = none;
  }

  -- the end of a list, with one more if there is one
  abbrev pub push : {A : Type 0} → List A → Option A → List A
  push xs none = xs
  push xs (some x) = xs ++ (x ∷ [])

  -- an assignment under `if let`
  abbrev pub assign : {A : Type 0} → Option A → Option A → Option A
  assign old none = old
  assign old (some x) = some x

  -- `if mmds_ref.is_none()`
  abbrev pub first_mmds : Option Mmds → Mmds × Ipv4 → Found → Found
  first_mmds (some m) ns f = f
  first_mmds none ns f = record f { mmds_ref = some ns.0; mmds_ipv4_address = some ns.1 }

  abbrev pub add_mmds : Option (Mmds × Ipv4) → InterfaceId → Found → Found
  add_mmds none id f = f
  add_mmds (some ns) id f =
      first_mmds f.mmds_ref ns (record f { net_with_mmds = f.net_with_mmds ++ (id ∷ []) })

  abbrev pub add_net : Option Net → Found → Found
  add_net none f = f
  add_net (some n) f =
      add_mmds (mmds_ns n) (net_id n) (record f { net = f.net ++ (net_config n ∷ []) })

  -- the closure, on a device
  abbrev pub add_of : DeviceType → Device → Found → Found
  add_of block_type x f = record f { block = push f.block (as_block x) }
  add_of net_type x f = add_net (as_net x) f
  add_of pmem_type x f = record f { pmem = push f.pmem (as_pmem x) }
  add_of balloon_type x f = record f { balloon = assign f.balloon (as_balloon x) }
  add_of vsock_type x f = record f { vsock = assign f.vsock (as_vsock x) }
  add_of rng_type x f = record f { entropy = assign f.entropy (as_entropy x) }
  add_of mem_type x f = record f { memory_hotplug = assign f.memory_hotplug (as_mem x) }

  -- `for_each_virtio_device` with the closure
  unfoldable pub collect : List Device → Found → Found
  collect [] f = f
  collect (x ∷ xs) f = collect xs (add_of (device_type x) x f)

  -- the fields of `VmmConfig` that come of the devices
  pub record VmmConfig : Type 0 where
    pub balloon : Option BalloonConfig
    pub drives : List BlockConfig
    pub mmds_config : Option MmdsConfig
    pub network_interfaces : List NetConfig
    pub vsock : Option VsockConfig
    pub entropy : Option EntropyConfig
    pub pmem_devices : List PmemConfig
    pub memory_hotplug : Option HotplugConfig

  abbrev pub config_with : Found → Option MmdsConfig → VmmConfig
  config_with f mmds = record {
    balloon = f.balloon;
    drives = f.block;
    mmds_config = mmds;
    network_interfaces = f.net;
    vsock = f.vsock;
    entropy = f.entropy;
    pmem_devices = f.pmem;
    memory_hotplug = f.memory_hotplug;
  }

  -- `mmds_ref.map(...)`: a poisoned lock panics
  abbrev pub mmds_config_of : Found → Option Mmds → Run (Option MmdsConfig)
  mmds_config_of f none = returned none
  mmds_config_of f (some m) =
      if lock m
      then returned (
          some (record {
            version_of = version m;
            ipv4_address = f.mmds_ipv4_address;
            network_interfaces = f.net_with_mmds;
            imds = imds_compat m;
          }))
      else panicked

  unfoldable pub full_config : List Device → Run VmmConfig
  unfolding collect
  full_config devices =
      let f = collect devices nothing_found in
      bind_run (mmds_config_of f f.mmds_ref) λ mmds. returned (config_with f mmds)

  abbrev pub mmds_of : Option Net → Option Mmds → Option Mmds
  mmds_of none found = found
  mmds_of (some n) found = elim (mmds_ns n) [ none ↦ found | some ns ↦ some ns.0 ]

  abbrev pub mmds_of_type : DeviceType → Device → Option Mmds → Option Mmds
  mmds_of_type net_type x found = mmds_of (as_net x) found
  mmds_of_type _ x found = found

  -- `get_mmds`: each one that is found replaces the one before
  unfoldable pub last_mmds : List Device → Option Mmds → Option Mmds
  last_mmds [] found = found
  last_mmds (x ∷ xs) found = last_mmds xs (mmds_of_type (device_type x) x found)

  unfoldable pub get_mmds : List Device → Option Mmds
  unfolding last_mmds
  get_mmds devices = last_mmds devices none
