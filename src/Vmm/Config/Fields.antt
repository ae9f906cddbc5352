-- ===== src/Vmm/Config/Fields.antt =====
-- The loop of `full_config` against a description of each field by itself.
use herm_os_test.Prelude.{◌≡◌, refl, [], ◌∷◌, ◌++◌, Option, none, some}
use herm_os_test.Vmm.Config.{
  DeviceType, block_type, net_type, pmem_type, balloon_type, vsock_type, rng_type, mem_type,
  Devices, Found, push, assign, add_mmds, add_net, add_of,
}
use herm_os_test.Vmm.Config.Collected.{of_type, Space, keep_first}

module _ (d : Devices) where
  open d use {
    Device, Net, Mmds, InterfaceId, Ipv4, BlockConfig, NetConfig, PmemConfig, BalloonConfig,
    VsockConfig, EntropyConfig, HotplugConfig, device_type, as_block, as_net, as_pmem, as_balloon,
    as_vsock, as_entropy, as_mem, net_config, net_id, mmds_ns, lock, version, imds_compat,
  }

  abbrev pub net_of : Device → Option Net
  net_of x = of_type d net_type (device_type x) (as_net x)

  abbrev pub net_config_of : Option Net → Option NetConfig
  net_config_of none = none
  net_config_of (some n) = some (net_config n)

  -- the name of an interface with MMDS, and its MMDS with the address
  abbrev pub named_of : Option Net → Option InterfaceId
  named_of none = none
  named_of (some n) = elim (mmds_ns n) [ none ↦ none | some ns ↦ some (net_id n) ]

  abbrev pub space_of : Option Net → Option (Mmds × Ipv4)
  space_of none = none
  space_of (some n) = mmds_ns n

  -- the variables that an interface does not change
  abbrev SameOthers : Found d → Found d → Type 0
  SameOthers f g =
      (g.block ≡ f.block)
      × (g.pmem ≡ f.pmem)
      × (g.balloon ≡ f.balloon)
      × (g.vsock ≡ f.vsock)
      × (g.entropy ≡ f.entropy)
      × (g.memory_hotplug ≡ f.memory_hotplug)

  add_net-SameOthers : (o : Option Net) (f : Found d) → SameOthers f (add_net d o f)
  add_net-SameOthers none f = (refl, refl, refl, refl, refl, refl)
  add_net-SameOthers (some n) f = by_space (mmds_ns n) f.mmds_ref
    where
      by_space :
          (o : Option (Mmds × Ipv4)) (m : Option Mmds)
          → SameOthers f (
              add_mmds d o
                (net_id n)
                (record f { net = f.net ++ (net_config n ∷ []); mmds_ref = m }))
      by_space none m = (refl, refl, refl, refl, refl, refl)
      by_space (some ns) (some m) = (refl, refl, refl, refl, refl, refl)
      by_space (some ns) none = (refl, refl, refl, refl, refl, refl)

  pub block-step :
      (t : DeviceType) (x : Device) (f : Found d)
      → (add_of d t x f).block ≡ push d f.block (of_type d block_type t (as_block x))
  block-step block_type x f = refl
  block-step net_type x f = (add_net-SameOthers (as_net x) f).0
  block-step pmem_type x f = refl
  block-step balloon_type x f = refl
  block-step vsock_type x f = refl
  block-step rng_type x f = refl
  block-step mem_type x f = refl

  pub pmem-step :
      (t : DeviceType) (x : Device) (f : Found d)
      → (add_of d t x f).pmem ≡ push d f.pmem (of_type d pmem_type t (as_pmem x))
  pmem-step block_type x f = refl
  pmem-step net_type x f = (add_net-SameOthers (as_net x) f).1
  pmem-step pmem_type x f = refl
  pmem-step balloon_type x f = refl
  pmem-step vsock_type x f = refl
  pmem-step rng_type x f = refl
  pmem-step mem_type x f = refl

  pub balloon-step :
      (t : DeviceType) (x : Device) (f : Found d)
      → (add_of d t x f).balloon ≡ assign d f.balloon (of_type d balloon_type t (as_balloon x))
  balloon-step block_type x f = refl
  balloon-step net_type x f = (add_net-SameOthers (as_net x) f).2
  balloon-step pmem_type x f = refl
  balloon-step balloon_type x f = refl
  balloon-step vsock_type x f = refl
  balloon-step rng_type x f = refl
  balloon-step mem_type x f = refl

  pub vsock-step :
      (t : DeviceType) (x : Device) (f : Found d)
      → (add_of d t x f).vsock ≡ assign d f.vsock (of_type d vsock_type t (as_vsock x))
  vsock-step block_type x f = refl
  vsock-step net_type x f = (add_net-SameOthers (as_net x) f).3
  vsock-step pmem_type x f = refl
  vsock-step balloon_type x f = refl
  vsock-step vsock_type x f = refl
  vsock-step rng_type x f = refl
  vsock-step mem_type x f = refl

  pub entropy-step :
      (t : DeviceType) (x : Device) (f : Found d)
      → (add_of d t x f).entropy ≡ assign d f.entropy (of_type d rng_type t (as_entropy x))
  entropy-step block_type x f = refl
  entropy-step net_type x f = (add_net-SameOthers (as_net x) f).4
  entropy-step pmem_type x f = refl
  entropy-step balloon_type x f = refl
  entropy-step vsock_type x f = refl
  entropy-step rng_type x f = refl
  entropy-step mem_type x f = refl

  pub memory_hotplug-step :
      (t : DeviceType) (x : Device) (f : Found d)
      → (add_of d t x f).memory_hotplug
        ≡ assign d f.memory_hotplug (of_type d mem_type t (as_mem x))
  memory_hotplug-step block_type x f = refl
  memory_hotplug-step net_type x f = (add_net-SameOthers (as_net x) f).5
  memory_hotplug-step pmem_type x f = refl
  memory_hotplug-step balloon_type x f = refl
  memory_hotplug-step vsock_type x f = refl
  memory_hotplug-step rng_type x f = refl
  memory_hotplug-step mem_type x f = refl

  net-add : (o : Option Net) (f : Found d) → (add_net d o f).net ≡ push d f.net (net_config_of o)
  net-add none f = refl
  net-add (some n) f = by_space (mmds_ns n) f.mmds_ref
    where
      by_space :
          (o : Option (Mmds × Ipv4)) (m : Option Mmds)
          → (add_mmds d o
              (net_id n)
              (record f { net = f.net ++ (net_config n ∷ []); mmds_ref = m })).net
            ≡ f.net ++ (net_config n ∷ [])
      by_space none m = refl
      by_space (some ns) (some m) = refl
      by_space (some ns) none = refl

  name-add :
      (o : Option Net) (f : Found d)
      → (add_net d o f).net_with_mmds ≡ push d f.net_with_mmds (named_of o)
  name-add none f = refl
  name-add (some n) f = by_space (mmds_ns n) f.mmds_ref
    where
      by_space :
          (o : Option (Mmds × Ipv4)) (m : Option Mmds)
          → (add_mmds d o
              (net_id n)
              (record f { net = f.net ++ (net_config n ∷ []); mmds_ref = m })).net_with_mmds
            ≡ push d f.net_with_mmds (elim o [ none ↦ none | some ns ↦ some (net_id n) ])
      by_space none m = refl
      by_space (some ns) (some m) = refl
      by_space (some ns) none = refl

  abbrev pub space : Found d → Space d
  space f = (f.mmds_ref, f.mmds_ipv4_address)

  space-none : (m : Option Mmds) (a : Option Ipv4) → (m, a) ≡ keep_first d (m, a) none
  space-none none a = refl
  space-none (some m) a = refl

  space-add :
      (o : Option Net) (f : Found d) → space (add_net d o f) ≡ keep_first d (space f) (space_of o)
  space-add none f = space-none f.mmds_ref f.mmds_ipv4_address
  space-add (some n) f = by_space (mmds_ns n) f.mmds_ref
    where
      by_space :
          (o : Option (Mmds × Ipv4)) (m : Option Mmds)
          → space (
              add_mmds d o
                (net_id n)
                (record f { net = f.net ++ (net_config n ∷ []); mmds_ref = m }))
            ≡ keep_first d (m, f.mmds_ipv4_address) o
      by_space none none = refl
      by_space none (some m) = refl
      by_space (some ns) (some m) = refl
      by_space (some ns) none = refl

  pub net-step :
      (t : DeviceType) (x : Device) (f : Found d)
      → (add_of d t x f).net ≡ push d f.net (net_config_of (of_type d net_type t (as_net x)))
  net-step block_type x f = refl
  net-step net_type x f = net-add (as_net x) f
  net-step pmem_type x f = refl
  net-step balloon_type x f = refl
  net-step vsock_type x f = refl
  net-step rng_type x f = refl
  net-step mem_type x f = refl

  pub name-step :
      (t : DeviceType) (x : Device) (f : Found d)
      → (add_of d t x f).net_with_mmds
        ≡ push d f.net_with_mmds (named_of (of_type d net_type t (as_net x)))
  name-step block_type x f = refl
  name-step net_type x f = name-add (as_net x) f
  name-step pmem_type x f = refl
  name-step balloon_type x f = refl
  name-step vsock_type x f = refl
  name-step rng_type x f = refl
  name-step mem_type x f = refl

  pub space-step :
      (t : DeviceType) (x : Device) (f : Found d)
      → space (add_of d t x f) ≡ keep_first d (space f) (space_of (of_type d net_type t (as_net x)))
  space-step block_type x f = space-none f.mmds_ref f.mmds_ipv4_address
  space-step net_type x f = space-add (as_net x) f
  space-step pmem_type x f = space-none f.mmds_ref f.mmds_ipv4_address
  space-step balloon_type x f = space-none f.mmds_ref f.mmds_ipv4_address
  space-step vsock_type x f = space-none f.mmds_ref f.mmds_ipv4_address
  space-step rng_type x f = space-none f.mmds_ref f.mmds_ipv4_address
  space-step mem_type x f = space-none f.mmds_ref f.mmds_ipv4_address
