-- ===== src/Vmm/Config/Expected.antt =====
-- `full_config` is its description, field by field.
use herm_os_test.Prelude.{
  ◌≡◌, ◌∙◌, refl, ap, List, [], ◌∷◌, Option, none, some, Bool-cases, inl, inr, Run, returned,
  panicked, bind_run, if◌then◌else◌,
}
use herm_os_test.Vmm.Config.{
  block_type, pmem_type, balloon_type, vsock_type, rng_type, mem_type, Devices, Found,
  nothing_found, collect, MmdsConfig, VmmConfig, config_with, mmds_config_of, full_config,
}
use herm_os_test.Vmm.Config.Collected.{
  of_type, select, last_of, collect-select, collect-last_of, head_space, collect-head_space,
}
use herm_os_test.Vmm.Config.Fields.{
  net_of, net_config_of, named_of, space_of, space, block-step, pmem-step, balloon-step, vsock-step,
  entropy-step, memory_hotplug-step, net-step, name-step, space-step,
}

module _ (d : Devices) where
  open d use {
    Device, Mmds, Ipv4, device_type, as_block, as_pmem, as_balloon, as_vsock, as_entropy, as_mem,
  }

  -- each variable by itself: the lists in the order of the devices, the last balloon, vsock, entropy and
  -- memory device, and the MMDS of the first interface that has one
  abbrev described_with : List Device → List (Mmds × Ipv4) → Found d
  described_with xs spaces = record {
    block = select d (λ x. of_type d block_type (device_type x) (as_block x)) xs;
    net = select d (λ x. net_config_of d (net_of d x)) xs;
    net_with_mmds = select d (λ x. named_of d (net_of d x)) xs;
    pmem = select d (λ x. of_type d pmem_type (device_type x) (as_pmem x)) xs;
    balloon =
        last_of d none (select d (λ x. of_type d balloon_type (device_type x) (as_balloon x)) xs);
    vsock = last_of d none (select d (λ x. of_type d vsock_type (device_type x) (as_vsock x)) xs);
    entropy = last_of d none (select d (λ x. of_type d rng_type (device_type x) (as_entropy x)) xs);
    memory_hotplug =
        last_of d none (select d (λ x. of_type d mem_type (device_type x) (as_mem x)) xs);
    mmds_ipv4_address = (head_space d spaces).1;
    mmds_ref = (head_space d spaces).0;
  }

  abbrev spaces_of : List Device → List (Mmds × Ipv4)
  spaces_of xs = select d (λ x. space_of d (net_of d x)) xs

  abbrev described : List Device → Found d
  described xs = described_with xs (spaces_of xs)

  found_eq :
      (f g : Found d)
      → f.block ≡ g.block
      → f.net ≡ g.net
      → f.net_with_mmds ≡ g.net_with_mmds
      → f.pmem ≡ g.pmem
      → f.balloon ≡ g.balloon
      → f.vsock ≡ g.vsock
      → f.entropy ≡ g.entropy
      → f.memory_hotplug ≡ g.memory_hotplug
      → f.mmds_ipv4_address ≡ g.mmds_ipv4_address
      → f.mmds_ref ≡ g.mmds_ref
      → f ≡ g
  found_eq f g a b c e i j k l m n = λ z. record {
    block = a z;
    net = b z;
    net_with_mmds = c z;
    pmem = e z;
    balloon = i z;
    vsock = j z;
    entropy = k z;
    memory_hotplug = l z;
    mmds_ipv4_address = m z;
    mmds_ref = n z;
  }

  collect-described : (xs : List Device) → collect d xs (nothing_found d) ≡ described xs
  collect-described xs =
      let f = nothing_found d in
      let spaces =
        collect-head_space d (space d) (λ x. space_of d (net_of d x))
          (λ x g. space-step d (device_type x) x g) xs f refl in
      found_eq (collect d xs f) (described xs)
        (collect-select d (λ g. g.block) (λ x. of_type d block_type (device_type x) (as_block x))
          (λ x g. block-step d (device_type x) x g) xs f)
        (collect-select d (λ g. g.net) (λ x. net_config_of d (net_of d x))
          (λ x g. net-step d (device_type x) x g) xs f)
        (collect-select d (λ g. g.net_with_mmds) (λ x. named_of d (net_of d x))
          (λ x g. name-step d (device_type x) x g) xs f)
        (collect-select d (λ g. g.pmem) (λ x. of_type d pmem_type (device_type x) (as_pmem x))
          (λ x g. pmem-step d (device_type x) x g) xs f)
        (collect-last_of d (λ g. g.balloon)
          (λ x. of_type d balloon_type (device_type x) (as_balloon x))
          (λ x g. balloon-step d (device_type x) x g) xs f)
        (collect-last_of d (λ g. g.vsock) (λ x. of_type d vsock_type (device_type x) (as_vsock x))
          (λ x g. vsock-step d (device_type x) x g) xs f)
        (collect-last_of d (λ g. g.entropy) (λ x. of_type d rng_type (device_type x) (as_entropy x))
          (λ x g. entropy-step d (device_type x) x g) xs f)
        (collect-last_of d (λ g. g.memory_hotplug)
          (λ x. of_type d mem_type (device_type x) (as_mem x))
          (λ x g. memory_hotplug-step d (device_type x) x g) xs f)
        (ap (λ (p : Option Mmds × Option Ipv4). p.1) spaces)
        (ap (λ (p : Option Mmds × Option Ipv4). p.0) spaces)

  -- the configuration, each field read off the devices
  abbrev pub config_of : List Device → Option (MmdsConfig d) → VmmConfig d
  config_of xs mmds = record {
    balloon =
        last_of d none (select d (λ x. of_type d balloon_type (device_type x) (as_balloon x)) xs);
    drives = select d (λ x. of_type d block_type (device_type x) (as_block x)) xs;
    mmds_config = mmds;
    network_interfaces = select d (λ x. net_config_of d (net_of d x)) xs;
    vsock = last_of d none (select d (λ x. of_type d vsock_type (device_type x) (as_vsock x)) xs);
    entropy = last_of d none (select d (λ x. of_type d rng_type (device_type x) (as_entropy x)) xs);
    pmem_devices = select d (λ x. of_type d pmem_type (device_type x) (as_pmem x)) xs;
    memory_hotplug =
        last_of d none (select d (λ x. of_type d mem_type (device_type x) (as_mem x)) xs);
  }

  -- the answer, by the MMDS with their addresses that the interfaces have
  abbrev pub answer_with : List Device → List (Mmds × Ipv4) → Run (VmmConfig d)
  answer_with xs [] = returned (config_of xs none)
  answer_with xs ((m, address) ∷ more) =
      if d.lock m
      then returned (
          config_of xs (
            some (record {
              version_of = d.version m;
              ipv4_address = some address;
              network_interfaces = select d (λ x. named_of d (net_of d x)) xs;
              imds = d.imds_compat m;
            })))
      else panicked

  answered :
      (xs : List Device) (spaces : List (Mmds × Ipv4))
      → bind_run
          (mmds_config_of d (described_with xs spaces) (described_with xs spaces).mmds_ref)
          (λ mmds. returned (config_with d (described_with xs spaces) mmds))
        ≡ answer_with xs spaces
  answered xs [] = refl
  answered xs ((m, address) ∷ more) = elim (Bool-cases (d.lock m)) [
    | inl free ↦ rw free refl
    | inr poisoned ↦ rw poisoned refl
  ]

  -- `full_config` gives the drives, the network interfaces and the pmem devices in the order of the
  -- devices, the last balloon, vsock, entropy and memory device, and, if some network interface has an
  -- MMDS, the version of the first such MMDS, with the address of that interface and the names of all
  -- interfaces that have one, or panics when the lock of that MMDS is poisoned. If no interface has one,
  -- there is no MMDS configuration.
  pub full_config-described :
      (xs : List Device)
      → full_config d xs ≡ answer_with xs (select d (λ x. space_of d (net_of d x)) xs)
  unfolding full_config
  full_config-described xs =
      ap
        (λ (f : Found d).
          bind_run (mmds_config_of d f f.mmds_ref) λ mmds. returned (config_with d f mmds))
        (collect-described xs)
      ∙ answered xs (spaces_of xs)
