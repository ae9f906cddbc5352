-- ===== src/Vmm/Config/Collected.antt =====
-- What the loop of `full_config` collects in each of its variables.
use mathlib.Core.List.{append_assoc, append-nil}
use herm_os_test.Prelude.{◌≡◌, refl, sym, ap, ◌∙◌, List, [], ◌∷◌, ◌++◌, Option, none, some}
use herm_os_test.Vmm.Config.{
  DeviceType, block_type, net_type, pmem_type, balloon_type, vsock_type, rng_type, mem_type,
  Devices, Found, push, assign, add_of, collect,
}

module _ (d : Devices) where
  open d use {
    Device, Net, Mmds, InterfaceId, Ipv4, BlockConfig, NetConfig, PmemConfig, device_type, as_block,
    as_net, as_pmem, as_balloon, as_vsock, as_entropy, as_mem, net_config, net_id, mmds_ns, lock,
    version, imds_compat,
  }

  -- what a device of one type is read as
  abbrev pub of_type : {A : Type 0} → DeviceType → DeviceType → Option A → Option A
  of_type block_type block_type o = o
  of_type net_type net_type o = o
  of_type pmem_type pmem_type o = o
  of_type balloon_type balloon_type o = o
  of_type vsock_type vsock_type o = o
  of_type rng_type rng_type o = o
  of_type mem_type mem_type o = o
  of_type _ _ o = none

  abbrev listed : {A : Type 0} → Option A → List A
  listed none = []
  listed (some x) = x ∷ []

  -- the configurations that `read` finds, in the order of the devices
  unfoldable pub select : {A : Type 0} → (Device → Option A) → List Device → List A
  select read [] = []
  select read (x ∷ xs) = listed (read x) ++ select read xs

  -- the last one, if there is one
  unfoldable pub last_of : {A : Type 0} → Option A → List A → Option A
  last_of old [] = old
  last_of old (x ∷ xs) = last_of (some x) xs

  push-append : {A : Type 0} (xs : List A) (o : Option A) → push d xs o ≡ xs ++ listed o
  push-append xs none = sym (append-nil xs)
  push-append xs (some x) = refl

  assign-last_of :
      {A : Type 0} (old : Option A) (o : Option A) (xs : List A)
      → last_of (assign d old o) xs ≡ last_of old (listed o ++ xs)
  unfolding last_of
  assign-last_of old none xs = refl
  assign-last_of old (some x) xs = refl

  -- a list of the loop that grows by what each device is read as
  pub collect-select :
      {A : Type 0} (get : Found d → List A) (read : Device → Option A)
      → ((x : Device) (f : Found d) → get (add_of d (device_type x) x f) ≡ push d (get f) (read x))
      → (xs : List Device) (f : Found d) → get (collect d xs f) ≡ get f ++ select read xs
  unfolding collect select
  collect-select get read step [] f = sym (append-nil (get f))
  collect-select get read step (x ∷ xs) f =
      collect-select get read step xs (add_of d (device_type x) x f)
      ∙ ap (λ l. l ++ select read xs) (step x f ∙ push-append (get f) (read x))
      ∙ append_assoc (get f) (listed (read x)) (select read xs)

  -- a variable of the loop that the last device of its type sets
  pub collect-last_of :
      {A : Type 0} (get : Found d → Option A) (read : Device → Option A)
      → ((x : Device) (f : Found d)
          → get (add_of d (device_type x) x f) ≡ assign d (get f) (read x))
      → (xs : List Device) (f : Found d) → get (collect d xs f) ≡ last_of (get f) (select read xs)
  unfolding collect select last_of
  collect-last_of get read step [] f = refl
  collect-last_of get read step (x ∷ xs) f =
      collect-last_of get read step xs (add_of d (device_type x) x f)
      ∙ ap (λ o. last_of o (select read xs)) (step x f)
      ∙ assign-last_of (get f) (read x) (select read xs)

  -- the MMDS and its address: the first one stays
  abbrev pub Space : Type 0
  Space = Option Mmds × Option Ipv4

  abbrev pub keep_first : Space → Option (Mmds × Ipv4) → Space
  keep_first (some m, a) o = (some m, a)
  keep_first (none, a) none = (none, a)
  keep_first (none, a) (some ns) = (some ns.0, some ns.1)

  first_from : Space → List (Mmds × Ipv4) → Space
  first_from p [] = p
  first_from p (ns ∷ xs) = first_from (keep_first p (some ns)) xs

  keep_none : (m : Option Mmds) (a : Option Ipv4) → keep_first (m, a) none ≡ (m, a)
  keep_none none a = refl
  keep_none (some m) a = refl

  first_from-push :
      (p : Space) (o : Option (Mmds × Ipv4)) (xs : List (Mmds × Ipv4))
      → first_from (keep_first p o) xs ≡ first_from p (listed o ++ xs)
  unfolding first_from
  first_from-push p none xs = ap (λ q. first_from q xs) (keep_none p.0 p.1)
  first_from-push p (some ns) xs = refl

  collect-first_from :
      (get : Found d → Space) (read : Device → Option (Mmds × Ipv4))
      → ((x : Device) (f : Found d)
          → get (add_of d (device_type x) x f) ≡ keep_first (get f) (read x))
      → (xs : List Device) (f : Found d)
      → get (collect d xs f) ≡ first_from (get f) (select read xs)
  unfolding collect select first_from
  collect-first_from get read step [] f = refl
  collect-first_from get read step (x ∷ xs) f =
      collect-first_from get read step xs (add_of d (device_type x) x f)
      ∙ ap (λ o. first_from o (select read xs)) (step x f)
      ∙ first_from-push (get f) (read x) (select read xs)

  first_from-some :
      (m : Mmds) (a : Option Ipv4) (xs : List (Mmds × Ipv4))
      → first_from (some m, a) xs ≡ (some m, a)
  unfolding first_from
  first_from-some m a [] = refl
  first_from-some m a (ns ∷ xs) = first_from-some m a xs

  -- the first of a list, as both variables have it
  abbrev pub head_space : List (Mmds × Ipv4) → Space
  head_space [] = (none, none)
  head_space (ns ∷ xs) = (some ns.0, some ns.1)

  -- From variables that are not set, the loop keeps the first that `read` finds.
  pub collect-head_space :
      (get : Found d → Space) (read : Device → Option (Mmds × Ipv4))
      → ((x : Device) (f : Found d)
          → get (add_of d (device_type x) x f) ≡ keep_first (get f) (read x))
      → (xs : List Device) (f : Found d) → get f ≡ (none, none)
      → get (collect d xs f) ≡ head_space (select read xs)
  unfolding first_from
  collect-head_space get read step xs f unset =
      collect-first_from get read step xs f
      ∙ ap (λ o. first_from o (select read xs)) unset
      ∙ from_none (select read xs)
    where
      from_none : (l : List (Mmds × Ipv4)) → first_from (none, none) l ≡ head_space l
      from_none [] = refl
      from_none (ns ∷ l) = first_from-some ns.0 (some ns.1) l
