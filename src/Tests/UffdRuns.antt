-- ===== src/Tests/UffdRuns.antt =====
-- Runs of the page fault handlers.
use herm_os_test.Prelude.{
  ℕ, ◌+◌, ◌-◌, ◌/◌, ◌*◌, ◌≤◌, ◌<◌, ◌≡◌, refl, ◌⊎◌, Bool, true, false, List, [], ◌∷◌, Option, none,
  some, Outcome, ok, arith, Run, returned, panicked, ◌++◌, sym, ap, returned-injective, ltb, false,
}
use mathlib.Core.Path.{subst}
use mathlib.Core.List.{Memᴰ, append-nil}
use herm_os_test.Uffd.Region.{GuestRegionUffdMapping, UffdHandler, page_base, file_offset_for_addr}
use herm_os_test.Uffd.Region.Lookup
use herm_os_test.Uffd.Region.Lookup.{Within, file_offset_for_addr_lem}
use herm_os_test.Uffd.Dispatch.{
  Event, pagefault, remove, other_event, Handler, Progress, handle_event, handle_all, read_all,
  round, dispatch,
}
use herm_os_test.Uffd.Dispatch.Totals
use herm_os_test.Uffd.Dispatch.Totals.{EventLog, count, is_fault, dispatch-copied}
use herm_os_test.Uffd.Dispatch.Quiet.{QuietLaws, dispatch_quiet}

-- two regions with a hole between them
abbrev low_memory : GuestRegionUffdMapping
low_memory = record { base_host_virt_addr = 65536; size = 8192; offset = 0; page_size = 4096 }

abbrev high_memory : GuestRegionUffdMapping
high_memory = record { base_host_virt_addr = 131072; size = 8192; offset = 8192; page_size = 4096 }

abbrev two_regions : UffdHandler
two_regions = record {
  mem_regions = low_memory ∷ high_memory ∷ [];
  page_size = 4096;
  backing_buffer = 0;
}

file_offset_for_addr_lem_example :
    ((r : GuestRegionUffdMapping) × (dst : ℕ) × Memᴰ r (low_memory ∷ high_memory ∷ [])
      × Within r dst
      × (dst ≤ 135173)
      × (135173 < dst + 4096)
      × (dst ≡ 135173 / 4096 * 4096)
      × (file_offset_for_addr two_regions 135173
          ≡ returned (dst, r.offset + (dst - r.base_host_virt_addr))))
    ⊎ (Lookup.All (λ r. ¬ Within r (page_base 4096 135173)) (low_memory ∷ high_memory ∷ [])
        × (file_offset_for_addr two_regions 135173 ≡ panicked))
file_offset_for_addr_lem_example =
    file_offset_for_addr_lem two_regions 135173 refl (omega arith)
      ((omega arith, omega arith), ((omega arith, omega arith), tt))

-- A descriptor with its unread events, and what it gave and what was carried out. While an event is
-- unread, copies are refused.
pub record Inbox : Type 0 where
  pub unread : List Event
  pub given : List Event
  pub done : List Event

abbrev read_next : List Event → Inbox → Outcome ℕ (Option Event) × Inbox
read_next [] s = (ok none, s)
read_next (e ∷ es) s = (ok (some e), record s { unread = es; given = s.given ++ (e ∷ []) })

abbrev serve_next : List Event → ℕ → Inbox → Run (Bool × Inbox)
serve_next [] addr s = returned (true, record s { done = s.done ++ (pagefault addr ∷ []) })
serve_next (e ∷ es) addr s = returned (false, s)

abbrev listed : Handler Inbox ℕ
listed = record {
  read_event = λ s. read_next s.unread s;
  serve = λ addr s. serve_next s.unread addr s;
  unregister = λ start end s. returned (record s { done = s.done ++ (remove start end ∷ []) });
}

-- one fault was put off, and two events wait
abbrev waiting : Progress Inbox
waiting = record {
  deferred = pagefault 65536 ∷ [];
  copied_pages = 5;
  state = record { unread = remove 65536 69632 ∷ pagefault 131072 ∷ []; given = []; done = [] };
}

abbrev after_burst : Progress Inbox
after_burst = record {
  deferred = [];
  copied_pages = 7;
  state = record {
    unread = [];
    given = remove 65536 69632 ∷ pagefault 131072 ∷ [];
    done = pagefault 65536 ∷ remove 65536 69632 ∷ pagefault 131072 ∷ [];
  };
}

dispatches_burst : dispatch listed 1 3 waiting ≡ returned after_burst
unfolding dispatch round read_all handle_all handle_event
dispatches_burst = refl

pub given-read :
    (es : List Event) (s : Inbox)
    → (read_next es s).1.given ≡ s.given ++ Totals.given (read_next es s).0
given-read [] s = sym (append-nil s.given)
given-read (e ∷ es) s = refl

pub done-read : (es : List Event) (s : Inbox) → (read_next es s).1.done ≡ s.done
done-read [] s = refl
done-read (e ∷ es) s = refl

pub log-serve_lem :
    (es : List Event) (addr : ℕ) (s : Inbox) (r : Bool × Inbox)
    → serve_next es addr s ≡ returned r
    → (r.1.given ≡ s.given) × (r.1.done ≡ s.done ++ Totals.done_if r.0 (pagefault addr))
log-serve_lem [] addr s r e =
    subst
      (λ (r : Bool × Inbox).
        (r.1.given ≡ s.given) × (r.1.done ≡ s.done ++ Totals.done_if r.0 (pagefault addr)))
      (returned-injective e) (refl, refl)
log-serve_lem (x ∷ es) addr s r e =
    subst
      (λ (r : Bool × Inbox).
        (r.1.given ≡ s.given) × (r.1.done ≡ s.done ++ Totals.done_if r.0 (pagefault addr)))
      (returned-injective e) (refl, sym (append-nil s.done))

abbrev listed_log : EventLog listed
listed_log = record {
  arrived = λ (s : Inbox). s.given;
  handled = λ (s : Inbox). s.done;
  arrived-read = λ (s : Inbox). given-read s.unread s;
  handled-read = λ (s : Inbox). done-read s.unread s;
  log-serve = λ addr (s : Inbox) r e. log-serve_lem s.unread addr s r e;
  log-unregister = λ start end (s : Inbox) t e.
      subst (λ (t : Inbox). (t.given ≡ s.given) × (t.done ≡ s.done ++ (remove start end ∷ [])))
        (returned-injective e) (refl, refl);
}

-- the events of the first page
abbrev is_low : Event → Bool
is_low (pagefault addr) = ltb addr 69632
is_low (remove start end) = ltb start 69632
is_low other_event = false

dispatch-copied_example :
    (after_burst.deferred ≡ [])
    × (count is_low after_burst.state.done + 0 ≡ 0 + 1 + count is_low after_burst.state.given)
    × (7 + 0 ≡ 5 + count is_fault after_burst.state.done)
dispatch-copied_example =
    dispatch-copied listed listed_log 1 3 waiting after_burst is_low dispatches_burst

abbrev IsServed : Event → Type 0
IsServed (pagefault addr) = Unit {0}
IsServed (remove start end) = Unit {0}
IsServed other_event = ⊥

pub read_none_lem :
    (s : Inbox)
    → s.unread ≡ []
    → ((read_next s.unread s).0 ≡ ok none) × ((read_next s.unread s).1.unread ≡ [])
read_none_lem s e = unread_none s.unread e
  where
    unread_none :
        (es : List Event)
        → es ≡ []
        → ((read_next es s).0 ≡ ok none) × ((read_next es s).1.unread ≡ [])
    unread_none [] same = (refl, e)
    unread_none (x ∷ es) same = absurd (ground (arith, same))

pub read_some_lem :
    (s : Inbox) (x : Event) (es : List Event)
    → s.unread ≡ x ∷ es
    → ((read_next s.unread s).0 ≡ ok (some x)) × ((read_next s.unread s).1.unread ≡ es)
read_some_lem s x es e = rw e (refl, refl)

pub serve_lem :
    (addr : ℕ) (s : Inbox)
    → s.unread ≡ []
    → (t : Inbox) × (serve_next s.unread addr s ≡ returned (true, t)) × (t.unread ≡ [])
serve_lem addr s e =
    (record s { done = s.done ++ (pagefault addr ∷ []) }, ap (λ es. serve_next es addr s) e, e)

abbrev listed_laws : QuietLaws listed
listed_laws = record {
  unread = λ (s : Inbox). s.unread;
  Known = IsServed;
  read_none = read_none_lem;
  read_some = read_some_lem;
  serve_known = λ addr s e known. serve_lem addr s e;
  unregister_known = λ start end (s : Inbox) e known.
      (record s { done = s.done ++ (remove start end ∷ []) }, refl, e);
  other_unknown = λ known. known;
}

dispatch_quiet_example :
    (q : Progress Inbox) × (dispatch listed 1 3 waiting ≡ returned q)
    × (q.deferred ≡ [])
    × (q.state.done ≡ pagefault 65536 ∷ remove 65536 69632 ∷ pagefault 131072 ∷ [])
    × (q.copied_pages ≡ 7)
    × (q.state.unread ≡ [])
dispatch_quiet_example =
    dispatch_quiet listed listed_log listed_laws 0 3 waiting (omega arith) (tt, tt) (tt, (tt, tt))
