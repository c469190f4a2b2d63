-- ===== src/Unix/Packing.antt =====
-- systems/unix/system.go: the events of `PollOneOff` against its subscriptions, slot by slot.
use wasi_go.Base.{
  ℕ, zero, suc, ◌+◌, ◌-◌, ◌%◌, ◌^◌, ◌≤◌, ◌<◌, ◌==◌, Bool, true, false, ◌&&◌, ◌||◌, ◌≡◌, ◌⊎◌, inl,
  inr, refl, sym, ◌∙◌, ap, subst, if◌then◌else◌, Option, none, some, List, [], ◌∷◌, length,
  get_elem?, set, get_elem?-within, Bool-cases, ok, ltb, ltb_of_lt, arith,
}
use wasi_go.Subscription.{Subscription, Event, fd_read_event, fd_write_event}
use wasi_go.Unix.{PollFd}
use wasi_go.Unix.PollScan.{marked}
use wasi_go.Unix.Poll.{collect, pack, mark_timeout, cancel}

-- An event that has not come, or one of its subscription, marked.
abbrev pub Slot : Subscription → Event → Type 0
Slot sub e =
    (e.event_type ≡ 0)
    ⊎ ((e.user_data ≡ sub.user_data) × (e.event_type ≡ (sub.event_type + 1) % 2 ^ 8))

pub data Slots : List Subscription → List Event → Type 0 where
  no_slots : Slots [] []
  slot :
      {sub : Subscription} {e : Event} {subs : List Subscription} {events : List Event}
      → Slot sub e
      → Slots subs events
      → Slots (sub ∷ subs) (e ∷ events)

-- Events of different subscriptions, in their order.
pub data Picks : List Subscription → List Event → Type 0 where
  no_picks : Picks [] []
  skip :
      {sub : Subscription} {subs : List Subscription} {events : List Event}
      → Picks subs events
      → Picks (sub ∷ subs) events
  pick :
      {sub : Subscription} {e : Event} {subs : List Subscription} {events : List Event}
      → e.user_data ≡ sub.user_data
      → e.event_type % 2 ^ 8 ≡ sub.event_type % 2 ^ 8
      → Picks subs events
      → Picks (sub ∷ subs) (e ∷ events)

abbrev pub is_fd : Subscription → Bool
is_fd sub = sub.event_type == fd_read_event || sub.event_type == fd_write_event

-- The slots that wait for an entry of the array of poll(2).
abbrev pub waits : Subscription → Event → ℕ
waits sub e = if e.event_type == 0 && is_fd sub then 1 else 0

abbrev pub waiting : List Subscription → List Event → ℕ
waiting [] events = 0
waiting (sub ∷ subs) [] = 0
waiting (sub ∷ subs) (e ∷ events) = waits sub e + waiting subs events

-- The index of a subscription, if there is one.
abbrev pub index_below : Option ℕ → ℕ → Bool
index_below none n = true
index_below (some i) n = ltb i n

pub marked-Slot : (sub : Subscription) → Slot sub (marked sub)
marked-Slot sub = inr (refl, refl)

waits-marked : (sub : Subscription) → waits sub (marked sub) ≡ 0
waits-marked sub = ground arith

waits_le : (sub : Subscription) (e : Event) → waits sub e ≤ 1
waits_le sub e = ground arith

pub pack-Picks :
    (subs : List Subscription) (events : List Event) → Slots subs events → Picks subs (pack events)
unfolding pack
pack-Picks [] [] no_slots = no_picks
pack-Picks [] (e ∷ events) ss = elim ss [ ]
pack-Picks (sub ∷ subs) [] ss = elim ss [ ]
pack-Picks (sub ∷ subs) (e ∷ events) (slot s ss) = elim (Bool-cases (e.event_type == 0)) [
  | inl vacant ↦ rw vacant (skip (pack-Picks subs events ss))
  | inr complete ↦ rw complete (completed complete (pack-Picks subs events ss) s)
]
  where
    completed :
        (e.event_type == 0) ≡ false
        → Picks subs (pack events)
        → Slot sub e
        → Picks (sub ∷ subs) (record e { event_type = e.event_type - 1 } ∷ pack events)
    completed complete ps (inl unmarked) = absurd (ground arith)
    completed complete ps (inr (user, type)) = pick user (ground arith) ps

pub cancel-Picks : (subs : List Subscription) → Picks subs (cancel subs)
cancel-Picks [] = no_picks
cancel-Picks (sub ∷ subs) = pick refl refl (cancel-Picks subs)

pub length-cancel : (subs : List Subscription) → length (cancel subs) ≡ length subs
length-cancel [] = refl
length-cancel (sub ∷ subs) = ap suc (length-cancel subs)

module _ (sub : Subscription) (e : Event) (subs : List Subscription) (events : List Event)
    (pollfds : List PollFd) (j : ℕ) (rest : List Event) where
  -- A slot that is complete, or does not wait for a descriptor.
  collect_skipped :
      (e.event_type == 0 && is_fd sub) ≡ false
      → collect subs events pollfds j ≡ ok rest
      → collect (sub ∷ subs) (e ∷ events) pollfds j ≡ ok (e ∷ rest)
  unfolding collect
  collect_skipped h run = elim (Bool-cases (e.event_type == 0)) [
    | inr complete ↦ rw (complete, run) refl
    | inl vacant ↦ rw (vacant, other (e.event_type == 0) (is_fd sub) vacant h, run) refl
  ]
    where
      other : (a b : Bool) → a ≡ true → (a && b) ≡ false → b ≡ false
      other a b h h' = ground arith

  collect_polled :
      (pf : PollFd)
      → (e.event_type == 0) ≡ true
      → is_fd sub ≡ true
      → get_elem? pollfds j ≡ some pf
      → collect subs events pollfds (j + 1) ≡ ok rest
      → collect (sub ∷ subs) (e ∷ events) pollfds j
        ≡ ok ((if pf.revents == 0 then e else marked sub) ∷ rest)
  unfolding collect
  collect_polled pf vacant polled found run = rw (vacant, polled, found, run) refl

-- The events that are complete stay as they are.
abbrev pub Keeps : List Event → List Event → Type 0
Keeps events events' =
    (i : ℕ) (e : Event)
    → get_elem? events i ≡ some e
    → (e.event_type == 0) ≡ false
    → get_elem? events' i ≡ some e

Keeps-cons :
    (x y : Event) (events events' : List Event)
    → ((x.event_type == 0) ≡ false → y ≡ x)
    → Keeps events events'
    → Keeps (x ∷ events) (y ∷ events')
unfolding get_elem?
Keeps-cons x y events events' same keeps zero e found full =
    ap some
      (same (subst (λ (e : Event). (e.event_type == 0) ≡ false) (sym (some_inj x e found)) full))
    ∙ found
  where
    some_inj : (a b : Event) → some a ≡ some b → a ≡ b
    some_inj a b e = cc
Keeps-cons x y events events' same keeps (suc i) e found full = keeps i e found full

pub collect-Slots :
    (subs : List Subscription) (events : List Event) (pollfds : List PollFd) (j : ℕ)
    → Slots subs events
    → j + waiting subs events ≤ length pollfds
    → (events' : List Event) × (collect subs events pollfds j ≡ ok events')
      × Slots subs events'
      × (waiting subs events' ≤ waiting subs events)
      × Keeps events events'
unfolding collect
collect-Slots [] [] pollfds j no_slots h =
    ([], refl, no_slots, omega arith, λ i e found full. found)
collect-Slots [] (e ∷ events) pollfds j ss h = elim ss [ ]
collect-Slots (sub ∷ subs) [] pollfds j ss h = elim ss [ ]
collect-Slots (sub ∷ subs) (e ∷ events) pollfds j (slot s ss) h =
    elim (Bool-cases (e.event_type == 0 && is_fd sub)) [
      | inr other ↦
          let (rest, run, rs, le, keeps) = collect-Slots subs events pollfds j ss (omega arith) in
          (
            e ∷ rest,
            collect_skipped sub e subs events pollfds j rest other run,
            slot s rs,
            omega arith,
            Keeps-cons e e events rest (λ full. refl) keeps,
          )
      | inl polled ↦
          let (pf, found) = get_elem?-within pollfds j (ground arith) in
          let (rest, run, rs, le, keeps) =
            collect-Slots subs events pollfds (j + 1) ss (ground arith) in
          (
            (if pf.revents == 0 then e else marked sub) ∷ rest,
            collect_polled sub e subs events pollfds j rest pf
                (first (e.event_type == 0) (is_fd sub) polled)
                (second (e.event_type == 0) (is_fd sub) polled) found run,
            slot (kept (pf.revents == 0)) rs,
            least (waits_le sub (if pf.revents == 0 then e else marked sub)) polled le,
            Keeps-cons e _ events rest
                (λ full. vacant (first (e.event_type == 0) (is_fd sub) polled) full) keeps,
          )
    ]
  where
    vacant : {x : Event} → (e.event_type == 0) ≡ true → (e.event_type == 0) ≡ false → x ≡ e
    vacant h h' = cc

    kept : (b : Bool) → Slot sub (if b then e else marked sub)
    kept true = s
    kept false = marked-Slot sub

    first : (a b : Bool) → (a && b) ≡ true → a ≡ true
    first a b h = ground arith

    second : (a b : Bool) → (a && b) ≡ true → b ≡ true
    second a b h = ground arith

    least :
        {w n m : ℕ}
        → w ≤ 1
        → (e.event_type == 0 && is_fd sub) ≡ true
        → n ≤ m
        → w + n ≤ waits sub e + m
    least le polled le' = ground arith

pub Slots-set :
    (subs : List Subscription) (events : List Event) (i : ℕ) (sub : Subscription)
    → Slots subs events
    → get_elem? subs i ≡ some sub
    → Slots subs (set events i (marked sub))
      × (waiting subs (set events i (marked sub)) ≤ waiting subs events)
      × (i < length events)
unfolding set get_elem?
Slots-set [] [] i sub no_slots e = cc
Slots-set [] (x ∷ events) i sub ss e = elim ss [ ]
Slots-set (a ∷ subs) [] i sub ss e = elim ss [ ]
Slots-set (a ∷ subs) (x ∷ events) zero sub (slot s ss) e = first_slot (some_inj a sub e)
  where
    some_inj : (a b : Subscription) → some a ≡ some b → a ≡ b
    some_inj a b e = cc

    least : (n m : ℕ) → n ≡ 0 → n + waiting subs events ≤ m + waiting subs events
    least n m h = omega arith

    first_slot :
        a ≡ sub
        → Slots (a ∷ subs) (marked sub ∷ events)
          × (waits a (marked sub) + waiting subs events ≤ waits a x + waiting subs events)
          × (0 < suc (length events))
    first_slot same = (
      slot (subst (λ (b : Subscription). Slot a (marked b)) same (marked-Slot a)) ss,
      least (waits a (marked sub)) (waits a x)
          (subst (λ (b : Subscription). waits a (marked b) ≡ 0) same (waits-marked a)),
      omega arith,
    )
Slots-set (a ∷ subs) (x ∷ events) (suc i) sub (slot s ss) e =
    let (rs, le, lt) = Slots-set subs events i sub ss e in (slot s rs, omega arith, omega arith)

pub mark_timeout-Slots :
    (index : Option ℕ) (subs : List Subscription) (events : List Event)
    → Slots subs events
    → index_below index (length subs) ≡ true
    → (events' : List Event) × (mark_timeout index subs events ≡ ok events')
      × Slots subs events'
      × (waiting subs events' ≤ waiting subs events)
unfolding mark_timeout
mark_timeout-Slots none subs events ss h = (events, refl, ss, omega arith)
mark_timeout-Slots (some i) subs events ss h =
    let (sub, found) = get_elem?-within subs i (ground arith) in
    let (rs, le, lt) = Slots-set subs events i sub ss found in
    (set events i (marked sub), rw (found, ltb_of_lt lt) refl, rs, le)
