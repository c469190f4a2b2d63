-- ===== src/Unix/Expiry.antt =====
-- systems/unix/system.go: what `PollOneOff` does with a timeout when a subscription is invalid.
use wasi_go.Base.{
  ℕ, zero, suc, ◌+◌, ◌-◌, ◌≤◌, ◌<◌, ◌==◌, ltb_of_lt, Bool, true, false, ◌≡◌, refl, sym, ◌∙◌, ap,
  subst, if◌then◌else◌, none, some, List, [], ◌∷◌, length, get_elem?, set, pos, Run, ok, arith,
}
use wasi_go.Errno.{esuccess}
use wasi_go.File.{Host}
use wasi_go.Subscription.{Subscription, Event, no_event, clock_event}
use wasi_go.Unix.{PollFd, ready, Kernel, UnixSystem}
use wasi_go.Unix.PollScan.{Scan, marked}
use wasi_go.Unix.Poll.{
  pack, mark_timeout, with_revents, timeout_millis, due_index, or_next, after_poll, look_at_events,
  end_round, poll_loop, poll_for, poll_scanned,
}
use wasi_go.Unix.Packing.{Slots, waiting, Slots-set, collect-Slots}
use wasi_go.Unix.Polling.{length-with_revents}

-- `e` is one of some events.
pub data Has (e : Event) : List Event → Type 0 where
  here : {events : List Event} → Has e (e ∷ events)
  there : {x : Event} {events : List Event} → Has e events → Has e (x ∷ events)

pack-Has :
    (events : List Event) (i : ℕ) (e : Event)
    → get_elem? events i ≡ some e
    → (e.event_type == 0) ≡ false
    → Has (record e { event_type = e.event_type - 1 }) (pack events)
unfolding get_elem? pack
pack-Has [] i e found full = cc
pack-Has (x ∷ events) zero e found full =
    subst (λ (x : Event). Has (record e { event_type = e.event_type - 1 }) (pack (x ∷ events)))
      (sym (some_inj x e found)) (rw full here)
  where
    some_inj : (a b : Event) → some a ≡ some b → a ≡ b
    some_inj a b e = cc
pack-Has (x ∷ events) (suc i) e found full =
    later (x.event_type == 0) (pack-Has events i e found full)
  where
    later :
        (b : Bool)
        → Has (record e { event_type = e.event_type - 1 }) (pack events)
        → Has
            (record e { event_type = e.event_type - 1 })
            (if b then pack events else record x { event_type = x.event_type - 1 } ∷ pack events)
    later true h = h
    later false h = there h

get_elem?-set_same :
    (events : List Event) (i : ℕ) (e : Event)
    → i < length events
    → get_elem? (set events i e) i ≡ some e
unfolding get_elem? set
get_elem?-set_same [] i e lt = absurd (omega arith)
get_elem?-set_same (x ∷ events) zero e lt = refl
get_elem?-set_same (x ∷ events) (suc i) e lt = get_elem?-set_same events i e (omega arith)

-- The event of a clock whose time has come.
abbrev pub expired : Subscription → Event
expired sub = record no_event { user_data = sub.user_data; event_type = clock_event }

module _ {File World : Type 0} (k : Kernel File World) where
  after_poll-expired :
      (subs : List Subscription) (i : ℕ) (sub : Subscription) (events : List Event)
      (pollfds : List PollFd) (w : World)
      → get_elem? subs i ≡ some sub
      → sub.event_type ≡ clock_event
      → Slots subs events
      → 1 + waiting subs events ≤ length pollfds
      → (r : List Event × World) × (after_poll k subs (some i) none events pollfds w ≡ ok r)
        × Has (expired sub) (pack r.0)
  unfolding after_poll mark_timeout due_index
  after_poll-expired subs i sub events pollfds w found clock ss room =
      let (s1, le1, lt) = Slots-set subs events i sub ss found in
      let e1 = set events i (marked sub) in
      let (e2, run, s2, le2, keeps) = collect-Slots subs e1 pollfds 1 s1 (omega arith) in
      (
        (e2, (k.now w).1),
        rw (found, ltb_of_lt lt, run) refl,
        subst
            (λ (t : ℕ).
              Has (record no_event { user_data = sub.user_data; event_type = t }) (pack e2))
            (type_restored clock)
            (pack-Has e2 i (marked sub)
              (keeps i (marked sub) (get_elem?-set_same events i (marked sub) lt) (filled clock))
              (filled clock)),
      )
    where
      type_restored : sub.event_type ≡ clock_event → (marked sub).event_type - 1 ≡ clock_event
      type_restored h = omega arith

      filled : sub.event_type ≡ clock_event → ((marked sub).event_type == 0) ≡ false
      filled h = ground arith

  or_next-Has :
      (e : Event) (packed : List Event) (w : World) (next : Run ((List Event × ℕ) × World))
      → Has e packed
      → or_next k packed w next ≡ ok ((packed, esuccess), w)
  or_next-Has e [] w next h = elim h [ ]
  or_next-Has e (x ∷ packed) w next h = refl

  -- A round without a timeout whose poll does not fail.
  loop-expired :
      (rounds : ℕ) (subs : List Subscription) (i : ℕ) (events : List Event) (pollfds : List PollFd)
      (w : World) (f : ℕ → ℕ) (e : Event) (r : List Event × World)
      → (k.poll pollfds (pos 0) w).0 ≡ ready f
      → k.is_shut (k.poll pollfds (pos 0) w).1 ≡ false
      → after_poll k subs
          (some i)
          none
          events
          (with_revents f 0 pollfds)
          (k.poll pollfds (pos 0) w).1
        ≡ ok r
      → Has e (pack r.0)
      → poll_loop k (suc rounds) subs 0 (some i) none events pollfds w
        ≡ ok ((pack r.0, esuccess), r.1)
  unfolding poll_loop timeout_millis end_round look_at_events
  loop-expired rounds subs i events pollfds w f e r polled runs run has =
      rw (polled, runs, run) (or_next-Has e (pack r.0) r.1 _ has)

module _ {File Dir World : Type 0} (h : Host File Dir World) (k : Kernel File World) where
  poll_for_zero :
      (rounds : ℕ) (subs : List Subscription) (s : UnixSystem File Dir World) (events : List Event)
      (st : Scan World) (i : ℕ) (a : List Event × ℕ) (w : World)
      → st.timeout_event_index ≡ some i
      → poll_loop k rounds subs 0 (some i) none events st.pollfds st.world ≡ ok (a, w)
      → poll_for h k rounds subs s (events, st) 0 ≡ ok (a, record s { world = w })
  unfolding poll_for
  poll_for_zero rounds subs s events st i a w index looped = rw (index, looped) refl

  -- If a subscription has failed in the loop of PollOneOff over the subscriptions, and another is
  -- a clock with the earliest timeout, the events and the array of poll(2) being as that loop
  -- leaves them, then, unless poll(2) fails, is interrupted or the system is shut down, PollOneOff
  -- returns in the first round, and reports the clock without an error, whatever the time is.
  pub poll_scanned-expired :
      (rounds : ℕ) (subs : List Subscription) (s : UnixSystem File Dir World) (events : List Event)
      (st : Scan World) (i : ℕ) (sub : Subscription) (f : ℕ → ℕ)
      → 0 < st.num_events
      → st.timeout_event_index ≡ some i
      → get_elem? subs i ≡ some sub
      → sub.event_type ≡ clock_event
      → Slots subs events
      → 1 + waiting subs events ≤ length st.pollfds
      → (k.poll st.pollfds (pos 0) st.world).0 ≡ ready f
      → k.is_shut (k.poll st.pollfds (pos 0) st.world).1 ≡ false
      → (reported : List Event) × (s' : UnixSystem File Dir World) × (poll_scanned h k
            (suc rounds)
            subs
            s
            (events, st)
          ≡ ok ((reported, esuccess), s'))
        × Has (expired sub) reported
  unfolding poll_scanned
  poll_scanned-expired rounds subs s events st i sub f some_events index found clock ss room polled
        runs =
      let w = (k.poll st.pollfds (pos 0) st.world).1 in
      let pollfds = with_revents f 0 st.pollfds in
      let (r, run, has) =
        after_poll-expired k subs i sub events pollfds w found clock ss
          (omega (arith, length-with_revents f 0 st.pollfds)) in
      let looped =
        loop-expired k rounds subs i events st.pollfds st.world f (expired sub) r polled runs run
          has in
      (
        pack r.0,
        record s { world = r.1 },
        ap
              (λ (b : Bool).
                poll_for h k (suc rounds) subs s (events, st) (if b then 0 else st.timeout))
              (ltb_of_lt some_events)
            ∙ poll_for_zero (suc rounds) subs s events st i (pack r.0, esuccess) r.1 index looped,
        has,
      )
