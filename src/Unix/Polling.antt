-- ===== src/Unix/Polling.antt =====
-- systems/unix/system.go: what `PollOneOff` returns.
use wasi_go.Base.{
  ℕ, zero, suc, ◌+◌, ◌≤◌, ◌==◌, ltb, true, ◌||◌, ◌≡◌, ◌⊎◌, inl, inr, refl, sym, ap, subst, Option,
  none, some, List, [], ◌∷◌, length, ℤ, Run, ok, unfinished, ◌>>=◌, Bool-cases, Option-cases, arith,
}
use wasi_go.Errno.{esuccess, einval}
use wasi_go.Errno.Syscall.{GoError, make_errno}
use wasi_go.File.{Host}
use wasi_go.FileTable.Lookups.{IsValid}
use wasi_go.Subscription.{Subscription, Event}
use wasi_go.Unix.{PollFd, Polled, failed, interrupted, ready, Kernel, UnixSystem, init}
use wasi_go.Unix.PollScan.{Scan, first_scan}
use wasi_go.Unix.Poll.{
  pack, cancel, with_revents, polled_fds, is_due, timeout_millis, due_index, or_next, after_poll,
  look_at_events, end_round, poll_loop, poll_for, poll_scanned, poll_from, poll_one_off,
}
use wasi_go.Unix.Packing.{
  Slots, Picks, waiting, index_below, pack-Picks, cancel-Picks, length-cancel, collect-Slots,
  mark_timeout-Slots,
}
use wasi_go.Unix.Scanning.{Panics, make_errno-Ends, ScansAll, scan-ends}

-- An answer: no event, with an error number, or at least one event and ESUCCESS. The events are of
-- different subscriptions, in their order.
abbrev pub Answers : List Subscription → List Event × ℕ → Type 0
Answers subs r = (r.0 ≡ []) ⊎ ((r.1 ≡ esuccess) × (1 ≤ length r.0) × Picks subs r.0)

pub length-with_revents :
    (f : ℕ → ℕ) (i : ℕ) (pfs : List PollFd) → length (with_revents f i pfs) ≡ length pfs
unfolding with_revents
length-with_revents f i [] = refl
length-with_revents f i (pf ∷ pfs) = ap suc (length-with_revents f (i + 1) pfs)

length-polled_fds : (p : Polled) (pfs : List PollFd) → length (polled_fds p pfs) ≡ length pfs
length-polled_fds (failed err) pfs = refl
length-polled_fds interrupted pfs = refl
length-polled_fds (ready f) pfs = length-with_revents f 0 pfs

module _ {File World : Type 0} (k : Kernel File World) where
  module _ (subs : List Subscription) (timeout : ℕ) (index deadline : Option ℕ)
      (below : index_below index (length subs) ≡ true) (some_subs : 1 ≤ length subs) where
    due_index-below :
        (index : Option ℕ) (w : World)
        → index_below index (length subs) ≡ true
        → index_below (due_index k index deadline w).0 (length subs) ≡ true
    unfolding due_index
    due_index-below none w b = refl
    due_index-below (some i) w b = elim (Bool-cases (is_due deadline (k.now w).0)) [
      | inl due ↦ rw due b
      | inr early ↦ rw early refl
    ]

    after_poll-Slots :
        (events : List Event) (pollfds : List PollFd) (w : World)
        → Slots subs events
        → 1 + waiting subs events ≤ length pollfds
        → (r : List Event × World) × (after_poll k subs index deadline events pollfds w ≡ ok r)
          × Slots subs r.0
          × (waiting subs r.0 ≤ waiting subs events)
    unfolding after_poll
    after_poll-Slots events pollfds w ss room =
        let due = due_index k index deadline w in
        let (e1, run, s1, le1) =
          mark_timeout-Slots due.0 subs events ss (due_index-below index w below) in
        let (e2, run', s2, le2, _) = collect-Slots subs e1 pollfds 1 s1 (omega arith) in
        ((e2, due.1), rw (run, run') refl, s2, omega arith)

    -- The ways in which the loop ends: its rounds are used up, an error is unknown to `MakeErrno`, or
    -- it answers.
    abbrev LoopEnds : Run ((List Event × ℕ) × World) → Type 0
    LoopEnds m =
        (m ≡ unfinished)
        ⊎ (Panics m ⊎ ((r : (List Event × ℕ) × World) × (m ≡ ok r) × Answers subs r.0))

    module _ (next : List Event → World → Run ((List Event × ℕ) × World)) (events : List Event)
        (pollfds : List PollFd) (w : World) (ss : Slots subs events)
        (room : 1 + waiting subs events ≤ length pollfds)
        (next_ends : (events' : List Event) (w' : World)
          → Slots subs events'
          → 1 + waiting subs events' ≤ length pollfds
          → LoopEnds (next events' w')) where
      packed_ends :
          (events' : List Event) (w' : World)
          → Slots subs events'
          → 1 + waiting subs events' ≤ length pollfds
          → (packed : List Event) → Picks subs packed
          → LoopEnds (or_next k packed w' (next events' w'))
      packed_ends events' w' ss' room' [] ps = next_ends events' w' ss' room'
      packed_ends events' w' ss' room' (e ∷ packed) ps =
          inr (inr (((e ∷ packed, esuccess), w'), refl, inr (refl, omega arith, ps)))

      look_at_events-ends : LoopEnds (look_at_events k subs index deadline events pollfds w next)
      unfolding look_at_events
      look_at_events-ends = elim (Bool-cases (k.is_shut w)) [
        | inl shut ↦ inr (
            inr (
              ((cancel subs, esuccess), w),
              rw shut refl,
              inr (refl, omega (arith, length-cancel subs), cancel-Picks subs),
            ))
        | inr runs ↦
            let (r, run, ss', le) = after_poll-Slots events pollfds w ss room in
            subst LoopEnds (sym (rw (runs, run) refl))
              (packed_ends r.0 r.1 ss' (omega arith) (pack r.0) (pack-Picks subs r.0 ss'))
      ]

      end_round-ends :
          (p : Polled) → LoopEnds (end_round k p subs index deadline events pollfds w next)
      unfolding end_round
      end_round-ends (failed err) = elim (make_errno-Ends err) [
        | inl unknown ↦ inr (inl (err, unknown, rw unknown refl))
        | inr (errno, known) ↦ inr (inr ((([], errno), w), rw known refl, inl refl))
      ]
      end_round-ends interrupted = look_at_events-ends
      end_round-ends (ready f) = look_at_events-ends

    poll_loop-ends :
        (rounds : ℕ) (events : List Event) (pollfds : List PollFd) (w : World)
        → Slots subs events
        → 1 + waiting subs events ≤ length pollfds
        → LoopEnds (poll_loop k rounds subs timeout index deadline events pollfds w)
    unfolding poll_loop
    poll_loop-ends zero events pollfds w ss room = inl refl
    poll_loop-ends (suc rounds) events pollfds w ss room =
        let t = timeout_millis k timeout deadline w in
        let p = k.poll pollfds t.0 t.1 in
        let pollfds' = polled_fds p.0 pollfds in
        let same = length-polled_fds p.0 pollfds in
        end_round-ends
          (λ events' w'. poll_loop k rounds subs timeout index deadline events' pollfds' w') events
          pollfds' p.1 ss (omega arith)
          (λ events' w' ss' room'. poll_loop-ends rounds events' pollfds' w' ss' room') p.0

module _ {File Dir World : Type 0} (h : Host File Dir World) (k : Kernel File World) where
  -- The ways in which `PollOneOff` ends.
  abbrev pub PollEnds :
      List Subscription → Run ((List Event × ℕ) × UnixSystem File Dir World) → Type 0
  PollEnds subs m =
      (m ≡ unfinished)
      ⊎ (Panics m
          ⊎ ((r : (List Event × ℕ) × UnixSystem File Dir World) × (m ≡ ok r) × Answers subs r.0))

  loop-PollEnds :
      (subs : List Subscription) (m : Run ((List Event × ℕ) × World))
      (s : UnixSystem File Dir World)
      → (m ≡ unfinished)
        ⊎ (Panics m ⊎ ((r : (List Event × ℕ) × World) × (m ≡ ok r) × Answers subs r.0))
      → PollEnds subs (m >>= λ result. ok (result.0, record s { world = result.1 }))
  loop-PollEnds subs m s (inl cut) = inl (rw cut refl)
  loop-PollEnds subs m s (inr (inl (err, unknown, run))) = inr (inl (err, unknown, rw run refl))
  loop-PollEnds subs m s (inr (inr (a, run, answers))) =
      inr (inr ((a.0, record s { world = a.1 }), rw run refl, answers))

  poll_scanned-ends :
      (rounds : ℕ) (subs : List Subscription) (s : UnixSystem File Dir World) (st : Scan World)
      (r : List Event × Scan World)
      → 1 ≤ length subs
      → length st.pollfds ≡ 1
      → ScansAll subs (length subs) st r
      → PollEnds subs (poll_scanned h k rounds subs s r)
  unfolding poll_scanned poll_for
  poll_scanned-ends rounds subs s st r some_subs one all = loop-PollEnds subs _ s (
      poll_loop-ends k subs _ r.1.timeout_event_index _ all.index some_subs rounds r.0 r.1.pollfds _
        all.slots (omega (arith, all.pollfds)))

  poll_from-ends :
      (rounds : ℕ) (subs : List Subscription) (read_end : ℤ) (s : UnixSystem File Dir World)
      → IsValid s.files
      → 1 ≤ length subs
      → PollEnds subs (poll_from h k rounds subs read_end s)
  unfolding poll_from
  poll_from-ends rounds subs read_end s v some_subs =
      let st = first_scan read_end s.world in
      elim (scan-ends h k s.files subs 0 (length subs) st v (omega arith) refl) [
        | inl (err, unknown, run) ↦
            inr (inl (err, unknown, ap (λ m. m >>= poll_scanned h k rounds subs s) run))
        | inr (r, run, all) ↦
            subst (PollEnds subs) (sym (ap (λ m. m >>= poll_scanned h k rounds subs s) run))
              (poll_scanned-ends rounds subs s st r some_subs refl all)
      ]

  init-files : (s : UnixSystem File Dir World) → (init k s).1.files ≡ s.files
  unfolding init
  init-files s = elim (Option-cases s.wake) [
    | inr (ends, made) ↦ rw made refl
    | inl missing ↦ elim (Bool-cases (k.is_shut s.world)) [
      | inl shut ↦ rw (missing, shut) refl
      | inr runs ↦ elim (Option-cases (k.pipe s.world).0.1) [
        | inl made ↦ rw (missing, runs, made) refl
        | inr (err, broken) ↦ rw (missing, runs, broken) refl
      ]
    ]
  ]

  poll_begun-ends :
      (rounds : ℕ) (subs : List Subscription) (begun : (ℤ ⊎ GoError) × UnixSystem File Dir World)
      → IsValid begun.1.files
      → 1 ≤ length subs
      → PollEnds subs (elim begun.0 [
        | inr err ↦ (make_errno (some err) >>= λ errno. ok (([], errno), begun.1))
        | inl read_end ↦ poll_from h k rounds subs read_end begun.1
      ])
  poll_begun-ends rounds subs (inl read_end, s) v some_subs =
      poll_from-ends rounds subs read_end s v some_subs
  poll_begun-ends rounds subs (inr err, s) v some_subs = elim (make_errno-Ends err) [
    | inl unknown ↦ inr (inl (err, unknown, rw unknown refl))
    | inr (errno, known) ↦ inr (inr ((([], errno), s), rw known refl, inl refl))
  ]

  -- Over any kernel and a valid file table, PollOneOff does not index out of range: either it is
  -- still waiting after the given rounds of its loop, or MakeErrno panics on an error of the
  -- kernel or of a clock that it does not know, or it returns. It returns no events, or ESUCCESS
  -- with at least one event; the events are of different subscriptions in their order, each with
  -- the user data and the type of its own.
  pub poll_one_off-ends :
      (rounds : ℕ) (subs : List Subscription) (size : ℕ) (s : UnixSystem File Dir World)
      → IsValid s.files
      → PollEnds subs (poll_one_off h k rounds subs size s)
  unfolding poll_one_off
  poll_one_off-ends rounds subs size s v =
      elim (Bool-cases (length subs == 0 || ltb size (length subs))) [
        | inl few ↦ inr (inr ((([], einval), s), rw few refl, inl refl))
        | inr enough ↦ rw enough (
            poll_begun-ends rounds subs (init k s) (subst IsValid (sym (init-files s)) v)
              (ground arith))
      ]
