-- ===== src/Unix/Scanning.antt =====
-- systems/unix/system.go: the loop of `PollOneOff` over the subscriptions.
use wasi_go.Base.{
  ℕ, ◌+◌, ◌%◌, ◌^◌, ◌≤◌, ◌<◌, ◌==◌, ltb, ltb_of_lt, Bool, true, false, ◌≡◌, ◌⊎◌, inl, inr, refl,
  ◌∙◌, ap, if◌then◌else◌, Option, none, some, List, [], ◌∷◌, ◌++◌, length, length-append, Run, ok,
  panic, or_panic, Bool-cases, Option-cases, arith,
}
use wasi_go.Errno.{esuccess, enotsup}
use wasi_go.Errno.Syscall.{
  GoError, make_errno, make_errno_slow, syscall_errno_to_wasi, switch, of_timeout, of_syscall_cases,
}
use wasi_go.File.{Host}
use wasi_go.FileTable.{FileTable, exported, lookup_exported}
use wasi_go.FileTable.Lookups.{IsValid, entry, checked, lookup_fd-checked}
use wasi_go.Rights.{has, poll_fd_read_write_right}
use wasi_go.Subscription.{
  Subscription, Event, no_event, clock_event, fd_read_event, fd_write_event, realtime_id, abstime,
}
use wasi_go.Unix.{PollFd, Kernel, is_negative, add_duration, sub_duration}
use wasi_go.Unix.PollScan.{
  Scan, error_event, epoch, set_epoch, set_timeout, gettime, scan_clock, scan_fd, scan_one, scan,
}
use wasi_go.Unix.Packing.{Slot, Slots, no_slots, slot, is_fd, waits, waiting, index_below}

-- A run that ends in a panic of `MakeErrno`, on an error that it does not know.
abbrev pub Panics {ℓ} : {R : Type ℓ} → Run R → Type ℓ
Panics r = (err : GoError) × (make_errno (some err) ≡ panic) × (r ≡ panic)

-- A run that returns or panics.
abbrev pub Ends : Run ℕ → Type 0
Ends m = (m ≡ panic) ⊎ ((errno : ℕ) × (m ≡ ok errno))

if-Ends : (b : Bool) (x y : Run ℕ) → Ends x → Ends y → Ends (if b then x else y)
if-Ends true x y p q = p
if-Ends false x y p q = q

or_panic-Ends : (o : Option ℕ) → Ends (or_panic o)
or_panic-Ends none = inl refl
or_panic-Ends (some a) = inr (a, refl)

timeout-Ends : (o : Option Bool) → Ends (of_timeout o)
timeout-Ends none = inl refl
timeout-Ends (some true) = inr (_, refl)
timeout-Ends (some false) = inl refl

inner-Ends :
    (sys wasi : Option ℕ) (o : Option Bool)
    → Ends (elim sys [
      | some n ↦ if n == 0 then ok esuccess else syscall_errno_to_wasi n
      | none ↦ elim wasi [ some e ↦ ok e | none ↦ of_timeout o ]
    ])
unfolding syscall_errno_to_wasi
inner-Ends (some n) wasi o =
    if-Ends (n == 0) (ok esuccess) _ (inr (esuccess, refl))
      (or_panic-Ends (switch of_syscall_cases n))
inner-Ends none (some e) o = inr (e, refl)
inner-Ends none none o = timeout-Ends o

pub make_errno-Ends : (err : GoError) → Ends (make_errno (some err))
unfolding make_errno make_errno_slow
make_errno-Ends err = if-Ends err.is_again _ _ (inr (_, refl)) (
    if-Ends err.is_canceled _ _ (inr (_, refl)) (
      if-Ends err.is_deadline_exceeded _ _ (inr (_, refl)) (
        if-Ends err.is_closed _ _ (inr (_, refl))
          (inner-Ends err.sys_errno err.wasi_errno err.timeout))))

error_event-Slot : (sub : Subscription) (errno : ℕ) → Slot sub (error_event sub errno)
unfolding error_event
error_event-Slot sub errno = inr (refl, refl)

waits-error_event : (sub : Subscription) (errno : ℕ) → waits sub (error_event sub errno) ≡ 0
unfolding error_event
waits-error_event sub errno = ground arith

module _ {World : Type 0} where
  -- What a step of the loop does to its variables.
  pub record Scans (sub : Subscription) (n : ℕ) (st : Scan World) (r : Event × Scan World)
      : Type 0 where
    pub is_slot : Slot sub r.0
    pub pollfds : length r.1.pollfds ≡ length st.pollfds + waits sub r.0
    pub index : index_below r.1.timeout_event_index n ≡ true

  -- What the whole loop does, from the variables `st` on.
  pub record ScansAll (subs : List Subscription) (n : ℕ) (st : Scan World)
      (r : List Event × Scan World) : Type 0 where
    pub slots : Slots subs r.0
    pub pollfds : length r.1.pollfds ≡ length st.pollfds + waiting subs r.0
    pub index : index_below r.1.timeout_event_index n ≡ true

  fails-Scans :
      (sub : Subscription) (errno n : ℕ) (st st' : Scan World)
      → length st'.pollfds ≡ length st.pollfds
      → index_below st'.timeout_event_index n ≡ true
      → Scans sub n st (error_event sub errno, record st' { num_events = st'.num_events + 1 })
  fails-Scans sub errno n st st' same below = record {
    is_slot = error_event-Slot sub errno;
    pollfds = omega (arith, waits-error_event sub errno);
    index = below;
  }

  set_timeout-index :
      (t i n : ℕ) (st : Scan World)
      → i < n
      → index_below st.timeout_event_index n ≡ true
      → (index_below (set_timeout t i st).timeout_event_index n ≡ true)
        × ((set_timeout t i st).pollfds ≡ st.pollfds)
  unfolding set_timeout
  set_timeout-index t i n st lt below = elim (Bool-cases (is_negative st.timeout)) [
    | inl first ↦ rw first (ltb_of_lt lt, refl)
    | inr later ↦ elim (Bool-cases (ltb (if is_negative t then 0 else t) st.timeout)) [
      | inl less ↦ rw (later, less) (ltb_of_lt lt, refl)
      | inr more ↦ rw (later, more) (below, refl)
    ]
  ]

  clock-Scans :
      (sub : Subscription) (t i n : ℕ) (st st' : Scan World)
      → is_fd sub ≡ false
      → i < n
      → length st'.pollfds ≡ length st.pollfds
      → index_below st'.timeout_event_index n ≡ true
      → Scans sub n st (no_event, set_timeout t i st')
  clock-Scans sub t i n st st' other lt same below =
      let (index, pollfds) = set_timeout-index t i n st' lt below in
      record {
        is_slot = inl refl;
        pollfds = ap (λ (p : List PollFd). length p) pollfds ∙ rw other (omega arith);
        index = index;
      }

module _ {File Dir World : Type 0} (h : Host File Dir World) (k : Kernel File World) where
  module _ (sub : Subscription) (i n : ℕ) (st : Scan World) (lt : i < n)
      (below : index_below st.timeout_event_index n ≡ true) where
    -- The two ways in which a step ends.
    abbrev StepEnds : Run (Event × Scan World) → Type 0
    StepEnds m = Panics m ⊎ ((r : Event × Scan World) × (m ≡ ok r) × Scans sub n st r)

    set_epoch-same :
        (id t : ℕ) (w : World)
        → let st' = set_epoch id t (record st { world = w }) in
          (st'.pollfds ≡ st.pollfds) × (index_below st'.timeout_event_index n ≡ true)
    set_epoch-same id t w = elim (Bool-cases (id == realtime_id)) [
      | inl real ↦ rw real (refl, below)
      | inr mono ↦ rw mono (refl, below)
    ]

    scan_clock-ends :
        (get : World → (ℕ × Option GoError) × World)
        → is_fd sub ≡ false
        → StepEnds (scan_clock sub i get st)
    unfolding scan_clock
    scan_clock-ends get other =
        let left = add_duration sub.clock.timeout sub.clock.precision in
        elim (Bool-cases (has sub.clock.flags abstime)) [
          | inr relative ↦ inr (
            (no_event, set_timeout left i st),
            rw relative refl,
            clock-Scans sub left i n st st other lt refl below,
          )
          | inl absolute ↦ elim (Bool-cases (epoch sub.clock.id st == 0)) [
            | inr known ↦
                let since = sub_duration left (epoch sub.clock.id st) in
                inr (
                  (no_event, set_timeout since i st),
                  rw (absolute, known) refl,
                  clock-Scans sub since i n st st other lt refl below,
                )
            | inl new ↦ elim (Option-cases (get st.world).0.1) [
              | inl read ↦
                  let t = (get st.world).0.0 % 2 ^ 64 in
                  let (same, below') = set_epoch-same sub.clock.id t (get st.world).1 in
                  let begun = set_epoch sub.clock.id t (record st { world = (get st.world).1 }) in
                  let since = sub_duration left t in
                  inr (
                    (no_event, set_timeout since i begun),
                    rw (absolute, new, read) refl,
                    clock-Scans sub since i n st begun other lt
                        (ap (λ (p : List PollFd). length p) same) below',
                  )
              | inr (err, broken) ↦ elim (make_errno-Ends err) [
                | inl unknown ↦ inl (err, unknown, rw (absolute, new, broken, unknown) refl)
                | inr (errno, run) ↦ inr (
                  (
                    error_event sub errno,
                    record st { num_events = st.num_events + 1; world = (get st.world).1 },
                  ),
                  rw (absolute, new, broken, run) refl,
                  fails-Scans sub errno n st (record st { world = (get st.world).1 }) refl below,
                )
              ]
            ]
          ]
        ]

    scan_fd-ends :
        (files : FileTable File Dir) (poll_event : ℕ)
        → IsValid files
        → is_fd sub ≡ true
        → StepEnds (scan_fd h k files sub poll_event st)
    unfolding scan_fd lookup_exported
    scan_fd-ends files poll_event v polled =
        let looked = checked (entry files sub.fd_read_write) poll_fd_read_write_right in
        elim (Bool-cases ((exported h.no_file looked).2 == esuccess)) [
          | inr refusal ↦ inr (
            (
              error_event sub (exported h.no_file looked).2,
              record st { num_events = st.num_events + 1 },
            ),
            rw (lookup_fd-checked files sub.fd_read_write poll_fd_read_write_right v, refusal) refl,
            fails-Scans sub (exported h.no_file looked).2 n st st refl below,
          )
          | inl granted ↦ inr (
            (
              no_event,
              record st {
                pollfds =
                    st.pollfds
                    ++ record {
                      fd = k.poll_fd (exported h.no_file looked).0;
                      events = poll_event;
                      revents = 0;
                    }
                      ∷ [];
              },
            ),
            rw (lookup_fd-checked files sub.fd_read_write poll_fd_read_write_right v, granted) refl,
            record {
              is_slot = inl refl;
              pollfds = length-append st.pollfds _ ∙ rw polled refl;
              index = below;
            },
          )
        ]

    scan_one-ends :
        (files : FileTable File Dir) → IsValid files → StepEnds (scan_one h k files sub i st)
    unfolding scan_one
    scan_one-ends files v = elim (Bool-cases (sub.event_type == fd_write_event)) [
      | inl write ↦ rw write (scan_fd-ends files _ v (ground arith))
      | inr fixed ↦ elim (Bool-cases (sub.event_type == fd_read_event)) [
        | inl read ↦ rw (fixed, read) (scan_fd-ends files _ v (ground arith))
        | inr other ↦ elim (Bool-cases (sub.event_type == clock_event)) [
          | inr unknown ↦
              rw (fixed, other, unknown)
                (inr (
                  _,
                  refl,
                  record {
                    is_slot = inl refl;
                    pollfds = rw (fixed, other) (omega arith);
                    index = below;
                  },
                ))
          | inl clock ↦ elim (Option-cases (gettime k sub.clock.id)) [
            | inl missing ↦
                rw (fixed, other, clock, missing)
                  (inr (_, refl, fails-Scans sub enotsup n st st refl below))
            | inr (get, has_clock) ↦
                rw (fixed, other, clock, has_clock) (scan_clock-ends get (rw (fixed, other) refl))
          ]
        ]
      ]
    ]

  pub scan-ends :
      (files : FileTable File Dir) (subs : List Subscription) (i n : ℕ) (st : Scan World)
      → IsValid files
      → i + length subs ≤ n
      → index_below st.timeout_event_index n ≡ true
      → Panics (scan h k files subs i st)
        ⊎ ((r : List Event × Scan World) × (scan h k files subs i st ≡ ok r) × ScansAll subs n st r)
  unfolding scan
  scan-ends files [] i n st v le below =
      inr (([], st), refl, record { slots = no_slots; pollfds = omega arith; index = below })
  scan-ends files (sub ∷ subs) i n st v le below =
      elim (scan_one-ends sub i n st (omega arith) below files v) [
        | inl (err, unknown, run) ↦ inl (err, unknown, rw run refl)
        | inr ((e, st'), run, one) ↦
            elim (scan-ends files subs (i + 1) n st' v (omega arith) one.index) [
              | inl (err, unknown, run') ↦ inl (err, unknown, rw (run, run') refl)
              | inr ((events, st''), run', all) ↦ inr (
                (e ∷ events, st''),
                rw (run, run') refl,
                record {
                  slots = slot one.is_slot all.slots;
                  pollfds = omega (arith, one.pollfds, all.pollfds);
                  index = all.index;
                },
              )
            ]
      ]
