-- ===== src/Unix/Poll.antt =====
-- systems/unix/system.go: `PollOneOff` but for its loop over the subscriptions.
use wasi_go.Base.{
  ℕ, zero, suc, ◌+◌, ◌-◌, ◌/◌, ◌==◌, leb, ltb, Bool, true, ◌&&◌, ◌||◌, not, if◌then◌else◌, Option,
  none, some, List, [], ◌∷◌, length, get_elem?, set, ℤ, pos, negsuc, Run, ok, panic, unfinished,
  ◌>>=◌, or_panic, inl, inr,
}
use wasi_go.Errno.{esuccess, einval, ecanceled}
use wasi_go.Errno.Syscall.{make_errno}
use wasi_go.File.{Host}
use wasi_go.Subscription.{Subscription, Event, no_event, fd_read_event, fd_write_event}
use wasi_go.Unix.{PollFd, Polled, failed, interrupted, ready, Kernel, UnixSystem, init, is_negative}
use wasi_go.Unix.PollScan.{marked, first_scan, scan, Scan}

-- The loop that marks the events of the descriptors that poll(2) has reported, from index `j` of its
-- array on.
unfoldable pub collect : List Subscription → List Event → List PollFd → ℕ → Run (List Event)
collect [] events pollfds j = ok events
collect (sub ∷ subs) [] pollfds j = panic
collect (sub ∷ subs) (e ∷ events) pollfds j =
    let skipped = collect subs events pollfds j in
    let polled = collect subs events pollfds (j + 1) in
    if not (e.event_type == 0)
    then (skipped >>= λ rest. ok (e ∷ rest))
    else if sub.event_type == fd_read_event || sub.event_type == fd_write_event
    then (or_panic (get_elem? pollfds j) >>= λ pf.
        polled >>= λ rest. ok ((if pf.revents == 0 then e else marked sub) ∷ rest))
    else (skipped >>= λ rest. ok (e ∷ rest))

-- The completed events at the front, with their types restored.
unfoldable pub pack : List Event → List Event
pack [] = []
pack (e ∷ events) =
    if e.event_type == 0
    then pack events
    else record e { event_type = e.event_type - 1 } ∷ pack events

-- `events[i] = marked sub` for the subscription of the earliest timeout.
unfoldable pub mark_timeout : Option ℕ → List Subscription → List Event → Run (List Event)
mark_timeout none subs events = ok events
mark_timeout (some i) subs events = do
  sub ← or_panic (get_elem? subs i)
  if ltb i (length events) then ok (set events i (marked sub)) else panic

abbrev pub cancel : List Subscription → List Event
cancel [] = []
cancel (sub ∷ subs) =
    record no_event { user_data = sub.user_data; event_type = sub.event_type; errno = ecanceled }
    ∷ cancel subs

-- The revents that poll(2) has set, from index `i` on.
unfoldable pub with_revents : (ℕ → ℕ) → ℕ → List PollFd → List PollFd
with_revents f i [] = []
with_revents f i (pf ∷ pfs) = record pf { revents = f i } ∷ with_revents f (i + 1) pfs

abbrev pub polled_fds : Polled → List PollFd → List PollFd
polled_fds (failed err) pfs = pfs
polled_fds interrupted pfs = pfs
polled_fds (ready f) pfs = with_revents f 0 pfs

-- `deadline.Before(now.Add(time.Millisecond))`; the zero time is before every other.
abbrev pub is_due : Option ℕ → ℕ → Bool
is_due none now = true
is_due (some deadline) now = ltb deadline (now + 1000000)

-- `int(time.Until(deadline).Milliseconds())`, which rounds towards 0.
abbrev pub millis_until : ℕ → ℕ → ℤ
millis_until deadline now =
    if leb now deadline
    then pos ((deadline - now) / 1000000)
    else (let late = (now - deadline) / 1000000 in if late == 0 then pos 0 else negsuc (late - 1))

module _ {File World : Type 0} (k : Kernel File World) where
  -- The timeout that poll(2) is given.
  unfoldable pub timeout_millis : ℕ → Option ℕ → World → ℤ × World
  timeout_millis timeout deadline w =
      if is_negative timeout
      then (negsuc 0, w)
      else elim deadline [ none ↦ (pos 0, w) | some d ↦ (millis_until d (k.now w).0, (k.now w).1) ]

  -- The index of the earliest timeout, if its deadline has come.
  unfoldable pub due_index : Option ℕ → Option ℕ → World → Option ℕ × World
  due_index none deadline w = (none, w)
  due_index (some i) deadline w =
      (if is_due deadline (k.now w).0 then some i else none, (k.now w).1)

  -- What a round does after poll(2) has returned: its events and the world.
  unfoldable pub after_poll :
      List Subscription
      → Option ℕ
      → Option ℕ
      → List Event
      → List PollFd
      → World
      → Run (List Event × World)
  unfolding mark_timeout collect due_index
  after_poll subs index deadline events pollfds w = do
    let due = due_index index deadline w
    events' ← mark_timeout due.0 subs events
    events'' ← collect subs events' pollfds 1
    ok (events'', due.1)

  -- The completed events, or the next round if there are none.
  abbrev pub or_next :
      List Event → World → Run ((List Event × ℕ) × World) → Run ((List Event × ℕ) × World)
  or_next [] w next = next
  or_next (e ∷ events) w next = ok ((e ∷ events, esuccess), w)

  -- The part of a round after poll(2) has not failed; `next` is the next round.
  unfoldable pub look_at_events :
      List Subscription
      → Option ℕ
      → Option ℕ
      → List Event
      → List PollFd
      → World
      → (List Event → World → Run ((List Event × ℕ) × World))
      → Run ((List Event × ℕ) × World)
  unfolding after_poll pack
  look_at_events subs index deadline events pollfds w next =
      if k.is_shut w
      then ok ((cancel subs, esuccess), w)
      else (after_poll subs index deadline events pollfds w >>= λ r.
          or_next (pack r.0) r.1 (next r.0 r.1))

  unfoldable pub end_round :
      Polled
      → List Subscription
      → Option ℕ
      → Option ℕ
      → List Event
      → List PollFd
      → World
      → (List Event → World → Run ((List Event × ℕ) × World))
      → Run ((List Event × ℕ) × World)
  unfolding look_at_events
  end_round (failed err) subs index deadline events pollfds w next =
      make_errno (some err) >>= λ errno. ok (([], errno), w)
  end_round interrupted subs index deadline events pollfds w next =
      look_at_events subs index deadline events pollfds w next
  end_round (ready f) subs index deadline events pollfds w next =
      look_at_events subs index deadline events pollfds w next

  -- The loop `for`, with the rounds left. It returns the events and an error number.
  unfoldable pub poll_loop :
      ℕ
      → List Subscription
      → ℕ
      → Option ℕ
      → Option ℕ
      → List Event
      → List PollFd
      → World
      → Run ((List Event × ℕ) × World)
  unfolding timeout_millis end_round with_revents
  poll_loop zero subs timeout index deadline events pollfds w = unfinished
  poll_loop (suc rounds) subs timeout index deadline events pollfds w =
      let t = timeout_millis timeout deadline w in
      let p = k.poll pollfds t.0 t.1 in
      let pollfds' = polled_fds p.0 pollfds in
      end_round p.0 subs index deadline events pollfds' p.1
        (λ events' w'. poll_loop rounds subs timeout index deadline events' pollfds' w')

module _ {File Dir World : Type 0} (h : Host File Dir World) (k : Kernel File World) where
  -- The end of `PollOneOff`, with its timeout.
  unfoldable pub poll_for :
      ℕ
      → List Subscription
      → UnixSystem File Dir World
      → List Event × Scan World
      → ℕ
      → Run ((List Event × ℕ) × UnixSystem File Dir World)
  unfolding poll_loop
  poll_for rounds subs s scanned timeout =
      let st = scanned.1 in
      let begin : Option ℕ × World =
        if not (timeout == 0) && not (is_negative timeout)
        then (some ((k.now st.world).0 + timeout), (k.now st.world).1)
        else (none, st.world) in
      poll_loop k rounds subs timeout st.timeout_event_index begin.0 scanned.0 st.pollfds begin.1
      >>= λ result. ok (result.0, record s { world = result.1 })

  -- `PollOneOff` after the loop over the subscriptions.
  unfoldable pub poll_scanned :
      ℕ
      → List Subscription
      → UnixSystem File Dir World
      → List Event × Scan World
      → Run ((List Event × ℕ) × UnixSystem File Dir World)
  unfolding poll_for
  poll_scanned rounds subs s scanned =
      poll_for rounds subs s scanned (if ltb 0 scanned.1.num_events then 0 else scanned.1.timeout)

  -- `PollOneOff` from the read end of the pipe on.
  unfoldable pub poll_from :
      ℕ
      → List Subscription
      → ℤ
      → UnixSystem File Dir World
      → Run ((List Event × ℕ) × UnixSystem File Dir World)
  unfolding scan poll_scanned
  poll_from rounds subs read_end s =
      scan h k s.files subs 0 (first_scan read_end s.world) >>= poll_scanned rounds subs s

  -- `PollOneOff` with a buffer for `size` events, and the rounds of its loop. It returns the first
  -- events of the buffer, as many as it says.
  unfoldable pub poll_one_off :
      ℕ
      → List Subscription
      → ℕ
      → UnixSystem File Dir World
      → Run ((List Event × ℕ) × UnixSystem File Dir World)
  unfolding init poll_from
  poll_one_off rounds subs size s =
      if length subs == 0 || ltb size (length subs)
      then ok (([], einval), s)
      else (let begun = init k s in
          elim begun.0 [
            | inr err ↦ (make_errno (some err) >>= λ errno. ok (([], errno), begun.1))
            | inl read_end ↦ poll_from rounds subs read_end begun.1
          ])
