-- ===== src/Unix/PollScan.antt =====
-- systems/unix/system.go: the loop of `PollOneOff` over its subscriptions.
use wasi_go.Base.{
  ℕ, ◌+◌, ◌%◌, ◌^◌, bit_or, ◌==◌, ltb, not, if◌then◌else◌, Option, none, some, List, [], ◌∷◌, ◌++◌,
  ℤ, Run, ok, ◌>>=◌,
}
use wasi_go.Errno.{esuccess, enotsup}
use wasi_go.Errno.Syscall.{GoError, make_errno}
use wasi_go.File.{Host}
use wasi_go.FileTable.{FileTable, lookup_exported}
use wasi_go.Rights.{has, poll_fd_read_write_right}
use wasi_go.Subscription.{
  Subscription, Event, no_event, clock_event, fd_read_event, fd_write_event, realtime_id,
  monotonic_id, abstime,
}
use wasi_go.Unix.{PollFd, Kernel, is_negative, add_duration, sub_duration, no_timeout}

-- poll(2)
abbrev pub pollin : ℕ
pollin = 1

abbrev pub pollpri : ℕ
pollpri = 2

abbrev pub pollout : ℕ
pollout = 4

abbrev pub pollhup : ℕ
pollhup = 16

-- A completed event has its type plus 1, in 8 bits.
abbrev pub marked : Subscription → Event
marked sub = record no_event {
  user_data = sub.user_data;
  event_type = (sub.event_type + 1) % 2 ^ 8;
}

unfoldable pub error_event : Subscription → ℕ → Event
error_event sub errno = record (marked sub) { errno = errno }

-- The variables of the loop over the subscriptions.
pub record Scan (World : Type 0) : Type 0 where
  pub num_events : ℕ
  pub pollfds : List PollFd
  pub realtime_epoch : ℕ
  pub monotonic_epoch : ℕ
  pub timeout : ℕ
  pub timeout_event_index : Option ℕ
  pub world : World

module _ {World : Type 0} where
  -- The variables before the loop.
  abbrev pub first_scan : ℤ → World → Scan World
  first_scan read_end w = record {
    num_events = 0;
    pollfds = record { fd = read_end; events = bit_or pollin pollhup; revents = 0 } ∷ [];
    realtime_epoch = 0;
    monotonic_epoch = 0;
    timeout = no_timeout;
    timeout_event_index = none;
    world = w;
  }

  -- A subscription that has failed.
  abbrev pub fails : Subscription → ℕ → Scan World → Run (Event × Scan World)
  fails sub errno st = ok (error_event sub errno, record st { num_events = st.num_events + 1 })

  abbrev pub epoch : ℕ → Scan World → ℕ
  epoch id st = if id == realtime_id then st.realtime_epoch else st.monotonic_epoch

  abbrev pub set_epoch : ℕ → ℕ → Scan World → Scan World
  set_epoch id t st =
      if id == realtime_id
      then record st { realtime_epoch = t }
      else record st { monotonic_epoch = t }

  -- The end of the case of a clock: the earliest timeout so far.
  unfoldable pub set_timeout : ℕ → ℕ → Scan World → Scan World
  set_timeout t i st =
      let t' = if is_negative t then 0 else t in
      if is_negative st.timeout
      then record st { timeout = t'; timeout_event_index = some i }
      else if ltb t' st.timeout
      then record st { timeout = t'; timeout_event_index = some i }
      else st

  -- A clock subscription whose clock is read by `get`.
  unfoldable pub scan_clock :
      Subscription
      → ℕ
      → (World → (ℕ × Option GoError) × World)
      → Scan World
      → Run (Event × Scan World)
  unfolding set_timeout error_event
  scan_clock sub i get st =
      let c = sub.clock in
      let t = add_duration c.timeout c.precision in
      if has c.flags abstime
      then (if epoch c.id st == 0
          then (let r = get st.world in
              let st' = record st { world = r.1 } in
              elim r.0.1 [
                | some err ↦ (make_errno (some err) >>= λ errno. fails sub errno st')
                | none ↦ ok (
                  no_event,
                  set_timeout (sub_duration t (r.0.0 % 2 ^ 64)) i
                      (set_epoch c.id (r.0.0 % 2 ^ 64) st'),
                )
              ])
          else ok (no_event, set_timeout (sub_duration t (epoch c.id st)) i st))
      else ok (no_event, set_timeout t i st)

module _ {File World : Type 0} (k : Kernel File World) where
  unfoldable pub gettime : ℕ → Option (World → (ℕ × Option GoError) × World)
  gettime id =
      if id == realtime_id then k.realtime else if id == monotonic_id then k.monotonic else none

module _ {File Dir World : Type 0} (h : Host File Dir World) (k : Kernel File World) where
  unfoldable pub scan_fd :
      FileTable File Dir → Subscription → ℕ → Scan World → Run (Event × Scan World)
  unfolding lookup_exported error_event
  scan_fd files sub poll_event st = do
    (file, _, errno) ← lookup_exported h files sub.fd_read_write poll_fd_read_write_right
    if not (errno == esuccess)
        then fails sub errno st
        else ok (
          no_event,
          record st {
            pollfds =
                st.pollfds ++ record { fd = k.poll_fd file; events = poll_event; revents = 0 } ∷ [];
          },
        )

  -- The body of the loop, for the subscription with index `i`.
  unfoldable pub scan_one :
      FileTable File Dir → Subscription → ℕ → Scan World → Run (Event × Scan World)
  unfolding scan_clock scan_fd gettime error_event
  scan_one files sub i st =
      if sub.event_type == fd_write_event
      then scan_fd files sub pollout st
      else if sub.event_type == fd_read_event
      then scan_fd files sub (bit_or pollpri (bit_or pollin pollhup)) st
      else if sub.event_type == clock_event
      then elim (gettime k sub.clock.id) [
        | none ↦ fails sub enotsup st
        | some get ↦ scan_clock sub i get st
      ]
      else ok (no_event, st)

  unfoldable pub scan :
      FileTable File Dir → List Subscription → ℕ → Scan World → Run (List Event × Scan World)
  unfolding scan_one
  scan files [] i st = ok ([], st)
  scan files (sub ∷ subs) i st = do
    (event, st') ← scan_one files sub i st
    (events, st'') ← scan files subs (i + 1) st'
    ok (event ∷ events, st'')
