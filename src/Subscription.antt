-- ===== src/Subscription.antt =====
-- poll.go: subscriptions and events; time.go: the identifiers of clocks.
use wasi_go.Base.{ℕ, ◌^◌, ℤ}

-- `ClockID`
abbrev pub realtime_id : ℕ
realtime_id = 0

abbrev pub monotonic_id : ℕ
monotonic_id = 1

abbrev pub process_cpu_time_id : ℕ
process_cpu_time_id = 2

abbrev pub thread_cpu_time_id : ℕ
thread_cpu_time_id = 3

-- `SubscriptionClockFlags`
abbrev pub abstime : ℕ
abstime = 2 ^ 0

pub record SubscriptionClock : Type 0 where
  pub id : ℕ
  pub timeout : ℕ
  pub precision : ℕ
  pub flags : ℕ

-- The union of the variants, by what `GetFDReadWrite` and `GetClock` read of it.
pub record Subscription : Type 0 where
  pub user_data : ℕ
  pub event_type : ℕ
  pub fd_read_write : ℤ
  pub clock : SubscriptionClock

-- `EventType`
abbrev pub clock_event : ℕ
clock_event = 0

abbrev pub fd_read_event : ℕ
fd_read_event = 1

abbrev pub fd_write_event : ℕ
fd_write_event = 2

pub record EventFdReadWrite : Type 0 where
  pub n_bytes : ℕ
  pub flags : ℕ

pub record Event : Type 0 where
  pub user_data : ℕ
  pub errno : ℕ
  pub event_type : ℕ
  pub fd_read_write : EventFdReadWrite

abbrev pub no_event : Event
no_event = record {
  user_data = 0;
  errno = 0;
  event_type = 0;
  fd_read_write = record { n_bytes = 0; flags = 0 };
}
