-- ===== src/Tests/Polls.antt =====
-- Runs of `PollOneOff` and `SockOpen`, the first over a kernel whose polls report nothing, at a time that stands still.
use wasi_go.Base.{
  List, inl, inr, arith, ℕ, ◌≡◌, refl, none, some, [], ◌∷◌, get_elem?, replicate, set, false, pos,
  ok,
}
use wasi_go.Bits
use wasi_go.Descriptor
use wasi_go.Errno.{esuccess, ebadf}
use wasi_go.Rights.{has}
use wasi_go.FileTable.{lookup_exported}
use wasi_go.Subscription.{
  Subscription, SubscriptionClock, Event, no_event, clock_event, fd_read_event, monotonic_id,
}
use wasi_go.Unix.{ready, Kernel, UnixSystem}
use wasi_go.Unix.PollScan.{Scan}
use wasi_go.Unix.Poll.{poll_one_off, poll_scanned}
use wasi_go.Unix.Packing.{Slots, no_slots, slot}
use wasi_go.Unix.Expiry.{Has, expired, poll_scanned-expired}
use wasi_go.Unix.Calls.{Called, eintr, returned}
use wasi_go.Unix.Sockets.{sock_open}
use wasi_go.Unix.SocketOpening.{SocketEnds, sock_open-ends}
use wasi_go.Unix.Polling.{PollEnds, poll_one_off-ends}
use wasi_go.Tests.Demo.{Log, host, table, table-IsValid, few_files}

abbrev pub kernel : Kernel ℕ Log
kernel = record {
  poll_fd = λ f. pos f;
  pipe = λ w. (((pos 100, pos 101), none), w);
  poll = λ fds timeout w. (ready (λ i. 0), w);
  now = λ w. (1000000000, w);
  is_shut = λ w. false;
  realtime = none;
  monotonic = some (λ w. ((5000000000, none), w));
}

abbrev pub unix_system : UnixSystem ℕ ℕ Log
unix_system = record { files = table; wake = none; world = [] }

abbrev no_clock : SubscriptionClock
no_clock = record { id = 0; timeout = 0; precision = 0; flags = 0 }

-- A read of a descriptor that is not open, and a timeout of an hour.
abbrev read_of_closed : Subscription
read_of_closed = record {
  user_data = 7;
  event_type = fd_read_event;
  fd_read_write = pos 9;
  clock = no_clock;
}

abbrev in_an_hour : Subscription
in_an_hour = record {
  user_data = 8;
  event_type = clock_event;
  fd_read_write = pos 0;
  clock = record { id = monotonic_id; timeout = 3600000000000; precision = 0; flags = 0 };
}

poll_one_off-ends_example :
    PollEnds host kernel
      (read_of_closed ∷ in_an_hour ∷ [])
      (poll_one_off host kernel 3 (read_of_closed ∷ in_an_hour ∷ []) 2 unix_system)
poll_one_off-ends_example =
    poll_one_off-ends host kernel 3 (read_of_closed ∷ in_an_hour ∷ []) 2 unix_system table-IsValid

-- The events and variables after the loop over these two.
abbrev both : List Subscription
both = read_of_closed ∷ in_an_hour ∷ []

abbrev events : List Event
events = record no_event { user_data = 7; errno = ebadf; event_type = 2 } ∷ no_event ∷ []

abbrev scanned : Scan Log
scanned = record {
  num_events = 1;
  pollfds = record { fd = pos 100; events = 17; revents = 0 } ∷ [];
  realtime_epoch = 0;
  monotonic_epoch = 0;
  timeout = 3600000000000;
  timeout_event_index = some 1;
  world = [];
}

events-Slots : Slots both events
events-Slots = slot (inr (refl, refl)) (slot (inl refl) no_slots)

second_sub : get_elem? both 1 ≡ some in_an_hour
unfolding get_elem?
second_sub = refl

poll_scanned-expired_example :
    (reported : List Event) × (s' : UnixSystem ℕ ℕ Log) × (poll_scanned host kernel 1 both
        unix_system
        (events, scanned)
      ≡ ok ((reported, esuccess), s'))
    × Has (expired in_an_hour) reported
poll_scanned-expired_example =
    poll_scanned-expired host kernel 0 both unix_system events scanned 1 in_an_hour (λ i. 0)
      (omega arith) refl second_sub refl events-Slots (omega arith) refl refl

-- The hour is over at once when another subscription is invalid.
hour_is_over :
    poll_one_off host kernel 1 (read_of_closed ∷ in_an_hour ∷ []) 2 unix_system
    ≡ ok (
      (
        record no_event { user_data = 7; errno = ebadf; event_type = fd_read_event }
            ∷ record no_event { user_data = 8; event_type = clock_event }
            ∷ [],
        esuccess,
      ),
      record unix_system { wake = some (pos 100, pos 101) },
    )
unfolding poll_one_off lookup_exported Descriptor.access get_elem? Bits.bit has replicate set
hour_is_over = refl

-- A socket call that is interrupted once.
abbrev open_socket : ℕ → ℕ → ℕ → Log → Called ℕ × Log
open_socket domain type protocol [] = (eintr, 1 ∷ [])
open_socket domain type protocol (x ∷ w) = (returned 55, w)

sock_open-ends_example :
    SocketEnds host open_socket 4 1 2 1 2 0 unix_system
      (sock_open host open_socket 4 1 2 1 2 0 unix_system)
sock_open-ends_example =
    sock_open-ends host open_socket 4 1 2 1 2 0 unix_system table-IsValid few_files
