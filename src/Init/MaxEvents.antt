-- ===== src/Init/MaxEvents.antt =====
-- lmkd.cpp: `maxevents` never exceeds MAX_EPOLL_EVENTS, the length of the array that epoll_wait fills.
use android_system_memory_lm.Base.{
  ℕ, ◌+◌, ◌≡◌, ◌≤◌, refl, arith, Option, none, some, Bool, true, false, if◌then◌else◌, ℤ, pos,
  negsuc, ◌+ℤ◌, ◌-ℤ◌, ◌≤ℤ◌, int_laws, eq_of_parts, update, Option-cases, inl, inr,
}
use android_system_memory_lm.Monitors.{Monitors}
use android_system_memory_lm.Monitors.Counts.{used}
use android_system_memory_lm.Monitors.Watched.{IsWatched}
use android_system_memory_lm.Connections.{
  max_data_conn, free_below, get_free_dsock, connect, close_below, Conn, Server, ctrl_data_close,
  ctrl_connect_handler,
}
use android_system_memory_lm.Connections.Events.{
  open_count, base_after, ctrl_connect_handler-IsAccounted,
}

-- One control socket, the connections, four levels, the driver's events, the pidfd of a kill, the
-- reaper's pipe, and the listener: 1 + MAX_DATA_CONN + VMPRESS_LEVEL_COUNT + 1 + 1 + 1 + 1.
abbrev pub max_epoll_events : ℕ
max_epoll_events = 12

abbrev pub is_listening : Bool → ℕ
is_listening listener = if listener then 1 else 0

-- `extra` events are those of the control socket, of the driver and of the reaper.
pub record IsBounded (extra : ℕ) (data_sock : ℕ → Conn) (m : Monitors) : Type 0 where
  pub base : ℤ
  pub watched : IsWatched base m
  pub within : base ≤ℤ pos (extra + open_count data_sock + is_listening m.memevent_listener)

used-le : (f : ℕ → Option ℕ) → used f ≤ 4
used-le f =
    ground (arith, Option-cases (f 0), Option-cases (f 1), Option-cases (f 2), Option-cases (f 3))

open_count-le : (f : ℕ → Conn) → open_count f ≤ 3
open_count-le f =
    ground (arith, Option-cases (f 0).sock, Option-cases (f 1).sock, Option-cases (f 2).sock)

bound_sum :
    (x base : ℤ) (e o l u : ℕ)
    → x ≡ base +ℤ pos u
    → base ≤ℤ pos (e + o + l)
    → e ≤ 3
    → o ≤ 3
    → l ≤ 1
    → u ≤ 4
    → x +ℤ pos 1 ≤ℤ pos max_epoll_events
bound_sum x base e o l u h k a b c d = rw h (omega int_laws)

within_sum :
    (x y base : ℤ) (e o o' l u : ℕ)
    → y ≡ base +ℤ pos u
    → x +ℤ pos o ≤ℤ y +ℤ pos o'
    → base ≤ℤ pos (e + o + l)
    → x -ℤ pos u ≤ℤ pos (e + o' + l)
within_sum x y base e o o' l u h k w = let k' = rw h at k in omega int_laws

base_after-le :
    (x x' : ℤ) (o o' : ℕ) (accepted : Option ℕ) (epoll_add : Bool)
    → x' ≡ base_after (x -ℤ pos o) accepted epoll_add +ℤ pos o'
    → x' +ℤ pos o ≤ℤ x +ℤ pos o'
base_after-le x x' o o' none epoll_add h = rw h (omega int_laws)
base_after-le x x' o o' (some fd) true h = rw h (omega int_laws)
base_after-le x x' o o' (some fd) false h = rw h (omega int_laws)

less_one : (x : ℤ) (o o' : ℕ) → o ≤ o' + 1 → (x +ℤ negsuc 0) +ℤ pos o ≤ℤ x +ℤ pos o'
less_one x o o' h = omega int_laws

is_listening-le : (b : Bool) → is_listening b ≤ 1
is_listening-le true = omega arith
is_listening-le false = omega arith

connected :
    (i : ℕ) (accepted : Option ℕ) (epoll_add : Bool) (s : Server)
    → (connect i accepted epoll_add s).monitors
      ≡ record s.monitors { maxevents = (connect i accepted epoll_add s).monitors.maxevents }
unfolding connect ctrl_data_close
connected i none epoll_add s = refl
connected i (some fd) true s = refl
connected i (some fd) false s = refl

-- A connection changes nothing of the monitors but the number of events.
connect_events :
    (accepted : Option ℕ) (epoll_add : Bool) (s : Server)
    → let s' = ctrl_connect_handler accepted epoll_add s in
      s'.monitors ≡ record s.monitors { maxevents = s'.monitors.maxevents }
unfolding ctrl_connect_handler close_below ctrl_data_close get_free_dsock
connect_events accepted epoll_add s = elim (Option-cases (free_below max_data_conn s.data_sock)) [
  | inr (i, e) ↦ rw (e, ctrl_connect_handler, get_free_dsock) (connected i accepted epoll_add s)
  | inl e ↦
      rw (e, ctrl_connect_handler, get_free_dsock)
        (connected 0 accepted epoll_add (close_below max_data_conn s))
]

pub IsBounded-le :
    (extra : ℕ) (data_sock : ℕ → Conn) (m : Monitors)
    → extra ≤ 3
    → IsBounded extra data_sock m
    → m.maxevents +ℤ pos 1 ≤ℤ pos max_epoll_events
IsBounded-le extra data_sock m h v =
    bound_sum m.maxevents v.base extra (open_count data_sock) (is_listening m.memevent_listener)
      (used m.mpevfd) v.watched.adopted.counted.events v.within h (open_count-le data_sock)
      (is_listening-le m.memevent_listener) (used-le m.mpevfd)

-- Other events are counted: as many fewer, or as many more, as there are connections.
with_events :
    (base x : ℤ) (m : Monitors)
    → IsWatched base m
    → IsWatched (x -ℤ pos (used m.mpevfd)) (record m { maxevents = x })
with_events base x m v = record {
  adopted = record {
    others = v.adopted.others;
    counted = record { events = eq_of_parts _ _ (omega int_laws); fds = v.adopted.counted.fds };
  };
  waiting = v.waiting;
  no_low = v.no_low;
  no_super = v.no_super;
}

keep-IsBounded :
    (extra : ℕ) (f g : ℕ → Conn) (x : ℤ) (m : Monitors)
    → x +ℤ pos (open_count f) ≤ℤ m.maxevents +ℤ pos (open_count g)
    → IsBounded extra f m
    → IsBounded extra g (record m { maxevents = x })
keep-IsBounded extra f g x m h v = record {
  base = x -ℤ pos (used m.mpevfd);
  watched = with_events v.base x m v.watched;
  within =
      within_sum x m.maxevents v.base extra (open_count f) (open_count g)
        (is_listening m.memevent_listener) (used m.mpevfd) v.watched.adopted.counted.events h
        v.within;
}

-- A connection event.
pub ctrl_connect_handler-IsBounded :
    (extra : ℕ) (accepted : Option ℕ) (epoll_add : Bool) (s : Server)
    → IsBounded extra s.data_sock s.monitors
    → let s' = ctrl_connect_handler accepted epoll_add s in IsBounded extra s'.data_sock s'.monitors
ctrl_connect_handler-IsBounded extra accepted epoll_add s v =
    let s' = ctrl_connect_handler accepted epoll_add s in
    let base = s.monitors.maxevents -ℤ pos (open_count s.data_sock) in
    let accounted =
      ctrl_connect_handler-IsAccounted base accepted epoll_add s
        (eq_of_parts _ _ (omega int_laws)) in
    rw (connect_events accepted epoll_add s) (
      keep-IsBounded extra s.data_sock s'.data_sock s'.monitors.maxevents s.monitors
        (base_after-le s.monitors.maxevents s'.monitors.maxevents (open_count s.data_sock)
          (open_count s'.data_sock) accepted epoll_add accounted)
        v)

open_count-close :
    (i : ℕ) (f : ℕ → Conn) (c : Conn) → c.sock ≡ none → open_count f ≤ open_count (update f i c) + 1
open_count-close i f c e =
    ground (arith, e, Option-cases (f 0).sock, Option-cases (f 1).sock, Option-cases (f 2).sock)

pub ctrl_data_close-IsBounded :
    (extra i : ℕ) (s : Server)
    → IsBounded extra s.data_sock s.monitors
    → let s' = ctrl_data_close i s in IsBounded extra s'.data_sock s'.monitors
unfolding ctrl_data_close
ctrl_data_close-IsBounded extra i s v =
    let c = record (s.data_sock i) { sock = none } in
    keep-IsBounded extra s.data_sock (update s.data_sock i c) (s.monitors.maxevents +ℤ negsuc 0)
      s.monitors
      (less_one s.monitors.maxevents (open_count s.data_sock) (open_count (update s.data_sock i c))
        (open_count-close i s.data_sock c refl))
      v

abbrev pub IsBoundedServer : ℕ → Server → Type 0
IsBoundedServer extra s = IsBounded extra s.data_sock s.monitors
