-- ===== src/Connections/Events.antt =====
-- lmkd.cpp: the two passes of `mainloop` over the events of one wait. An event is known by whether it
-- reports a hang-up, and by its handler; the handlers of other files are a parameter.
use android_system_memory_lm.Base.{
  ℕ, zero, suc, ◌+◌, ◌<◌, ◌≡◌, ◌≢◌, refl, ap, ◌∙◌, arith, List, [], ◌∷◌, Option, none, some, Bool,
  true, false, if◌then◌else◌, ℤ, pos, negsuc, ◌+ℤ◌, int_laws, eq_of_parts, update, Bool-cases,
  Option-cases, inl, inr,
}
use android_system_memory_lm.Connections.{
  Conn, Server, max_data_conn, is_open, ctrl_data_close, free_below, get_free_dsock, close_below,
  connect, ctrl_connect_handler,
}

-- `event_handler_info` of an event: the listening socket, a data connection, or another one with its
-- `data`.
pub data Source : Type 0 where
  listening : Source
  connection : ℕ → Source
  other : ℕ → Source

pub record Event : Type 0 where
  pub hangup : Bool
  pub source : Source

-- `handler_info->data`.
abbrev pub source_data : Source → ℕ
source_data listening = 0
source_data (connection i) = i
source_data (other i) = i

-- The first pass: every hang-up closes the connection with the index of its handler.
unfoldable pub close_dropped : List Event → Server → Server
close_dropped [] s = s
close_dropped (e ∷ es) s =
    close_dropped es (if e.hangup then ctrl_data_close (source_data e.source) s else s)

module _ (handle : Event → Server → Server) where
  -- The second pass: the other events, in their order.
  unfoldable pub handle_others : List Event → Server → Server
  handle_others [] s = s
  handle_others (e ∷ es) s = handle_others es (if e.hangup then s else handle e s)

  unfoldable pub handle_events : List Event → Server → Server
  unfolding close_dropped handle_others
  handle_events es s = handle_others es (close_dropped es s)

-- The answers of accept and of epoll for new connections, with other events left alone.
unfoldable pub handle_connect : Option ℕ → Bool → Event → Server → Server
handle_connect accepted epoll_add e s = elim e.source [
  | listening ↦ ctrl_connect_handler accepted epoll_add s
  | connection i ↦ s
  | other i ↦ s
]

abbrev pub is_conn : Option ℕ → ℕ
is_conn none = 0
is_conn (some fd) = 1

abbrev pub open_count : (ℕ → Conn) → ℕ
open_count f = is_conn (f 0).sock + is_conn (f 1).sock + is_conn (f 2).sock

-- `maxevents` counts the open connections and the `base` of other events.
abbrev pub IsAccounted : ℤ → Server → Type 0
IsAccounted base s = s.monitors.maxevents ≡ base +ℤ pos (open_count s.data_sock)

free_below_sound :
    (n : ℕ) (f : ℕ → Conn) (i : ℕ) → free_below n f ≡ some i → (i < n) × ((f i).sock ≡ none)
unfolding free_below
free_below_sound zero f i h = cc
free_below_sound (suc n) f i h = elim (Option-cases (free_below n f)) [
  | inl e ↦ ground (arith, h, e, Option-cases (f n).sock)
  | inr (j, e) ↦ ground (arith, h, e, free_below_sound n f i)
]

free_below-none :
    (n : ℕ) (f : ℕ → Conn) (j : ℕ) → free_below n f ≡ none → j < n → is_open (f j).sock ≡ true
unfolding free_below
free_below-none zero f j h l = absurd (omega arith)
free_below-none (suc n) f j h l = elim (Option-cases (free_below n f)) [
  | inl e ↦ ground (arith, h, e, free_below-none n f j e, Bool-cases (is_open (f n).sock))
  | inr (k, e) ↦ absurd (ground (arith, h, e))
]

count-update :
    (i : ℕ) (f : ℕ → Conn) (c : Conn)
    → i < max_data_conn
    → open_count (update f i c) + is_conn (f i).sock ≡ open_count f + is_conn c.sock
count-update zero f c h = omega arith
count-update (suc zero) f c h = omega arith
count-update (suc (suc zero)) f c h = omega arith
count-update (suc (suc (suc i))) f c h = absurd (omega arith)

add_one : (x base : ℤ) (k : ℕ) → x ≡ base +ℤ pos k → x +ℤ pos 1 ≡ base +ℤ pos (k + 1)
add_one x base k e = rw e (eq_of_parts _ _ (omega int_laws))

drop_one : (x base : ℤ) (k : ℕ) → x ≡ base +ℤ pos (k + 1) → x +ℤ negsuc 0 ≡ base +ℤ pos k
drop_one x base k e = rw e (eq_of_parts _ _ (omega int_laws))

drop_base : (x base : ℤ) (k : ℕ) → x ≡ base +ℤ pos k → x +ℤ negsuc 0 ≡ base +ℤ negsuc 0 +ℤ pos k
drop_base x base k e = rw e (eq_of_parts _ _ (omega int_laws))

-- Writes to one connection: the last one counts.
count-twice :
    (i : ℕ) (f : ℕ → Conn) (c d : Conn)
    → i < max_data_conn
    → open_count (update (update f i c) i d) + is_conn (f i).sock ≡ open_count f + is_conn d.sock
count-twice zero f c d h = omega arith
count-twice (suc zero) f c d h = omega arith
count-twice (suc (suc zero)) f c d h = omega arith
count-twice (suc (suc (suc i))) f c d h = absurd (omega arith)

-- Closing an open connection.
close-IsAccounted :
    (base : ℤ) (i fd : ℕ) (s : Server)
    → i < max_data_conn
    → (s.data_sock i).sock ≡ some fd
    → IsAccounted base s
    → IsAccounted base (ctrl_data_close i s)
unfolding ctrl_data_close
close-IsAccounted base i fd s l e v =
    let c = record (s.data_sock i) { sock = none } in
    let u = rw e at (count-update i s.data_sock c l) in
    drop_one s.monitors.maxevents base (open_count (update s.data_sock i c))
      (v ∙ ap (λ (k : ℕ). base +ℤ pos k) (omega (arith, u)))

-- The base after a connection: one event too few is counted where epoll refuses an accepted one.
abbrev pub base_after : ℤ → Option ℕ → Bool → ℤ
base_after base none epoll_add = base
base_after base (some fd) true = base
base_after base (some fd) false = base +ℤ negsuc 0

connect-IsAccounted :
    (base : ℤ) (i : ℕ) (accepted : Option ℕ) (epoll_add : Bool) (s : Server)
    → i < max_data_conn
    → (s.data_sock i).sock ≡ none
    → IsAccounted base s
    → IsAccounted (base_after base accepted epoll_add) (connect i accepted epoll_add s)
unfolding connect ctrl_data_close
connect-IsAccounted base i none epoll_add s l e v =
    let c = record (s.data_sock i) { sock = none } in
    let u = rw e at (count-update i s.data_sock c l) in
    v ∙ ap (λ (k : ℕ). base +ℤ pos k) (omega (arith, u))
connect-IsAccounted base i (some fd) true s l e v =
    let old = s.data_sock i in
    let c = record old { sock = some fd } in
    let d = record old { sock = some fd; async_event_mask = λ bit. false } in
    let u = rw e at (count-twice i s.data_sock c d l) in
    add_one s.monitors.maxevents base (open_count s.data_sock) v
    ∙ ap (λ (k : ℕ). base +ℤ pos k) (omega (arith, u))
connect-IsAccounted base zero (some fd) false s l e v =
    drop_base s.monitors.maxevents base (open_count s.data_sock) v
    ∙ ap (λ (k : ℕ). base +ℤ negsuc 0 +ℤ pos k) (omega (arith, ap is_conn e))
connect-IsAccounted base (suc zero) (some fd) false s l e v =
    drop_base s.monitors.maxevents base (open_count s.data_sock) v
    ∙ ap (λ (k : ℕ). base +ℤ negsuc 0 +ℤ pos k) (omega (arith, ap is_conn e))
connect-IsAccounted base (suc (suc zero)) (some fd) false s l e v =
    drop_base s.monitors.maxevents base (open_count s.data_sock) v
    ∙ ap (λ (k : ℕ). base +ℤ negsuc 0 +ℤ pos k) (omega (arith, ap is_conn e))
connect-IsAccounted base (suc (suc (suc i))) (some fd) false s l e v = absurd (omega arith)

is_open-some : (o : Option ℕ) → is_open o ≡ true → (fd : ℕ) × (o ≡ some fd)
is_open-some none h = cc
is_open-some (some fd) h = (fd, refl)

pub close-other : (i j : ℕ) (s : Server) → j ≢ i → (ctrl_data_close i s).data_sock j ≡ s.data_sock j
unfolding ctrl_data_close
close-other i j s h = ground (arith, h)

close_self : (i : ℕ) (s : Server) → ((ctrl_data_close i s).data_sock i).sock ≡ none
unfolding ctrl_data_close
close_self i s = ground arith

-- All connections are closed where none is free.
close_all-IsAccounted :
    (base : ℤ) (s : Server)
    → ((j : ℕ) → j < max_data_conn → is_open (s.data_sock j).sock ≡ true)
    → IsAccounted base s
    → IsAccounted base (close_below max_data_conn s)
      × (((close_below max_data_conn s).data_sock 0).sock ≡ none)
unfolding close_below
close_all-IsAccounted base s up v =
    let (a, e) = is_open-some (s.data_sock 0).sock (up 0 (omega arith)) in
    let (b, f) = is_open-some (s.data_sock 1).sock (up 1 (omega arith)) in
    let (c, g) = is_open-some (s.data_sock 2).sock (up 2 (omega arith)) in
    let s₁ = ctrl_data_close 0 s in
    let s₂ = ctrl_data_close 1 s₁ in
    let f' : (s₁.data_sock 1).sock ≡ some b = rw (close-other 0 1 s (omega arith)) f in
    let g' : (s₂.data_sock 2).sock ≡ some c =
      rw (close-other 1 2 s₁ (omega arith), close-other 0 2 s (omega arith)) g in
    let v₁ = close-IsAccounted base 0 a s (omega arith) e v in
    let v₂ = close-IsAccounted base 1 b s₁ (omega arith) f' v₁ in
    (
      close-IsAccounted base 2 c s₂ (omega arith) g' v₂,
      rw (close-other 2 0 s₂ (omega arith), close-other 1 0 s₁ (omega arith)) (close_self 0 s),
    )

-- A new connection keeps `maxevents` equal to the number of the open connections and the other
-- events, also where it takes the place of three others or accept fails, except that one event too
-- few is counted where accept succeeds and epoll refuses the socket.
pub ctrl_connect_handler-IsAccounted :
    (base : ℤ) (accepted : Option ℕ) (epoll_add : Bool) (s : Server)
    → IsAccounted base s
    → IsAccounted (base_after base accepted epoll_add) (ctrl_connect_handler accepted epoll_add s)
unfolding ctrl_connect_handler get_free_dsock
ctrl_connect_handler-IsAccounted base accepted epoll_add s v =
    elim (Option-cases (free_below max_data_conn s.data_sock)) [
      | inl e ↦
          let w =
            close_all-IsAccounted base s (λ j l. free_below-none max_data_conn s.data_sock j e l)
              v in
          rw (e, ctrl_connect_handler, get_free_dsock)
            (connect-IsAccounted base 0 accepted epoll_add (close_below max_data_conn s)
              (omega arith) w.1 w.0)
      | inr (i, e) ↦
          let (l, free) = free_below_sound max_data_conn s.data_sock i e in
          rw (e, ctrl_connect_handler, get_free_dsock)
            (connect-IsAccounted base i accepted epoll_add s l free v)
    ]
