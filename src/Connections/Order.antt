-- ===== src/Connections/Order.antt =====
-- lmkd.cpp: in which order `mainloop` handles the events of one wait, and what that means for a client
-- that drops its connection and connects again.
use android_system_memory_lm.Base.{
  ℕ, zero, suc, ◌<◌, ◌≡◌, ◌≢◌, refl, ◌∙◌, arith, List, [], ◌∷◌, none, some, Bool, true, false,
  if◌then◌else◌, Bool-cases, inl, inr,
}
use android_system_memory_lm.Connections.{
  Conn, Server, max_data_conn, is_open, ctrl_data_close, free_below, get_free_dsock, connect,
  ctrl_connect_handler,
}
use android_system_memory_lm.Connections.Events.{
  Event, listening, connection, source_data, close_dropped, handle_others, handle_events,
  handle_connect, close-other,
}

-- The hang-ups of one wait, by the index of their handler, and the other events, each in their order.
abbrev dropped : List Event → List ℕ
dropped [] = []
dropped (e ∷ es) = if e.hangup then source_data e.source ∷ dropped es else dropped es

abbrev others : List Event → List Event
others [] = []
others (e ∷ es) = if e.hangup then others es else e ∷ others es

close_each : List ℕ → Server → Server
close_each [] s = s
close_each (i ∷ is) s = close_each is (ctrl_data_close i s)

close_dropped-each : (es : List Event) (s : Server) → close_dropped es s ≡ close_each (dropped es) s
unfolding close_dropped close_each
close_dropped-each [] s = refl
close_dropped-each (e ∷ es) s = elim (Bool-cases e.hangup) [
  | inl h ↦ rw h (close_dropped-each es (ctrl_data_close (source_data e.source) s))
  | inr h ↦ rw h (close_dropped-each es s)
]

module _ (handle : Event → Server → Server) where
  handle_each : List Event → Server → Server
  handle_each [] s = s
  handle_each (e ∷ es) s = handle_each es (handle e s)

  handle_others-each :
      (es : List Event) (s : Server) → handle_others handle es s ≡ handle_each (others es) s
  unfolding handle_others handle_each
  handle_others-each [] s = refl
  handle_others-each (e ∷ es) s = elim (Bool-cases e.hangup) [
    | inl h ↦ simp (h, handle_others-each es s)
    | inr h ↦ simp (h, handle_others-each es (handle e s))
  ]

  -- If two waits give the same hang-ups in the same order and the same other events in the same
  -- order, then they have the same effect, however the two kinds are mixed.
  handle_events-order :
      (es es' : List Event) (s : Server)
      → dropped es ≡ dropped es'
      → others es ≡ others es'
      → handle_events handle es s ≡ handle_events handle es' s
  unfolding handle_events
  handle_events-order es es' s h o =
      rw
        (
          handle_others-each es (close_dropped es s),
          handle_others-each es' (close_dropped es' s),
          close_dropped-each es s,
          close_dropped-each es' s,
          h,
          o,
        )
        refl

-- The hang-up of a data connection and a new connection, in either order.
abbrev pub hang_up : ℕ → Event
hang_up i = record { hangup = true; source = connection i }

abbrev pub arrival : Event
arrival = record { hangup = false; source = listening }

abbrev pub reconnect : Bool → ℕ → List Event
reconnect true i = hang_up i ∷ arrival ∷ []
reconnect false i = arrival ∷ hang_up i ∷ []

free_below-past :
    (i : ℕ) (f : ℕ → Conn)
    → free_below i f ≡ none
    → is_open (f i).sock ≡ true
    → free_below (suc i) f ≡ none
unfolding free_below
free_below-past i f h o = rw (h, o) refl

free_below-at :
    (i : ℕ) (f : ℕ → Conn)
    → free_below i f ≡ none
    → is_open (f i).sock ≡ false
    → free_below (suc i) f ≡ some i
unfolding free_below
free_below-at i f h o = rw (h, o) refl

free_below-kept : (i j : ℕ) (f : ℕ → Conn) → free_below i f ≡ some j → free_below (suc i) f ≡ some j
unfolding free_below
free_below-kept i j f h = rw h refl

-- The connection that was closed is the free one.
free_below-closed :
    (i : ℕ) (s : Server)
    → i < max_data_conn
    → ((j : ℕ) → j < max_data_conn → is_open (s.data_sock j).sock ≡ true)
    → free_below max_data_conn (ctrl_data_close i s).data_sock ≡ some i
unfolding free_below ctrl_data_close
free_below-closed zero s l up = refl
free_below-closed (suc zero) s l up =
    let f = (ctrl_data_close 1 s).data_sock in
    free_below-kept 2 1 f (free_below-at 1 f (free_below-past 0 f refl (up 0 (omega arith))) refl)
free_below-closed (suc (suc zero)) s l up =
    let f = (ctrl_data_close 2 s).data_sock in
    let first = free_below-past 0 f refl (up 0 (omega arith)) in
    free_below-at 2 f (free_below-past 1 f first (up 1 (omega arith))) refl
free_below-closed (suc (suc (suc i))) s l up = absurd (omega arith)

connect_self : (i fd : ℕ) (s : Server) → ((connect i (some fd) true s).data_sock i).sock ≡ some fd
unfolding connect
connect_self i fd s = ground arith

connect-other :
    (i fd j : ℕ) (s : Server) → j ≢ i → (connect i (some fd) true s).data_sock j ≡ s.data_sock j
unfolding connect
connect-other i fd j s h = ground (arith, h)

-- Either order comes to the same.
reconnect-connect :
    (hangup_first : Bool) (i fd : ℕ) (s : Server)
    → i < max_data_conn
    → ((j : ℕ) → j < max_data_conn → is_open (s.data_sock j).sock ≡ true)
    → handle_events (handle_connect (some fd) true) (reconnect hangup_first i) s
      ≡ connect i (some fd) true (ctrl_data_close i s)
unfolding handle_events close_dropped handle_others handle_connect ctrl_connect_handler connect
reconnect-connect true i fd s l up =
    rw (ctrl_connect_handler, get_free_dsock, free_below-closed i s l up) refl
reconnect-connect false i fd s l up =
    rw (ctrl_connect_handler, get_free_dsock, free_below-closed i s l up) refl

-- If all connections are in use and one hangs up in the wait in which a new one arrives, then, in
-- either order of the two events, the new one takes the place of the lost one, and the other
-- connections keep their sockets and subscriptions.
pub handle_events_reconnects :
    (hangup_first : Bool) (i fd : ℕ) (s : Server)
    → i < max_data_conn
    → ((j : ℕ) → j < max_data_conn → is_open (s.data_sock j).sock ≡ true)
    → let s' = handle_events (handle_connect (some fd) true) (reconnect hangup_first i) s in
      ((s'.data_sock i).sock ≡ some fd) × ((j : ℕ) → j ≢ i → s'.data_sock j ≡ s.data_sock j)
handle_events_reconnects first i fd s l up =
    let s₁ = ctrl_data_close i s in
    rw (reconnect-connect first i fd s l up)
      (connect_self i fd s₁, λ j h. connect-other i fd j s₁ h ∙ close-other i j s h)
