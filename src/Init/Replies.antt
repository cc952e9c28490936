-- ===== src/Init/Replies.antt =====
-- lmkd.cpp: the commands that change the monitors, and the number of events.
use android_system_memory_lm.Base.{
  ℕ, ◌+◌, ◌≡◌, refl, sym, subst, arith, Bool, true, false, ◌&&◌, ◌||◌, not, ℤ, pos, negsuc, ◌+ℤ◌,
  ◌≤ℤ◌, eqb_ℤ, int_laws, eq_of_parts, update, Bool-cases, Option-cases, inl, inr,
}
use android_system_memory_lm.Monitors.{
  Monitors, Kernel, Thresholds, init_monitors, destroy_monitors, init_memevent_listener_monitoring,
}
use android_system_memory_lm.Monitors.Counts.{used}
use android_system_memory_lm.Monitors.Watched.{
  IsAdopted, AllFree, init_monitors-IsWatched, destroy_monitors-AllFree,
}
use android_system_memory_lm.Monitors.Listener.{listener-init_monitors, listener-destroy_monitors}
use android_system_memory_lm.Props.{Settings, update_props}
use android_system_memory_lm.Connections.{words, Conn, Server, Payload, ctrl_data_write}
use android_system_memory_lm.Connections.Events.{open_count}
use android_system_memory_lm.Connections.Commands.{
  Answers, Outcome, running, exited, undefined, reply, finish, handle_update_props,
  handle_start_monitoring, handle_boot_completed, answer_boot, restart_monitors, thresholds,
}
use android_system_memory_lm.Packet.{LmkdCtrlPacket}
use android_system_memory_lm.Init.MaxEvents.{is_listening, IsBounded, IsBoundedServer}

-- A reply changes nothing that is counted.
write_events :
    (written : ℤ) (i : ℕ) (buf : Payload) (n : ℕ) (s : Server)
    → ((ctrl_data_write written i buf n s).1.monitors ≡ s.monitors)
      × ((ctrl_data_write written i buf n s).1.data_sock ≡ s.data_sock)
unfolding ctrl_data_write
write_events written i buf n s =
    elim (Bool-cases (eqb_ℤ written (negsuc 0) || eqb_ℤ written (pos 0))) [
      | inl bad ↦ simp bad (refl, refl)
      | inr good ↦ simp good (refl, refl)
    ]

-- A server that goes on.
abbrev pub GoesOn : ℕ → Outcome → Type 0
GoesOn extra (running s) = IsBoundedServer extra s
GoesOn extra (exited s) = Unit {0}
GoesOn extra undefined = Unit {0}

pub reply-IsBounded :
    (extra : ℕ) (a : Answers) (i : ℕ) (p : LmkdCtrlPacket × ℕ) (s : Server)
    → IsBoundedServer extra s
    → IsBoundedServer extra (reply a i p s)
reply-IsBounded extra a i (packet, len) s v =
    let (m, f) = write_events a.written i (words packet) len s in
    subst (λ (g : ℕ → Conn). IsBounded extra g (reply a i (packet, len) s).monitors) (sym f)
      (subst (λ (w : Monitors). IsBounded extra s.data_sock w) (sym m) v)

finish-GoesOn :
    (extra : ℕ) (ok : Bool) (s : Server)
    → (ok ≡ true → IsBoundedServer extra s)
    → GoesOn extra (finish ok s)
unfolding finish
finish-GoesOn extra true s h = h refl
finish-GoesOn extra false s h = tt

-- Connections whose sockets are the same.
pub same_socks :
    (extra i : ℕ) (f : ℕ → Conn) (c : Conn) (m : Monitors)
    → c.sock ≡ (f i).sock
    → IsBounded extra f m
    → IsBounded extra (update f i c) m
same_socks extra i f c m e v = record {
  base = v.base;
  watched = v.watched;
  within =
      let same : open_count (update f i c) ≡ open_count f = ground (arith, e) in
      subst (λ (o : ℕ). v.base ≤ℤ pos (extra + o + is_listening m.memevent_listener)) (sym same)
        v.within;
}

pub started-IsBounded :
    (extra : ℕ) (f : ℕ → Conn) (kernel : Kernel) (use_psi : Bool) (t : Thresholds) (m : Monitors)
    (base : ℤ)
    → AllFree m
    → IsAdopted base m
    → base ≤ℤ pos (extra + open_count f + is_listening m.memevent_listener)
    → (init_monitors kernel use_psi t m).0 ≡ true
    → IsBounded extra f (init_monitors kernel use_psi t m).1
started-IsBounded extra f kernel use_psi t m base free v w ok = record {
  base = base;
  watched = init_monitors-IsWatched base kernel use_psi t m free v ok;
  within =
      subst (λ (l : Bool). base ≤ℤ pos (extra + open_count f + is_listening l))
        (sym (listener-init_monitors kernel use_psi t m)) w;
}

-- The monitors after new settings.
restart-IsBounded :
    (extra : ℕ) (f : ℕ → Conn) (a : Answers) (t : Settings) (m : Monitors)
    → IsBounded extra f m
    → (restart_monitors a t m).0 ≡ true
    → IsBounded extra f (restart_monitors a t m).1
unfolding restart_monitors
restart-IsBounded extra f a t m v ok =
    elim (Bool-cases (not t.use_inkernel_interface && m.monitors_initialized)) [
      | inr unused ↦ simp unused v
      | inl again ↦
          let (free, adopted) = destroy_monitors-AllFree v.base m v.watched in
          let same = listener-destroy_monitors m in
          simp again (
            started-IsBounded extra f a.kernel a.use_psi (thresholds t) (destroy_monitors m) v.base
              free adopted
              (subst (λ (l : Bool). v.base ≤ℤ pos (extra + open_count f + is_listening l))
                (sym same) v.within)
              (simp again at ok))
    ]

pub update_props-GoesOn :
    (extra : ℕ) (a : Answers) (i : ℕ) (packet : LmkdCtrlPacket) (s : Server)
    → IsBoundedServer extra s
    → GoesOn extra (handle_update_props a i packet s)
unfolding handle_update_props finish
update_props-GoesOn extra a i packet s v =
    let (accepted, t) = update_props a.properties s.settings in
    elim (Bool-cases accepted) [
      | inr refused ↦ simp refused tt
      | inl taken ↦ simp taken (
          finish-GoesOn extra (restart_monitors a t s.monitors).0 _ (λ ok.
            reply-IsBounded extra a i _ _
              (restart-IsBounded extra s.data_sock a t s.monitors v ok)))
    ]

pub start_monitoring-GoesOn :
    (extra : ℕ) (a : Answers) (s : Server)
    → IsBoundedServer extra s
    → GoesOn extra (handle_start_monitoring a s)
unfolding handle_start_monitoring
start_monitoring-GoesOn extra a s v = elim (Bool-cases s.monitors.monitors_initialized) [
  | inl done ↦ simp done v
  | inr todo ↦ elim (Bool-cases a.sys_boot_completed) [
    | inr down ↦ simp (todo, down) v
    | inl up ↦
        simp (todo, up)
          (finish-GoesOn extra
            (init_monitors a.kernel a.use_psi (thresholds s.settings) s.monitors).0 _
            (λ ok.
              started-IsBounded extra s.data_sock a.kernel a.use_psi (thresholds s.settings)
                s.monitors v.base (v.watched.waiting todo) v.watched.adopted v.within ok))
  ]
]

pub shifted : (x base : ℤ) (k : ℕ) → x ≡ base +ℤ pos k → x +ℤ pos 1 ≡ base +ℤ pos 1 +ℤ pos k
shifted x base k e = rw e (eq_of_parts _ _ (omega int_laws))

one_more : (base : ℤ) (n : ℕ) → base ≤ℤ pos (n + 0) → base +ℤ pos 1 ≤ℤ pos (n + 1)
one_more base n h = omega int_laws

listening-IsBounded :
    (extra : ℕ) (f : ℕ → Conn) (m : Monitors)
    → m.memevent_listener ≡ false
    → IsBounded extra f m
    → IsBounded extra f (record m { memevent_listener = true; maxevents = m.maxevents +ℤ pos 1 })
listening-IsBounded extra f m off v = record {
  base = v.base +ℤ pos 1;
  watched = record {
    adopted = record {
      others = v.watched.adopted.others;
      counted = record {
        events = shifted m.maxevents v.base (used m.mpevfd) v.watched.adopted.counted.events;
        fds = v.watched.adopted.counted.fds;
      };
    };
    waiting = v.watched.waiting;
    no_low = v.watched.no_low;
    no_super = v.watched.no_super;
  };
  within = let w = rw off at v.within in one_more v.base (extra + open_count f) w;
}

-- The listener is one more event, once.
listener-IsBounded :
    (extra : ℕ) (f : ℕ → Conn) (kernel : Kernel) (m : Monitors)
    → IsBounded extra f m
    → IsBounded extra f (init_memevent_listener_monitoring kernel m).1
unfolding init_memevent_listener_monitoring
listener-IsBounded extra f kernel m v = elim (Bool-cases m.memevent_listener) [
  | inl on ↦ simp on v
  | inr off ↦
      elim (Bool-cases (
        kernel.listener_ok && kernel.listener_registers_reclaim
        && kernel.listener_registers_kswapd)) [
          | inr bad ↦ simp (off, bad) v
          | inl good ↦ elim (Option-cases kernel.listener_fd) [
            | inl none_given ↦ simp (off, good, none_given) v
            | inr (fd, given) ↦ elim (Bool-cases (kernel.epoll_add fd)) [
              | inr refused ↦ simp (off, good, given, refused) v
              | inl added ↦ simp (off, good, given, added) (listening-IsBounded extra f m off v)
            ]
          ]
        ]
]

pub boot_completed-GoesOn :
    (extra : ℕ) (a : Answers) (i : ℕ) (packet : LmkdCtrlPacket) (s : Server)
    → IsBoundedServer extra s
    → GoesOn extra (handle_boot_completed a i packet s)
unfolding handle_boot_completed answer_boot
boot_completed-GoesOn extra a i packet s v = elim (Bool-cases s.boot_completed_handled) [
  | inl done ↦ simp done (reply-IsBounded extra a i _ s v)
  | inr todo ↦ elim (Bool-cases a.sys_boot_completed) [
    | inr down ↦ simp (todo, down) (reply-IsBounded extra a i _ s v)
    | inl up ↦
        simp (todo, up)
          (reply-IsBounded extra a i _ _
            (listener-IsBounded extra s.data_sock a.kernel s.monitors v))
  ]
]
