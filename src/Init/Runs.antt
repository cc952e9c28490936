-- ===== src/Init/Runs.antt =====
-- lmkd.cpp: `maxevents` from `init` on, through every sequence of connections, hang-ups and commands.
use android_system_memory_lm.Base.{
  ℕ, suc, ◌+◌, ◌≡◌, refl, subst, arith, Option, none, some, Bool, true, false, ◌&&◌, ◌||◌, not, ℤ,
  pos, ◌+ℤ◌, ◌≤ℤ◌, int_laws, eq_of_parts, count, Bool-cases, inl, inr,
}
use android_system_memory_lm.Monitors.{Monitors, init_monitors}
use android_system_memory_lm.Monitors.Counts.{used, used_as}
use android_system_memory_lm.Monitors.Watched.{AllFree}
use android_system_memory_lm.Polling.{level_number}
use android_system_memory_lm.Connections.{Server, add_events, ctrl_data_close, ctrl_connect_handler}
use android_system_memory_lm.Connections.Commands.{
  Answers, running, ctrl_command_handler, thresholds,
}
use android_system_memory_lm.Connections.Events.{open_count}
use android_system_memory_lm.Init.{
  Boot, with_control, init_events, finish_init, init, init_reaper, monitored,
}
use android_system_memory_lm.Init.MaxEvents.{
  max_epoll_events, is_listening, IsBounded, IsBounded-le, IsBoundedServer,
  ctrl_connect_handler-IsBounded, ctrl_data_close-IsBounded,
}
use android_system_memory_lm.Init.Replies.{GoesOn, started-IsBounded, shifted}
use android_system_memory_lm.Init.Commands.{ctrl_command_handler-GoesOn}

-- What the main loop does to the server.
pub data Step : Server → Server → Type 0 where
  connects :
      {s : Server} (accepted : Option ℕ) (epoll_add : Bool)
      → Step s (ctrl_connect_handler accepted epoll_add s)
  hangs_up : {s : Server} (i : ℕ) → Step s (ctrl_data_close i s)
  commands :
      {s s' : Server} (a : Answers) (i : ℕ) → ctrl_command_handler a i s ≡ running s' → Step s s'

pub data Runs : Server → Server → Type 0 where
  start : {s : Server} → Runs s s
  step : {s t u : Server} → Runs s t → Step t u → Runs s u

Step-IsBounded :
    (extra : ℕ) (s t : Server) → Step s t → IsBoundedServer extra s → IsBoundedServer extra t
Step-IsBounded extra s t (connects accepted epoll_add) v =
    ctrl_connect_handler-IsBounded extra accepted epoll_add s v
Step-IsBounded extra s t (hangs_up i) v = ctrl_data_close-IsBounded extra i s v
Step-IsBounded extra s t (commands a i e) v =
    subst (GoesOn extra) e (ctrl_command_handler-GoesOn extra a i s v)

Runs-IsBounded :
    (extra : ℕ) (s t : Server) → Runs s t → IsBoundedServer extra s → IsBoundedServer extra t
Runs-IsBounded extra s t start v = v
Runs-IsBounded extra s t (step r h) v = Step-IsBounded extra _ t h (Runs-IsBounded extra s _ r v)

-- The static state before init, in which nothing is watched.
pub record IsFresh (s : Server) : Type 0 where
  pub events : s.monitors.maxevents ≡ pos 0
  pub free : AllFree s.monitors
  pub stopped : s.monitors.monitors_initialized ≡ false
  pub quiet : s.monitors.memevent_listener ≡ false

used-free : (m : Monitors) → AllFree m → used m.mpevfd ≡ 0
unfolding level_number
used-free m (a, (b, c, d)) = rw (a, b, c, d) refl

used_as-free : (m : Monitors) (fd : ℕ) → AllFree m → used_as fd m.mpevfd ≡ 0
unfolding level_number
used_as-free m fd (a, (b, c, d)) = rw (a, b, c, d) refl

one_event : (x : ℤ) (u : ℕ) → x ≡ pos 0 → u ≡ 0 → x +ℤ pos 1 ≡ pos 1 +ℤ pos u
one_event x u e h = rw (e, h) (eq_of_parts _ _ (omega int_laws))

with_control-IsBounded : (b : Boot) (s : Server) → IsFresh s → IsBoundedServer 1 (with_control b s)
unfolding with_control
with_control-IsBounded b s h =
    let m = s.monitors in
    record {
      base = pos 1;
      watched = record {
        adopted = record {
          others = λ a. count a m.open_fds;
          counted = record {
            events = one_event m.maxevents (used m.mpevfd) h.events (used-free m h.free);
            fds = λ a. omega (arith, used_as-free m a h.free);
          };
        };
        waiting = λ e. h.free;
        no_low = λ e. h.free.0;
        no_super = λ e. h.free.1.2;
      };
      within = omega arith;
    }

one_above : (base : ℤ) (e o l : ℕ) → base ≤ℤ pos (e + o + l) → base +ℤ pos 1 ≤ℤ pos (suc e + o + l)
one_above base e o l h = omega int_laws

more-IsBounded :
    (extra : ℕ) (s : Server)
    → IsBoundedServer extra s
    → IsBoundedServer (suc extra) (add_events (pos 1) s)
more-IsBounded extra s v =
    let m = s.monitors in
    record {
      base = v.base +ℤ pos 1;
      watched = record {
        adopted = record {
          others = v.watched.adopted.others;
          counted = record {
            events = shifted m.maxevents v.base (used m.mpevfd) v.watched.adopted.counted.events;
            fds = v.watched.adopted.counted.fds;
          };
        };
        waiting = v.watched.waiting;
        no_low = v.watched.no_low;
        no_super = v.watched.no_super;
      };
      within =
          one_above v.base extra (open_count s.data_sock) (is_listening m.memevent_listener)
            v.within;
    }

weaker-IsBounded :
    (extra : ℕ) (s : Server) → IsBoundedServer extra s → IsBoundedServer (suc extra) s
weaker-IsBounded extra s v = record {
  base = v.base;
  watched = v.watched;
  within = omega (arith, v.within);
}

-- The daemon ends, or goes on with a server that is bounded.
abbrev IfStarted : ℕ → Option Server → Type 0
IfStarted extra none = Unit {0}
IfStarted extra (some s) = IsBoundedServer extra s

monitored-IfStarted :
    (extra : ℕ) (s : Server) (r : Bool × Monitors)
    → (r.0 ≡ true → IsBounded extra s.data_sock r.1)
    → IfStarted extra (monitored s r)
monitored-IfStarted extra s (true, m) h = h refl
monitored-IfStarted extra s (false, m) h = tt

init_events-IfStarted :
    (b : Boot) (s : Server)
    → s.monitors.monitors_initialized ≡ false
    → IsBoundedServer 1 s
    → IfStarted 2 (init_events b s)
unfolding init_events
init_events-IfStarted b s off v = elim (Bool-cases s.settings.use_inkernel_interface) [
  | inl kernel ↦ elim (Bool-cases (b.poll_kernel && b.epoll_add_kernel)) [
    | inl polled ↦ simp (kernel, polled) (more-IsBounded 1 s v)
    | inr unpolled ↦ simp (kernel, unpolled) (weaker-IsBounded 1 s v)
  ]
  | inr user ↦
      elim (Bool-cases (not s.settings.delay_monitors_until_boot || b.sys_boot_completed)) [
        | inr later ↦ simp (user, later) (weaker-IsBounded 1 s v)
        | inl now ↦
            let t = thresholds s.settings in
            let w = weaker-IsBounded 1 s v in
            simp (user, now)
              (monitored-IfStarted 2 s (init_monitors b.kernel b.use_psi t s.monitors) (λ ok.
                started-IsBounded 2 s.data_sock b.kernel b.use_psi t s.monitors w.base
                  (w.watched.waiting off) w.watched.adopted w.within ok))
      ]
]

abbrev IfInit : ℕ → Option (Bool × Server) → Type 0
IfInit extra none = Unit {0}
IfInit extra (some (pidfd_supported, s)) = IsBoundedServer extra s

finish_init-IfInit :
    (extra : ℕ) (b : Boot) (o : Option Server) → IfStarted extra o → IfInit extra (finish_init b o)
finish_init-IfInit extra b none v = tt
finish_init-IfInit extra b (some s) v = elim (Bool-cases b.init_hook) [
  | inl ok ↦ simp ok v
  | inr bad ↦ simp bad tt
]

still_off :
    (b : Boot) (s : Server) → IsFresh s → (with_control b s).monitors.monitors_initialized ≡ false
unfolding with_control
still_off b s h = h.stopped

init-IfInit : (b : Boot) (s : Server) → IsFresh s → IfInit 2 (init b s)
unfolding init
init-IfInit b s h =
    elim (Bool-cases (b.epoll_create && b.control_socket && b.listens && b.epoll_add_control)) [
      | inl ok ↦ simp ok (
          finish_init-IfInit 2 b (init_events b (with_control b s)) (
            init_events-IfStarted b (with_control b s) (still_off b s h)
              (with_control-IsBounded b s h)))
      | inr bad ↦ simp bad tt
    ]

init_reaper-IsBounded :
    (supported pipe epoll_add threads : Bool) (s : Server)
    → IsBoundedServer 2 s
    → IsBoundedServer 3 (init_reaper supported pipe epoll_add threads s).1
unfolding init_reaper
init_reaper-IsBounded supported pipe epoll_add threads s v =
    elim (Bool-cases (supported && pipe && epoll_add && threads)) [
      | inl ok ↦ simp ok (more-IsBounded 2 s v)
      | inr bad ↦ simp bad (weaker-IsBounded 2 s v)
    ]

-- If init succeeds from the static state, then after init_reaper and any sequence of connections,
-- hang-ups and commands maxevents is at most MAX_EPOLL_EVENTS - 1, so that epoll_wait, which with the
-- event of a kill that is waited for is told one more at most, writes within its array.
pub maxevents_bound :
    (b : Boot) (supported pipe epoll_add threads pidfd_supported : Bool) (s s₀ t : Server)
    → IsFresh s
    → init b s ≡ some (pidfd_supported, s₀)
    → Runs (init_reaper supported pipe epoll_add threads s₀).1 t
    → t.monitors.maxevents +ℤ pos 1 ≤ℤ pos max_epoll_events
maxevents_bound b supported pipe epoll_add threads pidfd_supported s s₀ t fresh done runs =
    let v = subst (IfInit 2) done (init-IfInit b s fresh) in
    let w = init_reaper-IsBounded supported pipe epoll_add threads s₀ v in
    IsBounded-le 3 t.data_sock t.monitors (omega arith)
      (Runs-IsBounded 3 (init_reaper supported pipe epoll_add threads s₀).1 t runs w)
