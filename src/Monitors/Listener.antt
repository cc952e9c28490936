-- ===== src/Monitors/Listener.antt =====
-- lmkd.cpp: the listener of the memory events is independent of the other monitors.
use android_system_memory_lm.Base.{
  ℕ, ◌≡◌, refl, ◌∙◌, arith, Option, none, some, Bool, true, false, ℤ, pos, eqb_ℤ, Bool-cases,
  Option-cases, inl, inr,
}
use android_system_memory_lm.Polling.{Level, level_number, low, medium, critical, super_critical}
use android_system_memory_lm.Monitors.{
  Kernel, Thresholds, Monitors, init_psi_monitor, adopt_psi, init_mp_psi, adopt_common,
  init_mp_common, init_vmpressure, init_psi_monitors, init_monitors, destroy_monitors, destroy_mp,
  adopt_opened, then_init, finish_init, after_psi,
}

-- The monitors leave the listener alone.
listener-destroy_mp :
    (level : Level) (m : Monitors) → (destroy_mp level m).memevent_listener ≡ m.memevent_listener
unfolding destroy_mp
listener-destroy_mp level m = ground (arith, Option-cases (m.mpevfd (level_number level)))

listener-init_mp_common :
    (kernel : Kernel) (level : Level) (m : Monitors)
    → (init_mp_common kernel level m).1.memevent_listener ≡ m.memevent_listener
unfolding init_mp_common adopt_common
listener-init_mp_common kernel level m = ground (
  arith,
  Option-cases (kernel.pressure_level_open level),
  Option-cases (kernel.event_control_open level),
  Option-cases (kernel.eventfd level),
)

listener-adopt_psi :
    (kernel : Kernel) (level : Level) (fd : ℕ) (m : Monitors)
    → (adopt_psi kernel level fd m).1.memevent_listener ≡ m.memevent_listener
unfolding adopt_psi
listener-adopt_psi kernel level fd m = ground arith

listener-adopt_opened :
    (kernel : Kernel) (level : Level) (r : Option ℕ × Monitors)
    → (adopt_opened kernel level r).1.memevent_listener ≡ r.1.memevent_listener
listener-adopt_opened kernel level (none, m) = refl
listener-adopt_opened kernel level (some fd, m) = listener-adopt_psi kernel level fd m

listener-init_psi_monitor :
    (kernel : Kernel) (level : Level) (m : Monitors)
    → (init_psi_monitor kernel level m).1.memevent_listener ≡ m.memevent_listener
unfolding init_psi_monitor
listener-init_psi_monitor kernel level m = ground (arith, Option-cases (kernel.psi_open level))

listener-init_mp_psi :
    (kernel : Kernel) (threshold_ms : ℤ) (level : Level) (m : Monitors)
    → (init_mp_psi kernel threshold_ms level m).1.memevent_listener ≡ m.memevent_listener
unfolding init_mp_psi
listener-init_mp_psi kernel threshold_ms level m = elim (Bool-cases (eqb_ℤ threshold_ms (pos 0))) [
  | inl unset ↦ simp unset
  | inr set ↦ simp set (
      listener-adopt_opened kernel level (init_psi_monitor kernel level m)
      ∙ listener-init_psi_monitor kernel level m)
]

-- A start that keeps it goes on to one that keeps it.
then_init-kept :
    (l : Bool) (r : Bool × Monitors) (next : Monitors → Bool × Monitors)
    (undo : Monitors → Monitors)
    → r.1.memevent_listener ≡ l
    → ((a : Monitors) → a.memevent_listener ≡ l → (next a).1.memevent_listener ≡ l)
    → ((a : Monitors) → a.memevent_listener ≡ l → (undo a).memevent_listener ≡ l)
    → (then_init r next undo).1.memevent_listener ≡ l
then_init-kept l (true, m) next undo h n u = n m h
then_init-kept l (false, m) next undo h n u = u m h

listener-init_psi_monitors :
    (kernel : Kernel) (t : Thresholds) (m : Monitors)
    → (init_psi_monitors kernel t m).1.memevent_listener ≡ m.memevent_listener
unfolding init_psi_monitors
listener-init_psi_monitors kernel t m =
    let third : Monitors → Bool × Monitors = λ b.
      then_init (init_mp_psi kernel t.psi_complete_stall_scrit_ms super_critical b) (λ c. (true, c))
        (λ c. destroy_mp medium (destroy_mp critical c)) in
    let second : Monitors → Bool × Monitors = λ a.
      then_init (init_mp_psi kernel t.psi_complete_stall_ms critical a) third
        (λ b. destroy_mp medium b) in
    then_init-kept m.memevent_listener (init_mp_psi kernel t.psi_partial_stall_ms medium m) second
      (λ a. a) (listener-init_mp_psi kernel t.psi_partial_stall_ms medium m)
      (λ a h.
        then_init-kept m.memevent_listener (init_mp_psi kernel t.psi_complete_stall_ms critical a)
          third (λ b. destroy_mp medium b)
          (listener-init_mp_psi kernel t.psi_complete_stall_ms critical a ∙ h)
          (λ b k.
            then_init-kept m.memevent_listener
              (init_mp_psi kernel t.psi_complete_stall_scrit_ms super_critical b) (λ c. (true, c))
              (λ c. destroy_mp medium (destroy_mp critical c))
              (listener-init_mp_psi kernel t.psi_complete_stall_scrit_ms super_critical b ∙ k)
              (λ c j. j)
              (λ c j.
                listener-destroy_mp medium (destroy_mp critical c)
                ∙ listener-destroy_mp critical c
                ∙ j))
          (λ b k. listener-destroy_mp medium b ∙ k))
      (λ a h. h)

listener-init_vmpressure :
    (kernel : Kernel) (m : Monitors)
    → (init_vmpressure kernel m).1.memevent_listener ≡ m.memevent_listener
unfolding init_vmpressure
listener-init_vmpressure kernel m =
    let third : Monitors → Bool × Monitors = λ b. init_mp_common kernel critical b in
    let second : Monitors → Bool × Monitors =
      λ a. then_init (init_mp_common kernel medium a) third (λ b. b) in
    then_init-kept m.memevent_listener (init_mp_common kernel low m) second (λ a. a)
      (listener-init_mp_common kernel low m)
      (λ a h.
        then_init-kept m.memevent_listener (init_mp_common kernel medium a) third (λ b. b)
          (listener-init_mp_common kernel medium a ∙ h)
          (λ b k. listener-init_mp_common kernel critical b ∙ k) (λ b k. k))
      (λ a h. h)

listener-finish_init :
    (r : Bool × Monitors) → (finish_init r).1.memevent_listener ≡ r.1.memevent_listener
listener-finish_init (true, m) = refl
listener-finish_init (false, m) = refl

listener-after_psi :
    (kernel : Kernel) (r : Bool × Monitors)
    → (after_psi kernel r).1.memevent_listener ≡ r.1.memevent_listener
listener-after_psi kernel (true, m) = refl
listener-after_psi kernel (false, m) =
    let m' = record m { use_psi_monitors = false } in
    listener-finish_init (init_vmpressure kernel m') ∙ listener-init_vmpressure kernel m'

pub listener-init_monitors :
    (kernel : Kernel) (use_psi : Bool) (t : Thresholds) (m : Monitors)
    → (init_monitors kernel use_psi t m).1.memevent_listener ≡ m.memevent_listener
unfolding init_monitors
listener-init_monitors kernel true t m =
    listener-after_psi kernel (init_psi_monitors kernel t m) ∙ listener-init_psi_monitors kernel t m
listener-init_monitors kernel false t m = listener-after_psi kernel (false, m)

pub listener-destroy_monitors :
    (m : Monitors) → (destroy_monitors m).memevent_listener ≡ m.memevent_listener
unfolding destroy_monitors
listener-destroy_monitors m = elim (Bool-cases m.use_psi_monitors) [
  | inl psi ↦
      let a = destroy_mp super_critical m in
      simp psi (
        listener-destroy_mp medium (destroy_mp critical a)
        ∙ listener-destroy_mp critical a
        ∙ listener-destroy_mp super_critical m)
  | inr cgroup ↦
      let a = destroy_mp critical m in
      simp cgroup (
        listener-destroy_mp low (destroy_mp medium a)
        ∙ listener-destroy_mp medium a
        ∙ listener-destroy_mp critical m)
]
