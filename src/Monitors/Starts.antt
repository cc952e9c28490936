-- ===== src/Monitors/Starts.antt =====
-- lmkd.cpp: the start of all PSI monitors, and its end where one of them fails.
use android_system_memory_lm.Base.{
  ℕ, ◌≡◌, ◌<◌, refl, ◌∙◌, arith, none, Bool, true, false, ℤ, Option-cases, ◌≢◌,
}
use android_system_memory_lm.Polling.{Level, level_number, low, medium, critical, super_critical}
use android_system_memory_lm.Monitors.{
  Kernel, Thresholds, Monitors, init_mp_psi, destroy_mp, init_psi_monitors, then_init,
}
use android_system_memory_lm.Monitors.Counts.{
  IsCounted, destroy_mp-IsCounted, destroy_mp-gone, init_mp_psi-Started,
}

-- No level of the PSI monitors has a descriptor.
abbrev pub IsStopped : Monitors → Type 0
IsStopped m =
    (m.mpevfd (level_number medium) ≡ none)
    × (m.mpevfd (level_number critical) ≡ none)
    × (m.mpevfd (level_number super_critical) ≡ none)

-- What a start of all levels gives.
pub record AllStarted (base : ℤ) (others : ℕ → ℕ) (m : Monitors) (r : Bool × Monitors)
    : Type 0 where
  pub counted : IsCounted base others r.1
  pub kept_low : r.1.mpevfd (level_number low) ≡ m.mpevfd (level_number low)
  pub undone : r.0 ≡ false → IsStopped r.1

pub destroy_mp-elsewhere :
    (level l : Level) (m : Monitors)
    → level_number l ≢ level_number level
    → (destroy_mp level m).mpevfd (level_number l) ≡ m.mpevfd (level_number l)
unfolding destroy_mp
destroy_mp-elsewhere level l m h = ground (arith, Option-cases (m.mpevfd (level_number level)))

then_init-either :
    (P : Bool × Monitors → Type 0) (r : Bool × Monitors) (next : Monitors → Bool × Monitors)
    (undo : Monitors → Monitors)
    → (r.0 ≡ true → P (next r.1))
    → (r.0 ≡ false → P (false, undo r.1))
    → P (then_init r next undo)
then_init-either P (true, m) next undo f g = f refl
then_init-either P (false, m) next undo f g = g refl

-- The numbers of two levels differ.
pub critical-ne-medium : level_number critical ≢ level_number medium
unfolding level_number
critical-ne-medium h = absurd (omega (arith, h))

pub super-ne-medium : level_number super_critical ≢ level_number medium
unfolding level_number
super-ne-medium h = absurd (omega (arith, h))

pub super-ne-critical : level_number super_critical ≢ level_number critical
unfolding level_number
super-ne-critical h = absurd (omega (arith, h))

low-ne-above : (l : Level) → 0 < level_number l → level_number low ≢ level_number l
unfolding level_number
low-ne-above l p h = absurd (omega (arith, h))

module _ (base : ℤ) (others : ℕ → ℕ) (kernel : Kernel) (t : Thresholds) where
  -- With the first two levels up.
  third-AllStarted :
      (b : Monitors)
      → b.mpevfd (level_number super_critical) ≡ none
      → IsCounted base others b
      → AllStarted base others b (
          then_init
            (init_mp_psi kernel t.psi_complete_stall_scrit_ms super_critical b)
            (λ c. (true, c))
            (λ c. destroy_mp medium (destroy_mp critical c)))
  unfolding level_number
  third-AllStarted b free v =
      let r = init_mp_psi kernel t.psi_complete_stall_scrit_ms super_critical b in
      let s =
        init_mp_psi-Started base others kernel t.psi_complete_stall_scrit_ms super_critical b free
          v in
      let one = destroy_mp critical r.1 in
      let kept = s.elsewhere low (low-ne-above super_critical (omega arith)) in
      then_init-either (AllStarted base others b) r (λ c. (true, c))
        (λ c. destroy_mp medium (destroy_mp critical c))
        (λ ok. record { counted = s.counted; kept_low = kept; undone = λ h. cc })
        (λ bad. record {
          counted =
              destroy_mp-IsCounted base others medium one
                (destroy_mp-IsCounted base others critical r.1 s.counted);
          kept_low =
              destroy_mp-elsewhere medium low one (low-ne-above medium (omega arith))
              ∙ destroy_mp-elsewhere critical low r.1 (low-ne-above critical (omega arith))
              ∙ kept;
          undone = λ h. (
            destroy_mp-gone medium one,
            destroy_mp-elsewhere medium critical one critical-ne-medium
                ∙ destroy_mp-gone critical r.1,
            destroy_mp-elsewhere medium super_critical one super-ne-medium
                ∙ destroy_mp-elsewhere critical super_critical r.1 super-ne-critical
                ∙ s.failed bad
                ∙ free,
          );
        })

  -- With the first level up.
  second-AllStarted :
      (a : Monitors)
      → a.mpevfd (level_number critical) ≡ none
      → a.mpevfd (level_number super_critical) ≡ none
      → IsCounted base others a
      → AllStarted base others a (
          then_init
            (init_mp_psi kernel t.psi_complete_stall_ms critical a)
            (λ b.
              then_init
                (init_mp_psi kernel t.psi_complete_stall_scrit_ms super_critical b)
                (λ c. (true, c))
                (λ c. destroy_mp medium (destroy_mp critical c)))
            (λ b. destroy_mp medium b))
  unfolding level_number
  second-AllStarted a free free' v =
      let r = init_mp_psi kernel t.psi_complete_stall_ms critical a in
      let s = init_mp_psi-Started base others kernel t.psi_complete_stall_ms critical a free v in
      let kept = s.elsewhere low (low-ne-above critical (omega arith)) in
      let super = s.elsewhere super_critical super-ne-critical ∙ free' in
      then_init-either (AllStarted base others a) r
        (λ b.
          then_init (init_mp_psi kernel t.psi_complete_stall_scrit_ms super_critical b)
            (λ c. (true, c)) (λ c. destroy_mp medium (destroy_mp critical c)))
        (λ b. destroy_mp medium b)
        (λ ok.
          let w = third-AllStarted r.1 super s.counted in
          record { counted = w.counted; kept_low = w.kept_low ∙ kept; undone = w.undone })
        (λ bad. record {
          counted = destroy_mp-IsCounted base others medium r.1 s.counted;
          kept_low = destroy_mp-elsewhere medium low r.1 (low-ne-above medium (omega arith)) ∙ kept;
          undone = λ h. (
            destroy_mp-gone medium r.1,
            destroy_mp-elsewhere medium critical r.1 critical-ne-medium ∙ s.failed bad ∙ free,
            destroy_mp-elsewhere medium super_critical r.1 super-ne-medium ∙ super,
          );
        })

  pub init_psi_monitors-AllStarted :
      (m : Monitors)
      → IsStopped m
      → IsCounted base others m
      → AllStarted base others m (init_psi_monitors kernel t m)
  unfolding init_psi_monitors level_number
  init_psi_monitors-AllStarted m (free, free', free'') v =
      let r = init_mp_psi kernel t.psi_partial_stall_ms medium m in
      let s = init_mp_psi-Started base others kernel t.psi_partial_stall_ms medium m free v in
      let kept = s.elsewhere low (low-ne-above medium (omega arith)) in
      let crit = s.elsewhere critical critical-ne-medium ∙ free' in
      let super = s.elsewhere super_critical super-ne-medium ∙ free'' in
      then_init-either (AllStarted base others m) r
        (λ a.
          then_init (init_mp_psi kernel t.psi_complete_stall_ms critical a)
            (λ b.
              then_init (init_mp_psi kernel t.psi_complete_stall_scrit_ms super_critical b)
                (λ c. (true, c)) (λ c. destroy_mp medium (destroy_mp critical c)))
            (λ b. destroy_mp medium b))
        (λ a. a)
        (λ ok.
          let w = second-AllStarted r.1 crit super s.counted in
          record { counted = w.counted; kept_low = w.kept_low ∙ kept; undone = w.undone })
        (λ bad. record {
          counted = s.counted;
          kept_low = kept;
          undone = λ h. (s.failed bad ∙ free, crit, super);
        })
