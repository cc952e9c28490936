-- ===== src/Monitors/Reinit.antt =====
-- lmkd.cpp: stopping the monitors, as a client's update of the properties does before they start
-- again, for both kinds of monitors.
use android_system_memory_lm.Base.{
  ℕ, ◌+◌, ◌≡◌, refl, ap, ◌∙◌, ◌+ℤ◌, arith, List, ◌∷◌, some, true, ◌==◌, if◌then◌else◌, ℤ, pos,
  count, erase, count-erase, update,
}
use android_system_memory_lm.Polling.{Level, level_number, low, medium, critical, super_critical}
use android_system_memory_lm.Monitors.{
  Kernel, Thresholds, Monitors, destroy_mp, init_psi_monitors, adopt_common, init_mp_common,
  destroy_monitors,
}
use android_system_memory_lm.Monitors.Counts.{IsCounted, destroy_mp-IsCounted, destroy_mp-gone}
use android_system_memory_lm.Monitors.Starts.{
  IsStopped, AllStarted, destroy_mp-elsewhere, critical-ne-medium, super-ne-medium,
  super-ne-critical, init_psi_monitors-AllStarted,
}

-- Stopping the PSI monitors leaves a well counted state in which none of their levels has a
-- descriptor, so that they may be started again: a start then either succeeds, or fails and leaves no
-- descriptor of a level and no event behind. Both counts are right throughout.
pub destroy_monitors-restart :
    (base : ℤ) (others : ℕ → ℕ) (kernel : Kernel) (t : Thresholds) (m : Monitors)
    → m.use_psi_monitors ≡ true
    → IsCounted base others m
    → IsCounted base others (destroy_monitors m)
      × IsStopped (destroy_monitors m)
      × AllStarted base others
          (destroy_monitors m)
          (init_psi_monitors kernel t (destroy_monitors m))
unfolding destroy_monitors
destroy_monitors-restart base others kernel t m psi v =
    let a = destroy_mp super_critical m in
    let b = destroy_mp critical a in
    let c = destroy_mp medium b in
    let w = destroy_mp-IsCounted base others medium b (
      destroy_mp-IsCounted base others critical a
        (destroy_mp-IsCounted base others super_critical m v)) in
    let stopped : IsStopped c = (
      destroy_mp-gone medium b,
      destroy_mp-elsewhere medium critical b critical-ne-medium ∙ destroy_mp-gone critical a,
      destroy_mp-elsewhere medium super_critical b super-ne-medium
          ∙ destroy_mp-elsewhere critical super_critical a super-ne-critical
          ∙ destroy_mp-gone super_critical m,
    ) in
    simp psi (w, stopped, init_psi_monitors-AllStarted base others kernel t c stopped w)

erase-two :
    (a f c q : ℕ) (xs : List ℕ)
    → count a (erase f (erase c (f ∷ c ∷ q ∷ xs))) ≡ count a xs + (if a == q then 1 else 0)
erase-two a f c q xs = ground (
  arith,
  count-erase a f (erase c (f ∷ c ∷ q ∷ xs)),
  count-erase a c (f ∷ c ∷ q ∷ xs),
  count-erase f c (f ∷ c ∷ q ∷ xs),
)

-- The state with the monitor up, with the descriptor of the level left in it.
abbrev watching : Level → ℕ → ℕ → ℕ → Monitors → Monitors
watching level mpfd evctlfd evfd m = record m {
  maxevents = m.maxevents +ℤ pos 1;
  mpevfd = update m.mpevfd (level_number level) (some evfd);
  open_fds = erase evctlfd (evfd ∷ evctlfd ∷ mpfd ∷ m.open_fds);
}

destroy_mp-watching :
    (level : Level) (mpfd evctlfd evfd : ℕ) (m : Monitors)
    → (destroy_mp level (watching level mpfd evctlfd evfd m)).open_fds
      ≡ erase evfd (erase evctlfd (evfd ∷ evctlfd ∷ mpfd ∷ m.open_fds))
unfolding destroy_mp level_number
destroy_mp-watching low mpfd evctlfd evfd m = refl
destroy_mp-watching medium mpfd evctlfd evfd m = refl
destroy_mp-watching critical mpfd evctlfd evfd m = refl
destroy_mp-watching super_critical mpfd evctlfd evfd m = refl

-- A monitor of the cgroup v1 hierarchy that was started and is stopped again leaves the descriptor of
-- its pressure level open, and no other: init_mp_common closes it only where it fails.
pub destroy_mp-init_mp_common :
    (kernel : Kernel) (level : Level) (m : Monitors) (mpfd evctlfd evfd : ℕ)
    → kernel.is_memcg_v1 ≡ true
    → kernel.pressure_level_open level ≡ some mpfd
    → kernel.event_control_open level ≡ some evctlfd
    → kernel.eventfd level ≡ some evfd
    → kernel.event_control_write level ≡ true
    → kernel.epoll_add evfd ≡ true
    → (a : ℕ)
    → count a (destroy_mp level (init_mp_common kernel level m).1).open_fds
      ≡ count a m.open_fds + (if a == mpfd then 1 else 0)
unfolding init_mp_common
destroy_mp-init_mp_common kernel level m mpfd evctlfd evfd v1 p c e w ok a =
    rw (v1, p, c, e, adopt_common, w, ok)
      (ap (count a) (destroy_mp-watching level mpfd evctlfd evfd m)
        ∙ erase-two a evfd evctlfd mpfd m.open_fds)
