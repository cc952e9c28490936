-- ===== src/Monitors/Watched.antt =====
-- lmkd.cpp: which levels have a descriptor after a start and after a stop of the monitors, of both
-- kinds.
use android_system_memory_lm.Base.{
  ℕ, ◌+◌, ◌≡◌, ◌≢◌, refl, sym, ap, ◌∙◌, arith, ◌∷◌, none, some, Bool, true, false, ◌&&◌, ℤ,
  count-erase, update, Bool-cases, Option-cases, inl, inr,
}
use android_system_memory_lm.Polling.{Level, level_number, low, medium, critical, super_critical}
use android_system_memory_lm.Monitors.{
  Kernel, Thresholds, Monitors, adopt_common, init_mp_common, init_vmpressure, init_psi_monitors,
  init_monitors, destroy_monitors, destroy_mp, then_init, finish_init, after_psi,
}
use android_system_memory_lm.Monitors.Counts.{
  plus_one, used-update, used_as-update, is_fd, used, IsCounted, destroy_mp-IsCounted,
  destroy_mp-gone,
}
use android_system_memory_lm.Monitors.Starts.{
  IsStopped, destroy_mp-elsewhere, init_psi_monitors-AllStarted,
}

-- The monitors with their descriptors accounted for, and the levels that have none.
pub record IsAdopted (base : ℤ) (m : Monitors) : Type 0 where
  pub others : ℕ → ℕ
  pub counted : IsCounted base others m

-- One level of the cgroup v1 hierarchy.
adopt_common-IsAdopted :
    (base : ℤ) (kernel : Kernel) (level : Level) (mpfd evctlfd evfd : ℕ) (m : Monitors)
    → m.mpevfd (level_number level) ≡ none
    → IsAdopted base m
    → (adopt_common kernel level mpfd evctlfd evfd
        (record m { open_fds = evfd ∷ evctlfd ∷ mpfd ∷ m.open_fds })).0
      ≡ true
    → IsAdopted base
        (adopt_common kernel level mpfd evctlfd evfd
          (record m { open_fds = evfd ∷ evctlfd ∷ mpfd ∷ m.open_fds })).1
unfolding adopt_common
adopt_common-IsAdopted base kernel level mpfd evctlfd evfd m free v ok =
    elim (Bool-cases (kernel.event_control_write level && kernel.epoll_add evfd)) [
      | inr bad ↦ absurd (ground (arith, ok, bad))
      | inl good ↦ simp good (record {
        others = λ a. v.others a + is_fd a (some mpfd);
        counted = record {
          events =
              let u = rw free at (used-update level m.mpevfd (some evfd)) in
              plus_one m.maxevents base (used m.mpevfd)
                (used (update m.mpevfd (level_number level) (some evfd))) v.counted.events
                (omega (arith, u));
          fds = λ a.
              let u = rw free at (used_as-update level a m.mpevfd (some evfd)) in
              ground (
                arith,
                v.counted.fds a,
                u,
                count-erase a evctlfd (evfd ∷ evctlfd ∷ mpfd ∷ m.open_fds),
              );
        };
      })
    ]

-- What a start of one level that succeeds gives.
record Adopted (base : ℤ) (level : Level) (m m' : Monitors) : Type 0 where
  adopted : IsAdopted base m'
  elsewhere :
      (l : Level)
      → level_number l ≢ level_number level
      → m'.mpevfd (level_number l) ≡ m.mpevfd (level_number l)

adopt_common-elsewhere :
    (kernel : Kernel) (level l : Level) (mpfd evctlfd evfd : ℕ) (m : Monitors)
    → level_number l ≢ level_number level
    → (adopt_common kernel level mpfd evctlfd evfd m).0 ≡ true
    → (adopt_common kernel level mpfd evctlfd evfd m).1.mpevfd (level_number l)
      ≡ m.mpevfd (level_number l)
unfolding adopt_common
adopt_common-elsewhere kernel level l mpfd evctlfd evfd m h ok = ground (arith, h, ok)

init_mp_common-Adopted :
    (base : ℤ) (kernel : Kernel) (level : Level) (m : Monitors)
    → m.mpevfd (level_number level) ≡ none
    → IsAdopted base m
    → (init_mp_common kernel level m).0 ≡ true
    → Adopted base level m (init_mp_common kernel level m).1
unfolding init_mp_common
init_mp_common-Adopted base kernel level m free v ok = elim (Bool-cases kernel.is_memcg_v1) [
  | inr other ↦ absurd (ground (arith, ok, other))
  | inl v1 ↦ elim (Option-cases (kernel.pressure_level_open level)) [
    | inl e ↦ absurd (ground (arith, ok, v1, e))
    | inr (mpfd, e) ↦ elim (Option-cases (kernel.event_control_open level)) [
      | inl f ↦ absurd (ground (arith, ok, v1, e, f))
      | inr (evctlfd, f) ↦ elim (Option-cases (kernel.eventfd level)) [
        | inl g ↦ absurd (ground (arith, ok, v1, e, f, g))
        | inr (evfd, g) ↦
            let opened = record m { open_fds = evfd ∷ evctlfd ∷ mpfd ∷ m.open_fds } in
            let whole : init_mp_common kernel level m
                ≡ adopt_common kernel level mpfd evctlfd evfd opened =
              rw (v1, e, f, g) refl in
            let ok' = sym (ap (λ (r : Bool × Monitors). r.0) whole) ∙ ok in
            rw whole (record {
              adopted = adopt_common-IsAdopted base kernel level mpfd evctlfd evfd m free v ok';
              elsewhere =
                  λ l h. adopt_common-elsewhere kernel level l mpfd evctlfd evfd opened h ok';
            })
      ]
    ]
  ]
]

same_use_psi :
    (kernel : Kernel) (level : Level) (m : Monitors)
    → (init_mp_common kernel level m).1.use_psi_monitors ≡ m.use_psi_monitors
unfolding init_mp_common adopt_common
same_use_psi kernel level m = ground (
  arith,
  Option-cases (kernel.pressure_level_open level),
  Option-cases (kernel.event_control_open level),
  Option-cases (kernel.eventfd level),
)

then_init-ok :
    (r : Bool × Monitors) (next : Monitors → Bool × Monitors) (undo : Monitors → Monitors)
    → (then_init r next undo).0 ≡ true
    → (r.0 ≡ true) × (then_init r next undo ≡ next r.1)
then_init-ok (true, m) next undo h = (refl, refl)
then_init-ok (false, m) next undo h = cc

abbrev pub AllFree : Monitors → Type 0
AllFree m = (m.mpevfd (level_number low) ≡ none) × IsStopped m

-- The cgroup v1 monitors, all of them.
init_vmpressure-Adopted :
    (base : ℤ) (kernel : Kernel) (m : Monitors)
    → AllFree m
    → IsAdopted base m
    → (init_vmpressure kernel m).0 ≡ true
    → IsAdopted base (init_vmpressure kernel m).1
      × ((init_vmpressure kernel m).1.mpevfd (level_number super_critical) ≡ none)
      × ((init_vmpressure kernel m).1.use_psi_monitors ≡ m.use_psi_monitors)
unfolding init_vmpressure level_number
init_vmpressure-Adopted base kernel m (no_low, (no_medium, no_critical, no_super)) v ok =
    let next : Monitors → Bool × Monitors = λ a.
      then_init (init_mp_common kernel medium a) (λ b. init_mp_common kernel critical b) (λ b. b) in
    let (ok₁, e) = then_init-ok (init_mp_common kernel low m) next (λ a. a) ok in
    let a = (init_mp_common kernel low m).1 in
    let first = init_mp_common-Adopted base kernel low m no_low v ok₁ in
    let ok' = sym (ap (λ (r : Bool × Monitors). r.0) e) ∙ ok in
    let (ok₂, f) =
      then_init-ok (init_mp_common kernel medium a) (λ b. init_mp_common kernel critical b) (λ b. b)
        ok' in
    let b = (init_mp_common kernel medium a).1 in
    let second =
      init_mp_common-Adopted base kernel medium a (first.elsewhere medium (omega arith) ∙ no_medium)
        first.adopted ok₂ in
    let ok₃ = sym (ap (λ (r : Bool × Monitors). r.0) f) ∙ ok' in
    let third =
      init_mp_common-Adopted base kernel critical b
        (second.elsewhere critical (omega arith)
          ∙ first.elsewhere critical (omega arith)
          ∙ no_critical)
        second.adopted ok₃ in
    rw (e ∙ f) (
      third.adopted,
      third.elsewhere super_critical (omega arith)
          ∙ second.elsewhere super_critical (omega arith)
          ∙ first.elsewhere super_critical (omega arith)
          ∙ no_super,
      same_use_psi kernel critical b ∙ same_use_psi kernel medium a ∙ same_use_psi kernel low m,
    )

-- The levels that the monitors in use never start have no descriptor.
pub record IsWatched (base : ℤ) (m : Monitors) : Type 0 where
  pub adopted : IsAdopted base m
  pub waiting : m.monitors_initialized ≡ false → AllFree m
  pub no_low : m.use_psi_monitors ≡ true → m.mpevfd (level_number low) ≡ none
  pub no_super : m.use_psi_monitors ≡ false → m.mpevfd (level_number super_critical) ≡ none

finish_init-ok :
    (r : Bool × Monitors)
    → (finish_init r).0 ≡ true
    → (r.0 ≡ true) × (finish_init r ≡ (true, record r.1 { monitors_initialized = true }))
finish_init-ok (true, m) h = (refl, refl)
finish_init-ok (false, m) h = cc

repacked :
    (base : ℤ) (m : Monitors) (psi started : Bool)
    → IsAdopted base m
    → IsAdopted base (record m { use_psi_monitors = psi; monitors_initialized = started })
repacked base m psi started v = record {
  others = v.others;
  counted = record { events = v.counted.events; fds = v.counted.fds };
}

vmpressure-IsWatched :
    (base : ℤ) (kernel : Kernel) (m : Monitors)
    → m.use_psi_monitors ≡ false
    → AllFree m
    → IsAdopted base m
    → (finish_init (init_vmpressure kernel m)).0 ≡ true
    → IsWatched base (finish_init (init_vmpressure kernel m)).1
vmpressure-IsWatched base kernel m psi free v ok =
    let (good, e) = finish_init-ok (init_vmpressure kernel m) ok in
    let (adopted, no_super, same) = init_vmpressure-Adopted base kernel m free v good in
    let m' = (init_vmpressure kernel m).1 in
    rw e (record {
      adopted = repacked base m' m'.use_psi_monitors true adopted;
      waiting = λ h. absurd cc;
      no_low = λ h. absurd (ground (arith, h, same, psi));
      no_super = λ h. no_super;
    })

after_psi-IsWatched :
    (base : ℤ) (kernel : Kernel) (r : Bool × Monitors)
    → IsAdopted base r.1
    → r.1.mpevfd (level_number low) ≡ none
    → (r.0 ≡ false → IsStopped r.1)
    → (after_psi kernel r).0 ≡ true
    → IsWatched base (after_psi kernel r).1
after_psi-IsWatched base kernel (true, m) v no_low h ok = record {
  adopted = repacked base m true true v;
  waiting = λ h. absurd cc;
  no_low = λ h. no_low;
  no_super = λ h. absurd cc;
}
after_psi-IsWatched base kernel (false, m) v no_low h ok =
    vmpressure-IsWatched base kernel (record m { use_psi_monitors = false }) refl (no_low, h refl)
      (repacked base m false m.monitors_initialized v) ok

pub init_monitors-IsWatched :
    (base : ℤ) (kernel : Kernel) (use_psi : Bool) (t : Thresholds) (m : Monitors)
    → AllFree m
    → IsAdopted base m
    → (init_monitors kernel use_psi t m).0 ≡ true
    → IsWatched base (init_monitors kernel use_psi t m).1
unfolding init_monitors
init_monitors-IsWatched base kernel true t m (no_low, stopped) v ok =
    let r = init_psi_monitors kernel t m in
    let s = init_psi_monitors-AllStarted base v.others kernel t m stopped v.counted in
    after_psi-IsWatched base kernel r (record { others = v.others; counted = s.counted })
      (s.kept_low ∙ no_low) s.undone ok
init_monitors-IsWatched base kernel false t m (no_low, stopped) v ok =
    after_psi-IsWatched base kernel (false, m) v no_low (λ h. stopped) ok

-- All levels are free after a stop.
pub destroy_monitors-AllFree :
    (base : ℤ) (m : Monitors)
    → IsWatched base m
    → AllFree (destroy_monitors m) × IsAdopted base (destroy_monitors m)
unfolding destroy_monitors level_number
destroy_monitors-AllFree base m v = elim (Bool-cases m.use_psi_monitors) [
  | inl psi ↦
      let a = destroy_mp super_critical m in
      let b = destroy_mp critical a in
      let c = destroy_mp medium b in
      let w = destroy_mp-IsCounted base v.adopted.others medium b (
        destroy_mp-IsCounted base v.adopted.others critical a
          (destroy_mp-IsCounted base v.adopted.others super_critical m v.adopted.counted)) in
      simp psi (
        (
          destroy_mp-elsewhere medium low b (omega arith)
              ∙ destroy_mp-elsewhere critical low a (omega arith)
              ∙ destroy_mp-elsewhere super_critical low m (omega arith)
              ∙ v.no_low psi,
          (
            destroy_mp-gone medium b,
            destroy_mp-elsewhere medium critical b (omega arith) ∙ destroy_mp-gone critical a,
            destroy_mp-elsewhere medium super_critical b (omega arith)
                ∙ destroy_mp-elsewhere critical super_critical a (omega arith)
                ∙ destroy_mp-gone super_critical m,
          ),
        ),
        record { others = v.adopted.others; counted = w },
      )
  | inr cgroup ↦
      let a = destroy_mp critical m in
      let b = destroy_mp medium a in
      let c = destroy_mp low b in
      let w = destroy_mp-IsCounted base v.adopted.others low b (
        destroy_mp-IsCounted base v.adopted.others medium a
          (destroy_mp-IsCounted base v.adopted.others critical m v.adopted.counted)) in
      simp cgroup (
        (
          destroy_mp-gone low b,
          (
            destroy_mp-elsewhere low medium b (omega arith) ∙ destroy_mp-gone medium a,
            destroy_mp-elsewhere low critical b (omega arith)
                ∙ destroy_mp-elsewhere medium critical a (omega arith)
                ∙ destroy_mp-gone critical m,
            destroy_mp-elsewhere low super_critical b (omega arith)
                ∙ destroy_mp-elsewhere medium super_critical a (omega arith)
                ∙ destroy_mp-elsewhere critical super_critical m (omega arith)
                ∙ v.no_super cgroup,
          ),
        ),
        record { others = v.adopted.others; counted = w },
      )
]
