-- ===== src/Monitors/Counts.antt =====
-- lmkd.cpp: the accounting of the monitors. Every open descriptor is that of a level, and
-- `maxevents` counts the levels that have one.
use android_system_memory_lm.Base.{
  ℕ, ◌+◌, ◌≡◌, refl, arith, List, ◌∷◌, Option, none, some, Bool, true, false, ◌==◌, if◌then◌else◌,
  ℤ, pos, ◌+ℤ◌, ◌-ℤ◌, int_laws, count, erase, count-erase, update, eqb_ℤ, eq_of_parts, Option-cases,
  Bool-cases, ◌≢◌, inl, inr,
}
use android_system_memory_lm.Polling.{Level, level_number, low, medium, critical, super_critical}
use android_system_memory_lm.Monitors.{
  Kernel, Monitors, init_psi_monitor, adopt_psi, init_mp_psi, destroy_mp,
}

-- One for a descriptor, and one for this descriptor.
abbrev pub is_some : Option ℕ → ℕ
is_some none = 0
is_some (some fd) = 1

abbrev pub is_fd : ℕ → Option ℕ → ℕ
is_fd a none = 0
is_fd a (some fd) = if fd == a then 1 else 0

-- The levels that have a descriptor, and how many of them have this one.
abbrev pub used : (ℕ → Option ℕ) → ℕ
used f = is_some (f 0) + is_some (f 1) + is_some (f 2) + is_some (f 3)

abbrev pub used_as : ℕ → (ℕ → Option ℕ) → ℕ
used_as a f = is_fd a (f 0) + is_fd a (f 1) + is_fd a (f 2) + is_fd a (f 3)

-- `others` are the descriptors and `base` the events that are not those of a level.
pub record IsCounted (base : ℤ) (others : ℕ → ℕ) (m : Monitors) : Type 0 where
  pub events : m.maxevents ≡ base +ℤ pos (used m.mpevfd)
  pub fds : (a : ℕ) → count a m.open_fds ≡ others a + used_as a m.mpevfd

pub used-update :
    (level : Level) (f : ℕ → Option ℕ) (o : Option ℕ)
    → used (update f (level_number level) o) + is_some (f (level_number level)) ≡ used f + is_some o
unfolding level_number
used-update low f o = omega arith
used-update medium f o = omega arith
used-update critical f o = omega arith
used-update super_critical f o = omega arith

pub used_as-update :
    (level : Level) (a : ℕ) (f : ℕ → Option ℕ) (o : Option ℕ)
    → used_as a (update f (level_number level) o) + is_fd a (f (level_number level))
      ≡ used_as a f + is_fd a o
unfolding level_number
used_as-update low a f o = omega arith
used_as-update medium a f o = omega arith
used_as-update critical a f o = omega arith
used_as-update super_critical a f o = omega arith

minus_one : (x base : ℤ) (k k' : ℕ) → x ≡ base +ℤ pos k → k' + 1 ≡ k → x -ℤ pos 1 ≡ base +ℤ pos k'
minus_one x base k k' e h = rw e (eq_of_parts _ _ (omega int_laws))

pub plus_one :
    (x base : ℤ) (k k' : ℕ) → x ≡ base +ℤ pos k → k' ≡ k + 1 → x +ℤ pos 1 ≡ base +ℤ pos k'
plus_one x base k k' e h = rw e (eq_of_parts _ _ (omega int_laws))

count-erased :
    (a fd : ℕ) (xs : List ℕ) (n : ℕ)
    → count a xs ≡ n + (if fd == a then 1 else 0)
    → count a (erase fd xs) ≡ n
count-erased a fd xs n h = ground (arith, count-erase a fd xs)

-- The level loses its descriptor.
released :
    (base : ℤ) (others : ℕ → ℕ) (level : Level) (fd : ℕ) (m : Monitors)
    → m.mpevfd (level_number level) ≡ some fd
    → IsCounted base others m
    → IsCounted base others (record m {
      maxevents = m.maxevents -ℤ pos 1;
      open_fds = erase fd m.open_fds;
      mpevfd = update m.mpevfd (level_number level) none;
    })
released base others level fd m has v = record {
  events =
      let u = rw has at (used-update level m.mpevfd none) in
      minus_one m.maxevents base (used m.mpevfd) (used (update m.mpevfd (level_number level) none))
        v.events (omega (arith, u));
  fds = λ a.
      let u = rw has at (used_as-update level a m.mpevfd none) in
      count-erased a fd m.open_fds
        (others a + used_as a (update m.mpevfd (level_number level) none))
        (omega (arith, v.fds a, u));
}

pub destroy_mp-IsCounted :
    (base : ℤ) (others : ℕ → ℕ) (level : Level) (m : Monitors)
    → IsCounted base others m
    → IsCounted base others (destroy_mp level m)
unfolding destroy_mp
destroy_mp-IsCounted base others level m v = elim (Option-cases (m.mpevfd (level_number level))) [
  | inl e ↦ rw (e, destroy_mp) v
  | inr (fd, e) ↦ rw (e, destroy_mp) (released base others level fd m e v)
]

destroy_mp-none :
    (level : Level) (m : Monitors) (l : Level)
    → m.mpevfd (level_number l) ≡ none
    → (destroy_mp level m).mpevfd (level_number l) ≡ none
unfolding destroy_mp
destroy_mp-none level m l h = ground (arith, h, Option-cases (m.mpevfd (level_number level)))

pub destroy_mp-gone :
    (level : Level) (m : Monitors) → (destroy_mp level m).mpevfd (level_number level) ≡ none
unfolding destroy_mp
destroy_mp-gone level m = ground (arith, Option-cases (m.mpevfd (level_number level)))

-- What a start of one level gives: a well counted state in which no other level changed; where it
-- fails, this level did not change either.
pub record Started (base : ℤ) (others : ℕ → ℕ) (level : Level) (m : Monitors) (r : Bool × Monitors)
    : Type 0 where
  pub counted : IsCounted base others r.1
  pub elsewhere :
      (l : Level)
      → level_number l ≢ level_number level
      → r.1.mpevfd (level_number l) ≡ m.mpevfd (level_number l)
  pub failed : r.0 ≡ false → r.1.mpevfd (level_number level) ≡ m.mpevfd (level_number level)

adopt_psi-Started :
    (base : ℤ) (others : ℕ → ℕ) (kernel : Kernel) (level : Level) (fd : ℕ) (m : Monitors)
    → m.mpevfd (level_number level) ≡ none
    → IsCounted base others m
    → Started base others level m
        (adopt_psi kernel level fd (record m { open_fds = fd ∷ m.open_fds }))
unfolding adopt_psi
adopt_psi-Started base others kernel level fd m free v = elim (Bool-cases (kernel.epoll_add fd)) [
  | inl ok ↦ rw ok (record {
    counted = record {
      events =
          let u = rw free at (used-update level m.mpevfd (some fd)) in
          plus_one m.maxevents base (used m.mpevfd)
            (used (update m.mpevfd (level_number level) (some fd))) v.events (omega (arith, u));
      fds = λ a.
          let u = rw free at (used_as-update level a m.mpevfd (some fd)) in
          omega (arith, v.fds a, u);
    };
    elsewhere = λ l h. ground arith;
    failed = λ h. cc;
  })
  | inr refused ↦ rw refused (record {
    counted = record {
      events = v.events;
      fds = λ a.
          count-erased a fd (fd ∷ m.open_fds) (others a + used_as a m.mpevfd)
            (omega (arith, v.fds a));
    };
    elsewhere = λ l h. refl;
    failed = λ h. refl;
  })
]

unchanged-Started :
    (base : ℤ) (others : ℕ → ℕ) (level : Level) (m : Monitors) (ok : Bool)
    → IsCounted base others m
    → Started base others level m (ok, m)
unchanged-Started base others level m ok v = record {
  counted = v;
  elsewhere = λ l h. refl;
  failed = λ h. refl;
}

pub init_mp_psi-Started :
    (base : ℤ) (others : ℕ → ℕ) (kernel : Kernel) (threshold_ms : ℤ) (level : Level) (m : Monitors)
    → m.mpevfd (level_number level) ≡ none
    → IsCounted base others m
    → Started base others level m (init_mp_psi kernel threshold_ms level m)
unfolding init_mp_psi init_psi_monitor
init_mp_psi-Started base others kernel threshold_ms level m free v =
    elim (Bool-cases (eqb_ℤ threshold_ms (pos 0))) [
      | inl off ↦ rw off (unchanged-Started base others level m true v)
      | inr on ↦ rw on (elim (Option-cases (kernel.psi_open level)) [
        | inl e ↦ rw (e, init_psi_monitor) (unchanged-Started base others level m false v)
        | inr (fd, e) ↦
            rw (e, init_psi_monitor)
              (elim (Bool-cases (kernel.psi_write level)) [
                | inl ok ↦ rw ok (adopt_psi-Started base others kernel level fd m free v)
                | inr bad ↦ rw bad (record {
                  counted = record {
                    events = v.events;
                    fds = λ a.
                        count-erased a fd (fd ∷ m.open_fds) (others a + used_as a m.mpevfd)
                          (omega (arith, v.fds a));
                  };
                  elsewhere = λ l h. refl;
                  failed = λ h. refl;
                })
              ])
      ])
    ]
