-- ===== src/Monitors.antt =====
-- lmkd.cpp and libpsi/psi.cpp: the monitors of the memory pressure, those of /proc/pressure/memory and
-- those of the cgroup v1 hierarchy, and the listener of the memory events. The line that is written
-- to the kernel fits its buffer of 256 bytes, so the tests for an overflow never hold.
pub mod Counts
pub mod Starts
pub mod Reinit
pub mod Watched
pub mod Listener
use android_system_memory_lm.Base.{
  ℕ, ◌+◌, ◌*◌, List, [], ◌∷◌, Option, none, some, Bool, true, false, ◌&&◌, not, ◌==◌, if◌then◌else◌,
  ℤ, pos, negsuc, ◌+ℤ◌, ◌-ℤ◌, eqb_ℤ, update, erase,
}
use android_system_memory_lm.Polling.{
  Timespec, Level, level_number, low, medium, critical, super_critical,
}

-- What the kernel and libbpf answer.
pub record Kernel : Type 0 where
  -- open("/proc/pressure/memory") and the write of the threshold, for each level.
  pub psi_open : Level → Option ℕ
  pub psi_write : Level → Bool
  -- Is EPOLL_CTL_ADD of a descriptor accepted?
  pub epoll_add : ℕ → Bool
  -- memcg_version() == MemcgVersion::kV1.
  pub is_memcg_v1 : Bool
  -- The files of the pressure level and of the event control, eventfd, and the write of the control.
  pub pressure_level_open : Level → Option ℕ
  pub event_control_open : Level → Option ℕ
  pub eventfd : Level → Option ℕ
  pub event_control_write : Level → Bool
  -- MemEventListener: ok(), the four calls of registerEvent, and its descriptor.
  pub listener_ok : Bool
  pub listener_registers_reclaim : Bool
  pub listener_registers_kswapd : Bool
  pub listener_fd : Option ℕ

pub record Thresholds : Type 0 where
  pub psi_partial_stall_ms : ℤ
  pub psi_complete_stall_ms : ℤ
  pub psi_complete_stall_scrit_ms : ℤ

-- `open_fds` are the descriptors that these functions opened and did not close.
pub record Monitors : Type 0 where
  -- A descriptor, or `none` for -1.
  pub mpevfd : ℕ → Option ℕ
  pub open_fds : List ℕ
  pub maxevents : ℤ
  pub use_psi_monitors : Bool
  pub monitors_initialized : Bool
  pub memevent_listener : Bool

abbrev pub open_fd : ℕ → Monitors → Monitors
open_fd fd m = record m { open_fds = fd ∷ m.open_fds }

abbrev pub close_fd : ℕ → Monitors → Monitors
close_fd fd m = record m { open_fds = erase fd m.open_fds }

-- psi.cpp; the resource is PSI_MEMORY and the type of the stall is one of the two.
unfoldable pub init_psi_monitor : Kernel → Level → Monitors → Option ℕ × Monitors
init_psi_monitor kernel level m = elim (kernel.psi_open level) [
  | none ↦ (none, m)
  | some fd ↦
      if kernel.psi_write level then (some fd, open_fd fd m) else (none, close_fd fd (open_fd fd m))
]

-- The registration of a new monitor, which destroy_psi_monitor closes where epoll refuses it.
unfoldable pub adopt_psi : Kernel → Level → ℕ → Monitors → Bool × Monitors
adopt_psi kernel level fd m =
    if kernel.epoll_add fd
    then (
      true,
      record m {
        maxevents = m.maxevents +ℤ pos 1;
        mpevfd = update m.mpevfd (level_number level) (some fd);
      },
    )
    else (false, close_fd fd m)

abbrev pub adopt_opened : Kernel → Level → Option ℕ × Monitors → Bool × Monitors
adopt_opened kernel level (none, m) = (false, m)
adopt_opened kernel level (some fd, m) = adopt_psi kernel level fd m

unfoldable pub init_mp_psi : Kernel → ℤ → Level → Monitors → Bool × Monitors
unfolding init_psi_monitor adopt_psi
init_mp_psi kernel threshold_ms level m =
    if eqb_ℤ threshold_ms (pos 0)
    then (true, m)
    else adopt_opened kernel level (init_psi_monitor kernel level m)

-- A refused unregister_psi_monitor is logged only; the close ends the registration as well.
-- destroy_mp_common does the same.
unfoldable pub destroy_mp : Level → Monitors → Monitors
destroy_mp level m = elim (m.mpevfd (level_number level)) [
  | none ↦ m
  | some fd ↦ record m {
    maxevents = m.maxevents -ℤ pos 1;
    open_fds = erase fd m.open_fds;
    mpevfd = update m.mpevfd (level_number level) none;
  }
]

abbrev pub then_init :
    Bool × Monitors → (Monitors → Bool × Monitors) → (Monitors → Monitors) → Bool × Monitors
then_init (ok, m) next undo = if ok then next m else (false, undo m)

unfoldable pub init_psi_monitors : Kernel → Thresholds → Monitors → Bool × Monitors
unfolding init_mp_psi destroy_mp
init_psi_monitors kernel t m =
    then_init (init_mp_psi kernel t.psi_partial_stall_ms medium m)
      (λ a.
        then_init (init_mp_psi kernel t.psi_complete_stall_ms critical a)
          (λ b.
            then_init (init_mp_psi kernel t.psi_complete_stall_scrit_ms super_critical b)
              (λ c. (true, c)) (λ c. destroy_mp medium (destroy_mp critical c)))
          (λ b. destroy_mp medium b))
      (λ a. a)

-- The part of init_mp_common with the three descriptors open, the level's first.
unfoldable pub adopt_common : Kernel → Level → ℕ → ℕ → ℕ → Monitors → Bool × Monitors
adopt_common kernel level mpfd evctlfd evfd m =
    if kernel.event_control_write level && kernel.epoll_add evfd
    then (
      true,
      record m {
        maxevents = m.maxevents +ℤ pos 1;
        mpevfd = update m.mpevfd (level_number level) (some evfd);
        open_fds = erase evctlfd m.open_fds;
      },
    )
    else (false, close_fd mpfd (close_fd evctlfd (close_fd evfd m)))

unfoldable pub init_mp_common : Kernel → Level → Monitors → Bool × Monitors
unfolding adopt_common
init_mp_common kernel level m =
    if not kernel.is_memcg_v1 then (false, m) else elim (kernel.pressure_level_open level) [
      | none ↦ (false, m)
      | some mpfd ↦ elim (kernel.event_control_open level) [
        | none ↦ (false, close_fd mpfd (open_fd mpfd m))
        | some evctlfd ↦ elim (kernel.eventfd level) [
          | none ↦ (false, close_fd mpfd (close_fd evctlfd (open_fd evctlfd (open_fd mpfd m))))
          | some evfd ↦
              adopt_common kernel level mpfd evctlfd evfd
                (open_fd evfd (open_fd evctlfd (open_fd mpfd m)))
        ]
      ]
    ]

-- The three levels of the cgroup, the first failure ends.
unfoldable pub init_vmpressure : Kernel → Monitors → Bool × Monitors
unfolding init_mp_common
init_vmpressure kernel m =
    then_init (init_mp_common kernel low m)
      (λ a.
        then_init (init_mp_common kernel medium a) (λ b. init_mp_common kernel critical b) (λ b. b))
      (λ a. a)

-- Once a kind of monitors is chosen.
abbrev pub finish_init : Bool × Monitors → Bool × Monitors
finish_init (ok, m) = if ok then (true, record m { monitors_initialized = true }) else (false, m)

abbrev pub after_psi : Kernel → Bool × Monitors → Bool × Monitors
after_psi kernel (ok, m) =
    let m' = record m { use_psi_monitors = ok } in
    if ok then finish_init (true, m') else finish_init (init_vmpressure kernel m')

-- `use_psi` is the property of that name.
unfoldable pub init_monitors : Kernel → Bool → Thresholds → Monitors → Bool × Monitors
unfolding init_psi_monitors init_vmpressure
init_monitors kernel use_psi t m =
    after_psi kernel (if use_psi then init_psi_monitors kernel t m else (false, m))

unfoldable pub destroy_monitors : Monitors → Monitors
unfolding destroy_mp
destroy_monitors m =
    if m.use_psi_monitors
    then destroy_mp medium (destroy_mp critical (destroy_mp super_critical m))
    else destroy_mp low (destroy_mp medium (destroy_mp critical m))

-- The listener, with the start of direct reclaim reset where it is new.
unfoldable pub init_memevent_listener_monitoring : Kernel → Monitors → Bool × Monitors
init_memevent_listener_monitoring kernel m =
    if m.memevent_listener
    then (true, m)
    else if kernel.listener_ok && kernel.listener_registers_reclaim
        && kernel.listener_registers_kswapd
    then elim kernel.listener_fd [
      | none ↦ (false, m)
      | some fd ↦
          if kernel.epoll_add fd
          then (true, record m { memevent_listener = true; maxevents = m.maxevents +ℤ pos 1 })
          else (false, m)
    ]
    else (false, m)
