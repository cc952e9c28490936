-- ===== src/Init.antt =====
-- lmkd.cpp: `init` and `init_reaper`, what the daemon sets up before its main loop. The first reading
-- of /proc/zoneinfo, which only sizes the buffer of reread_file, is in ProcFiles.
pub mod MaxEvents
pub mod Replies
pub mod Commands
pub mod Runs
use android_system_memory_lm.Base.{
  ℕ, ◌+◌, Option, none, some, Bool, true, false, ◌&&◌, ◌||◌, not, if◌then◌else◌, ℤ, pos, ◌+ℤ◌,
}
use android_system_memory_lm.KillCount.{initial}
use android_system_memory_lm.Monitors.{Kernel, Monitors, init_monitors}
use android_system_memory_lm.ProcTable.{empty}
use android_system_memory_lm.Props.{Settings}
use android_system_memory_lm.Connections.{Conn, Server, add_events}
use android_system_memory_lm.Connections.Commands.{thresholds}

-- What the system answers at the start.
pub record Boot : Type 0 where
  pub epoll_create : Bool
  -- The control socket of init, listen, and EPOLL_CTL_ADD of it.
  pub control_socket : Bool
  pub listens : Bool
  pub epoll_add_control : Bool
  -- Is the file of the in-kernel driver writable, and ro.vendor.lmk.force_inkernel_lmk?
  pub inkernel_module : Bool
  pub force_inkernel_lmk : Bool
  -- The file of the driver's events, and EPOLL_CTL_ADD of it.
  pub poll_kernel : Bool
  pub epoll_add_kernel : Bool
  pub sys_boot_completed : Bool
  pub kernel : Kernel
  pub use_psi : Bool
  -- pidfd_open of the daemon itself: is there a descriptor, or an error that is not ENOSYS?
  pub pidfd_open : Bool
  pub init_hook : Bool

abbrev pub not_connected : (ℕ → Conn) → ℕ → Conn
not_connected data_sock i = record (data_sock i) { sock = none }

-- With the control socket, and the interface that is to be used.
unfoldable pub with_control : Boot → Server → Server
with_control b s =
    let t = s.settings in
    let s' = add_events (pos 1) (record s { data_sock = not_connected s.data_sock }) in
    record s' {
      settings = record t {
        has_inkernel_module = b.inkernel_module;
        use_inkernel_interface =
            b.inkernel_module && (b.force_inkernel_lmk || not t.enable_userspace_lmk);
      };
    }

abbrev pub monitored : Server → Bool × Monitors → Option Server
monitored s (ok, m) = if ok then some (record s { monitors = m }) else none

-- The events of the driver, or the monitors, unless they wait for the end of the boot.
unfoldable pub init_events : Boot → Server → Option Server
init_events b s =
    if s.settings.use_inkernel_interface
    then if b.poll_kernel && b.epoll_add_kernel then some (add_events (pos 1) s) else some s
    else if not s.settings.delay_monitors_until_boot || b.sys_boot_completed
    then monitored s (init_monitors b.kernel b.use_psi (thresholds s.settings) s.monitors)
    else some s

abbrev pub with_tables : Server → Server
with_tables s = record s { daemon = record s.daemon { table = empty }; killcnt = initial }

abbrev pub finish_init : Boot → Option Server → Option (Bool × Server)
finish_init b none = none
finish_init b (some s) = if b.init_hook then some (b.pidfd_open, with_tables s) else none

-- `none` is the result -1, with which the daemon ends; else whether pidfd_open is supported.
unfoldable pub init : Boot → Server → Option (Bool × Server)
unfolding with_control init_events
init b s =
    if b.epoll_create && b.control_socket && b.listens && b.epoll_add_control
    then finish_init b (init_events b (with_control b s))
    else none

-- The support of reaping, the pipe, EPOLL_CTL_ADD of it, and the threads; one that fails undoes what
-- was done.
unfoldable pub init_reaper : Bool → Bool → Bool → Bool → Server → Bool × Server
init_reaper supported pipe epoll_add threads s =
    if supported && pipe && epoll_add && threads then (true, add_events (pos 1) s) else (false, s)
