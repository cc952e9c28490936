-- ===== src/Packet/Commands.antt =====
-- include/lmkd.h: `enum lmk_cmd`.
use android_system_memory_lm.Base.{ℕ, ◌≡◌, refl, Option, some, [], ◌∷◌, get_elem?}

pub data LmkCmd : Type 0 where
  target procprio procremove procpurge getkillcnt subscribe prockill update_props : LmkCmd
  stat_kill_occurred start_monitoring boot_completed procs_prio : LmkCmd

-- The number that stands for a command on the wire.
abbrev pub code : LmkCmd → ℕ
code target = 0
code procprio = 1
code procremove = 2
code procpurge = 3
code getkillcnt = 4
code subscribe = 5
code prockill = 6
code update_props = 7
code stat_kill_occurred = 8
code start_monitoring = 9
code boot_completed = 10
code procs_prio = 11

-- The case of `switch (cmd)` that a number takes; `none` is its `default`.
abbrev pub command : ℕ → Option LmkCmd
command n =
    get_elem?
      (target ∷ procprio ∷ procremove ∷ procpurge ∷ getkillcnt ∷ subscribe ∷ prockill ∷ update_props
        ∷ stat_kill_occurred ∷ start_monitoring ∷ boot_completed ∷ procs_prio ∷ [])
      n

pub command-code : (c : LmkCmd) → command (code c) ≡ some c
command-code target = refl
command-code _ = refl
