-- ===== src/Kill/Levels.antt =====
-- lmkd.cpp: the inner loop of `find_and_kill_process` ends, since each of its rounds that goes on has
-- removed a record of the slot.
use android_system_memory_lm.Base.{
  ℕ, zero, suc, ◌≤◌, ◌<◌, ◌≡◌, refl, ◌∙◌, arith, List, [], ◌∷◌, none, some, Bool, true, false, not,
  if◌then◌else◌, ℤ, pos, negsuc, eqb_ℤ, ltb_ℤ, leb_ℤ, Option-cases, Bool-cases, inl, inr, length,
  count, erase,
}
use android_system_memory_lm.Packet.{to_int}
use android_system_memory_lm.Polling.{Timespec}
use android_system_memory_lm.ProcTable
use android_system_memory_lm.ProcTable.{
  Proc, pid_lookup, pid_remove, detach, close_pidfd, proc_unslot, unlink_pid, adj_to_slot,
  proc_adj_tail,
}
use android_system_memory_lm.ProcTable.Invariant.{IsTable}
use android_system_memory_lm.Kill.{
  Host, Config, State, Heaviest, stop_wait_for_proc_kill, start_wait_for_proc_kill, check_target,
  finish, do_kill, kill_one_process, weigh, drop_gone, weigh_all, proc_get_heaviest, choose,
  kill_at_level, level_fuel,
}
use android_system_memory_lm.Kill.Wait.{
  SameRecords, SameRecords-lookup, SameRecords-IsTable, SameRecords-trans, start_wait-SameRecords,
  stop_wait-SameRecords,
}
use android_system_memory_lm.Kill.Progress.{kill_one_process-Progress}
use android_system_memory_lm.Kill.Choice.{choose-Chosen}

length-erase_le : (a : ℕ) (xs : List ℕ) → length (erase a xs) ≤ length xs
length-erase_le a [] = omega arith
length-erase_le a (x ∷ xs) = ground (arith, length-erase_le a xs)

length-erase : (a : ℕ) (xs : List ℕ) → 0 < count a xs → length (erase a xs) < length xs
length-erase a [] h = omega arith
length-erase a (x ∷ xs) h = ground (arith, length-erase a xs)

-- The slot of a score after `pid_remove`.
detach-slot_le :
    (last_kill : ℤ) (r : ℕ) (p : Proc) (t : ProcTable.Table) (k : ℕ)
    → length ((detach last_kill r p t).procadjslot_list k) ≤ length (t.procadjslot_list k)
unfolding detach close_pidfd proc_unslot
detach-slot_le last_kill r p t k = ground (arith, length-erase_le p.pid (t.procadjslot_list k))

pid_remove-slot_le :
    (last_kill : ℤ) (r : ℕ) (t : ProcTable.Table) (k : ℕ)
    → length ((pid_remove last_kill r t).1.procadjslot_list k) ≤ length (t.procadjslot_list k)
unfolding pid_remove
pid_remove-slot_le last_kill r t k = elim (Option-cases (pid_lookup t r)) [
  | inl e ↦ rw (e, pid_remove) (omega arith)
  | inr (p, e) ↦ rw (e, pid_remove) (detach-slot_le last_kill r p t k)
]

detach-slot :
    (last_kill : ℤ) (p : Proc) (t : ProcTable.Table)
    → 0 < count p.pid (t.procadjslot_list (adj_to_slot p.oomadj))
    → length ((detach last_kill p.pid p t).procadjslot_list (adj_to_slot p.oomadj))
      < length (t.procadjslot_list (adj_to_slot p.oomadj))
unfolding detach close_pidfd proc_unslot
detach-slot last_kill p t h =
    ground (arith, length-erase p.pid (t.procadjslot_list (adj_to_slot p.oomadj)) h)

pid_remove-slot :
    (last_kill : ℤ) (p : Proc) (t : ProcTable.Table)
    → IsTable t
    → pid_lookup t p.pid ≡ some p
    → length ((pid_remove last_kill p.pid t).1.procadjslot_list (adj_to_slot p.oomadj))
      < length (t.procadjslot_list (adj_to_slot p.oomadj))
unfolding pid_remove
pid_remove-slot last_kill p t v found =
    rw (found, pid_remove)
      (detach-slot last_kill p t (ground (arith, v.slotted (adj_to_slot p.oomadj) p.pid, found)))

-- The walk over a slot makes no slot longer.
weigh_all-slot_le :
    (host : Host) (config : Config) (pids : List ℕ) (best : Heaviest) (s : State) (k : ℕ)
    → length ((weigh_all host config pids best s).1.table.procadjslot_list k)
      ≤ length (s.table.procadjslot_list k)
unfolding weigh_all drop_gone
weigh_all-slot_le host config [] best s k = omega arith
weigh_all-slot_le host config (pid ∷ pids) best s k = ground (
  arith,
  weigh_all-slot_le host config pids (weigh host config pid best) (drop_gone host pid s) k,
  pid_remove-slot_le s.last_kill_pid_or_fd pid s.table k,
)

choose-slot_le :
    (host : Host) (config : Config) (heaviest : Bool) (i : ℕ) (s : State) (k : ℕ)
    → length ((choose host config heaviest i s).1.table.procadjslot_list k)
      ≤ length (s.table.procadjslot_list k)
unfolding choose proc_get_heaviest
choose-slot_le host config true i s k = weigh_all-slot_le host config _ _ s k
choose-slot_le host config false i s k = omega arith

-- A kill that reports a failure has removed the record.
module _ (host : Host) (config : Config) (tm : Timespec) (p : Proc) (s : State)
    (found : pid_lookup s.table p.pid ≡ some p) (v : IsTable s.table) where
  abbrev Shorter : State → Type 0
  Shorter u =
      length (u.table.procadjslot_list (adj_to_slot p.oomadj))
      < length (s.table.procadjslot_list (adj_to_slot p.oomadj))

  finish-Shorter :
      (result : ℤ) (u : State) → SameRecords s.table u.table → Shorter (finish p result u).1
  unfolding finish
  finish-Shorter result u same = ground (
    arith,
    same.slots (adj_to_slot p.oomadj),
    pid_remove-slot u.last_kill_pid_or_fd p u.table (SameRecords-IsTable s.table u.table same v)
        (SameRecords-lookup s.table u.table p.pid same ∙ found),
  )

  do_kill-Shorter :
      (rss_kb hook_result : ℤ) → Shorter (do_kill host config tm p rss_kb hook_result s).1
  unfolding do_kill
  do_kill-Shorter rss_kb hook_result =
      let target = if ltb_ℤ p.pidfd (pos 0) then to_int p.pid else p.pidfd in
      let waiting = start_wait_for_proc_kill host config target s in
      let same = start_wait-SameRecords host config target s in
      elim (Bool-cases (not (eqb_ℤ (host.reaper_kill p) (pos 0)))) [
        | inl e ↦ rw e (
            finish-Shorter hook_result (stop_wait_for_proc_kill config waiting) (
              SameRecords-trans s.table waiting.table _ same
                (stop_wait-SameRecords config waiting)))
        | inr e ↦ rw e (finish-Shorter _ _ same)
      ]

  kill_one_process-Shorter :
      leb_ℤ (pos 0) (kill_one_process host config tm p s).0 ≡ false
      → Shorter (kill_one_process host config tm p s).1
  unfolding kill_one_process
  kill_one_process-Shorter h = elim (Option-cases (check_target host p)) [
    | inl e ↦
        rw (e, kill_one_process)
          (finish-Shorter (negsuc 0) s (record { chains = λ h. refl; slots = λ k. refl }))
    | inr (rss_kb, e) ↦
        elim (Bool-cases (ltb_ℤ (pos 0) (host.free_memory_before_kill_hook p.pid))) [
          | inl freed ↦ absurd (ground (arith, h, e, freed, kill_one_process host config tm p s))
          | inr none_freed ↦
              rw (e, kill_one_process, none_freed)
                (do_kill-Shorter rss_kb (host.free_memory_before_kill_hook p.pid))
        ]
  ]

abbrev slot_length : ℕ → State → ℕ
slot_length i s = length (s.table.procadjslot_list (adj_to_slot (pos i)))

-- The inner loop of the source, round by round, with no fuel: it ends where no process is left at the
-- score or where a kill is not refused, and goes on otherwise. Its indices are the size and the state
-- before the loop, and the result after it.
pub data Ends (host : Host) (config : Config) (tm : Timespec) (heaviest : Bool) (i : ℕ)
    : ℤ → State → ℤ × State → Type 0 where
  empty :
      {size : ℤ} {s : State}
      → (choose host config heaviest i s).0 ≡ none
      → Ends host config tm heaviest i size s (size, (choose host config heaviest i s).1)
  stops :
      {size : ℤ} {s : State} (p : Proc)
      → (choose host config heaviest i s).0 ≡ some p
      → leb_ℤ (pos 0) (kill_one_process host config tm p (choose host config heaviest i s).1).0
        ≡ true
      → Ends host config tm heaviest i size s
          (kill_one_process host config tm p (choose host config heaviest i s).1)
  again :
      {size : ℤ} {s : State} {r : ℤ × State} (p : Proc)
      → (choose host config heaviest i s).0 ≡ some p
      → leb_ℤ (pos 0) (kill_one_process host config tm p (choose host config heaviest i s).1).0
        ≡ false
      → Ends host config tm heaviest i
          (kill_one_process host config tm p (choose host config heaviest i s).1).0
          (kill_one_process host config tm p (choose host config heaviest i s).1).1
          r
      → Ends host config tm heaviest i size s r

kill_at_level_ends :
    (host : Host) (config : Config) (tm : Timespec) (heaviest : Bool) (i fuel : ℕ) (size : ℤ)
    (s : State)
    → IsTable s.table
    → slot_length i s < fuel
    → Ends host config tm heaviest i size s (kill_at_level host config tm heaviest i fuel size s)
unfolding kill_at_level
kill_at_level_ends host config tm heaviest i zero size s v h = absurd (omega arith)
kill_at_level_ends host config tm heaviest i (suc fuel) size s v h =
    let (a, c) = choose-Chosen host config i s v heaviest in
    let u = (choose host config heaviest i s).1 in
    elim (Option-cases (choose host config heaviest i s).0) [
      | inl e ↦ rw (e, kill_at_level) (empty {size = size} {s = s} e)
      | inr (p, e) ↦
          let (found, score) = c p e in
          let round = kill_one_process host config tm p u in
          let b =
            kill_one_process-Progress i host config tm p u found (ground (arith, score))
              a.shrinks.well in
          elim (Bool-cases (leb_ℤ (pos 0) round.0)) [
            | inl stop ↦ rw (e, kill_at_level, stop) (stops {size = size} {s = s} p e stop)
            | inr on ↦
                let shorter : slot_length i round.1 < slot_length i s = ground (
                  arith,
                  kill_one_process-Shorter host config tm p u found a.shrinks.well on,
                  choose-slot_le host config heaviest i s (adj_to_slot (pos i)),
                  score,
                  h,
                ) in
                let rest =
                  kill_at_level_ends host config tm heaviest i fuel round.0 round.1 b.shrinks.well
                    (omega (arith, shorter)) in
                rw (e, kill_at_level, on) (again {size = size} {s = s} p e on rest)
          ]
    ]

-- In a state whose table is well formed, the loop of the source at a score ends after finitely many
-- rounds, whatever the host answers, and its result is what kill_at_level gives for every amount of
-- fuel from `level_fuel` on, the length of the slot plus one.
pub kill_at_level-Ends :
    (host : Host) (config : Config) (tm : Timespec) (heaviest : Bool) (i fuel : ℕ) (size : ℤ)
    (s : State)
    → IsTable s.table
    → level_fuel i s ≤ fuel
    → Ends host config tm heaviest i size s (kill_at_level host config tm heaviest i fuel size s)
kill_at_level-Ends host config tm heaviest i fuel size s v h =
    kill_at_level_ends host config tm heaviest i fuel size s v (omega arith)
