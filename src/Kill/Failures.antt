-- ===== src/Kill/Failures.antt =====
-- lmkd.cpp: how often `kill_one_process` closes the pidfd of its target.
use android_system_memory_lm.Base.{
  ◌≡◌, refl, ◌∙◌, arith, ◌∷◌, some, true, false, ◌&&◌, if◌then◌else◌, ℤ, pos, negsuc, ◌≤ℤ◌, eqb_ℤ,
  ltb_ℤ, ◌+ℤ◌, ◌-ℤ◌, Bool-cases, inl, inr,
}
use android_system_memory_lm.Polling.{Timespec}
use android_system_memory_lm.ProcTable
use android_system_memory_lm.ProcTable.{
  Proc, pid_lookup, pid_remove, detach, close_pidfd, unlink_pid,
}
use android_system_memory_lm.Packet.{to_int}
use android_system_memory_lm.Kill.Wait.{SameRecords, SameRecords-lookup}
use android_system_memory_lm.Kill.{
  Host, Config, State, stop_wait_for_proc_kill, start_wait_for_proc_kill, finish, do_kill,
}

-- `pid_remove` closes the descriptor of the record that it finds, unless a kill waits for it.
pid_remove-closed :
    (last_kill : ℤ) (t : ProcTable.Table) (p : Proc)
    → pid_lookup t p.pid ≡ some p
    → pos 0 ≤ℤ p.pidfd
    → (pid_remove last_kill p.pid t).1.closed
      ≡ (if eqb_ℤ p.pidfd last_kill then t.closed else p.pidfd ∷ t.closed)
unfolding pid_remove detach close_pidfd
pid_remove-closed last_kill t p found has_fd = rw (found, pid_remove) (ground arith)

module _ (host : Host) (config : Config) (tm : Timespec) (p : Proc) (s : State)
    (found : pid_lookup s.table p.pid ≡ some p) (has_fd : pos 0 ≤ℤ p.pidfd)
    (supported : config.pidfd_supported ≡ true) (idle : s.last_kill_pid_or_fd ≡ negsuc 0) where
  finish-closed :
      (result : ℤ) (u : State)
      → SameRecords s.table u.table
      → (finish p result u).1.table.closed
        ≡ (if eqb_ℤ p.pidfd u.last_kill_pid_or_fd then u.table.closed else p.pidfd ∷ u.table.closed)
  unfolding finish
  finish-closed result u same =
      pid_remove-closed u.last_kill_pid_or_fd u.table p
        (SameRecords-lookup s.table u.table p.pid same ∙ found) has_fd

  target_of : (if ltb_ℤ p.pidfd (pos 0) then to_int p.pid else p.pidfd) ≡ p.pidfd
  target_of = ground arith

  waiting : State
  waiting = record s { last_kill_pid_or_fd = p.pidfd; maxevents = s.maxevents +ℤ pos 1 }

  closed_once : State
  closed_once =
      let t = s.table in
      record s { table = record t { closed = p.pidfd ∷ t.closed }; last_kill_pid_or_fd = negsuc 0 }

  added : host.epoll_add p.pidfd ≡ true → start_wait_for_proc_kill host config p.pidfd s ≡ waiting
  unfolding waiting start_wait_for_proc_kill stop_wait_for_proc_kill
  added e = rw (idle, supported, e) refl

  refused :
      host.epoll_add p.pidfd ≡ false → start_wait_for_proc_kill host config p.pidfd s ≡ closed_once
  unfolding start_wait_for_proc_kill stop_wait_for_proc_kill closed_once
  refused e = rw (idle, supported, e) refl

  -- `kill_fail` after either.
  stop_waiting :
      stop_wait_for_proc_kill config waiting
      ≡ record closed_once { maxevents = (s.maxevents +ℤ pos 1) -ℤ pos 1 }
  unfolding stop_wait_for_proc_kill waiting closed_once
  stop_waiting = ground (arith, supported)

  stop_idle : stop_wait_for_proc_kill config closed_once ≡ closed_once
  unfolding stop_wait_for_proc_kill closed_once
  stop_idle = refl

  -- The end of a kill, by the descriptor that the daemon waits for.
  finish_waiting :
      (result : ℤ) (u : State)
      → SameRecords s.table u.table
      → u.last_kill_pid_or_fd ≡ p.pidfd
      → (finish p result u).1.table.closed ≡ u.table.closed
  finish_waiting result u same e = finish-closed result u same ∙ ground (arith, e)

  finish_idle :
      (result : ℤ) (u : State)
      → SameRecords s.table u.table
      → u.last_kill_pid_or_fd ≡ negsuc 0
      → (finish p result u).1.table.closed ≡ p.pidfd ∷ u.table.closed
  finish_idle result u same e = finish-closed result u same ∙ ground (arith, e)

  -- With pidfds in use, no kill in progress, and a registered target that has a pidfd: a kill that
  -- succeeds leaves the pidfd open while the daemon waits for the process to die; a kill that fails,
  -- and one whose pidfd epoll_ctl does not take, closes the same descriptor twice.
  pub do_kill-closed :
      (rss_kb hook_result : ℤ)
      → (do_kill host config tm p rss_kb hook_result s).1.table.closed ≡ (
          if eqb_ℤ (host.reaper_kill p) (pos 0) && host.epoll_add p.pidfd
          then s.table.closed
          else p.pidfd ∷ p.pidfd ∷ s.table.closed)
  unfolding do_kill waiting closed_once
  do_kill-closed rss_kb hook_result = elim (Bool-cases (host.epoll_add p.pidfd)) [
    | inl e ↦
        rw (target_of, added e, e)
          (elim (Bool-cases (eqb_ℤ (host.reaper_kill p) (pos 0))) [
            | inl killed ↦
                rw killed
                  (finish_waiting _ _ (record { chains = λ h. refl; slots = λ k. refl }) refl)
            | inr failed ↦
                rw (failed, stop_waiting)
                  (finish_idle hook_result _ (record { chains = λ h. refl; slots = λ k. refl })
                    refl)
          ])
    | inr e ↦
        rw (target_of, refused e, e)
          (elim (Bool-cases (eqb_ℤ (host.reaper_kill p) (pos 0))) [
            | inl killed ↦
                rw killed (finish_idle _ _ (record { chains = λ h. refl; slots = λ k. refl }) refl)
            | inr failed ↦
                rw (failed, stop_idle)
                  (finish_idle hook_result _ (record { chains = λ h. refl; slots = λ k. refl })
                    refl)
          ])
  ]
