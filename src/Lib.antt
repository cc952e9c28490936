-- ===== src/Lib.antt =====
-- lmkd, the low memory killer daemon of Android: a model of its core and proofs about it.
--
-- The daemon keeps a table of the processes that the system server and other clients register, with a
-- score for each (oom_score_adj, from -1000 to 1000). It waits for memory pressure events, decides
-- for each whether memory is so short that a process must die, chooses one from the highest score
-- down, and kills it, by itself or through the threads of the reaper. A watchdog thread kills for it
-- when the main thread hangs.
--
-- Files and what they model:
--   Packet (include/lmkd.h): the requests and replies on the control socket, lmkd_pack_*, word by word
--     in network order. A packet is a function from the index of a word; its buffer has 13 words.
--   ProcTable (lmkd.cpp): pidhash and procadjslot_list, pid_lookup, proc_insert, pid_remove,
--     pid_invalidate, claim_record, remove_claims. The ring of a slot is the list of its elements from
--     head->next on: adjslot_insert puts in front, adjslot_tail takes the last one;
--     AdjSlot has these three on the `next` and `prev` of a heap.
--   Text (lmkd.cpp): parse_int64 and parse_status_tag on the bytes of /proc/<pid>/status.
--   Register (lmkd.cpp): apply_proc_prio, register_oom_adj_proc, cmd_procprio, cmd_procremove and
--     cmd_procpurge, on a Daemon with the table, the pidfd that is waited for, and the files written.
--     Batch has handle_io_uring_procs_prio.
--   KillCount (lmkd.cpp): inc_killcnt and get_killcnt with their two-level array; `none` is a read
--     outside the array.
--   Kill (lmkd.cpp): the wait for a kill in progress, kill_one_process, proc_get_heaviest and
--     find_and_kill_process, from the table of ProcTable and the counters of KillCount. Script has
--     proc_get_script, with the directory stream that it keeps open.
--   Pressure (lmkd.cpp): mp_event_psi. Zones has calc_zone_watermarks, Reclaim the counters, Decide
--     the reasons, Evaluate one evaluation of the watermarks, Event the whole handler, which calls
--     Kill and sets the parameters of Polling.
--   Polling (lmkd.cpp): call_handler, resume_polling, check_cont_lmkd_events, and the waits of
--     mainloop.
--   Reaper (reaper.cpp): the queue, Reaper::kill and the loop of a thread, one step for each function
--     that takes the mutex.
--   Watchdog (lmkd.cpp, watchdog.cpp): watchdog_callback, find_victim, and the timer.
--   Connections (lmkd.cpp): the data connections from ctrl_data_close to ctrl_connect_handler, as a
--     Server with everything that the commands work on. Commands has ctrl_command_handler with all
--     its cases, Events the two passes of mainloop over the events of one wait.
--   Init (lmkd.cpp): init and init_reaper, and Runs the steps of the main loop on the Server.
--   Monitors (lmkd.cpp, libpsi/psi.cpp): the start and the stop of the PSI monitors, of those of the
--     cgroup v1 hierarchy, and of the listener of memory events, with the descriptors that are open.
--   Props (lmkd.cpp): update_props and update_perf_props.
--   ProcFiles (lmkd.cpp): reread_file, and in Parse meminfo_parse and vmstat_parse.
--   Stats (statslog.cpp, statslog.h): the names of the tasks, Packet the packet of a kill event,
--     Memory the statistics of a process; Text/Scan has the conversions of sscanf.
--   Client (liblmkd_utils.cpp): the client's side of the socket.
--   Base: numbers, integers, lists and tests that all share. Examples: runs on concrete inputs.
--
-- What the kernel, the vendor's hooks and the clock answer is an argument: the Host and Readings
-- records, and the results of system calls. A handler takes its state and gives the next one; a fault
-- of the C++, a read outside an array or through a null pointer, is a value of its own.
--
-- Numbers: `int` and `int64_t` are the ℤ of Base, exact where the code's values cannot overflow, and
-- 32-bit words where they travel in packets. The kill counters wrap at their widths. The float
-- cache_percent is known by the function that multiplies with it, and a shift by 64 or more, which
-- C++ leaves undefined, by what the compiled code gives.
--
-- Loops follow their data, with three exceptions. The inner loop of find_and_kill_process has fuel,
-- the length of its slot plus one: each round that goes on has removed a record of the slot, and
-- Kill/Levels has the loop without fuel as a relation. The loop
-- of reread_file that doubles the buffer has one round for each byte of the file and one more. The
-- watchdog's search has fuel for its rounds, since the main thread may change the table between them.
--
-- Not modelled: logging and tracing, which change nothing that is kept; the parsers of /proc/zoneinfo,
-- /proc/pressure and /proc/<pid>, and memevent_listener_notification, which are still to come; the
-- events of cgroups v1 and the in-kernel driver; the kernel's and the vendor's libraries; the tests.
pub mod Base
pub mod Packet
pub mod ProcTable
pub mod Text
pub mod Register
pub mod KillCount
pub mod Polling
pub mod Kill
pub mod Pressure
pub mod ProcFiles
pub mod Props
pub mod Monitors
pub mod Connections
pub mod Init
pub mod Stats
pub mod Reaper
pub mod Client
pub mod Watchdog
mod Examples
