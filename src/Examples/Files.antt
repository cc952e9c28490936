-- ===== src/Examples/Files.antt =====
-- The files of /proc and a batch of requests at concrete values.
use android_system_memory_lm.Base.{
  inl, inr, ◌==◌, get_elem?, Bool-cases, ℕ, ◌-◌, ◌≤◌, ◌≡◌, refl, arith, List, [], ◌∷◌, none, some,
  true, false, ltb, if◌then◌else◌, pos, length, quot,
}
use android_system_memory_lm.Packet.{LmkProcprio}
use android_system_memory_lm.Text.{read_digits, parse_status_tag}
use android_system_memory_lm.ProcFiles.{File, RereadData, System, content, open_data, reread_file}
use android_system_memory_lm.ProcFiles.Whole.{IsFile, reread_file-whole}
use android_system_memory_lm.ProcFiles.Parse.{meminfo_field_names, easy_fields, meminfo_parse}
use android_system_memory_lm.ProcFiles.Print.{
  Entry, IsEntry, print_lines, store_entries, meminfo_parse-print,
}
use android_system_memory_lm.Register
use android_system_memory_lm.Register.{is_other_tgid}
use android_system_memory_lm.Register.Batch.{
  reading, writing, has_status, Ring, Completion, open_reads, finish_reads, reopen, count_writes,
  handle_io_uring_procs_prio,
}
use android_system_memory_lm.Register.InOrder.{SameEffect, handle_io_uring_procs_prio_in_order}
use android_system_memory_lm.Register.Reads.{
  IsServed, records, Completes, Has, accepts_proc, after_reads,
}
use android_system_memory_lm.Connections.Commands.{apply_procs}
use android_system_memory_lm.Examples.Processes

abbrev free : Entry
free = record {
  name = b'M' ∷ b'e' ∷ b'm' ∷ b'F' ∷ b'r' ∷ b'e' ∷ b'e' ∷ b':' ∷ [];
  pad = 3;
  number = b'8' ∷ b'0' ∷ [];
  unit = 32 ∷ b'k' ∷ b'B' ∷ [];
}

abbrev huge : Entry
huge = record { name = b'H' ∷ b':' ∷ []; pad = 0; number = b'7' ∷ []; unit = [] }

free-IsEntry : IsEntry free
unfolding read_digits
free-IsEntry = record {
  named = omega arith;
  name_word = (refl, (refl, (refl, (refl, (refl, (refl, (refl, (refl, tt))))))));
  name_line = (refl, (refl, (refl, (refl, (refl, (refl, (refl, (refl, tt))))))));
  number = record {
    head = b'8';
    tail = b'0' ∷ [];
    split = refl;
    digits = (refl, (refl, tt));
    in_range = omega arith;
  };
  unit = (refl, (refl, (refl, tt)));
}

huge-IsEntry : IsEntry huge
unfolding read_digits
huge-IsEntry = record {
  named = omega arith;
  name_word = (refl, (refl, tt));
  name_line = (refl, (refl, tt));
  number = record {
    head = b'7';
    tail = [];
    split = refl;
    digits = (refl, tt);
    in_range = omega arith;
  };
  unit = tt;
}

abbrev entries : List Entry
entries = huge ∷ free ∷ []

abbrev size : ℕ
size = length (print_lines entries)

-- Three bytes at most for each read.
abbrev file : File
file = record {
  text = print_lines entries;
  given = λ offset n.
      let asked = if ltb n 3 then n else 3 in
      some (if ltb asked (size - offset) then asked else size - offset);
}

file-IsFile : IsFile file
file-IsFile = record { answers = λ offset n. (_, refl, ground arith, ground arith, ground arith) }

abbrev sys : System
sys = record { malloc = true; realloc = λ n. true; open_file = some 9; file = file }

abbrev fresh : RereadData
fresh = record { fd = none; has_buf = false; buf_size = 16 }

fresh-opens : (open_data sys fresh).0 ≡ true
unfolding open_data
fresh-opens = refl

reread_file-whole_example :
    (r : RereadData) × (reread_file sys fresh ≡ (content file.text, r))
    × ((later : System)
        → IsFile later.file
        → length later.file.text ≤ length file.text
        → reread_file later r ≡ (content later.file.text, r))
reread_file-whole_example =
    reread_file-whole sys fresh file-IsFile (λ n. refl) (omega arith) fresh-opens

meminfo_parse-print_example :
    (meminfo_parse 4 (pos 0) sys fresh).0
    ≡ some (
        easy_fields
          (pos 0)
          (store_entries meminfo_field_names (λ v. quot v 4) entries (λ i. pos 0)))
meminfo_parse-print_example =
    meminfo_parse-print 4 (pos 0) sys fresh entries file-IsFile (λ n. refl) (omega arith)
      fresh-opens refl (huge-IsEntry, (free-IsEntry, tt))

abbrev host : Register.Host
host = record Processes.host { proc_status = λ pid. some []; oom_score_adj_file = λ pid. true }

abbrev procs : List LmkProcprio
procs =
    Processes.request
    ∷ record Processes.request { pid = 99; oomadj = pos 2000 }
    ∷ record Processes.request { pid = 5345; oomadj = pos 900 }
    ∷ []

abbrev done : ℕ → Completion
done i = record { user_data = i; ok = true }

-- The second read completes first, and the writes the other way round.
abbrev ring : Ring
ring = record {
  queue_init = true;
  read_sqe = λ i. true;
  write_sqe = λ i. true;
  submit_reads = λ n. true;
  submit_writes = λ n. true;
  reads = done 2 ∷ done 0 ∷ [];
  writes = done 0 ∷ done 2 ∷ [];
  performed = 0 ∷ 2 ∷ [];
  buffer = λ i. [];
}

asked-Completes : (i : ℕ) → (open_reads host ring 0 procs).0 i ≡ reading → Completes i ring.reads
unfolding open_reads
asked-Completes i h = elim (Bool-cases (i == 2)) [
  | inl two ↦ inl (ground (arith, two))
  | inr more ↦ elim (Bool-cases (i == 0)) [
    | inl first ↦ inr (inl (ground (arith, first)))
    | inr other ↦ absurd (ground (arith, h, more, other))
  ]
]

written-Completes : (i : ℕ) → after_reads host ring procs i ≡ writing → Completes i ring.writes
unfolding open_reads finish_reads reopen parse_status_tag
written-Completes i h = elim (Bool-cases (i == 2)) [
  | inl two ↦ inr (inl (ground (arith, two)))
  | inr more ↦ elim (Bool-cases (i == 0)) [
    | inl first ↦ inl (ground (arith, first))
    | inr other ↦ absurd (ground (arith, h, more, other))
  ]
]

ring-IsServed : IsServed host ring procs
unfolding open_reads finish_reads reopen count_writes parse_status_tag is_other_tgid
ring-IsServed = record {
  ready = refl;
  accepts = λ n. (refl, refl);
  all_read = refl;
  reads = (refl, refl, (refl, refl, tt));
  same_leader = λ i p e. refl;
  entries = λ i. (refl, refl);
  completes_reads = asked-Completes;
  completes_writes = written-Completes;
  all_written = refl;
  performed = refl;
  writes = (refl, refl, (refl, refl, tt));
}

handle_io_uring_procs_prio_in_order_example :
    SameEffect
      (handle_io_uring_procs_prio host Processes.user ring 812 procs Processes.fresh)
      (apply_procs host Processes.user 812 (records procs ring.writes) Processes.fresh)
    × ((i : ℕ) (p : LmkProcprio)
        → get_elem? procs i ≡ some p
        → accepts_proc host p ≡ true
        → has_status (host.proc_status p.pid) ≡ true
        → Has p (records procs ring.writes))
handle_io_uring_procs_prio_in_order_example =
    handle_io_uring_procs_prio_in_order host Processes.user ring 812 procs Processes.fresh
      ring-IsServed
