-- ===== src/Watchdog/Victims.antt =====
-- lmkd.cpp: whom the watchdog thread finds and kills.
use android_system_memory_lm.Base.{
  ◌≢◌, ◌+◌, ◌++◌, if◌then◌else◌, ℕ, zero, suc, ◌≤◌, ◌<◌, ◌≡◌, ◌⊎◌, inl, inr, refl, subst, ap, ◌∙◌,
  arith, List, [], ◌∷◌, some, Bool, true, false, ◌&&◌, ◌==◌, pos, count, Bool-cases, Option-cases,
}
use android_system_memory_lm.ProcTable
use android_system_memory_lm.ProcTable.{Proc, pid_lookup, pid_invalidate, adj_to_slot}
use android_system_memory_lm.ProcTable.Lookup.{map_option, pid_lookup-pid, pid_lookup-modify}
use android_system_memory_lm.ProcTable.Invariant.{IsTable}
use android_system_memory_lm.Kill.Wait.{slot_score}
use android_system_memory_lm.Watchdog.{
  Entry, null, head, record_of, backwards, adjslot_tail, Walk, null_read, returns, walk_prev,
  proc_adj_prev, or_tail, Victim, crash, no_victim, victim, find_victim, Bite, crashed,
  nothing_killed, out_of_fuel, killed, search_from, watchdog_callback, copy_of,
}

-- A victim of a score is registered with that score.
abbrev pub IsVictim : ℕ → ProcTable.Table → Victim → Type 0
IsVictim score t crash = score ≡ score
IsVictim score t no_victim = score ≡ score
IsVictim score t (victim p) = (pid_lookup t p.pid ≡ some p) × (p.oomadj ≡ pos score)

-- NULL, the head, or a pid of the slot.
abbrev InSlot : List ℕ → Entry → Type 0
InSlot slot null = slot ≡ slot
InSlot slot head = slot ≡ slot
InSlot slot (record_of q) = 0 < count q slot

count-append : (q : ℕ) (xs ys : List ℕ) → count q (xs ++ ys) ≡ count q xs + count q ys
count-append q [] ys = omega arith
count-append q (x ∷ xs) ys = ground (arith, count-append q xs ys)

count-backwards : (q : ℕ) (xs : List ℕ) → count q (backwards xs) ≡ count q xs
unfolding backwards
count-backwards q [] = refl
count-backwards q (x ∷ xs) =
    ground (arith, count-append q (backwards xs) (x ∷ []), count-backwards q xs)

backwards-empty : (xs : List ℕ) → backwards xs ≡ [] → xs ≡ []
backwards-empty [] h = refl
backwards-empty (x ∷ xs) h = absurd (ground (arith, count-backwards x (x ∷ xs), ap (count x) h))

InSlot-sub :
    (ring slot : List ℕ) (e : Entry)
    → ((q : ℕ) → count q ring ≡ count q slot)
    → InSlot ring e
    → InSlot slot e
InSlot-sub ring slot null h i = refl
InSlot-sub ring slot head h i = refl
InSlot-sub ring slot (record_of q) h i = omega (arith, h q, i)

-- What a walk returns.
abbrev ReturnsIn : List ℕ → Walk → Type 0
ReturnsIn ring null_read = ⊥
ReturnsIn ring (returns e) = InSlot ring e

ReturnsIn-cons : (q : ℕ) (ring : List ℕ) (w : Walk) → ReturnsIn ring w → ReturnsIn (q ∷ ring) w
ReturnsIn-cons q ring null_read h = h
ReturnsIn-cons q ring (returns null) h = refl
ReturnsIn-cons q ring (returns head) h = refl
ReturnsIn-cons q ring (returns (record_of p)) h = ground (arith, h)

-- A walk from a record on never meets NULL.
walk_prev-ReturnsIn :
    (pid q : ℕ) (ps : List ℕ) → ReturnsIn (q ∷ ps) (walk_prev pid (record_of q) ps)
unfolding walk_prev
walk_prev-ReturnsIn pid q [] = elim (Bool-cases (q == pid)) [
  | inl e ↦ rw e refl
  | inr e ↦ rw e refl
]
walk_prev-ReturnsIn pid q (p ∷ ps) = elim (Bool-cases (q == pid)) [
  | inl e ↦ rw e (ground arith)
  | inr e ↦ rw e (ReturnsIn-cons q (p ∷ ps) _ (walk_prev-ReturnsIn pid p ps))
]

or_tail-InSlot : (ring : List ℕ) (e : Entry) → InSlot ring e → InSlot ring (or_tail ring e)
or_tail-InSlot [] null h = refl
or_tail-InSlot (p ∷ ps) null h = ground arith
or_tail-InSlot ring head h = h
or_tail-InSlot ring (record_of p) h = h

copy_of-IsVictim :
    (score : ℕ) (t : ProcTable.Table) (e : Entry)
    → IsTable t
    → InSlot (t.procadjslot_list (adj_to_slot (pos score))) e
    → IsVictim score t (copy_of t e)
copy_of-IsVictim score t null v h = refl
copy_of-IsVictim score t head v h = refl
copy_of-IsVictim score t (record_of q) v h = elim (Option-cases (pid_lookup t q)) [
  | inl e ↦ rw (copy_of, e) refl
  | inr (p, e) ↦
      rw (copy_of, e) (ap (pid_lookup t) (pid_lookup-pid t q e) ∙ e, slot_score score q t p v h e)
]

copy_of-ne-crash : (t : ProcTable.Table) (e : Entry) → copy_of t e ≢ crash
copy_of-ne-crash t null h = cc
copy_of-ne-crash t head h = cc
copy_of-ne-crash t (record_of q) h = elim (Option-cases (pid_lookup t q)) [
  | inl e ↦ absurd (ground (arith, h, e))
  | inr (p, e) ↦ absurd (ground (arith, h, e))
]

-- Either the slot is empty and the search reads through NULL, or it returns a pointer into the slot.
proc_adj_prev-cases :
    (pid : ℕ) (ring : List ℕ)
    → ((ring ≡ []) × (proc_adj_prev pid ring ≡ null_read))
      ⊎ ((e : Entry) × (proc_adj_prev pid ring ≡ returns e) × InSlot ring e)
unfolding proc_adj_prev walk_prev
proc_adj_prev-cases pid [] = inl (refl, refl)
proc_adj_prev-cases pid (q ∷ ps) = inr (returned (q ∷ ps) _ (walk_prev-ReturnsIn pid q ps))
  where
    returned :
        (ring : List ℕ) (w : Walk)
        → ReturnsIn ring w
        → (e : Entry) × (w ≡ returns e) × InSlot ring e
    returned ring null_read h = elim h [ ]
    returned ring (returns e) h = (e, refl, h)

adjslot_tail-InSlot : (ring : List ℕ) → InSlot ring (adjslot_tail ring)
adjslot_tail-InSlot [] = refl
adjslot_tail-InSlot (p ∷ ps) = ground arith

module _ (oom_score prev_pid : ℕ) (t : ProcTable.Table) where
  abbrev slot : List ℕ
  slot = t.procadjslot_list (adj_to_slot (pos oom_score))

  in_slot : (e : Entry) → InSlot (backwards slot) e → InSlot slot e
  in_slot e = InSlot-sub (backwards slot) slot e (λ q. count-backwards q slot)

  -- A victim is registered with the score of the search.
  find_victim-IsVictim : IsTable t → IsVictim oom_score t (find_victim oom_score prev_pid t)
  unfolding find_victim
  find_victim-IsVictim v = elim (Bool-cases (prev_pid == 0)) [
    | inl first ↦
        rw (find_victim, first)
          (copy_of-IsVictim oom_score t _ v (in_slot _ (adjslot_tail-InSlot (backwards slot))))
    | inr later ↦ elim (proc_adj_prev-cases prev_pid (backwards slot)) [
      | inl (none_there, e) ↦ rw (find_victim, later, e) refl
      | inr (p, e, h) ↦
          rw (find_victim, later, e)
            (copy_of-IsVictim oom_score t _ v (in_slot _ (or_tail-InSlot (backwards slot) p h)))
    ]
  ]

  crash-empty : find_victim oom_score prev_pid t ≡ crash → (0 < prev_pid) × (slot ≡ [])
  unfolding find_victim
  crash-empty h = elim (Bool-cases (prev_pid == 0)) [
    | inl first ↦ absurd (copy_of-ne-crash t _ (rw (find_victim, first) at h))
    | inr later ↦ elim (proc_adj_prev-cases prev_pid (backwards slot)) [
      | inl (none_there, e) ↦ (ground (arith, later), backwards-empty slot none_there)
      | inr (p, e, i) ↦ absurd (copy_of-ne-crash t _ (rw (find_victim, later, e) at h))
    ]
  ]

  empty-crash : 0 < prev_pid → slot ≡ [] → find_victim oom_score prev_pid t ≡ crash
  unfolding find_victim backwards proc_adj_prev walk_prev
  empty-crash h e =
      let later : prev_pid == 0 ≡ false = ground (arith, h) in rw (find_victim, e, later) refl

  -- `find_victim` reads through NULL exactly where a victim was already tried at the score and the
  -- slot of the score is empty, as when the main thread has removed its last record in between.
  pub find_victim-crash :
      ((0 < prev_pid) × (slot ≡ []) → find_victim oom_score prev_pid t ≡ crash)
      × (find_victim oom_score prev_pid t ≡ crash → (0 < prev_pid) × (slot ≡ []))
  find_victim-crash = (λ (h, e). empty-crash h e, crash-empty)

abbrev pub invalid : Proc → Proc
invalid p = record p { valid = false }

-- The end of a search that killed a process: the process was registered at some round with a score up
-- to `highest`, its record was valid and the kill succeeded; and in the table that the thread meets
-- after the kill, the record of the pid, if there is one, is made invalid, and no other lookup changes.
abbrev pub Fair : (ℕ → ProcTable.Table) → (ℕ → ProcTable.Table) → (Proc → Bool) → ℕ → Bite → Type 0
Fair table later kills highest crashed = highest ≡ highest
Fair table later kills highest nothing_killed = highest ≡ highest
Fair table later kills highest out_of_fuel = highest ≡ highest
Fair table later kills highest (killed p u) =
    (round : ℕ) × (score : ℕ) × (score ≤ highest)
    × (pid_lookup (table round) p.pid ≡ some p)
    × (p.oomadj ≡ pos score)
    × (p.valid ≡ true)
    × (kills p ≡ true)
    × ((q : ℕ)
        → pid_lookup u q ≡ (
            if q == p.pid
            then map_option invalid (pid_lookup (later round) q)
            else pid_lookup (later round) q))

Fair-mono :
    (table later : ℕ → ProcTable.Table) (kills : Proc → Bool) (m n : ℕ) (b : Bite)
    → m ≤ n
    → Fair table later kills m b
    → Fair table later kills n b
Fair-mono table later kills m n crashed h f = refl
Fair-mono table later kills m n nothing_killed h f = refl
Fair-mono table later kills m n out_of_fuel h f = refl
Fair-mono table later kills m n (killed p u) h
      (round, score, le, found, rated, valid, gone, after) =
    (round, score, omega arith, found, rated, valid, gone, after)

invalidated :
    (t : ProcTable.Table) (pid q : ℕ)
    → pid_lookup (pid_invalidate pid t) q
      ≡ (if q == pid then map_option invalid (pid_lookup t q) else pid_lookup t q)
unfolding pid_invalidate
invalidated t pid q = pid_lookup-modify pid invalid t q (λ r. refl)

Victim-cases : (v : Victim) → (v ≡ crash) ⊎ ((v ≡ no_victim) ⊎ ((p : Proc) × (v ≡ victim p)))
Victim-cases crash = inl refl
Victim-cases no_victim = inr (inl refl)
Victim-cases (victim p) = inr (inr (p, refl))

module _ (table later : ℕ → ProcTable.Table) (kills : Proc → Bool)
    (well : (n : ℕ) → IsTable (table n)) where
  -- The search at the next lower score.
  next_score-Fair :
      (fuel score : ℕ)
      → ((lower : ℕ) → Fair table later kills lower (search_from table later kills fuel lower 0))
      → Fair table later kills score (elim score [
        | zero ↦ nothing_killed
        | suc lower ↦ search_from table later kills fuel lower 0
      ])
  next_score-Fair fuel zero below = refl
  next_score-Fair fuel (suc lower) below =
      Fair-mono table later kills lower (suc lower) (search_from table later kills fuel lower 0)
        (omega arith) (below lower)

  search_from-Fair :
      (fuel score prev : ℕ)
      → Fair table later kills score (search_from table later kills fuel score prev)
  unfolding search_from
  search_from-Fair zero score prev = refl
  search_from-Fair (suc fuel) score prev =
      let found = find_victim-IsVictim score prev (table fuel) (well fuel) in
      elim (Victim-cases (find_victim score prev (table fuel))) [
        | inl e ↦ rw (search_from, e) refl
        | inr (inl e) ↦
            rw (search_from, e)
              (next_score-Fair fuel score (λ lower. search_from-Fair fuel lower 0))
        | inr (inr (p, e)) ↦ elim (Bool-cases (p.valid && kills p)) [
          | inl done ↦
              let (there, rated) = subst (IsVictim score (table fuel)) e found in
              rw (search_from, e, done)
                (
                  fuel,
                  score,
                  omega arith,
                  there,
                  rated,
                  ground (arith, done),
                  ground (arith, done),
                  invalidated (later fuel) p.pid,
                )
          | inr failed ↦ rw (search_from, e, failed) (search_from-Fair fuel score p.pid)
        ]
      ]

  -- If the table is well formed whenever the thread searches it, then whatever the main thread does to
  -- it between the searches, and between a search and the change of the record, a process that the
  -- watchdog kills was registered in some search with a score from 0 to 1000, its record was valid and
  -- its kill succeeded; the record that the table then has for its pid, if any, is made invalid, and
  -- the lookup of no other pid changes.
  pub watchdog_callback-Fair :
      (fuel : ℕ) → Fair table later kills 1000 (watchdog_callback table later kills fuel)
  unfolding watchdog_callback
  watchdog_callback-Fair fuel = search_from-Fair fuel 1000 0
