-- ===== src/Stats/Names.antt =====
-- statslog.cpp: the task names refine a finite map from a pid to its name, over every sequence of
-- operations.
use android_system_memory_lm.Base.{
  ℕ, ◌≡◌, refl, sym, subst, arith, ◌∙◌, inl, inr, Option-cases, Bool-cases, List, [], ◌∷◌, Option,
  none, some, Bool, true, false, ◌==◌, if◌then◌else◌, update,
}
use android_system_memory_lm.Text.{Bytes, str_eq-eq}
use android_system_memory_lm.Stats.{
  Tasks, find_task, pid_lookup, proc_insert, stats_remove_taskname, cut_taskname,
  stats_store_taskname, stats_purge_tasknames, stats_get_task_name, forget, is_named, new_task,
}
use android_system_memory_lm.Stats.Chains.{
  count_task, Unique, IsTasks, take-take, get-remove, get-insert, Unique-remove, Unique-insert,
  count-lookup, lookup-remove,
}

-- The table in which a name is stored, once the old record of the pid is gone.
pub record Cleared (pid : ℕ) (s t : Tasks) : Type 0 where
  on : t.enable_stats_log ≡ true
  unique : Unique t
  absent : pid_lookup t pid ≡ none
  others : (q : ℕ) → stats_get_task_name t q ≡ (if q == pid then none else stats_get_task_name s q)

forget-Cleared : (pid : ℕ) (s : Tasks) → IsTasks s → Cleared pid s (forget (pid_lookup s pid) pid s)
forget-Cleared pid s v = elim (Option-cases (pid_lookup s pid)) [
  | inl e ↦ rw e (record {
    on = v.enabled;
    unique = v.unique;
    absent = e;
    others = λ q. unfold stats_get_task_name in ground (arith, e);
  })
  | inr (p, e) ↦ rw e (record {
    on = unfold stats_remove_taskname in ground (arith, v.enabled, Option-cases s.pidhash);
    unique = Unique-remove pid s v.enabled v.unique;
    absent = lookup-remove pid s v.enabled v.unique;
    others = λ q. get-remove pid q s v.enabled v.unique;
  })
]

get-named :
    (pid : ℕ) (name : Bytes) (s : Tasks)
    → is_named (pid_lookup s pid) name ≡ true
    → stats_get_task_name s pid ≡ some name
unfolding stats_get_task_name
get-named pid name s h = elim (Option-cases (pid_lookup s pid)) [
  | inl e ↦ absurd (ground (arith, rw e at h))
  | inr (p, e) ↦ ground (arith, e, str_eq-eq p.taskname name)
]

-- A name that is stored is the one that its pid has, cut to 127 bytes; the others stay.
get-store :
    (pid : ℕ) (name : Bytes) (q : ℕ) (s : Tasks)
    → IsTasks s
    → stats_get_task_name (stats_store_taskname pid (some name) s) q
      ≡ (if q == pid then some (cut_taskname name) else stats_get_task_name s q)
unfolding stats_store_taskname
get-store pid name q s v = elim (Bool-cases (is_named (pid_lookup s pid) name)) [
  | inl same ↦
      let found = get-named pid name s same in
      rw (v.enabled, same) (ground (arith, found, v.short pid name))
  | inr other ↦
      let c = forget-Cleared pid s v in
      rw (v.enabled, other)
        (ground
          (arith, get-insert (new_task pid name) q (forget (pid_lookup s pid) pid s), c.others q))
]

store_same :
    (pid : ℕ) (name : Bytes) (s : Tasks)
    → is_named (pid_lookup s pid) name ≡ true
    → stats_store_taskname pid (some name) s ≡ s
unfolding stats_store_taskname
store_same pid name s same = ground (arith, same)

store_other :
    (pid : ℕ) (name : Bytes) (s : Tasks)
    → s.enable_stats_log ≡ true
    → is_named (pid_lookup s pid) name ≡ false
    → stats_store_taskname pid (some name) s
      ≡ proc_insert (new_task pid name) (forget (pid_lookup s pid) pid s)
unfolding stats_store_taskname
store_other pid name s on other = ground (arith, on, other)

-- A test of each of the two outcomes of a store.
store_either :
    (P : Tasks → Type 0) (pid : ℕ) (name : Bytes) (s : Tasks)
    → IsTasks s
    → P s
    → P (proc_insert (new_task pid name) (forget (pid_lookup s pid) pid s))
    → P (stats_store_taskname pid (some name) s)
store_either P pid name s v kept inserted = elim (Bool-cases (is_named (pid_lookup s pid) name)) [
  | inl same ↦ subst P (sym (store_same pid name s same)) kept
  | inr other ↦ subst P (sym (store_other pid name s v.enabled other)) inserted
]

Unique-store :
    (pid : ℕ) (name : Bytes) (s : Tasks)
    → IsTasks s
    → Unique (stats_store_taskname pid (some name) s)
Unique-store pid name s v =
    let t = forget (pid_lookup s pid) pid s in
    let c = forget-Cleared pid s v in
    store_either Unique pid name s v v.unique
      (Unique-insert (new_task pid name) t (count-lookup pid t c.absent) c.unique)

store-enabled :
    (pid : ℕ) (name : Bytes) (s : Tasks)
    → IsTasks s
    → (stats_store_taskname pid (some name) s).enable_stats_log ≡ true
unfolding proc_insert
store-enabled pid name s v =
    store_either (λ t. t.enable_stats_log ≡ true) pid name s v v.enabled (forget-Cleared pid s v).on

-- The name of one pid changes to one that fits.
cut-if :
    (b : Bool) (new old : Option Bytes) (name : Bytes)
    → ((n : Bytes) → new ≡ some n → cut_taskname n ≡ n)
    → ((n : Bytes) → old ≡ some n → cut_taskname n ≡ n)
    → (if b then new else old) ≡ some name
    → cut_taskname name ≡ name
cut-if true new old name f g h = f name h
cut-if false new old name f g h = g name h

cut-cut : (name n : Bytes) → some (cut_taskname name) ≡ some n → cut_taskname n ≡ n
cut-cut name n h =
    let e : cut_taskname name ≡ n = cc in subst (λ m. cut_taskname m ≡ m) e (take-take 127 name)

store-IsTasks :
    (pid : ℕ) (name : Bytes) (s : Tasks)
    → IsTasks s
    → IsTasks (stats_store_taskname pid (some name) s)
store-IsTasks pid name s v = record {
  enabled = store-enabled pid name s v;
  unique = Unique-store pid name s v;
  short = λ q n h.
      cut-if (q == pid) (some (cut_taskname name)) (stats_get_task_name s q) n (cut-cut name)
        (v.short q) (sym (get-store pid name q s v) ∙ h);
}

remove-IsTasks : (pid : ℕ) (s : Tasks) → IsTasks s → IsTasks (stats_remove_taskname pid s)
remove-IsTasks pid s v = record {
  enabled = unfold stats_remove_taskname in ground (arith, v.enabled, Option-cases s.pidhash);
  unique = Unique-remove pid s v.enabled v.unique;
  short = λ q n h.
      cut-if (q == pid) none (stats_get_task_name s q) n (λ m e. cc) (v.short q)
        (sym (get-remove pid q s v.enabled v.unique) ∙ h);
}

get-purge :
    (q : ℕ) (s : Tasks)
    → s.enable_stats_log ≡ true
    → stats_get_task_name (stats_purge_tasknames s) q ≡ none
unfolding stats_get_task_name stats_purge_tasknames find_task
get-purge q s on = elim (Option-cases s.pidhash) [
  | inl e ↦ ground (arith, e)
  | inr (h, e) ↦ ground (arith, e)
]

purge-IsTasks : (s : Tasks) → IsTasks s → IsTasks (stats_purge_tasknames s)
unfolding stats_purge_tasknames count_task
purge-IsTasks s v = record {
  enabled = ground (arith, v.enabled, Option-cases s.pidhash);
  unique = λ q h. ground (arith, v.enabled, v.unique q h, Option-cases s.pidhash);
  short = λ q n h. ground (arith, get-purge q s v.enabled);
}

-- What the daemon asks of the table.
pub data Request : Type 0 where
  store : ℕ → Option Bytes → Request
  remove : ℕ → Request
  purge : Request

pub serve : Request → Tasks → Tasks
serve (store pid name) s = stats_store_taskname pid name s
serve (remove pid) s = stats_remove_taskname pid s
serve purge s = stats_purge_tasknames s

unfoldable pub serve_all : List Request → Tasks → Tasks
unfolding serve
serve_all [] s = s
serve_all (r ∷ rs) s = serve_all rs (serve r s)

-- The same requests on a map from a pid to a name.
unfoldable pub map_after : List Request → (ℕ → Option Bytes) → ℕ → Option Bytes
map_after [] m = m
map_after (store pid none ∷ rs) m = map_after rs m
map_after (store pid (some name) ∷ rs) m = map_after rs (update m pid (some (cut_taskname name)))
map_after (remove pid ∷ rs) m = map_after rs (update m pid none)
map_after (purge ∷ rs) m = map_after rs (λ q. none)

serve-IsTasks : (r : Request) (s : Tasks) → IsTasks s → IsTasks (serve r s)
unfolding serve stats_store_taskname
serve-IsTasks (store pid none) s v = v
serve-IsTasks (store pid (some name)) s v = store-IsTasks pid name s v
serve-IsTasks (remove pid) s v = remove-IsTasks pid s v
serve-IsTasks purge s v = purge-IsTasks s v

serve_all-IsTasks : (rs : List Request) (s : Tasks) → IsTasks s → IsTasks (serve_all rs s)
unfolding serve_all
serve_all-IsTasks [] s v = v
serve_all-IsTasks (r ∷ rs) s v = serve_all-IsTasks rs (serve r s) (serve-IsTasks r s v)

-- The requests of a map that agrees at every pid give maps that agree.
serve_all-map :
    (rs : List Request) (s : Tasks) (m : ℕ → Option Bytes)
    → IsTasks s
    → ((q : ℕ) → stats_get_task_name s q ≡ m q)
    → (q : ℕ) → stats_get_task_name (serve_all rs s) q ≡ map_after rs m q
unfolding serve_all map_after stats_store_taskname
serve_all-map [] s m v h q = h q
serve_all-map (store pid none ∷ rs) s m v h q = serve_all-map rs s m v h q
serve_all-map (store pid (some name) ∷ rs) s m v h q =
    serve_all-map rs (stats_store_taskname pid (some name) s)
      (update m pid (some (cut_taskname name))) (store-IsTasks pid name s v)
      (λ a. ground (arith, get-store pid name a s v, h a)) q
serve_all-map (remove pid ∷ rs) s m v h q =
    serve_all-map rs (stats_remove_taskname pid s) (update m pid none) (remove-IsTasks pid s v)
      (λ a. ground (arith, get-remove pid a s v.enabled v.unique, h a)) q
serve_all-map (purge ∷ rs) s m v h q =
    serve_all-map rs (stats_purge_tasknames s) (λ a. none) (purge-IsTasks s v)
      (λ a. get-purge a s v.enabled) q

-- With the log of statistics on, after any sequence of stores, removals and purges of a well-formed
-- table, stats_get_task_name gives for every pid what a finite map gives on which the same requests
-- are made: a store with a name sets the pid to the name cut to 127 bytes, a store without a name
-- changes nothing, a removal unsets the pid, and a purge unsets all. The table stays well formed.
pub serve_all-IsMap :
    (rs : List Request) (s : Tasks)
    → IsTasks s
    → ((q : ℕ) → stats_get_task_name (serve_all rs s) q ≡ map_after rs (stats_get_task_name s) q)
      × IsTasks (serve_all rs s)
serve_all-IsMap rs s v =
    (serve_all-map rs s (stats_get_task_name s) v (λ q. refl), serve_all-IsTasks rs s v)
