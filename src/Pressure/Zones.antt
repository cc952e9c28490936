-- ===== src/Pressure/Zones.antt =====
-- lmkd.cpp: `calc_zone_watermarks` and what it calls. A read past the end of `pgskip_deltas` gives
-- `none`, and so does a read in front of it.
use android_system_memory_lm.Base.{
  ℕ, zero, suc, ◌+◌, ◌-◌, List, [], ◌∷◌, Option, none, some, Bool, true, false, ◌&&◌, ◌||◌, ltb,
  leb, ◌==◌, if◌then◌else◌, ℤ, pos, negsuc, ltb_ℤ, leb_ℤ, eqb_ℤ, max_ℤ, ◌+ℤ◌, ◌*ℤ◌, get_elem?,
}
use android_system_memory_lm.Text.{Bytes}
use android_system_memory_lm.Pressure.{Zone, Zoneinfo, ZoneMeminfo, Config}

-- The letters of the names without their case: `A` to `Z` as `a` to `z`.
abbrev to_lower : ℕ → ℕ
to_lower c = if leb 65 c && leb c 90 then c + 32 else c

unfoldable pub starts_with_nocase : Bytes → Bytes → Bool
starts_with_nocase haystack [] = true
starts_with_nocase [] (n ∷ needle) = false
starts_with_nocase (h ∷ haystack) (n ∷ needle) =
    to_lower h == to_lower n && starts_with_nocase haystack needle

-- `strcasestr (haystack, needle) != NULL`.
unfoldable pub contains_nocase : Bytes → Bytes → Bool
unfolding starts_with_nocase
contains_nocase [] needle = starts_with_nocase [] needle
contains_nocase (h ∷ haystack) needle =
    if starts_with_nocase (h ∷ haystack) needle then true else contains_nocase haystack needle

-- The number of the first field whose name contains the zone's.
unfoldable pub find_field : List Bytes → Bytes → ℕ → Option ℕ
unfolding contains_nocase
find_field [] zone_name idx = none
find_field (field ∷ fields) zone_name idx =
    if contains_nocase field zone_name then some idx else find_field fields zone_name (suc idx)

abbrev pub vs_pgskip_first_zone : ℕ
vs_pgskip_first_zone = 9

-- pgskip_deltas[PGSKIP_IDX(idx)].
abbrev pub read_delta : List ℤ → ℕ → Option ℤ
read_delta pgskip_deltas idx =
    if ltb idx vs_pgskip_first_zone
    then none
    else get_elem? pgskip_deltas (idx - vs_pgskip_first_zone)

-- The sums and the maxima of the loop, and its position `i`, from `VS_PGSKIP_FIRST_ZONE` on.
pub record Sums : Type 0 where
  pub nr_free_pages : ℤ
  pub cma_free : ℤ
  pub nr_zone_inactive_file : ℤ
  pub nr_zone_active_file : ℤ
  pub max_high : ℤ
  pub max_low : ℤ
  pub max_min : ℤ
  pub max_protection : ℤ

-- `while (pgskip_deltas[PGSKIP_IDX(i)] < 0) ++i`, with the deltas from `i` on.
unfoldable pub skip_missing : List ℤ → ℕ → Option ℕ
skip_missing [] i = none
skip_missing (delta ∷ deltas) i =
    if ltb_ℤ delta (pos 0) then skip_missing deltas (suc i) else some i

abbrev pub from_index : List ℤ → ℕ → List ℤ
from_index xs zero = xs
from_index [] (suc i) = []
from_index (x ∷ xs) (suc i) = from_index xs i

-- get_zone_pgskip_deltas_val, and for a name that no field contains the delta at `i`, which moves on.
unfoldable pub zone_delta : List Bytes → List ℤ → Bytes → ℕ → Option (ℤ × ℕ)
unfolding find_field
zone_delta field_names pgskip_deltas zone_name i = elim (find_field field_names zone_name 0) [
  | none ↦ elim (get_elem? pgskip_deltas i) [ none ↦ none | some d ↦ some (d, suc i) ]
  | some idx ↦ elim (read_delta pgskip_deltas idx) [
    | none ↦ none
    | some d ↦
        -- The delta -2 stands for a name that was not found.
        if eqb_ℤ d (negsuc 1)
        then elim (get_elem? pgskip_deltas i) [ none ↦ none | some e ↦ some (e, suc i) ]
        else some (d, i)
  ]
]

-- The debug message reads one more delta, and moves on.
unfoldable pub debug_delta : Config → List ℤ → ℕ → Option ℕ
debug_delta config pgskip_deltas i =
    if config.debug_process_killing
    then elim (get_elem? pgskip_deltas i) [ none ↦ none | some d ↦ some (suc i) ]
    else some i

-- A zone with no pages skipped.
unfoldable pub add_zone : ℤ → ℤ → Zone → Sums → Sums
add_zone mglru_status wbf zone sums =
    let counted = eqb_ℤ mglru_status (pos 0) || leb_ℤ zone.nr_free_pages (zone.high *ℤ wbf) in
    record {
      nr_free_pages = sums.nr_free_pages +ℤ zone.nr_free_pages;
      cma_free = sums.cma_free +ℤ zone.nr_free_cma;
      nr_zone_inactive_file =
          if counted
          then sums.nr_zone_inactive_file +ℤ zone.nr_zone_inactive_file
          else sums.nr_zone_inactive_file;
      nr_zone_active_file =
          if counted
          then sums.nr_zone_active_file +ℤ zone.nr_zone_active_file
          else sums.nr_zone_active_file;
      max_high = max_ℤ sums.max_high zone.high;
      max_low = max_ℤ sums.max_low zone.low;
      max_min = max_ℤ sums.max_min zone.min;
      max_protection = max_ℤ sums.max_protection zone.max_protection;
    }

module _ (config : Config) (field_names : List Bytes) (mglru_status wbf : ℤ)
    (pgskip_deltas : List ℤ) where
  -- The body of the loop over the zones.
  unfoldable pub visit_zone : Zone → ℕ → Sums → Option (Sums × ℕ)
  unfolding skip_missing zone_delta debug_delta add_zone
  visit_zone zone i sums = elim (skip_missing (from_index pgskip_deltas i) i) [
    | none ↦ none
    | some i₁ ↦
        if eqb_ℤ zone.present (pos 0)
        then some (sums, suc i₁)
        else elim (zone_delta field_names pgskip_deltas zone.name i₁) [
          | none ↦ none
          | some (d, i₂) ↦ elim (debug_delta config pgskip_deltas i₂) [
            | none ↦ none
            | some i₃ ↦
                some (if eqb_ℤ d (pos 0) then add_zone mglru_status wbf zone sums else sums, i₃)
          ]
        ]
  ]

  unfoldable pub visit_zones : List Zone → ℕ → Sums → Option Sums
  unfolding visit_zone
  visit_zones [] i sums = some sums
  visit_zones (zone ∷ zones) i sums = elim (visit_zone zone i sums) [
    | none ↦ none
    | some (sums', i') ↦ visit_zones zones i' sums'
  ]

  unfoldable pub visit_nodes : Zoneinfo → Sums → Option Sums
  unfolding visit_zones
  visit_nodes [] sums = some sums
  visit_nodes (node ∷ nodes) sums = elim (visit_zones node 0 sums) [
    | none ↦ none
    | some sums' ↦ visit_nodes nodes sums'
  ]

  abbrev pub no_sums : Sums
  no_sums = record {
    nr_free_pages = pos 0;
    cma_free = pos 0;
    nr_zone_inactive_file = pos 0;
    nr_zone_active_file = pos 0;
    max_high = pos 0;
    max_low = pos 0;
    max_min = pos 0;
    max_protection = pos 0;
  }

  -- The watermarks are set after each node; those after the last one remain.
  unfoldable pub calc_zone_watermarks : Zoneinfo → Option ZoneMeminfo
  unfolding visit_nodes
  calc_zone_watermarks zi = elim (visit_nodes zi no_sums) [
    | none ↦ none
    | some sums ↦ some (record {
      nr_free_pages = sums.nr_free_pages;
      cma_free = sums.cma_free;
      nr_zone_inactive_file = sums.nr_zone_inactive_file;
      nr_zone_active_file = sums.nr_zone_active_file;
      min_wmark = sums.max_min +ℤ sums.max_protection;
      low_wmark = sums.max_low +ℤ sums.max_protection;
      high_wmark = sums.max_high +ℤ sums.max_protection;
    })
  ]
