-- ===== src/Pressure/Reads.antt =====
-- lmkd.cpp: where `calc_zone_watermarks` stays within `pgskip_deltas`.
use android_system_memory_lm.Base.{
  ℕ, zero, suc, ◌+◌, ◌≤◌, ◌<◌, ◌≡◌, ◌⊎◌, inl, inr, refl, ap, arith, List, [], ◌∷◌, none, some,
  false, if◌then◌else◌, ℤ, pos, negsuc, ltb_ℤ, eqb_ℤ, get_elem?, length, Bool-cases, Option-cases,
}
use android_system_memory_lm.Text.{Bytes}
use android_system_memory_lm.Pressure.{Zone, Zoneinfo, ZoneMeminfo, Config}
use android_system_memory_lm.Pressure.Zones.{
  find_field, read_delta, Sums, skip_missing, from_index, zone_delta, debug_delta, add_zone,
  visit_zone, visit_zones, visit_nodes, calc_zone_watermarks, no_sums,
}

-- How many zones the kernel lists, of those whose deltas are given.
abbrev pub listed : List ℤ → ℕ
listed [] = 0
listed (d ∷ ds) = (if ltb_ℤ d (pos 0) then 0 else 1) + listed ds

get_elem?-from_index :
    (ds : List ℤ) (i : ℕ) (d : ℤ) (rest : List ℤ)
    → from_index ds i ≡ d ∷ rest
    → get_elem? ds i ≡ some d
get_elem?-from_index ds zero d rest e = rw e refl
get_elem?-from_index [] (suc i) d rest e = absurd (ground (arith, e))
get_elem?-from_index (x ∷ ds) (suc i) d rest e = get_elem?-from_index ds i d rest e

from_index-suc :
    (ds : List ℤ) (i : ℕ) (d : ℤ) (rest : List ℤ)
    → from_index ds i ≡ d ∷ rest
    → from_index ds (suc i) ≡ rest
from_index-suc [] zero d rest e = absurd (ground (arith, e))
from_index-suc [] (suc i) d rest e = absurd (ground (arith, e))
from_index-suc (x ∷ ds) zero d rest e = ground (arith, e)
from_index-suc (x ∷ ds) (suc i) d rest e = from_index-suc ds i d rest e

-- The loop over missing zones stops at one that is listed, if there is one.
skip_missing_lem :
    (all ds : List ℤ) (i : ℕ)
    → from_index all i ≡ ds
    → 0 < listed ds
    → (j : ℕ) × (d : ℤ) × (rest : List ℤ) × (skip_missing ds i ≡ some j)
      × (from_index all j ≡ d ∷ rest)
      × (listed ds ≡ suc (listed rest))
      × (listed (d ∷ rest) ≡ listed ds)
unfolding skip_missing
skip_missing_lem all [] i e h = absurd (omega arith)
skip_missing_lem all (d ∷ ds) i e h = elim (Bool-cases (ltb_ℤ d (pos 0))) [
  | inl missing ↦
      let (j, d', rest, skips, there, less, same) =
        skip_missing_lem all ds (suc i) (from_index-suc all i d ds e)
          (ground (arith, h, missing)) in
      (
        j,
        d',
        rest,
        ground (arith, missing, skips),
        there,
        ground (arith, missing, less),
        ground (arith, missing, same),
      )
  | inr here ↦ (i, d, ds, ground (arith, here), e, ground (arith, here), ground (arith, here))
]

-- The name of a zone stands in no field name, or in that of a delta.
abbrev pub IsReadable : List Bytes → List ℤ → Bytes → Type 0
IsReadable names all name =
    (find_field names name 0 ≡ none)
    ⊎ ((idx : ℕ) × (d : ℤ) × (find_field names name 0 ≡ some idx) × (read_delta all idx ≡ some d))

zone_delta_lem :
    (names : List Bytes) (all : List ℤ) (name : Bytes) (i : ℕ) (here : ℤ)
    → IsReadable names all name
    → get_elem? all i ≡ some here
    → (d : ℤ) × (j : ℕ) × (zone_delta names all name i ≡ some (d, j)) × ((j ≡ i) ⊎ (j ≡ suc i))
unfolding zone_delta
zone_delta_lem names all name i here (inl e) g = (here, suc i, rw (zone_delta, e, g) refl, inr refl)
zone_delta_lem names all name i here (inr (idx, d, e, f)) g =
    elim (Bool-cases (eqb_ℤ d (negsuc 1))) [
      | inl unknown ↦ (here, suc i, rw (zone_delta, e, f, unknown, g) refl, inr refl)
      | inr known ↦ (d, i, rw (zone_delta, e, f, known) refl, inl refl)
    ]

module _ (config : Config) (names : List Bytes) (mglru_status wbf : ℤ) (all : List ℤ)
    (quiet : config.debug_process_killing ≡ false) where
  -- A zone takes one listed delta at most.
  visit_zone_lem :
      (zone : Zone) (i : ℕ) (sums : Sums)
      → IsReadable names all zone.name
      → 0 < listed (from_index all i)
      → (u : Sums) × (j : ℕ) × (visit_zone config names mglru_status wbf all zone i sums
          ≡ some (u, j))
        × (listed (from_index all i) ≤ suc (listed (from_index all j)))
  unfolding visit_zone debug_delta
  visit_zone_lem zone i sums readable h =
      let (j, d, rest, skips, there, less, same) =
        skip_missing_lem all (from_index all i) i refl h in
      let next = from_index-suc all j d rest there in
      elim (Bool-cases (eqb_ℤ zone.present (pos 0))) [
        | inl absent ↦
            (sums, suc j, rw (visit_zone, skips, absent) refl, omega (arith, less, ap listed next))
        | inr present ↦
            let (v, k, reads, moved) =
              zone_delta_lem names all zone.name j d readable
                (get_elem?-from_index all j d rest there) in
            (
              if eqb_ℤ v (pos 0) then add_zone mglru_status wbf zone sums else sums,
              k,
              rw (visit_zone, skips, present, reads, debug_delta, quiet) refl,
              elim moved [
                | inl e ↦
                    omega (arith, ap (λ n. listed (from_index all n)) e, ap listed there, same)
                | inr e ↦ omega (arith, ap (λ n. listed (from_index all n)) e, ap listed next, less)
              ],
            )
      ]

  abbrev AllReadable : List Zone → Type 0
  AllReadable [] = zero ≡ zero
  AllReadable (zone ∷ zones) = IsReadable names all zone.name × AllReadable zones

  visit_zones_lem :
      (zones : List Zone) (i : ℕ) (sums : Sums)
      → AllReadable zones
      → length zones ≤ listed (from_index all i)
      → (u : Sums) × (visit_zones config names mglru_status wbf all zones i sums ≡ some u)
  unfolding visit_zones
  visit_zones_lem [] i sums readable h = (sums, refl)
  visit_zones_lem (zone ∷ zones) i sums readable h =
      let (u, j, visits, fewer) = visit_zone_lem zone i sums readable.0 (omega arith) in
      let (w, rest) = visit_zones_lem zones j u readable.1 (omega (arith, fewer, h)) in
      (w, rw (visit_zones, visits, rest) refl)

  -- Each node has at most as many zones as deltas are listed, and their names are readable.
  abbrev pub AllFit : Zoneinfo → Type 0
  AllFit [] = zero ≡ zero
  AllFit (node ∷ nodes) = AllReadable node × (length node ≤ listed all) × AllFit nodes

  visit_nodes_lem :
      (nodes : Zoneinfo) (sums : Sums)
      → AllFit nodes
      → (u : Sums) × (visit_nodes config names mglru_status wbf all nodes sums ≡ some u)
  unfolding visit_nodes
  visit_nodes_lem [] sums fit = (sums, refl)
  visit_nodes_lem (node ∷ nodes) sums fit =
      let (u, visits) = visit_zones_lem node 0 sums fit.0 (ground (arith, fit.1)) in
      let (w, rest) = visit_nodes_lem nodes u fit.2 in (w, rw (visit_nodes, visits, rest) refl)

  -- Without debug messages, if each node has at most as many zones as there are zones with a delta that
  -- is not negative, and the name of each zone stands in no name of a counter or in that of a delta,
  -- then calc_zone_watermarks reads no delta outside the array and has a result.
  pub calc_zone_watermarks-total :
      (zi : Zoneinfo)
      → AllFit zi
      → (zmi : ZoneMeminfo) × (calc_zone_watermarks config names mglru_status wbf all zi ≡ some zmi)
  unfolding calc_zone_watermarks
  calc_zone_watermarks-total zi fit =
      let (u, visits) = visit_nodes_lem zi (no_sums config names mglru_status wbf all) fit in
      elim (Option-cases (calc_zone_watermarks config names mglru_status wbf all zi)) [
        | inl e ↦ absurd (ground (arith, e, visits))
        | inr found ↦ found
      ]
