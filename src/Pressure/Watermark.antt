-- ===== src/Pressure/Watermark.antt =====
-- lmkd.cpp: what `get_lowest_watermark` answers.
use android_system_memory_lm.Base.{
  ◌≤◌, ◌≡◌, arith, Bool, true, if◌then◌else◌, ℤ, ltb_ℤ, ◌≤ℤ◌, ◌+ℤ◌, ◌-ℤ◌, +ℤ_parts, -ℤ_parts,
  int_laws,
}
use android_system_memory_lm.Polling.{Level}
use android_system_memory_lm.Pressure.{
  Config, ZoneMeminfo, ZoneWatermark, wmark_min, wmark_low, wmark_high, wmark_none, wmark_number,
  get_lowest_watermark,
}

-- A sum stays below a mark when it gets smaller.
below_mono : (a b c m : ℤ) → a ≤ℤ b → ltb_ℤ (b +ℤ c) m ≡ true → ltb_ℤ (a +ℤ c) m ≡ true
below_mono a b c m h e = ground (arith, +ℤ_parts a c, +ℤ_parts b c)

-- The marks in their order, with the tests as Booleans.
abbrev first_mark : Bool → Bool → Bool → ZoneWatermark
first_mark m l h =
    if m then wmark_min else if l then wmark_low else if h then wmark_high else wmark_none

first_mark_mono :
    (m l h m' l' h' : Bool)
    → (m' ≡ true → m ≡ true)
    → (l' ≡ true → l ≡ true)
    → (h' ≡ true → h ≡ true)
    → wmark_number (first_mark m l h) ≤ wmark_number (first_mark m' l' h')
first_mark_mono m l h m' l' h' a b c = ground arith

-- With everything else the same, more free pages never make a lower watermark breached.
get_lowest_watermark_mono :
    (config : Config) (wbf : ℤ) (zmi : ZoneMeminfo) (level : Level) (is_event in_compaction : Bool)
    (more : ℤ)
    → zmi.nr_free_pages ≤ℤ more
    → wmark_number (get_lowest_watermark config wbf zmi level is_event in_compaction)
      ≤ wmark_number (
          get_lowest_watermark config wbf
            (record zmi { nr_free_pages = more })
            level
            is_event
            in_compaction)
unfolding get_lowest_watermark
get_lowest_watermark_mono config wbf zmi level is_event in_compaction more h =
    let a = zmi.nr_free_pages -ℤ zmi.cma_free in
    let b = more -ℤ zmi.cma_free in
    let le : a ≤ℤ b =
      omega (int_laws, h, -ℤ_parts zmi.nr_free_pages zmi.cma_free, -ℤ_parts more zmi.cma_free) in
    first_mark_mono _ _ _ _ _ _ (below_mono a b _ _ le) (below_mono a b _ _ le)
      (below_mono a b _ _ le)
