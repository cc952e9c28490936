-- ===== src/Props/Ranges.antt =====
-- lmkd.cpp: the ranges of the settings that `update_props` gives, whatever the properties are.
use android_system_memory_lm.Base.{◌≡◌, arith, none, if◌then◌else◌, ◌*ℤ◌, ℤ, pos, ◌≤ℤ◌, ◌<ℤ◌, max_ℤ}
use android_system_memory_lm.Props.{
  Properties, Settings, get_int, clamp, update_lmk_props, update_perf_props, update_props,
  perceptible_app_adj, low_ram_default,
}

-- The numbers that the code restricts.
pub record InRange (s : Settings) : Type 0 where
  pub swap_free_low_percentage :
      (pos 0 ≤ℤ s.swap_free_low_percentage) × (s.swap_free_low_percentage ≤ℤ pos 100)
  pub thrashing_limit_pct : pos 0 ≤ℤ s.thrashing_limit_pct
  pub thrashing_limit_decay_pct :
      (pos 0 ≤ℤ s.thrashing_limit_decay_pct) × (s.thrashing_limit_decay_pct ≤ℤ pos 100)
  pub thrashing_critical_pct : pos 0 ≤ℤ s.thrashing_critical_pct
  pub swap_util_max : (pos 0 ≤ℤ s.swap_util_max) × (s.swap_util_max ≤ℤ pos 100)
  pub lowmem_min_oom_score : perceptible_app_adj <ℤ s.lowmem_min_oom_score

clamp_bounds :
    (v : ℤ) → (pos 0 ≤ℤ clamp (pos 0) (pos 100) v) × (clamp (pos 0) (pos 100) v ≤ℤ pos 100)
unfolding clamp
clamp_bounds v = ground arith

le-max : (a b : ℤ) → a ≤ℤ max_ℤ a b
le-max a b = ground arith

above_perceptible : (b : ℤ) → perceptible_app_adj <ℤ max_ℤ (pos 201) b
above_perceptible b = ground arith

update_lmk_props-InRange : (p : Properties) (s : Settings) → InRange (update_lmk_props p s)
unfolding update_lmk_props
update_lmk_props-InRange p s =
    let low = low_ram_default p in
    let limit = max_ℤ (pos 0) (get_int p "thrashing_limit" (if low then pos 30 else pos 30)) in
    record {
      swap_free_low_percentage = clamp_bounds (get_int p "swap_free_low_percentage" (pos 10));
      thrashing_limit_pct =
          le-max (pos 0) (get_int p "thrashing_limit" (if low then pos 30 else pos 30));
      thrashing_limit_decay_pct =
          clamp_bounds (get_int p "thrashing_limit_decay" (if low then pos 50 else pos 10));
      thrashing_critical_pct =
          le-max (pos 0) (get_int p "thrashing_limit_critical" (limit *ℤ pos 3));
      swap_util_max = clamp_bounds (get_int p "swap_util_max" (pos 100));
      lowmem_min_oom_score = above_perceptible (get_int p "lowmem_min_oom_score" (pos 701));
    }

-- Without the performance library, update_props gives percentages of the swap and of the decay from
-- 0 to 100, limits of the thrashing that are not negative, and a least score for kills at low memory
-- that is above every perceptible application, whatever the properties say.
pub update_props-InRange :
    (p : Properties) (s : Settings) → p.perf ≡ none → InRange (update_props p s).1
unfolding update_props update_perf_props
update_props-InRange p s h =
    rw (h, update_perf_props)
      (record {
        swap_free_low_percentage = (update_lmk_props-InRange p s).swap_free_low_percentage;
        thrashing_limit_pct = (update_lmk_props-InRange p s).thrashing_limit_pct;
        thrashing_limit_decay_pct = (update_lmk_props-InRange p s).thrashing_limit_decay_pct;
        thrashing_critical_pct = (update_lmk_props-InRange p s).thrashing_critical_pct;
        swap_util_max = (update_lmk_props-InRange p s).swap_util_max;
        lowmem_min_oom_score = (update_lmk_props-InRange p s).lowmem_min_oom_score;
      })
