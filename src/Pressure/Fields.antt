-- ===== src/Pressure/Fields.antt =====
-- lmkd.cpp: `vmstat_field_names`.
use android_system_memory_lm.Base.{List, [], ◌∷◌}
use android_system_memory_lm.Text.{Bytes}

-- The names of the counters of /proc/vmstat, in the order of `enum vmstat_field`.
abbrev pub vmstat_field_names : List Bytes
vmstat_field_names =
    (b'n' ∷ b'r' ∷ b'_' ∷ b'f' ∷ b'r' ∷ b'e' ∷ b'e' ∷ b'_' ∷ b'p' ∷ b'a' ∷ b'g' ∷ b'e' ∷ b's' ∷ [])
    ∷ (b'n' ∷ b'r' ∷ b'_' ∷ b'i' ∷ b'n' ∷ b'a' ∷ b'c' ∷ b't' ∷ b'i' ∷ b'v' ∷ b'e' ∷ b'_' ∷ b'f'
        ∷ b'i' ∷ b'l' ∷ b'e' ∷ [])
    ∷ (b'n' ∷ b'r' ∷ b'_' ∷ b'a' ∷ b'c' ∷ b't' ∷ b'i' ∷ b'v' ∷ b'e' ∷ b'_' ∷ b'f' ∷ b'i' ∷ b'l'
        ∷ b'e' ∷ [])
    ∷ (b'w' ∷ b'o' ∷ b'r' ∷ b'k' ∷ b'i' ∷ b'n' ∷ b'g' ∷ b's' ∷ b'e' ∷ b't' ∷ b'_' ∷ b'r' ∷ b'e'
        ∷ b'f' ∷ b'a' ∷ b'u' ∷ b'l' ∷ b't' ∷ [])
    ∷ (b'w' ∷ b'o' ∷ b'r' ∷ b'k' ∷ b'i' ∷ b'n' ∷ b'g' ∷ b's' ∷ b'e' ∷ b't' ∷ b'_' ∷ b'r' ∷ b'e'
        ∷ b'f' ∷ b'a' ∷ b'u' ∷ b'l' ∷ b't' ∷ b'_' ∷ b'f' ∷ b'i' ∷ b'l' ∷ b'e' ∷ [])
    ∷ (b'p' ∷ b'g' ∷ b'r' ∷ b'e' ∷ b'f' ∷ b'i' ∷ b'l' ∷ b'l' ∷ [])
    ∷ (b'p' ∷ b'g' ∷ b's' ∷ b'c' ∷ b'a' ∷ b'n' ∷ b'_' ∷ b'k' ∷ b's' ∷ b'w' ∷ b'a' ∷ b'p' ∷ b'd'
        ∷ [])
    ∷ (b'p' ∷ b'g' ∷ b's' ∷ b'c' ∷ b'a' ∷ b'n' ∷ b'_' ∷ b'd' ∷ b'i' ∷ b'r' ∷ b'e' ∷ b'c' ∷ b't'
        ∷ [])
    ∷ (b'p' ∷ b'g' ∷ b's' ∷ b'c' ∷ b'a' ∷ b'n' ∷ b'_' ∷ b'd' ∷ b'i' ∷ b'r' ∷ b'e' ∷ b'c' ∷ b't'
        ∷ b'_' ∷ b't' ∷ b'h' ∷ b'r' ∷ b'o' ∷ b't' ∷ b't' ∷ b'l' ∷ b'e' ∷ [])
    ∷ (b'p' ∷ b'g' ∷ b's' ∷ b'k' ∷ b'i' ∷ b'p' ∷ b'_' ∷ b'd' ∷ b'm' ∷ b'a' ∷ [])
    ∷ (b'p' ∷ b'g' ∷ b's' ∷ b'k' ∷ b'i' ∷ b'p' ∷ b'_' ∷ b'd' ∷ b'm' ∷ b'a' ∷ b'3' ∷ b'2' ∷ [])
    ∷ (b'p' ∷ b'g' ∷ b's' ∷ b'k' ∷ b'i' ∷ b'p' ∷ b'_' ∷ b'n' ∷ b'o' ∷ b'r' ∷ b'm' ∷ b'a' ∷ b'l'
        ∷ [])
    ∷ (b'p' ∷ b'g' ∷ b's' ∷ b'k' ∷ b'i' ∷ b'p' ∷ b'_' ∷ b'h' ∷ b'i' ∷ b'g' ∷ b'h' ∷ [])
    ∷ (b'p' ∷ b'g' ∷ b's' ∷ b'k' ∷ b'i' ∷ b'p' ∷ b'_' ∷ b'm' ∷ b'o' ∷ b'v' ∷ b'a' ∷ b'b' ∷ b'l'
        ∷ b'e' ∷ [])
    ∷ (b'c' ∷ b'o' ∷ b'm' ∷ b'p' ∷ b'a' ∷ b'c' ∷ b't' ∷ b'_' ∷ b's' ∷ b't' ∷ b'a' ∷ b'l' ∷ b'l'
        ∷ [])
    ∷ []
