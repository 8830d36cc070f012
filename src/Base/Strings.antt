-- ===== src/Base/Strings.antt =====
-- Searches in strings: prefixes, the last occurrence of a pattern, and blank or control characters
-- in UTF-8.
use Prim.Native.Nat.{ℕ}
use mathlib.Core.Bool.{Bool, true, false, ◌&&◌, ◌||◌}
use mathlib.Core.Option.{Option, none, some}
use mathlib.Core.List.{[], ◌∷◌}
use distributed_execution.Base.Tests.{if◌then◌else◌, ◌==◌, ltb, leb}
use distributed_execution.Base.Text.{Bytes}

-- `value.strip_prefix(prefix)`
abbrev pub strip_prefix : (start value : Bytes) → Option Bytes
strip_prefix [] value = some value
strip_prefix (p ∷ ps) [] = none
strip_prefix (p ∷ ps) (b ∷ bs) = let rest = strip_prefix ps bs in if p == b then rest else none

-- `value.starts_with(prefix)`
abbrev pub starts_with : (start value : Bytes) → Bool
starts_with start value = elim (strip_prefix start value) [ none ↦ false | some rest ↦ true ]

abbrev longer : ℕ → Option (Bytes × Bytes) → Option (Bytes × Bytes) → Option (Bytes × Bytes)
longer b (some (before, after)) here = some (b ∷ before, after)
longer b none here = here

-- `value.rsplit_once(pattern)`, for a pattern that is not empty: the parts around its last occurrence.
abbrev pub rsplit_once : (pattern value : Bytes) → Option (Bytes × Bytes)
rsplit_once delimiter [] = none
rsplit_once delimiter (b ∷ bs) =
    longer b (rsplit_once delimiter bs)
      (elim (strip_prefix delimiter (b ∷ bs)) [ none ↦ none | some rest ↦ some ([], rest) ])

abbrev at_most : ℕ → Bytes → Bool
at_most limit [] = false
at_most limit (b ∷ bs) = leb b limit

-- `char::is_control`: below 32, 127, and 128 to 159, which UTF-8 writes after the byte 194.
abbrev pub has_control : Bytes → Bool
has_control [] = false
has_control (b ∷ bs) = ltb b 32 || b == 127 || b == 194 && at_most 159 bs || has_control bs

-- The spaces that UTF-8 writes in three bytes: U+1680, U+2000 to U+200A, U+2028, U+2029, U+202F,
-- U+205F and U+3000.
abbrev wide_space : Bytes → Bool
wide_space (a ∷ b ∷ c ∷ rest) =
    a == 225 && b == 154 && c == 128
    || a == 226 && b == 128 && (leb 128 c && leb c 138 || c == 168 || c == 169 || c == 175)
    || a == 226 && b == 129 && c == 159
    || a == 227 && b == 128 && c == 128
wide_space _ = false

-- `char::is_whitespace` or `char::is_control`; U+00A0 is written 194, 160.
abbrev pub has_blank : Bytes → Bool
has_blank [] = false
has_blank (b ∷ bs) =
    leb b 32 || b == 127 || b == 194 && at_most 160 bs || wide_space (b ∷ bs) || has_blank bs
