-- ===== src/Base/Text.antt =====
-- What the program uses of Rust's text types: UTF-8 bytes, lossy decoding, decimal numbers, joins.
mod Utf8
mod Words
use Prim.Native.Nat.{ℕ, zero, suc, ◌+◌, ◌/◌, ◌%◌}
use Prim.Native.Char.{code}
use Prim.Native.String
use Prim.Native.String.{String}
use mathlib.Core.Bool.{Bool, true, false, ◌||◌}
use mathlib.Core.List.{List, [], ◌∷◌}
use mathlib.Core.Path.{◌≡◌, refl}
use text.Mathlib.Text.{starts_with}
use commmon.Base.Tests.{ltb, if◌then◌else◌}
unfoldable pub use Utf8.{as_bytes, from_utf8_lossy, chr}
unfoldable pub use Words.{trim, split_whitespace, is_empty}

infixr 60 ◌<>◌
-- Concatenation of texts, as in `format!`.
abbrev pub ◌<>◌ : String → String → String
s <> t = String.◌++◌ s t

-- `parts.join(sep)`
unfoldable pub join : String → List String → String
join sep [] = ""
join sep (s ∷ []) = s
join sep (s ∷ t ∷ parts) = s <> sep <> join sep (t ∷ parts)

unfoldable pub digits_onto : ℕ → ℕ → String → String
digits_onto zero n out = out
digits_onto (suc fuel) n out =
    let out' = String.◌∷◌ (chr (0x30 + n % 10)) out in
    let rest = digits_onto fuel (n / 10) out' in if ltb n 10 then out' else rest

-- A number in decimal, as `{}` prints it.
unfoldable pub decimal : ℕ → String
unfolding digits_onto chr
decimal n = digits_onto (suc n) n ""

-- `s.contains(t)`
unfoldable pub contains : String → String → Bool
contains String.[] t = starts_with "" t
contains (String.◌∷◌ c s) t = starts_with (String.◌∷◌ c s) t || contains s t

decimal_test : decimal 115200 ≡ "115200"
unfolding decimal
decimal_test = refl

contains_test : contains "boot OK\n" "OK" ≡ true
unfolding contains
contains_test = refl
