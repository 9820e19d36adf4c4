-- ===== src/Base/Text/Words.antt =====
-- `str::trim` and `str::split_whitespace` of Rust's standard library.
use Prim.Native.Nat.{ℕ}
use Prim.Native.Char.{code}
use Prim.Native.String.{String}
use mathlib.Core.Path.{◌≡◌, refl}
use mathlib.Core.Bool.{Bool, true, false, ◌&&◌, ◌||◌}
use mathlib.Core.List.{List, [], ◌∷◌}
use commmon.Base.Tests.{leb, eqb, if◌then◌else◌}

-- Unicode's White_Space
unfoldable pub is_whitespace : ℕ → Bool
is_whitespace c =
    (leb 9 c && leb c 13)
    || eqb c 32
    || eqb c 0x85
    || eqb c 0xa0
    || eqb c 0x1680
    || (leb 0x2000 c && leb c 0x200a)
    || eqb c 0x2028
    || eqb c 0x2029
    || eqb c 0x202f
    || eqb c 0x205f
    || eqb c 0x3000

abbrev pub is_empty : String → Bool
is_empty String.[] = true
is_empty (String.◌∷◌ c s) = false

unfoldable pub trim_start : String → String
trim_start String.[] = ""
trim_start (String.◌∷◌ c s) =
    let rest = trim_start s in if is_whitespace (code c) then rest else String.◌∷◌ c s

unfoldable pub trim_end : String → String
trim_end String.[] = ""
trim_end (String.◌∷◌ c s) =
    let rest = trim_end s in
    if is_whitespace (code c) && is_empty rest then "" else String.◌∷◌ c rest

unfoldable pub trim : String → String
unfolding trim_start trim_end is_whitespace
trim s = trim_end (trim_start s)

abbrev pub flush : String → List String → List String
flush String.[] words = words
flush (String.◌∷◌ c s) words = String.◌∷◌ c s ∷ words

-- The first word of the text, as far as it goes, and the words behind it.
unfoldable pub words_from : String → String × List String
words_from String.[] = ("", [])
words_from (String.◌∷◌ c s) =
    let (word, words) = words_from s in
    if is_whitespace (code c) then ("", flush word words) else (String.◌∷◌ c word, words)

unfoldable pub split_whitespace : String → List String
unfolding words_from is_whitespace
split_whitespace s = flush (words_from s).0 (words_from s).1

words_test : split_whitespace (trim "  open\tCOM3  9600 ") ≡ "open" ∷ "COM3" ∷ "9600" ∷ []
unfolding split_whitespace trim
words_test = refl
