-- ===== src/Repl/Numbers.antt =====
-- `str::parse` of Rust's standard library for unsigned numbers: an optional "+", then digits only,
-- at least one, and the number in range.
use commmon.Base.{
  ℕ, ◌+◌, ◌*◌, ◌-◌, ◌^◌, ◌≡◌, refl, String, ◌&&◌, Option, none, some, ltb, leb, eqb, if◌then◌else◌,
}
use Prim.Native.Char.{code}

-- The digits behind a number.
unfoldable pub digits_behind : ℕ → String → Option ℕ
digits_behind n String.[] = some n
digits_behind n (String.◌∷◌ c s) =
    let rest = digits_behind (n * 10 + (code c - 0x30)) s in
    if leb 0x30 (code c) && leb (code c) 0x39 then rest else none

abbrev digits : String → Option ℕ
digits String.[] = none
digits (String.◌∷◌ c s) = digits_behind 0 (String.◌∷◌ c s)

abbrev without_plus : String → String
without_plus String.[] = ""
without_plus (String.◌∷◌ c s) = if eqb (code c) 0x2b then s else String.◌∷◌ c s

abbrev pub in_range : ℕ → Option ℕ → Option ℕ
in_range bound none = none
in_range bound (some n) = if ltb n bound then some n else none

unfoldable pub parse_u64 : String → Option ℕ
parse_u64 s = in_range (2 ^ 64) (digits (without_plus s))

unfoldable pub parse_u16 : String → Option ℕ
parse_u16 s = in_range (2 ^ 16) (digits (without_plus s))

parse_test : parse_u64 "+0115200" ≡ some 115200
unfolding parse_u64 digits_behind
parse_test = refl

too_large : parse_u16 "65536" ≡ none
unfolding parse_u16 digits_behind
too_large = refl

no_number : parse_u16 "80x" ≡ none
unfolding parse_u16 digits_behind
no_number = refl
