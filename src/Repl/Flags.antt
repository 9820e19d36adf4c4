-- ===== src/Repl/Flags.antt =====
-- The options of "log start" and "log update": what is typed is what is asked for.
use commmon.Base.{
  ℕ, zero, suc, ◌+◌, ◌-◌, ◌*◌, ◌/◌, ◌%◌, ◌^◌, ◌<◌, ◌≡◌, refl, ◌∙◌, String, Bool, true, false, some,
  List, [], ◌∷◌, arith, ltb, leb, eqb, Bool-cases, inl, inr, ltb→lt, ltb-false, lt→ltb,
}
use commmon.Base.Branches.{on_if}
use commmon.Base.Text.{chr, decimal, digits_onto}
use commmon.Json.{Value, number, string, set}
use Prim.Native.Char.{code}
use commmon.Repl.Numbers.{digits_behind, parse_u64, in_range}
use commmon.Repl.{flag_member, parse_log_flags}

code-digit : (d : ℕ) → d < 10 → code (chr (0x30 + d)) ≡ 0x30 + d
unfolding chr
code-digit zero h = refl
code-digit (suc zero) h = refl
code-digit (suc (suc zero)) h = refl
code-digit (suc (suc (suc zero))) h = refl
code-digit (suc (suc (suc (suc zero)))) h = refl
code-digit (suc (suc (suc (suc (suc zero))))) h = refl
code-digit (suc (suc (suc (suc (suc (suc zero)))))) h = refl
code-digit (suc (suc (suc (suc (suc (suc (suc zero))))))) h = refl
code-digit (suc (suc (suc (suc (suc (suc (suc (suc zero)))))))) h = refl
code-digit (suc (suc (suc (suc (suc (suc (suc (suc (suc zero))))))))) h = refl
code-digit (suc (suc (suc (suc (suc (suc (suc (suc (suc (suc n)))))))))) h = absurd (omega arith)

read_digit :
    (a d b : ℕ) (s : String)
    → d < 10
    → a * 10 + d ≡ b
    → digits_behind a (String.◌∷◌ (chr (0x30 + d)) s) ≡ digits_behind b s
unfolding digits_behind
read_digit a d b s h e =
    let c = code-digit d h in
    let low : leb 0x30 (0x30 + d) ≡ true = ground arith in
    let high : leb (0x30 + d) 0x39 ≡ true = ground arith in
    let next : a * 10 + (0x30 + d - 0x30) ≡ b = omega arith in rw (c, low, high, next)

digits_behind-digits_onto :
    (fuel n : ℕ) (out : String)
    → n < fuel
    → digits_behind 0 (digits_onto fuel n out) ≡ digits_behind n out
unfolding digits_onto
digits_behind-digits_onto zero n out h = absurd (omega arith)
digits_behind-digits_onto (suc fuel) n out h = elim (Bool-cases (ltb n 10)) [
  | inl e ↦ rw e (read_digit 0 (n % 10) n out (omega arith) (omega (arith, ltb→lt n 10 e)))
  | inr e ↦ rw e (
      digits_behind-digits_onto fuel (n / 10) _ (omega (arith, ltb-false n 10 e))
      ∙ read_digit (n / 10) (n % 10) n out (omega arith) (omega arith))
]

-- The first character of a number is a digit, so no sign.
is_digit_first : String → Bool
is_digit_first String.[] = false
is_digit_first (String.◌∷◌ c s) = ltb 0x2f (code c)

first_digit :
    (d : ℕ) (out : String) → d < 10 → is_digit_first (String.◌∷◌ (chr (0x30 + d)) out) ≡ true
unfolding is_digit_first
first_digit d out h = let c = code-digit d h in rw c (ground arith)

record Starts (s : String) : Type 0 where
  digit : is_digit_first s ≡ true

first-Starts : (n : ℕ) (out : String) → Starts (String.◌∷◌ (chr (0x30 + n % 10)) out)
first-Starts n out = record { digit = first_digit (n % 10) out (omega arith) }

digits_onto-Starts : (fuel n : ℕ) (out : String) → Starts (digits_onto (suc fuel) n out)
unfolding digits_onto
digits_onto-Starts zero n out =
    on_if Starts (ltb n 10) _ _ (λ _. first-Starts n out) (λ _. first-Starts n out)
digits_onto-Starts (suc fuel) n out =
    on_if Starts (ltb n 10) _ _ (λ _. first-Starts n out) (λ _. digits_onto-Starts fuel (n / 10) _)

without_sign :
    (s : String) → is_digit_first s ≡ true → parse_u64 s ≡ in_range (2 ^ 64) (digits_behind 0 s)
unfolding parse_u64 is_digit_first
without_sign String.[] h = cc
without_sign (String.◌∷◌ c s) h =
    let unsigned : eqb (code c) 0x2b ≡ false = ground arith in rw unsigned

pub parse_u64-decimal : (n : ℕ) → n < 2 ^ 64 → parse_u64 (decimal n) ≡ some n
unfolding decimal digits_behind
parse_u64-decimal n h =
    let plain = without_sign (digits_onto (suc n) n "") (digits_onto-Starts n n "").digit in
    let value = digits_behind-digits_onto (suc n) n "" (omega arith) in
    plain ∙ rw (value, lt→ltb n (2 ^ 64) h) refl

pub data Flag : Type 0 where
  duration : ℕ → Flag
  keyword : String → Flag
  file : String → Flag

-- The flags as they are typed.
abbrev pub typed : List Flag → List String
typed [] = []
typed (duration secs ∷ flags) = "--duration" ∷ decimal secs ∷ typed flags
typed (keyword kw ∷ flags) = "--keyword" ∷ kw ∷ typed flags
typed (file path ∷ flags) = "--file" ∷ path ∷ typed flags

-- The arguments with what the flags ask for, a later one in place of an earlier one.
abbrev pub asked : List Flag → Value → Value
asked [] args = args
asked (duration secs ∷ flags) args = asked flags (set "duration" (number secs) args)
asked (keyword kw ∷ flags) args = asked flags (set "stopKeyword" (string kw) args)
asked (file path ∷ flags) args = asked flags (set "filePath" (string path) args)

abbrev pub InRange : List Flag → Type 0
InRange [] = Unit
InRange (duration secs ∷ flags) = (secs < 2 ^ 64) × InRange flags
InRange (_ ∷ flags) = InRange flags

-- Flags in any order and number, whose durations are less than 2^64, are taken as they were typed:
-- each sets its own argument, and nothing else is set.
pub parse_log_flags-typed :
    (flags : List Flag) (args : Value)
    → InRange flags
    → parse_log_flags (typed flags) args ≡ asked flags args
unfolding parse_log_flags flag_member
parse_log_flags-typed [] args h = refl
parse_log_flags-typed (duration secs ∷ flags) args (k, h) =
    rw (parse_u64-decimal secs k, parse_log_flags) (parse_log_flags-typed flags _ h)
parse_log_flags-typed (keyword kw ∷ flags) args h = parse_log_flags-typed flags _ h
parse_log_flags-typed (file path ∷ flags) args h = parse_log_flags-typed flags _ h
