-- ===== src/Base/Text/Utf8.antt =====
-- `str::as_bytes` and `String::from_utf8_lossy` of Rust's standard library.
use Prim.Native.Nat.{ℕ, zero, suc, ◌+◌, ◌-◌, ◌*◌, ◌/◌, ◌%◌, ◌<◌, compare, Ordering}
use Prim.Native.Char.{Char, char, code, IsScalar}
use Prim.Native.String.{String}
use mathlib.Core.Path.{◌≡◌, refl}
use mathlib.Core.Bool.{◌&&◌}
use mathlib.Core.Logic.{dite}
use mathlib.Core.List.{List, [], ◌∷◌, ◌++◌}
use native.Mathlib.Decide.{dec_lt}
use native.Mathlib.Omega.{arith}
use commmon.Base.Tests.{ltb, leb, if◌then◌else◌}

-- The UTF-8 form of one character.
encode : ℕ → List ℕ
encode c =
    if ltb c 0x80
    then c ∷ []
    else if ltb c 0x800
    then (0xc0 + c / 0x40) ∷ (0x80 + c % 0x40) ∷ []
    else if ltb c 0x10000
    then (0xe0 + c / 0x1000) ∷ (0x80 + c / 0x40 % 0x40) ∷ (0x80 + c % 0x40) ∷ []
    else (0xf0 + c / 0x40000)
      ∷ (0x80 + c / 0x1000 % 0x40)
      ∷ (0x80 + c / 0x40 % 0x40)
      ∷ (0x80 + c % 0x40)
      ∷ []

unfoldable pub as_bytes : String → List ℕ
unfolding encode
as_bytes String.[] = []
as_bytes (String.◌∷◌ c s) = encode (code c) ++ as_bytes s

pub IsScalar-low : (n : ℕ) → n < 0xd800 → IsScalar n
IsScalar-low n h = let e : compare n 0xd800 ≡ Ordering.lt = ground arith in rw e tt

pub IsScalar-high : (n : ℕ) → 0xdfff < n → n < 0x110000 → IsScalar n
IsScalar-high n h k =
    let e : compare n 0xd800 ≡ Ordering.gt = ground arith in
    let f : compare 0xdfff n ≡ Ordering.lt = ground arith in
    let g : compare n 0x110000 ≡ Ordering.lt = ground arith in rw (e, f, g) tt

replacement : Char
replacement = char 0xfffd tt

-- The character of a code; a code that is none becomes U+FFFD.
unfoldable pub chr : ℕ → Char
unfolding dec_lt replacement
chr n =
    dite (dec_lt n 0xd800) (λ h. char n (IsScalar-low n h))
      (λ _.
        dite (dec_lt 0xdfff n)
          (λ h. dite (dec_lt n 0x110000) (λ k. char n (IsScalar-high n h k)) (λ _. replacement))
          (λ _. replacement))

-- A decoder between characters, or inside one: the next byte's range, the bytes that are missing
-- after it, and the bits read.
pub data Decoder : Type 0 where
  start : Decoder
  within : (lo hi missing bits : ℕ) → Decoder

-- A byte that begins a character, with the ranges of the table of well-formed sequences.
lead : ℕ → List Char × Decoder
unfolding chr
lead b =
    if ltb b 0x80
    then (chr b ∷ [], start)
    else if ltb b 0xc2
    then (chr 0xfffd ∷ [], start)
    else if ltb b 0xe0
    then ([], within 0x80 0xbf 0 (b - 0xc0))
    else if ltb b 0xe1
    then ([], within 0xa0 0xbf 1 0)
    else if ltb b 0xed
    then ([], within 0x80 0xbf 1 (b - 0xe0))
    else if ltb b 0xee
    then ([], within 0x80 0x9f 1 (b - 0xe0))
    else if ltb b 0xf0
    then ([], within 0x80 0xbf 1 (b - 0xe0))
    else if ltb b 0xf1
    then ([], within 0x90 0xbf 2 0)
    else if ltb b 0xf4
    then ([], within 0x80 0xbf 2 (b - 0xf0))
    else if ltb b 0xf5
    then ([], within 0x80 0x8f 2 (b - 0xf0))
    else (chr 0xfffd ∷ [], start)

-- A byte that does not go on the character ends it as U+FFFD, and is read anew.
abbrev feed : Decoder → ℕ → List Char × Decoder
feed start b = lead b
feed (within lo hi zero bits) b =
    if leb lo b && leb b hi
    then (chr (bits * 0x40 + (b - 0x80)) ∷ [], start)
    else (chr 0xfffd ∷ (lead b).0, (lead b).1)
feed (within lo hi (suc n) bits) b =
    if leb lo b && leb b hi
    then ([], within 0x80 0xbf n (bits * 0x40 + (b - 0x80)))
    else (chr 0xfffd ∷ (lead b).0, (lead b).1)

abbrev prepend : List Char → String → String
prepend [] s = s
prepend (c ∷ cs) s = String.◌∷◌ c (prepend cs s)

decode : Decoder → List ℕ → String
decode start [] = ""
decode (within lo hi n bits) [] = String.◌∷◌ (chr 0xfffd) ""
decode d (b ∷ bs) = let (out, d') = feed d b in prepend out (decode d' bs)

unfoldable pub from_utf8_lossy : List ℕ → String
unfolding decode lead chr
from_utf8_lossy bytes = decode start bytes

lossy_ascii : from_utf8_lossy (as_bytes "OK é 한 😀") ≡ "OK é 한 😀"
unfolding from_utf8_lossy as_bytes
lossy_ascii = refl

lossy_broken : from_utf8_lossy (0x41 ∷ 0xe0 ∷ 0x80 ∷ 0x42 ∷ 0xf0 ∷ []) ≡ "A��B�"
unfolding from_utf8_lossy
lossy_broken = refl
