-- ===== src/Filter/Scan.antt =====
-- The search loop of the filter, against the positions at which a keyword stands.
use commmon.Base.{
  ℕ, zero, suc, ◌+◌, ◌<◌, ◌≡◌, ◌≢◌, refl, sym, ap, Bool, true, false, Option, none, some, List, [],
  ◌∷◌, ◌&&◌, arith, length, drop, take, ltb, eqb, if◌then◌else◌, inl, inr, Option-cases,
  length-drop,
}
use commmon.Filter.{bytes_eq, windows, position, find_subslice, matches}

-- Whether `kw` stands at the head of the bytes.
abbrev pub begins : List ℕ → List ℕ → Bool
begins [] ys = true
begins (x ∷ xs) [] = false
begins (x ∷ xs) (y ∷ ys) = eqb y x && begins xs ys

-- The positions, counted from `i`, at which `kw` stands and ends behind `carry_len`.
unfoldable pub ends_behind : ℕ → ℕ → List ℕ → List ℕ → List ℕ
ends_behind i carry_len kw [] = []
ends_behind i carry_len kw (x ∷ xs) =
    let rest = ends_behind (suc i) carry_len kw xs in
    if begins kw (x ∷ xs) && ltb carry_len (i + length kw) then i ∷ rest else rest

first : List ℕ → List ℕ → Option ℕ
first kw [] = none
first kw (x ∷ xs) =
    let rest = first kw xs in
    if begins kw (x ∷ xs) then some 0 else elim rest [ none ↦ none | some i ↦ some (suc i) ]

bytes_eq-take : (kw xs : List ℕ) → bytes_eq (take (length kw) xs) kw ≡ begins kw xs
bytes_eq-take [] xs = refl
bytes_eq-take (k ∷ kw) [] = refl
bytes_eq-take (k ∷ kw) (x ∷ xs) = rw (bytes_eq-take kw xs)

pub begins_short : (kw xs : List ℕ) → length xs < length kw → begins kw xs ≡ false
begins_short [] xs h = absurd (omega arith)
begins_short (k ∷ kw) [] h = refl
begins_short (k ∷ kw) (x ∷ xs) h = ground (arith, begins_short kw xs)

first_short : (kw xs : List ℕ) → length xs < length kw → first kw xs ≡ none
unfolding first
first_short kw [] h = refl
first_short kw (x ∷ xs) h = ground (arith, begins_short kw (x ∷ xs), first_short kw xs)

position-windows :
    (kw xs : List ℕ) → position (λ w. bytes_eq w kw) (windows (length kw) xs) ≡ first kw xs
unfolding first
position-windows kw [] = refl
position-windows kw (x ∷ xs) =
    ground (arith, bytes_eq-take kw (x ∷ xs), position-windows kw xs, first_short kw (x ∷ xs))

find_subslice-first : (kw xs : List ℕ) → kw ≢ [] → find_subslice xs kw ≡ first kw xs
unfolding find_subslice
find_subslice-first [] xs h = absurd (h refl)
find_subslice-first (k ∷ kw) xs h =
    ground (arith, position-windows (k ∷ kw) xs, first_short (k ∷ kw) xs)

ends_behind-none : (i c : ℕ) (kw xs : List ℕ) → first kw xs ≡ none → ends_behind i c kw xs ≡ []
unfolding first ends_behind
ends_behind-none i c kw [] h = refl
ends_behind-none i c kw (x ∷ xs) h = ground (arith, ends_behind-none (suc i) c kw xs)

-- The test of the position found: it begins the keyword, and none before it does.
ends_behind-some :
    (i c rel at : ℕ) (kw xs : List ℕ)
    → first kw xs ≡ some rel
    → at ≡ i + rel
    → (ends_behind i c kw xs ≡ (
        if ltb c (at + length kw)
        then at ∷ ends_behind (at + 1) c kw (drop (suc rel) xs)
        else ends_behind (at + 1) c kw (drop (suc rel) xs)))
      × (rel < length xs)
unfolding first ends_behind
ends_behind-some i c rel at kw [] h e = cc
ends_behind-some i c zero at kw (x ∷ xs) h e =
    let b : begins kw (x ∷ xs) ≡ true = ground arith in
    let f : at ≡ i = omega arith in
    let g : i + 1 ≡ suc i = omega arith in (rw (f, g, b), omega arith)
ends_behind-some i c (suc rel) at kw (x ∷ xs) h e =
    let b : begins kw (x ∷ xs) ≡ false = ground arith in
    let f : first kw xs ≡ some rel = ground arith in
    let g = ends_behind-some (suc i) c rel at kw xs f (omega arith) in (rw b g.0, omega arith)

pub drop-drop : (m n k : ℕ) (xs : List ℕ) → k ≡ n + m → drop m (drop n xs) ≡ drop k xs
drop-drop m zero k xs e = let f : k ≡ m = omega arith in rw f
drop-drop zero (suc n) zero [] e = refl
drop-drop (suc m) (suc n) zero [] e = refl
drop-drop zero (suc n) (suc k) [] e = refl
drop-drop (suc m) (suc n) (suc k) [] e = refl
drop-drop m (suc n) zero (x ∷ xs) e = absurd (omega arith)
drop-drop m (suc n) (suc k) (x ∷ xs) e = drop-drop m n k xs (omega arith)

-- For a keyword that is not empty and fuel for more rounds than there are bytes left, the search
-- loop reports each position at which the keyword stands and ends behind the carry, overlapping
-- ones too, in ascending order.
pub matches-ends_behind :
    (fuel : ℕ) (hay kw : List ℕ) (c from : ℕ)
    → kw ≢ []
    → length (drop from hay) < fuel
    → matches fuel hay kw c from ≡ ends_behind from c kw (drop from hay)
unfolding matches
matches-ends_behind zero hay kw c from ne h = absurd (omega arith)
matches-ends_behind (suc fuel) hay kw c from ne h = elim (Option-cases (first kw (drop from hay))) [
  | inl e ↦
      rw (find_subslice-first kw (drop from hay) ne, e, matches)
        (sym (ends_behind-none from c kw (drop from hay) e))
  | inr (rel, e) ↦
      let spec = ends_behind-some from c rel (from + rel) kw (drop from hay) e refl in
      let k : from + rel + 1 ≡ from + suc rel = omega arith in
      let skip = drop-drop (suc rel) from (from + rel + 1) hay k in
      let less = ap length skip in
      let ih =
        matches-ends_behind fuel hay kw c (from + rel + 1) ne
          (omega (arith, length-drop (suc rel) (drop from hay))) in
      rw (find_subslice-first kw (drop from hay) ne, e, matches) (rw (ih, ← skip) (sym spec.0))
]
