-- ===== src/Filter/Window.antt =====
-- How many times a keyword ends in new bytes, when a window of the old bytes is put before them.
use commmon.Base.{
  ℕ, suc, ◌+◌, ◌-◌, ◌≤◌, ◌<◌, ◌≡◌, refl, sym, ap, ◌∙◌, List, [], ◌∷◌, ◌++◌, ◌&&◌, ◌⊎◌, inl, inr,
  arith, length, ltb, if◌then◌else◌, length-append, append_assoc,
}
use commmon.Filter.Scan.{begins, begins_short, ends_behind}

-- How often `kw` stands in the bytes, overlaps included.
abbrev pub occurrences : List ℕ → List ℕ → ℕ
occurrences kw [] = 0
occurrences kw (x ∷ xs) = (if begins kw (x ∷ xs) then 1 else 0) + occurrences kw xs

-- How often it ends behind the first `c` bytes.
new_in : ℕ → List ℕ → List ℕ → ℕ
new_in c kw [] = 0
new_in c kw (x ∷ xs) =
    (if begins kw (x ∷ xs) && ltb c (length kw) then 1 else 0) + new_in (c - 1) kw xs

length-ends_behind :
    (i c : ℕ) (kw xs : List ℕ)
    → 0 < length kw
    → length (ends_behind i c kw xs) ≡ new_in (c - i) kw xs
unfolding new_in ends_behind
length-ends_behind i c kw [] h = refl
length-ends_behind i c kw (x ∷ xs) h =
    let e : c - suc i ≡ c - i - 1 = omega arith in
    let ih = length-ends_behind (suc i) c kw xs h in
    ground (arith, ih, ap (λ (n : ℕ). new_in n kw xs) e)

begins-append : (kw a b : List ℕ) → length kw ≤ length a → begins kw (a ++ b) ≡ begins kw a
begins-append [] a b h = refl
begins-append (k ∷ kw) [] b h = absurd (omega arith)
begins-append (k ∷ kw) (x ∷ a) b h = rw (begins-append kw a b (omega arith))

occurrences-new_in : (kw xs : List ℕ) → 0 < length kw → occurrences kw xs ≡ new_in 0 kw xs
unfolding new_in
occurrences-new_in kw [] h = refl
occurrences-new_in kw (x ∷ xs) h = ground (arith, occurrences-new_in kw xs h)

-- The occurrences in two parts are those in the first, and those that end in the second.
occurrences-append :
    (kw a b : List ℕ)
    → 0 < length kw
    → occurrences kw (a ++ b) ≡ occurrences kw a + new_in (length a) kw (a ++ b)
unfolding new_in
occurrences-append kw [] b h = omega (arith, occurrences-new_in kw b h)
occurrences-append kw (x ∷ a) b h =
    ground (arith, occurrences-append kw a b, begins-append kw (x ∷ a) b, begins_short kw (x ∷ a))

-- Bytes so old that no match can reach from them into the new part may be forgotten.
new_in-append :
    (kw p c d : List ℕ)
    → (p ≡ []) ⊎ (length kw ≤ length c + 1)
    → new_in (length (p ++ c)) kw (p ++ (c ++ d)) ≡ new_in (length c) kw (c ++ d)
unfolding new_in
new_in-append kw [] c d h = refl
new_in-append kw (x ∷ p) c d (inl e) = cc
new_in-append kw (x ∷ p) c d (inr h) =
    ground (arith, new_in-append kw p c d (inr h), length-append p c)

-- What has been read is `p ++ c`, and `c` is kept. If `c` is all of it, or reaches back far enough,
-- the occurrences that end in the next bytes `d` are those that end there in `c ++ d`.
pub occurrences-window :
    (kw p c d : List ℕ)
    → 0 < length kw
    → (p ≡ []) ⊎ (length kw ≤ length c + 1)
    → occurrences kw (p ++ (c ++ d))
      ≡ occurrences kw (p ++ c) + length (ends_behind 0 (length c) kw (c ++ d))
occurrences-window kw p c d h far =
    let split = occurrences-append kw (p ++ c) d h in
    let short = new_in-append kw p c d far in
    let count = length-ends_behind 0 (length c) kw (c ++ d) h in
    let same : length c - 0 ≡ length c = omega arith in
    let count' : length (ends_behind 0 (length c) kw (c ++ d)) ≡ new_in (length c) kw (c ++ d) =
      rw same at count in
    rw append_assoc at split ∙ ap (λ (n : ℕ). occurrences kw (p ++ c) + n) (short ∙ sym count')
