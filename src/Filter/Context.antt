-- ===== src/Filter/Context.antt =====
-- The context that a notification of the filter carries.
use commmon.Base.{
  ℕ, zero, suc, ◌+◌, ◌-◌, min, ◌≤◌, ◌≡◌, ◌≢◌, refl, ap, ◌∙◌, String, true, ◌&&◌, List, [], ◌∷◌,
  ◌++◌, arith, length, take, drop, ltb, map, drop-append_le, length-take, length-append,
  length-drop, append_assoc, take-append-drop,
}
use commmon.Base.Branches.{on_if}
use commmon.Base.Text.{as_bytes, from_utf8_lossy}
use commmon.Protocol.{Notification}
use commmon.Filter.{context, filter_hit, keyword_hits}
use commmon.Filter.Scan.{begins, ends_behind, matches-ends_behind}

-- The bytes `near` stand in `hay`, and within them `kw`, with at most 20 bytes on either side.
pub record Near (kw hay near : List ℕ) : Type 0 where
  pub before : List ℕ
  pub after : List ℕ
  pub whole : near ≡ before ++ (kw ++ after)
  pub left : length before ≤ 20
  pub right : length after ≤ 20
  pub prefix : List ℕ
  pub suffix : List ℕ
  pub within : prefix ++ (near ++ suffix) ≡ hay

take-append_more : (a b : List ℕ) (n m : ℕ) → n ≡ length a + m → take n (a ++ b) ≡ a ++ take m b
take-append_more [] b n m e = let f : n ≡ m = omega arith in rw f refl
take-append_more (x ∷ a) b zero m e = absurd (omega arith)
take-append_more (x ∷ a) b (suc n) m e = rw (take-append_more a b n m (omega arith))

-- The slice that the code takes, of bytes that are `p`, then the keyword, then `q`.
slice-Near :
    (p kw q : List ℕ) (at : ℕ)
    → at ≡ length p
    → Near kw (p ++ (kw ++ q)) (
        take
          (min (at + length kw + 20) (length (p ++ (kw ++ q))) - (at - 20))
          (drop (at - 20) (p ++ (kw ++ q))))
slice-Near p kw q at e =
    let b = drop (at - 20) p in
    let m = min 20 (length q) in
    let total = length-append p (kw ++ q) in
    let rest = length-append kw q in
    let bl = length-drop (at - 20) p in
    let cut = drop-append_le (at - 20) p (kw ++ q) (omega arith) in
    let n = min (at + length kw + 20) (length (p ++ (kw ++ q))) - (at - 20) in
    let first = take-append_more b (kw ++ q) n (length kw + m) (omega arith) in
    let second = take-append_more kw q (length kw + m) m (omega arith) in
    record {
      before = b;
      after = take m q;
      whole = rw cut (first ∙ ap (λ (r : List ℕ). b ++ r) second);
      left = omega arith;
      right = omega (arith, length-take m q);
      prefix = take (at - 20) p;
      suffix = drop m q;
      within =
          rw
            (
              cut,
              first,
              second,
              append_assoc b,
              append_assoc kw,
              take-append-drop m q,
              ← append_assoc (take (at - 20) p) b,
              take-append-drop (at - 20) p,
            )
            refl;
    }

-- A notification of a match of `kw` in `hay`.
pub record IsHit (port kw timestamp : String) (hay : List ℕ) (n : Notification) : Type 0 where
  pub near : List ℕ
  pub told : n ≡ filter_hit port kw timestamp (from_utf8_lossy near)
  pub stands : Near (as_bytes kw) hay near

abbrev pub AllHits : String → String → String → List ℕ → List Notification → Type 0
AllHits port kw timestamp hay [] = Unit
AllHits port kw timestamp hay (n ∷ ns) =
    IsHit port kw timestamp hay n × AllHits port kw timestamp hay ns

begins-append_drop : (kw xs : List ℕ) → begins kw xs ≡ true → kw ++ drop (length kw) xs ≡ xs
begins-append_drop [] xs h = refl
begins-append_drop (k ∷ kw) [] h = cc
begins-append_drop (k ∷ kw) (x ∷ xs) h =
    let same : x ≡ k = ground arith in
    let rest : begins kw xs ≡ true = ground arith in rw (begins-append_drop kw xs rest, same)

module _ (port kw timestamp : String) (c : ℕ) where
  context-IsHit :
      (p xs : List ℕ) (at : ℕ)
      → at ≡ length p
      → begins (as_bytes kw) xs ≡ true
      → IsHit port kw timestamp
          (p ++ xs)
          (filter_hit port kw timestamp (context (p ++ xs) (as_bytes kw) at))
  unfolding context
  context-IsHit p xs at e b =
      let q = drop (length (as_bytes kw)) xs in
      let k = begins-append_drop (as_bytes kw) xs b in
      let near = slice-Near p (as_bytes kw) q at e in
      record { near = _; told = refl; stands = rw k at near }

  ends_behind-AllHits :
      (p xs hay : List ℕ) (i : ℕ)
      → i ≡ length p
      → p ++ xs ≡ hay
      → AllHits port kw timestamp hay (
          map
            (λ at. filter_hit port kw timestamp (context hay (as_bytes kw) at))
            (ends_behind i c (as_bytes kw) xs))
  unfolding ends_behind
  ends_behind-AllHits p [] hay i e h = tt
  ends_behind-AllHits p (x ∷ xs) hay i e h =
      let rest =
        ends_behind-AllHits (p ++ x ∷ []) xs hay (suc i) (omega (arith, length-append p (x ∷ [])))
          (append_assoc p (x ∷ []) xs ∙ h) in
      on_if
        (λ ats.
          AllHits port kw timestamp hay
            (map (λ at. filter_hit port kw timestamp (context hay (as_bytes kw) at)) ats))
        (begins (as_bytes kw) (x ∷ xs) && ltb c (i + length (as_bytes kw))) _ _
        (λ b. let hit = context-IsHit p (x ∷ xs) i e (ground (arith, b)) in (rw h at hit, rest))
        (λ _. rest)

-- Whatever the bytes at hand, those carried over first: each notification that is sent for a
-- keyword that is not empty names the port, the keyword and the time of the entry, and its context
-- is the text of bytes that stand in a row in the bytes at hand, with the keyword in their midst
-- and at most 20 bytes before it and 20 after.
pub keyword_hits-near :
    (port kw timestamp : String) (hay : List ℕ) (c : ℕ)
    → as_bytes kw ≢ []
    → AllHits port kw timestamp hay (keyword_hits port timestamp hay c kw)
unfolding keyword_hits
keyword_hits-near port kw timestamp hay c ne =
    rw (matches-ends_behind (suc (length hay)) hay (as_bytes kw) c 0 ne (omega arith))
      (ends_behind-AllHits port kw timestamp c [] hay hay 0 refl refl)
