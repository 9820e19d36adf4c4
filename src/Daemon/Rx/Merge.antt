-- ===== src/Daemon/Rx/Merge.antt =====
-- What `add_filter_rx` makes of the keywords of a filter.
use commmon.Base.{
  ◌+◌, String, false, ◌≡◌, refl, ◌∙◌, List, [], ◌∷◌, ◌++◌, ◌||◌, arith, eq_iff, if◌then◌else◌,
  Bool-cases, inl, inr,
}
use commmon.Filter.Exact.{copies}
use commmon.Daemon.Rx.{has, merge}

copies-append :
    (kw : String) (xs ys : List String) → copies kw (xs ++ ys) ≡ copies kw xs + copies kw ys
copies-append kw [] ys = omega arith
copies-append kw (x ∷ xs) ys = omega (arith, copies-append kw xs ys)

has-append : (kw : String) (xs ys : List String) → has (xs ++ ys) kw ≡ (has xs kw || has ys kw)
has-append kw [] ys = refl
has-append kw (x ∷ xs) ys = ground (arith, has-append kw xs ys)

pub copies_none : (kw : String) (xs : List String) → has xs kw ≡ false → copies kw xs ≡ 0
copies_none kw [] h = refl
copies_none kw (x ∷ xs) h = ground (arith, copies_none kw xs)

-- One keyword.
push_keyword : List String → String → List String
push_keyword old kw = if has old kw then old else old ++ kw ∷ []

copies-push_keyword :
    (k : String) (old : List String) (kw : String) (new : List String)
    → (if has (push_keyword old kw) k
        then copies k (push_keyword old kw)
        else if has new k
        then 1
        else 0)
      ≡ (if has old k then copies k old else if has (kw ∷ new) k then 1 else 0)
unfolding push_keyword
copies-push_keyword k old kw new = elim (Bool-cases (has old kw)) [
  | inl e ↦ rw e (ground (arith, eq_iff kw k))
  | inr e ↦
      rw (e, has-append k old (kw ∷ []), copies-append k old (kw ∷ []))
        (ground (arith, eq_iff kw k, copies_none k old))
]

-- After the merge each keyword stands in the list as often as before if it stood there, once if it
-- is only new, however often it was given, and not at all otherwise.
pub copies-merge :
    (k : String) (old new : List String)
    → copies k (merge old new) ≡ (if has old k then copies k old else if has new k then 1 else 0)
unfolding merge push_keyword
copies-merge k old [] = ground (arith, copies_none k old)
copies-merge k old (kw ∷ new) =
    copies-merge k (push_keyword old kw) new ∙ copies-push_keyword k old kw new
