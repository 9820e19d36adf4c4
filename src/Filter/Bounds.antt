-- ===== src/Filter/Bounds.antt =====
-- How much the filter keeps of what it has read.
use commmon.Base.{
  ℕ, ◌-◌, min, ◌≤◌, ◌≡◌, refl, sym, ap, ◌∙◌, String, List, [], ◌∷◌, ◌++◌, arith, length, drop, max,
  Option-cases, inl, inr, take_last, drop-append_le, length-append, length-drop, length-take_last,
  append_assoc, append-nil,
}
use commmon.Channel.{RxEntry}
use commmon.Base.Text.{as_bytes}
use commmon.Filter.{FilterState, longest, max_carry, filter_entry, filter_entries}
use commmon.Filter.Scan.{drop-drop}
use commmon.Filter.Exact.{stream}

take_last_short : (n : ℕ) (xs : List ℕ) → length xs ≤ n → take_last n xs ≡ xs
take_last_short n xs h = let e : length xs - n ≡ 0 = omega arith in rw e refl

-- What has been forgotten does not come back: the last `n` bytes may be taken of the last `n`.
take_last-append :
    (n : ℕ) (xs ys : List ℕ) → take_last n (take_last n xs ++ ys) ≡ take_last n (xs ++ ys)
take_last-append n xs ys =
    let cut = length xs - n in
    let join = drop-append_le cut xs ys (omega arith) in
    let size = length-drop cut xs in
    let left = length-append (drop cut xs) ys in
    let whole = length-append xs ys in
    let more = length (drop cut xs ++ ys) - n in
    ap (drop more) (sym join) ∙ drop-drop more cut (length (xs ++ ys) - n) (xs ++ ys) (omega arith)

next_carry :
    (port : String) (st : FilterState) (e : RxEntry)
    → (filter_entry port st e).1.carry ≡ take_last (max_carry st.keywords) (st.carry ++ e.bytes)
unfolding filter_entry
next_carry port st e =
    let hay = st.carry ++ e.bytes in
    let same : length hay - min (max_carry st.keywords) (length hay)
        ≡ length hay - max_carry st.keywords =
      omega arith in
    ap (λ (n : ℕ). drop n hay) same

-- The carry after some entries, for a carry that has come so far.
carry_after :
    (port : String) (st : FilterState) (es : List RxEntry) (all : List ℕ)
    → st.carry ≡ take_last (max_carry st.keywords) all
    → (filter_entries port st es).1.carry ≡ take_last (max_carry st.keywords) (all ++ stream es)
unfolding filter_entries filter_entry
carry_after port st [] all h = rw append-nil h
carry_after port st (e ∷ es) all h =
    let next = (filter_entry port st e).1 in
    let here =
      next_carry port st e
      ∙ ap (λ c. take_last (max_carry st.keywords) (c ++ e.bytes)) h
      ∙ take_last-append (max_carry st.keywords) all e.bytes in
    rw (← append_assoc all) (carry_after port next es (all ++ e.bytes) here)

-- As many bytes as a match of one of the keywords can reach back: of the longest, all but the last.
abbrev pub reach : List String → ℕ
reach [] = 0
reach (kw ∷ kws) = max (length (as_bytes kw) - 1) (reach kws)

max_carry-reach : (kws : List String) → max_carry kws ≡ reach kws
unfolding max_carry
max_carry-reach [] = refl
max_carry-reach (kw ∷ kws) = elim (Option-cases (longest kws)) [
  | inl e ↦ let ih = max_carry-reach kws in ground (arith, ih, e)
  | inr (n, e) ↦ let ih = max_carry-reach kws in ground (arith, ih, e)
]

-- A filter that starts with an empty carry, over any entries: the carry that it keeps is the end of
-- the bytes of all the entries put together, as long as the longest of its keywords less one byte,
-- or all of them if they are not that many. So it never keeps more than that, however much has
-- come.
pub filter_entries-carry :
    (port : String) (st : FilterState) (es : List RxEntry)
    → st.carry ≡ []
    → ((filter_entries port st es).1.carry ≡ take_last (reach st.keywords) (stream es))
      × (length (filter_entries port st es).1.carry ≤ reach st.keywords)
filter_entries-carry port st es start =
    let carry = carry_after port st es [] (start ∙ sym (take_last_short _ [] (omega arith))) in
    rw (← max_carry-reach st.keywords)
      (carry, rw carry (length-take_last (max_carry st.keywords) (stream es)))
