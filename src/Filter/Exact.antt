-- ===== src/Filter/Exact.antt =====
-- The filter over a whole stream: nothing is missed at the borders of the entries, and nothing is
-- reported twice.
use commmon.Base.{
  ℕ, suc, ◌+◌, ◌-◌, ◌*◌, min, ◌≤◌, ◌<◌, ◌≡◌, ◌≢◌, refl, ap, String, Bool, true, false, Option, none,
  some, List, [], ◌∷◌, ◌++◌, map, ◌⊎◌, inl, inr, arith, length, take, drop, if◌then◌else◌, ◌==◌,
  eq_iff, Bool-cases, ltb, ltb→lt, ltb-false, append-nil, length-append, length-drop,
  take-append-drop, append_assoc,
}
use commmon.Base.Text.{as_bytes}
use commmon.Json.{str_of}
use commmon.Protocol.{Notification}
use commmon.Channel.{RxEntry}
use commmon.Filter.{
  FilterState, byte_len, longest, max_carry, matches, context, filter_hit, keyword_hits, all_hits,
  filter_entry, filter_entries,
}
use commmon.Filter.Scan.{ends_behind, matches-ends_behind}
use commmon.Filter.Window.{occurrences, occurrences-window}

abbrev is_text : Option String → String → Bool
is_text none kw = false
is_text (some s) kw = s == kw

-- How many of the notifications report `kw`.
abbrev pub reports : String → List Notification → ℕ
reports kw [] = 0
reports kw (n ∷ ns) = (if is_text (str_of "keyword" n.payload) kw then 1 else 0) + reports kw ns

-- How often `kw` stands in the list of keywords.
abbrev pub copies : String → List String → ℕ
copies kw [] = 0
copies kw (k ∷ ks) = (if k == kw then 1 else 0) + copies kw ks

-- The bytes of the entries, in one piece.
abbrev pub stream : List RxEntry → List ℕ
stream [] = []
stream (e ∷ es) = e.bytes ++ stream es

reports-append :
    (kw : String) (ms ns : List Notification)
    → reports kw (ms ++ ns) ≡ reports kw ms + reports kw ns
reports-append kw [] ns = omega arith
reports-append kw (m ∷ ms) ns = omega (arith, reports-append kw ms ns)

reports-map :
    (kw k port timestamp : String) (hay : List ℕ) (ats : List ℕ)
    → reports kw (map (λ at. filter_hit port k timestamp (context hay (as_bytes k) at)) ats)
      ≡ (if k == kw then length ats else 0)
reports-map kw k port timestamp hay [] = ground arith
reports-map kw k port timestamp hay (at ∷ ats) =
    ground (arith, reports-map kw k port timestamp hay ats)

-- The hits of one keyword in one entry.
abbrev hits_in : String → List ℕ → ℕ → ℕ
hits_in kw hay c = length (ends_behind 0 c (as_bytes kw) hay)

reports-keyword_hits :
    (kw k port timestamp : String) (hay : List ℕ) (c : ℕ)
    → as_bytes kw ≢ []
    → reports kw (keyword_hits port timestamp hay c k) ≡ (if k == kw then hits_in kw hay c else 0)
unfolding keyword_hits
reports-keyword_hits kw k port timestamp hay c ne = elim (Bool-cases (k == kw)) [
  | inl e ↦
      let same = (eq_iff k kw).0 e in
      let loop = matches-ends_behind (suc (length hay)) hay (as_bytes kw) c 0 ne (omega arith) in
      rw (
        reports-map kw k port timestamp hay (matches (suc (length hay)) hay (as_bytes k) c 0),
        e,
        same,
        loop,
      )
  | inr e ↦
      rw (reports-map kw k port timestamp hay (matches (suc (length hay)) hay (as_bytes k) c 0), e)
]

copies_step :
    (b : Bool) (n h r t : ℕ)
    → r ≡ (if b then h else 0)
    → t ≡ n * h
    → r + t ≡ ((if b then 1 else 0) + n) * h
copies_step true n h r t e f = grind arith
copies_step false n h r t e f = grind arith

reports-all_hits :
    (kw port timestamp : String) (hay : List ℕ) (c : ℕ) (ks : List String)
    → as_bytes kw ≢ []
    → reports kw (all_hits port timestamp hay c ks) ≡ copies kw ks * hits_in kw hay c
unfolding all_hits
reports-all_hits kw port timestamp hay c [] ne = omega arith
reports-all_hits kw port timestamp hay c (k ∷ ks) ne =
    rw (reports-append kw (keyword_hits port timestamp hay c k)) (
      copies_step (k == kw) (copies kw ks) _ _ _ (reports-keyword_hits kw k port timestamp hay c ne)
        (reports-all_hits kw port timestamp hay c ks ne))

top_bound :
    (kw : String) (ks : List String)
    → 0 < copies kw ks
    → byte_len kw ≤ elim (longest ks) [ none ↦ 0 | some n ↦ n ]
top_bound kw [] h = absurd (omega arith)
top_bound kw (k ∷ ks) h = elim (Bool-cases (k == kw)) [
  | inl e ↦ let same = ap byte_len ((eq_iff k kw).0 e) in omega arith
  | inr e ↦
      let more : 0 < 0 + copies kw ks = rw e at h in omega (arith, top_bound kw ks (omega arith))
]

-- A registered keyword fits into the carry and one byte more.
pub max_carry_bound :
    (kw : String) (ks : List String) → 0 < copies kw ks → byte_len kw ≤ max_carry ks + 1
unfolding max_carry
max_carry_bound kw [] h = absurd (omega arith)
max_carry_bound kw (k ∷ ks) h = omega (arith, top_bound kw (k ∷ ks) h)

-- What the carry `c` has to do with the bytes `p` that are gone.
abbrev pub Reaches : String → List ℕ → List ℕ → Type 0
Reaches kw p c = (p ≡ []) ⊎ (byte_len kw ≤ length c + 1)

pub Reaches-next :
    (kw : String) (ks : List String) (p c d : List ℕ)
    → byte_len kw ≤ max_carry ks + 1
    → Reaches kw p c
    → let hay = c ++ d in
      let cut = length hay - min (max_carry ks) (length hay) in
      Reaches kw (p ++ take cut hay) (drop cut hay)
Reaches-next kw ks p c d fits far = elim (Bool-cases (ltb (length (c ++ d)) (max_carry ks))) [
  | inl e ↦
      let short = ltb→lt _ _ e in
      let cut : length (c ++ d) - min (max_carry ks) (length (c ++ d)) ≡ 0 = omega arith in
      rw (cut, append-nil)
        (elim far [ inl q ↦ inl q | inr q ↦ inr (omega (arith, length-append c d)) ])
  | inr e ↦
      let long = ltb-false _ _ e in
      inr (
        omega
          (arith, length-drop (length (c ++ d) - min (max_carry ks) (length (c ++ d))) (c ++ d)))
]

combine :
    (n h old new sent later total : ℕ)
    → sent ≡ n * h
    → new ≡ old + h
    → later + n * new ≡ total
    → sent + later + n * old ≡ total
combine n h old new sent later total e f g = grind arith

module _ (p c d s : List ℕ) (cut : ℕ) where
  keep_all : (p ++ take cut (c ++ d)) ++ drop cut (c ++ d) ≡ p ++ (c ++ d)
  keep_all = rw (append_assoc p, take-append-drop cut (c ++ d))

  pub keep_all_before : (p ++ take cut (c ++ d)) ++ (drop cut (c ++ d) ++ s) ≡ p ++ (c ++ (d ++ s))
  keep_all_before =
      rw (← append_assoc (p ++ take cut (c ++ d)), keep_all, append_assoc p, append_assoc c)

from_start :
    (n old whole new sent : ℕ) → sent + n * old ≡ n * whole → old ≡ 0 → whole ≡ new → sent ≡ n * new
from_start n old whole new sent e f g = grind arith

length_pos : (xs : List ℕ) → xs ≢ [] → 0 < length xs
length_pos [] h = absurd (h refl)
length_pos (x ∷ xs) h = omega arith

pub sent_entries :
    (kw port : String) (st : FilterState) (es : List RxEntry) (p : List ℕ)
    → as_bytes kw ≢ []
    → byte_len kw ≤ max_carry st.keywords + 1
    → Reaches kw p st.carry
    → reports kw (filter_entries port st es).0
        + copies kw st.keywords * occurrences (as_bytes kw) (p ++ st.carry)
      ≡ copies kw st.keywords * occurrences (as_bytes kw) (p ++ (st.carry ++ stream es))
unfolding filter_entries filter_entry
sent_entries kw port st [] p ne fits far = rw append-nil (omega arith)
sent_entries kw port st (e ∷ es) p ne fits far =
    let hay = st.carry ++ e.bytes in
    let cut = length hay - min (max_carry st.keywords) (length hay) in
    let next = (filter_entry port st e).1 in
    let far' = Reaches-next kw st.keywords p st.carry e.bytes fits far in
    let ih = sent_entries kw port next es (p ++ take cut hay) ne fits far' in
    let ih' = rw (keep_all p st.carry e.bytes (stream es) cut, keep_all_before) at ih in
    rw (reports-append kw (filter_entry port st e).0) (
      combine (copies kw st.keywords) (hits_in kw hay (length st.carry)) _ _ _ _ _
        (reports-all_hits kw port e.timestamp hay (length st.carry) st.keywords ne)
        (occurrences-window (as_bytes kw) p st.carry e.bytes (length_pos _ ne) far) ih')

none_sent :
    (kw port : String) (st : FilterState) (es : List RxEntry)
    → as_bytes kw ≢ []
    → copies kw st.keywords ≡ 0
    → reports kw (filter_entries port st es).0 ≡ 0
unfolding filter_entries filter_entry
none_sent kw port st [] ne e = refl
none_sent kw port st (x ∷ es) ne e =
    let hay = st.carry ++ x.bytes in
    let next = (filter_entry port st x).1 in
    let here = reports-all_hits kw port x.timestamp hay (length st.carry) st.keywords ne in
    let here' = rw e at here in
    rw (reports-append kw (filter_entry port st x).0, here', none_sent kw port next es ne e)
      (omega arith)

-- A filter that starts with an empty carry, over any entries: a keyword that is not empty is
-- reported as often as its bytes stand in the bytes of all entries put together, overlapping
-- occurrences and those across entries included, times the number of its copies in the list.
pub filter_entries_exact :
    (kw port : String) (st : FilterState) (es : List RxEntry)
    → as_bytes kw ≢ []
    → st.carry ≡ []
    → reports kw (filter_entries port st es).0
      ≡ copies kw st.keywords * occurrences (as_bytes kw) (stream es)
filter_entries_exact kw port st es ne start = elim (Bool-cases (ltb 0 (copies kw st.keywords))) [
  | inl e ↦
      let fits = max_carry_bound kw st.keywords (ltb→lt _ _ e) in
      let all = sent_entries kw port st es [] ne fits (inl refl) in
      let old : occurrences (as_bytes kw) st.carry ≡ 0 = ap (occurrences (as_bytes kw)) start in
      let new = ap (λ c. occurrences (as_bytes kw) (c ++ stream es)) start in
      from_start (copies kw st.keywords) _ _ _ _ all old new
  | inr e ↦
      let zero_copies : copies kw st.keywords ≡ 0 = omega (arith, ltb-false _ _ e) in
      rw (none_sent kw port st es ne zero_copies, zero_copies) (omega arith)
]
