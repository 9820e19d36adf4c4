-- ===== src/Filter.antt =====
-- commmon/src/daemon.rs, the keyword filter: `FilterState`, `find_subslice`, and what the streaming
-- task does with one received entry.
pub mod Scan
pub mod Window
pub mod Exact
pub mod Update
pub mod Bounds
pub mod Context
mod Tests
use commmon.Base.{
  ℕ, zero, suc, ◌+◌, ◌-◌, min, max, String, Bool, true, false, Option, none, some, List, [], ◌∷◌,
  ◌++◌, ◌&&◌, ◌||◌, map, length, take, drop, ltb, eqb, if◌then◌else◌,
}
use commmon.Base.Text.{as_bytes, from_utf8_lossy}
use commmon.Json.{json, string}
use commmon.Protocol.{Notification}
use commmon.Channel.{RxEntry, Receiver}

pub record FilterState : Type 0 where
  pub rx : Receiver
  pub keywords : List String
  pub carry : List ℕ

-- `k.len()`: the bytes of a keyword
abbrev pub byte_len : String → ℕ
byte_len k = length (as_bytes k)

-- `iter().max()` of the keywords' lengths
abbrev pub longest : List String → Option ℕ
longest [] = none
longest (k ∷ ks) = some (max (byte_len k) (elim (longest ks) [ none ↦ 0 | some n ↦ n ]))

abbrev or_one : Option ℕ → ℕ
or_one none = 1
or_one (some n) = n

pub max_carry : List String → ℕ
max_carry keywords = or_one (longest keywords) - 1

abbrev pub bytes_eq : List ℕ → List ℕ → Bool
bytes_eq [] [] = true
bytes_eq (x ∷ xs) (y ∷ ys) = eqb x y && bytes_eq xs ys
bytes_eq _ _ = false

-- `haystack.windows(n)`, n > 0
abbrev pub windows : ℕ → List ℕ → List (List ℕ)
windows n [] = []
windows n (x ∷ xs) =
    let rest = windows n xs in if ltb (length (x ∷ xs)) n then [] else take n (x ∷ xs) ∷ rest

abbrev pub position : (List ℕ → Bool) → List (List ℕ) → Option ℕ
position p [] = none
position p (w ∷ ws) =
    let rest = position p ws in
    if p w then some 0 else elim rest [ none ↦ none | some i ↦ some (suc i) ]

abbrev is_empty : List ℕ → Bool
is_empty [] = true
is_empty (x ∷ xs) = false

pub find_subslice : List ℕ → List ℕ → Option ℕ
find_subslice haystack needle =
    if is_empty needle || ltb (length haystack) (length needle)
    then none
    else position (λ w. bytes_eq w needle) (windows (length needle) haystack)

-- The `while let` loop over the matches in `hay`, from `search_from`: where the reported ones
-- start. A match that lies in the carry alone is passed over. The fuel bounds the rounds.
pub matches : ℕ → List ℕ → List ℕ → ℕ → ℕ → List ℕ
matches zero hay kw carry_len search_from = []
matches (suc fuel) hay kw carry_len search_from = elim (find_subslice (drop search_from hay) kw) [
  | none ↦ []
  | some rel ↦
      let at = search_from + rel in
      let rest = matches fuel hay kw carry_len (at + 1) in
      if ltb carry_len (at + length kw) then at ∷ rest else rest
]

abbrev slice : ℕ → ℕ → List ℕ → List ℕ
slice from to hay = take (to - from) (drop from hay)

-- The text round a match: 20 bytes before it and 20 after, within `hay`.
pub context : List ℕ → List ℕ → ℕ → String
context hay kw at = from_utf8_lossy (slice (at - 20) (min (at + length kw + 20) (length hay)) hay)

abbrev pub filter_hit : String → String → String → String → Notification
filter_hit port kw timestamp text = record {
  notify = "filter_hit";
  payload = json (
      ("port", string port)
      ∷ ("keyword", string kw)
      ∷ ("timestamp", string timestamp)
      ∷ ("context", string text)
      ∷ []);
}

-- The matches of one keyword, as notifications.
unfoldable pub keyword_hits : String → String → List ℕ → ℕ → String → List Notification
keyword_hits port timestamp hay carry_len kw =
    map (λ at. filter_hit port kw timestamp (context hay (as_bytes kw) at))
      (matches (suc (length hay)) hay (as_bytes kw) carry_len 0)

-- `for kw in &st.keywords`
unfoldable pub all_hits : String → String → List ℕ → ℕ → List String → List Notification
all_hits port timestamp hay carry_len [] = []
all_hits port timestamp hay carry_len (kw ∷ kws) =
    keyword_hits port timestamp hay carry_len kw ++ all_hits port timestamp hay carry_len kws

-- The `Ok(entry)` arm of the filter's polling loop: what is sent, and the state after.
unfoldable pub filter_entry : String → FilterState → RxEntry → List Notification × FilterState
filter_entry port st e =
    let hay = st.carry ++ e.bytes in
    let keep = min (max_carry st.keywords) (length hay) in
    (
      all_hits port e.timestamp hay (length st.carry) st.keywords,
      record st { carry = drop (length hay - keep) hay },
    )

-- Entries in the order of their arrival.
unfoldable pub filter_entries :
    String → FilterState → List RxEntry → List Notification × FilterState
filter_entries port st [] = ([], st)
filter_entries port st (e ∷ es) =
    let (sent, st') = filter_entry port st e in
    let (later, st'') = filter_entries port st' es in (sent ++ later, st'')
