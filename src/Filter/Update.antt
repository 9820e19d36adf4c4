-- ===== src/Filter/Update.antt =====
-- The keywords of a running filter are replaced: the matches of those that stay go on unbroken.
use commmon.Base.{
  ℕ, ◌+◌, ◌-◌, ◌*◌, min, ◌≤◌, ◌<◌, ◌≡◌, ◌≢◌, refl, ap, ◌∙◌, String, List, [], ◌∷◌, ◌++◌, inl, arith,
  length, take, append-nil, append_assoc,
}
use commmon.Base.Text.{as_bytes}
use commmon.Channel.{RxEntry}
use commmon.Filter.{FilterState, byte_len, max_carry, filter_entry, filter_entries}
use commmon.Filter.Window.{occurrences}
use commmon.Filter.Exact.{
  reports, copies, stream, Reaches, Reaches-next, sent_entries, max_carry_bound, keep_all_before,
  filter_entries_exact,
}

-- What has been forgotten of the bytes after some entries, and that the carry still reaches back.
record Left (kw : String) (all c : List ℕ) : Type 0 where
  gone : List ℕ
  whole : gone ++ c ≡ all
  reaches : Reaches kw gone c

filter_entries-Left :
    (kw port : String) (st : FilterState) (es : List RxEntry) (p : List ℕ)
    → byte_len kw ≤ max_carry st.keywords + 1
    → Reaches kw p st.carry
    → Left kw (p ++ (st.carry ++ stream es)) (filter_entries port st es).1.carry
unfolding filter_entries filter_entry
filter_entries-Left kw port st [] p fits far = record {
  gone = p;
  whole = rw append-nil;
  reaches = far;
}
filter_entries-Left kw port st (e ∷ es) p fits far =
    let hay = st.carry ++ e.bytes in
    let cut = length hay - min (max_carry st.keywords) (length hay) in
    let next = (filter_entry port st e).1 in
    let far' = Reaches-next kw st.keywords p st.carry e.bytes fits far in
    let rest = filter_entries-Left kw port next es (p ++ take cut hay) fits far' in
    record {
      gone = rest.gone;
      whole = rest.whole ∙ keep_all_before p st.carry e.bytes (stream es) cut;
      reaches = rest.reaches;
    }

two_parts :
    (n b c first second : ℕ) → first ≡ n * b → second + n * b ≡ n * c → first + second ≡ n * c
two_parts n b c first second e f = omega (arith, e, f)

-- A filter that starts with an empty carry, over any entries; then its keywords are replaced, its
-- carry kept, and more entries come. A keyword that is not empty and stands in both lists, as often
-- in the one as in the other, is reported as often as its bytes stand in the bytes of all the
-- entries put together, those matches included that begin before the change and end after it, times
-- the number of its copies.
pub filter_entries-replaced :
    (kw port : String) (st : FilterState) (keywords : List String) (before after : List RxEntry)
    → as_bytes kw ≢ []
    → st.carry ≡ []
    → 0 < copies kw keywords
    → copies kw st.keywords ≡ copies kw keywords
    → let (sent, st') = filter_entries port st before in
      let (later, st'') = filter_entries port (record st' { keywords = keywords }) after in
      reports kw sent + reports kw later
      ≡ copies kw keywords * occurrences (as_bytes kw) (stream before ++ stream after)
filter_entries-replaced kw port st keywords before after ne start here same =
    let fits = max_carry_bound kw st.keywords (omega arith) in
    let fits' = max_carry_bound kw keywords here in
    let left = filter_entries-Left kw port st before [] fits (inl refl) in
    let st' = (filter_entries port st before).1 in
    let second =
      sent_entries kw port (record st' { keywords = keywords }) after left.gone ne fits'
        left.reaches in
    let whole : left.gone ++ st'.carry ≡ stream before =
      left.whole ∙ ap (λ c. c ++ stream before) start in
    let extended : left.gone ++ (st'.carry ++ stream after) ≡ stream before ++ stream after =
      rw (← append_assoc left.gone, whole) in
    two_parts (copies kw keywords) _ _ _ _
      (filter_entries_exact kw port st before ne start
        ∙ ap (λ (n : ℕ). n * occurrences (as_bytes kw) (stream before)) same)
      (rw (whole, extended) at second)
