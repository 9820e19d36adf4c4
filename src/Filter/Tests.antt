-- ===== src/Filter/Tests.antt =====
-- Runs of the filter.
use commmon.Base.{◌≡◌, ◌≢◌, ◌≤◌, length, take_last, refl, [], ◌∷◌, map, some, List, ◌*◌, arith}
use commmon.Base.Text.{as_bytes, from_utf8_lossy}
use commmon.Json.{str_of}
use commmon.Channel.{RxEntry}
use commmon.Filter.{
  FilterState, find_subslice, filter_entries, matches, max_carry, all_hits, keyword_hits,
  filter_entry, context,
}
use commmon.Filter.Scan.{ends_behind, matches-ends_behind}
use commmon.Filter.Bounds.{reach, filter_entries-carry}
use commmon.Filter.Context.{AllHits, keyword_hits-near}
use commmon.Filter.Window.{occurrences}
use commmon.Filter.Exact.{reports, copies, stream, filter_entries_exact}

abbrev ok_filter : FilterState
ok_filter = record { rx = record { channel = 1 }; keywords = "OK" ∷ []; carry = [] }

abbrev split_entries : List RxEntry
split_entries =
    record { timestamp = "t"; bytes = as_bytes "boot O" }
    ∷ record { timestamp = "u"; bytes = as_bytes "K OK" }
    ∷ []

two_entries :
    map (λ n. str_of "context" n.payload) (filter_entries "COM3" ok_filter split_entries).0
    ≡ some "OK OK" ∷ some "OK OK" ∷ []
unfolding filter_entries filter_entry matches max_carry all_hits keyword_hits context find_subslice
    as_bytes from_utf8_lossy
two_entries = refl

two_found : occurrences (as_bytes "OK") (stream split_entries) ≡ 2
unfolding as_bytes
two_found = refl

ok_bytes : as_bytes "OK" ≢ []
unfolding as_bytes
ok_bytes = λ e. cc

filter_entries_exact_example :
    reports "OK" (filter_entries "COM3" ok_filter split_entries).0
    ≡ copies "OK" ok_filter.keywords * occurrences (as_bytes "OK") (stream split_entries)
filter_entries_exact_example =
    filter_entries_exact "OK" "COM3" ok_filter split_entries ok_bytes refl

matches-ends_behind_example :
    matches 4 (1 ∷ 1 ∷ 1 ∷ []) (1 ∷ 1 ∷ []) 0 0 ≡ ends_behind 0 0 (1 ∷ 1 ∷ []) (1 ∷ 1 ∷ 1 ∷ [])
matches-ends_behind_example =
    matches-ends_behind 4 (1 ∷ 1 ∷ 1 ∷ []) (1 ∷ 1 ∷ []) 0 0 (λ e. cc) (omega arith)

filter_entries-carry_example :
    ((filter_entries "COM3" ok_filter split_entries).1.carry
      ≡ take_last (reach ok_filter.keywords) (stream split_entries))
    × (length (filter_entries "COM3" ok_filter split_entries).1.carry ≤ reach ok_filter.keywords)
filter_entries-carry_example = filter_entries-carry "COM3" ok_filter split_entries refl

keyword_hits-near_example :
    AllHits "COM3" "OK" "t"
      (as_bytes "boot OK")
      (keyword_hits "COM3" "t" (as_bytes "boot OK") 1 "OK")
keyword_hits-near_example = keyword_hits-near "COM3" "OK" "t" (as_bytes "boot OK") 1 ok_bytes
