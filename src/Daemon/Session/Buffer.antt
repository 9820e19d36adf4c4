-- ===== src/Daemon/Session/Buffer.antt =====
-- The receive buffer keeps the newest entries, in their order.
use commmon.Base.{
  suc, ◌-◌, ◌≤◌, ◌≡◌, refl, sym, ◌∙◌, List, [], ◌∷◌, ◌++◌, arith, length, take_last, length-append,
  append_assoc, append-nil, Bool-cases, inl, inr, ltb, ltb→lt, ltb-false,
}
use commmon.Channel.{RxEntry, TryRecv, entry}
use commmon.Daemon.Session.{max_buffer_entries, push_entry, drain}

-- The entries that the receiver hands over before anything else comes.
abbrev pub delivered : List TryRecv → List RxEntry
delivered [] = []
delivered (entry e ∷ results) = e ∷ delivered results
delivered (_ ∷ results) = []

take_last-cons :
    (x : RxEntry) (xs : List RxEntry)
    → max_buffer_entries ≤ length xs
    → take_last max_buffer_entries (x ∷ xs) ≡ take_last max_buffer_entries xs
take_last-cons x xs h =
    let e : suc (length xs) - max_buffer_entries ≡ suc (length xs - max_buffer_entries) =
      omega arith in
    rw e

take_last_short :
    (xs : List RxEntry) → length xs ≤ max_buffer_entries → take_last max_buffer_entries xs ≡ xs
take_last_short xs h = let e : length xs - max_buffer_entries ≡ 0 = omega arith in rw e

-- Putting in one entry, whatever else is to follow.
push_entry-take_last :
    (b : List RxEntry) (e : RxEntry) (es : List RxEntry)
    → length b ≤ max_buffer_entries
    → (take_last max_buffer_entries (push_entry b e ++ es)
        ≡ take_last max_buffer_entries (b ++ e ∷ es))
      × (length (push_entry b e) ≤ max_buffer_entries)
unfolding push_entry
push_entry-take_last [] e es h = (refl, omega arith)
push_entry-take_last (x ∷ b) e es h =
    elim (Bool-cases (ltb max_buffer_entries (length (x ∷ b ++ e ∷ [])))) [
      | inl full ↦
          let long = ltb→lt _ _ full in
          let count = length-append b (e ∷ es) in
          rw (full, push_entry)
            (
              rw (append_assoc b)
                  (sym (take_last-cons x (b ++ e ∷ es) (omega (arith, length-append b (e ∷ []))))),
              omega (arith, length-append b (e ∷ [])),
            )
      | inr fits ↦
          let short = ltb-false _ _ fits in rw (fits, push_entry) (rw (append_assoc b), short)
    ]

-- A buffer of at most 200 entries that is drained then holds the last 200 of its entries and those
-- handed over, in order; less than 200 are all kept.
pub drain-take_last :
    (b : List RxEntry) (results : List TryRecv)
    → length b ≤ max_buffer_entries
    → drain b results ≡ take_last max_buffer_entries (b ++ delivered results)
unfolding drain
drain-take_last b [] h = rw (append-nil, take_last_short b h)
drain-take_last b (entry e ∷ results) h =
    let (same, short) = push_entry-take_last b e (delivered results) h in
    drain-take_last (push_entry b e) results short ∙ same
drain-take_last b (_ ∷ results) h = rw (append-nil, take_last_short b h)
