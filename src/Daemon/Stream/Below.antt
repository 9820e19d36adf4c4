-- ===== src/Daemon/Stream/Below.antt =====
-- Two streaming tasks that take the same commands, of which one may have dropped ports whose
-- channel has ended.
use commmon.Base.{
  String, ◌≡◌, refl, ◌∙◌, ap, true, none, some, List, [], ◌∷◌, arith, eq_iff, ◌==◌, Bool-cases,
  Option-cases, inl, inr, if◌then◌else◌,
}
use commmon.Base.Maps.{Map, get, contains_key, is_some, map_laws}
use commmon.Channel.{Receiver}
use commmon.Env.{Env, by_stream, by_filter}
use commmon.Filter.{FilterState}
use commmon.Daemon.{
  RxSubCommand, subscribe, unsubscribe, add_filter, remove_filter, set_filter_keywords, StreamState,
}
use commmon.Daemon.Stream.{
  apply_cmd, apply_cmds, set_keywords, keep_open, poll_rx, poll_filter, poll_receivers,
  poll_filters, round,
}
use commmon.Daemon.Stream.Polling.{met, poll_filter_lem, filter_entries-keywords}
use commmon.Daemon.Rx.Agreement.{keywords_in}

-- About one port, the stream `t` has what `g` has, or nothing.
pub record Below (j : String) (t g : StreamState) : Type 0 where
  pub receivers : contains_key j t.rx_receivers ≡ true → contains_key j g.rx_receivers ≡ true
  pub filters :
      is_some (keywords_in (get j t.filter_states)) ≡ true
      → keywords_in (get j t.filter_states) ≡ keywords_in (get j g.filter_states)

module _ (j port : String) (t g : StreamState) (h : Below j t g) where
  subscribe-Below :
      (rx : Receiver) → Below j (apply_cmd t (subscribe port rx)) (apply_cmd g (subscribe port rx))
  unfolding apply_cmd
  subscribe-Below rx = record {
    receivers = simp map_laws (ground (arith, h.receivers));
    filters = h.filters;
  }

  unsubscribe-Below : Below j (apply_cmd t (unsubscribe port)) (apply_cmd g (unsubscribe port))
  unfolding apply_cmd
  unsubscribe-Below = record {
    receivers = simp map_laws (ground (arith, h.receivers));
    filters = h.filters;
  }

  add_filter-Below :
      (kws : List String) (rx : Receiver)
      → Below j (apply_cmd t (add_filter port kws rx)) (apply_cmd g (add_filter port kws rx))
  unfolding apply_cmd
  add_filter-Below kws rx = record {
    receivers = h.receivers;
    filters = simp map_laws (ground (arith, h.filters));
  }

  remove_filter-Below :
      Below j (apply_cmd t (remove_filter port)) (apply_cmd g (remove_filter port))
  unfolding apply_cmd
  remove_filter-Below = record {
    receivers = h.receivers;
    filters = simp map_laws (ground (arith, h.filters));
  }

get-set_keywords :
    (j port : String) (kws : List String) (m : Map FilterState)
    → keywords_in (get j (set_keywords port kws m)) ≡ (
        if port == j
        then if is_some (keywords_in (get j m)) then some kws else none
        else keywords_in (get j m))
unfolding set_keywords
get-set_keywords j port kws m = elim (Option-cases (get port m)) [
  | inl e ↦ rw (e, set_keywords) (ground (arith, eq_iff port j, e))
  | inr (st, e) ↦
      rw (e, set_keywords)
        (elim (Option-cases (get j m)) [
          | inl f ↦ simp map_laws (ground (arith, eq_iff port j, e, f))
          | inr (st', f) ↦ simp map_laws (ground (arith, eq_iff port j, e, f))
        ])
]

set_filter_keywords-Below :
    (j port : String) (kws : List String) (t g : StreamState)
    → Below j t g
    → Below j
        (apply_cmd t (set_filter_keywords port kws))
        (apply_cmd g (set_filter_keywords port kws))
unfolding apply_cmd
set_filter_keywords-Below j port kws t g h = record {
  receivers = h.receivers;
  filters = ground (
    arith,
    get-set_keywords j port kws t.filter_states,
    get-set_keywords j port kws g.filter_states,
    h.filters,
  );
}

apply_cmd-Below :
    (j : String) (cmd : RxSubCommand) (t g : StreamState)
    → Below j t g
    → Below j (apply_cmd t cmd) (apply_cmd g cmd)
apply_cmd-Below j (subscribe port rx) t g h = subscribe-Below j port t g h rx
apply_cmd-Below j (unsubscribe port) t g h = unsubscribe-Below j port t g h
apply_cmd-Below j (add_filter port kws rx) t g h = add_filter-Below j port t g h kws rx
apply_cmd-Below j (remove_filter port) t g h = remove_filter-Below j port t g h
apply_cmd-Below j (set_filter_keywords port kws) t g h = set_filter_keywords-Below j port kws t g h

pub apply_cmds-Below :
    (j : String) (cmds : List RxSubCommand) (t g : StreamState)
    → Below j t g
    → Below j (apply_cmds t cmds) (apply_cmds g cmds)
unfolding apply_cmds
apply_cmds-Below j [] t g h = h
apply_cmds-Below j (cmd ∷ cmds) t g h = apply_cmds-Below j cmds _ _ (apply_cmd-Below j cmd t g h)

-- A round of polling puts nothing into the maps.
poll_receivers-keeps :
    (env : Env) (j : String) (m : Map Receiver)
    → contains_key j (poll_receivers env m).state ≡ true
    → contains_key j m ≡ true
unfolding poll_receivers get keep_open
poll_receivers-keeps env j [] = λ h. h
poll_receivers-keeps env j ((port, rx) ∷ m) =
    elim (Bool-cases (poll_rx env port (env.polled by_stream rx)).is_closed) [
      | inl e ↦
          rw (e, keep_open)
            (simp map_laws (ground (arith, eq_iff port j, poll_receivers-keeps env j m)))
      | inr e ↦ rw (e, keep_open) (ground (arith, eq_iff port j, poll_receivers-keeps env j m))
    ]

poll_filters-keeps :
    (env : Env) (j : String) (m : Map FilterState)
    → is_some (keywords_in (get j (poll_filters env m).state)) ≡ true
    → keywords_in (get j (poll_filters env m).state) ≡ keywords_in (get j m)
unfolding poll_filters get keep_open
poll_filters-keeps env j [] = λ h. refl
poll_filters-keeps env j ((port, st) ∷ m) =
    let results = env.polled by_filter st.rx in
    let (a, b, c) = poll_filter_lem port st results in
    let k = filter_entries-keywords port st (met results) in
    elim (Bool-cases (poll_filter port st results).is_closed) [
      | inl e ↦
          rw (e, keep_open)
            (simp map_laws (ground (arith, eq_iff port j, poll_filters-keeps env j m)))
      | inr e ↦
          rw (e, keep_open)
            (ground (
              arith,
              eq_iff port j,
              poll_filters-keeps env j m,
              ap (λ (x : FilterState). x.keywords) b,
              k,
            ))
    ]

-- A polled channel may have ended.
pub round-Below :
    (env : Env) (j : String) (t g : StreamState) → Below j t g → Below j (round env t).state g
unfolding round
round-Below env j t g h = record {
  receivers = λ e. h.receivers (poll_receivers-keeps env j t.rx_receivers e);
  filters = λ e. let k = poll_filters-keeps env j t.filter_states e in k ∙ h.filters (rw k at e);
}
