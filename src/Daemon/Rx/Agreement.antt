-- ===== src/Daemon/Rx/Agreement.antt =====
-- The session and the streaming task say the same about subscriptions and filters.
use commmon.Base.{
  String, ◌≡◌, Option, none, some, List, arith, eq_iff, Bool-cases, Option-cases, inl, inr,
}
use commmon.Base.Maps.{get, insert, remove, contains_key, map_laws}
use commmon.Filter.{FilterState}
use commmon.Channel.{Receiver}
use commmon.Daemon.{
  ClientSession, subscribe, unsubscribe, add_filter, remove_filter, set_filter_keywords,
  StreamState,
}
use commmon.Daemon.Stream.{apply_cmd, apply_cmds, set_keywords}
use commmon.Daemon.Session.{on_port_closed}
use commmon.Daemon.Rx.{closing_cmds}

abbrev pub keywords_in : Option FilterState → Option (List String)
keywords_in none = none
keywords_in (some st) = some st.keywords

-- About one port.
pub record Agree (port : String) (s : ClientSession) (t : StreamState) : Type 0 where
  pub subscribed : contains_key port s.rx_subscriptions ≡ contains_key port t.rx_receivers
  pub filtered : get port s.filter_subscriptions ≡ keywords_in (get port t.filter_states)

-- The session and the stream after one command, about the port `j`.
module _ (j : String) (s : ClientSession) (t : StreamState) (h : Agree j s t) where
  pub Agree-subscribe :
      (port : String) (rx : Receiver)
      → Agree j
          (record s { rx_subscriptions = insert port tt s.rx_subscriptions })
          (apply_cmd t (subscribe port rx))
  unfolding apply_cmd
  Agree-subscribe port rx = record {
    subscribed = simp map_laws (ground (arith, h.subscribed));
    filtered = h.filtered;
  }

  pub Agree-unsubscribe :
      (port : String)
      → Agree j
          (record s { rx_subscriptions = remove port s.rx_subscriptions })
          (apply_cmd t (unsubscribe port))
  unfolding apply_cmd
  Agree-unsubscribe port = record {
    subscribed = simp map_laws (ground (arith, h.subscribed));
    filtered = h.filtered;
  }

  pub Agree-add_filter :
      (port : String) (kws : List String) (rx : Receiver)
      → Agree j
          (record s { filter_subscriptions = insert port kws s.filter_subscriptions })
          (apply_cmd t (add_filter port kws rx))
  unfolding apply_cmd
  Agree-add_filter port kws rx = record {
    subscribed = h.subscribed;
    filtered = simp map_laws (ground (arith, h.filtered));
  }

  pub Agree-remove_filter :
      (port : String)
      → Agree j
          (record s { filter_subscriptions = remove port s.filter_subscriptions })
          (apply_cmd t (remove_filter port))
  unfolding apply_cmd
  Agree-remove_filter port = record {
    subscribed = h.subscribed;
    filtered = simp map_laws (ground (arith, h.filtered));
  }

abbrev pub Agrees : ClientSession → StreamState → Type 0
Agrees s t = (j : String) → Agree j s t

absurd_filter {ℓ} :
    {C : Type ℓ} {o : Option (List String)} {kws : List String} {f : Option FilterState}
    → o ≡ keywords_in f
    → o ≡ some kws
    → f ≡ none
    → C
absurd_filter {f = none} p q r = cc
absurd_filter {f = some st} p q r = cc

pub Agree-set_keywords :
    (j port : String) (s : ClientSession) (t : StreamState) (old new : List String)
    → Agrees s t
    → get port s.filter_subscriptions ≡ some old
    → Agree j
        (record s { filter_subscriptions = insert port new s.filter_subscriptions })
        (apply_cmd t (set_filter_keywords port new))
unfolding apply_cmd
Agree-set_keywords j port s t old new h e = elim (Option-cases (get port t.filter_states)) [
  | inl f ↦ absurd_filter (h port).filtered e f
  | inr (st, f) ↦
      rw (f, apply_cmd, set_keywords)
        (record {
          subscribed = (h j).subscribed;
          filtered = simp map_laws (ground (arith, (h j).filtered));
        })
]

-- What a closed port leaves is gone on both sides, whatever the session had registered.
pub Agree-closed :
    (j port : String) (s : ClientSession) (t : StreamState)
    → Agree port s t
    → Agree j s t
    → Agree j (on_port_closed port s) (apply_cmds t (closing_cmds port s))
unfolding on_port_closed apply_cmds apply_cmd
Agree-closed j port s t here h = elim (Bool-cases (contains_key port s.rx_subscriptions)) [
  | inl a ↦ elim (Bool-cases (contains_key port s.filter_subscriptions)) [
    | inl b ↦
        rw (a, b)
          (record {
            subscribed = simp map_laws (ground (arith, eq_iff port j));
            filtered = simp map_laws (ground (arith, eq_iff port j));
          })
    | inr b ↦
        rw (a, b)
          (record {
            subscribed = simp map_laws (ground (arith, eq_iff port j));
            filtered = simp map_laws (ground (arith, eq_iff port j));
          })
  ]
  | inr a ↦ elim (Bool-cases (contains_key port s.filter_subscriptions)) [
    | inl b ↦
        rw (a, b)
          (record {
            subscribed = simp map_laws (ground (arith, eq_iff port j));
            filtered = simp map_laws (ground (arith, eq_iff port j));
          })
    | inr b ↦
        rw (a, b)
          (record {
            subscribed = simp map_laws (ground (arith, eq_iff port j));
            filtered = simp map_laws (ground (arith, eq_iff port j));
          })
  ]
]
