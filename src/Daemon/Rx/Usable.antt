-- ===== src/Daemon/Rx/Usable.antt =====
-- The keywords of a filter are texts that are not empty, and there is at least one.
use commmon.Base.{
  String, ◌≡◌, refl, Bool, true, false, ◌&&◌, not, Option, none, some, List, [], ◌∷◌, ◌++◌, ◌==◌,
  arith, if◌then◌else◌, Bool-cases, inl, inr,
}
use commmon.Base.Branches.{on_if, on_option}
use commmon.Base.Maps.{get, insert, remove, contains_key, map_laws}
use commmon.Json.{
  Value, Items, nil, cons, null, bool, number, other_number, string, array, object, str_of,
  get as get_arg,
}
use commmon.Protocol.{Response, failure}
use commmon.Env.{Env}
use commmon.Serial
use commmon.Serial.{is_port_open}
use commmon.Serial.Logs
use commmon.Daemon.Session.{on_port_closed}
use commmon.Daemon.{DaemonState, ClientSession, RxSubCommand, Handled}
use commmon.Daemon.Rx.{
  reply, send_or, subscribe_rx, unsubscribe_rx, unfilter_rx, filter_rx, filter_port, add_filter_rx,
  add_filter_port, register_filter, keywords_of, texts, has, merge, after_close, close_port,
}

abbrev pub no_empty : List String → Bool
no_empty [] = true
no_empty (kw ∷ kws) = not (kw == "") && no_empty kws

abbrev is_cons : List String → Bool
is_cons [] = false
is_cons (kw ∷ kws) = true

abbrev pub usable : List String → Bool
usable kws = is_cons kws && no_empty kws

no_empty-texts : (vs : Items) → no_empty (texts vs) ≡ true
no_empty-texts nil = refl
no_empty-texts (cons null vs) = no_empty-texts vs
no_empty-texts (cons (bool b) vs) = no_empty-texts vs
no_empty-texts (cons (number n) vs) = no_empty-texts vs
no_empty-texts (cons (other_number n) vs) = no_empty-texts vs
no_empty-texts (cons (string s) vs) = ground (arith, no_empty-texts vs)
no_empty-texts (cons (array ws) vs) = no_empty-texts vs
no_empty-texts (cons (object fs) vs) = no_empty-texts vs

no_empty-append : (xs ys : List String) → no_empty (xs ++ ys) ≡ (no_empty xs && no_empty ys)
no_empty-append [] ys = refl
no_empty-append (x ∷ xs) ys = ground (arith, no_empty-append xs ys)

usable-push :
    (old : List String) (kw : String)
    → usable old ≡ true
    → not (kw == "") ≡ true
    → usable (if has old kw then old else old ++ kw ∷ []) ≡ true
usable-push [] kw h k = cc
usable-push (o ∷ old) kw h k = elim (Bool-cases (has (o ∷ old) kw)) [
  | inl e ↦ rw e h
  | inr e ↦ rw e (ground (arith, no_empty-append old (kw ∷ [])))
]

usable-merge :
    (new old : List String)
    → usable old ≡ true
    → no_empty new ≡ true
    → usable (merge old new) ≡ true
unfolding merge
usable-merge [] old h k = h
usable-merge (kw ∷ new) old h k =
    usable-merge new _ (usable-push old kw h (ground arith)) (ground arith)

abbrev pub usable_in : Option (List String) → Bool
usable_in none = true
usable_in (some kws) = usable kws

-- What a session has registered.
pub record Usable (s : ClientSession) : Type 0 where
  pub all : (p : String) → usable_in (get p s.filter_subscriptions) ≡ true

-- After a handler.
pub record Leaves (r : Handled) : Type 0 where
  pub left : Usable r.session

pub same_filters :
    (s s' : ClientSession) → Usable s → s'.filter_subscriptions ≡ s.filter_subscriptions → Usable s'
same_filters s s' h e = record { all = λ p. rw e (h.all p) }

pub without_filter :
    (s : ClientSession) (port : String)
    → Usable s
    → Usable (record s { filter_subscriptions = remove port s.filter_subscriptions })
without_filter s port h = record { all = λ p. simp map_laws (ground (arith, h.all p)) }

no_empty-keywords_of :
    (v : Option Value) (kws : List String) → keywords_of v ≡ some kws → no_empty kws ≡ true
no_empty-keywords_of none kws e = cc
no_empty-keywords_of (some null) kws e = cc
no_empty-keywords_of (some (bool b)) kws e = cc
no_empty-keywords_of (some (number n)) kws e = cc
no_empty-keywords_of (some (other_number n)) kws e = cc
no_empty-keywords_of (some (string x)) kws e = ground arith
no_empty-keywords_of (some (array vs)) kws e = ground (arith, no_empty-texts vs, e)
no_empty-keywords_of (some (object fs)) kws e = cc

module _ (env : Env) (d : DaemonState) (s : ClientSession) (h : Usable s) where
  with_filter :
      (port : String) (kws : List String)
      → usable kws ≡ true
      → Usable (record s { filter_subscriptions = insert port kws s.filter_subscriptions })
  with_filter port kws k = record { all = λ p. simp map_laws (ground (arith, h.all p, k)) }

  refused : (msg : String) → Leaves (reply (failure msg) d s)
  refused msg = record { left = h }

  sent :
      (cmd : RxSubCommand) (a b : Response) (s' : ClientSession)
      → Usable s'
      → Leaves (send_or env cmd a b d s')
  sent cmd a b s' k =
      on_if Leaves env.stream_alive _ _ (λ _. record { left = k }) (λ _. record { left = k })

  pub subscribe_rx-Leaves : (args : Value) → Leaves (subscribe_rx env args d s)
  unfolding subscribe_rx
  subscribe_rx-Leaves args =
      on_option Leaves (str_of "port" args) _ _ (λ _. refused _)
        λ port _.
          on_if Leaves (is_port_open port d.serial) _ _
            (λ _.
              on_if Leaves (contains_key port s.rx_subscriptions) _ _ (λ _. refused _)
                (λ _.
                  on_option Leaves (Serial.subscribe port d.serial) _ _ (λ _. refused _)
                    λ rx _. sent _ _ _ _ (same_filters s _ h refl)))
            (λ _. refused _)

  pub unsubscribe_rx-Leaves : (args : Value) → Leaves (unsubscribe_rx env args d s)
  unfolding unsubscribe_rx
  unsubscribe_rx-Leaves args =
      on_option Leaves (str_of "port" args) _ _ (λ _. refused _)
        λ port _.
          on_if Leaves (contains_key port s.rx_subscriptions) _ _
            (λ _. sent _ _ _ _ (same_filters s _ h refl)) (λ _. refused _)

  pub unfilter_rx-Leaves : (args : Value) → Leaves (unfilter_rx env args d s)
  unfolding unfilter_rx
  unfilter_rx-Leaves args =
      on_option Leaves (str_of "port" args) _ _ (λ _. refused _)
        λ port _.
          on_if Leaves (contains_key port s.filter_subscriptions) _ _
            (λ _. sent _ _ _ _ (without_filter s port h)) (λ _. refused _)

  register_filter-Leaves :
      (port : String) (kws : List String) (text : String)
      → usable kws ≡ true
      → Leaves (register_filter env port kws text d s)
  unfolding register_filter
  register_filter-Leaves port kws text k =
      on_option Leaves (Serial.subscribe port d.serial) _ _ (λ _. refused _)
        λ rx _. sent _ _ _ _ (with_filter port kws k)

  filter_port-Leaves :
      (port : String) (kws : List String)
      → no_empty kws ≡ true
      → Leaves (filter_port env port kws d s)
  unfolding filter_port
  filter_port-Leaves port [] k = refused _
  filter_port-Leaves port (kw ∷ kws) k =
      on_if Leaves (is_port_open port d.serial) _ _
        (λ _. register_filter-Leaves port (kw ∷ kws) _ k) (λ _. refused _)

  add_filter_port-Leaves :
      (port : String) (kws : List String)
      → no_empty kws ≡ true
      → Leaves (add_filter_port env port kws d s)
  unfolding add_filter_port
  add_filter_port-Leaves port [] k = refused _
  add_filter_port-Leaves port (kw ∷ kws) k =
      on_if Leaves (is_port_open port d.serial) _ _
        (λ _.
          on_option Leaves (get port s.filter_subscriptions) _ _
            (λ _. register_filter-Leaves port (kw ∷ kws) _ k)
            λ old e. sent _ _ _ _ (
              with_filter port (merge old (kw ∷ kws))
                (usable-merge (kw ∷ kws) old (let u = h.all port in rw e at u) k)))
        (λ _. refused _)

  pub filter_rx-Leaves : (args : Value) → Leaves (filter_rx env args d s)
  unfolding filter_rx
  filter_rx-Leaves args =
      on_option Leaves (str_of "port" args) _ _ (λ _. refused _)
        λ port _.
          on_option Leaves (keywords_of (get_arg "keywords" args)) _ _ (λ _. refused _)
            λ kws e.
              filter_port-Leaves port kws (no_empty-keywords_of (get_arg "keywords" args) kws e)

  pub add_filter_rx-Leaves : (args : Value) → Leaves (add_filter_rx env args d s)
  unfolding add_filter_rx
  add_filter_rx-Leaves args =
      on_option Leaves (str_of "port" args) _ _ (λ _. refused _)
        λ port _.
          on_option Leaves (keywords_of (get_arg "keywords" args)) _ _ (λ _. refused _)
            λ kws e.
              add_filter_port-Leaves port kws (no_empty-keywords_of (get_arg "keywords" args) kws e)

  pub close_port-Leaves : (args : Value) → Leaves (close_port env args d s)
  unfolding close_port after_close on_port_closed
  close_port-Leaves args =
      on_if Leaves (Logs.close_port args d.serial).0.ok _ _
        (λ _.
          on_option Leaves (str_of "port" args) _ _ (λ _. record { left = h })
            λ port _. record { left = record { all = (without_filter s port h).all } })
        (λ _. record { left = h })
