-- ===== src/Daemon/Rx/Untouched.antt =====
-- The commands about the streaming task leave the daemon's own state alone.
use commmon.Base.{String, ◌≡◌, refl, List, [], ◌∷◌}
use commmon.Base.Branches.{on_if, on_option}
use commmon.Base.Maps.{get, contains_key}
use commmon.Json.{Value, str_of, get as get_arg}
use commmon.Protocol.{Response, failure}
use commmon.Env.{Env}
use commmon.Serial
use commmon.Serial.{is_port_open}
use commmon.Serial.Logs
use commmon.Daemon.{DaemonState, ClientSession, RxSubCommand, Handled}
use commmon.Daemon.Rx.{
  reply, send_or, subscribe_rx, unsubscribe_rx, unfilter_rx, filter_rx, filter_port, add_filter_rx,
  add_filter_port, register_filter, keywords_of, after_close, close_port,
}

pub record Untouched (d : DaemonState) (r : Handled) : Type 0 where
  pub daemon : r.daemon ≡ d

module _ (env : Env) (d : DaemonState) (s : ClientSession) where
  refused : (msg : String) → Untouched d (reply (failure msg) d s)
  refused msg = record { daemon = refl }

  sent :
      (cmd : RxSubCommand) (a b : Response) (s' : ClientSession)
      → Untouched d (send_or env cmd a b d s')
  sent cmd a b s' =
      on_if (Untouched d) env.stream_alive _ _ (λ _. record { daemon = refl })
        (λ _. record { daemon = refl })

  pub subscribe_rx-Untouched : (args : Value) → Untouched d (subscribe_rx env args d s)
  unfolding subscribe_rx
  subscribe_rx-Untouched args =
      on_option (Untouched d) (str_of "port" args) _ _ (λ _. refused _)
        λ port _.
          on_if (Untouched d) (is_port_open port d.serial) _ _
            (λ _.
              on_if (Untouched d) (contains_key port s.rx_subscriptions) _ _ (λ _. refused _)
                (λ _.
                  on_option (Untouched d) (Serial.subscribe port d.serial) _ _ (λ _. refused _)
                    λ rx _. sent _ _ _ _))
            (λ _. refused _)

  pub unsubscribe_rx-Untouched : (args : Value) → Untouched d (unsubscribe_rx env args d s)
  unfolding unsubscribe_rx
  unsubscribe_rx-Untouched args =
      on_option (Untouched d) (str_of "port" args) _ _ (λ _. refused _)
        λ port _.
          on_if (Untouched d) (contains_key port s.rx_subscriptions) _ _ (λ _. sent _ _ _ _)
            (λ _. refused _)

  pub unfilter_rx-Untouched : (args : Value) → Untouched d (unfilter_rx env args d s)
  unfolding unfilter_rx
  unfilter_rx-Untouched args =
      on_option (Untouched d) (str_of "port" args) _ _ (λ _. refused _)
        λ port _.
          on_if (Untouched d) (contains_key port s.filter_subscriptions) _ _ (λ _. sent _ _ _ _)
            (λ _. refused _)

  register_filter-Untouched :
      (port : String) (kws : List String) (text : String)
      → Untouched d (register_filter env port kws text d s)
  unfolding register_filter
  register_filter-Untouched port kws text =
      on_option (Untouched d) (Serial.subscribe port d.serial) _ _ (λ _. refused _)
        λ rx _. sent _ _ _ _

  filter_port-Untouched :
      (port : String) (kws : List String) → Untouched d (filter_port env port kws d s)
  unfolding filter_port
  filter_port-Untouched port [] = refused _
  filter_port-Untouched port (kw ∷ kws) =
      on_if (Untouched d) (is_port_open port d.serial) _ _
        (λ _. register_filter-Untouched port (kw ∷ kws) _) (λ _. refused _)

  pub filter_rx-Untouched : (args : Value) → Untouched d (filter_rx env args d s)
  unfolding filter_rx
  filter_rx-Untouched args =
      on_option (Untouched d) (str_of "port" args) _ _ (λ _. refused _)
        λ port _.
          on_option (Untouched d) (keywords_of (get_arg "keywords" args)) _ _ (λ _. refused _)
            λ kws _. filter_port-Untouched port kws

  add_filter_port-Untouched :
      (port : String) (kws : List String) → Untouched d (add_filter_port env port kws d s)
  unfolding add_filter_port
  add_filter_port-Untouched port [] = refused _
  add_filter_port-Untouched port (kw ∷ kws) =
      on_if (Untouched d) (is_port_open port d.serial) _ _
        (λ _.
          on_option (Untouched d) (get port s.filter_subscriptions) _ _
            (λ _. register_filter-Untouched port (kw ∷ kws) _) λ old _. sent _ _ _ _)
        (λ _. refused _)

  pub add_filter_rx-Untouched : (args : Value) → Untouched d (add_filter_rx env args d s)
  unfolding add_filter_rx
  add_filter_rx-Untouched args =
      on_option (Untouched d) (str_of "port" args) _ _ (λ _. refused _)
        λ port _.
          on_option (Untouched d) (keywords_of (get_arg "keywords" args)) _ _ (λ _. refused _)
            λ kws _. add_filter_port-Untouched port kws

-- "close_port" does to the serial manager what `close_port` of the manager does, and answers the
-- same.
pub record Passed (r : Response × Serial.SerialManager) (h : Handled) : Type 0 where
  pub response : h.response ≡ r.0
  pub serial : h.daemon.serial ≡ r.1

pub close_port-Passed :
    (env : Env) (args : Value) (d : DaemonState) (s : ClientSession)
    → Passed (Logs.close_port args d.serial) (close_port env args d s)
unfolding close_port after_close
close_port-Passed env args d s =
    let r = Logs.close_port args d.serial in
    on_if (Passed r) r.0.ok _ _
      (λ _.
        on_option (Passed r) (str_of "port" args) _ _
          (λ _. record { response = refl; serial = refl })
          λ port _. record { response = refl; serial = refl })
      (λ _. record { response = refl; serial = refl })
