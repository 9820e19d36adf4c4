-- ===== src/Daemon/Rx/Sound.antt =====
-- The commands about the streaming task keep what is valid, and change nothing when they are
-- refused.
use commmon.Base.{String, ◌≡◌, refl, true, false, List, [], ◌∷◌}
use commmon.Base.Branches.{on_if, on_option}
use commmon.Base.Maps.{get, contains_key}
use commmon.Json.{Value, str_of, get as get_arg}
use commmon.Protocol.{Response, success_msg, failure}
use commmon.Env.{Env}
use commmon.Serial
use commmon.Serial.{SerialManager, is_port_open}
use commmon.Serial.Logs
use commmon.Serial.Invariant
use commmon.Serial.Invariant.{LogsOpen, SameMaps}
use commmon.Daemon.{DaemonState, ClientSession, RxSubCommand, StreamState, Handled}
use commmon.Daemon.Stream.{apply_cmd, apply_cmds}
use commmon.Daemon.Session.Keeps.{BuffersValid, on_port_closed-BuffersValid}
use commmon.Daemon.Rx.{
  close_port, keywords_of, reply, send_or, subscribe_rx, unsubscribe_rx, filter_port, filter_rx,
  add_filter_port, add_filter_rx, unfilter_rx, register_filter, merge,
}
use commmon.Daemon.Rx.Agreement.{
  Agrees, Agree-subscribe, Agree-unsubscribe, Agree-add_filter, Agree-remove_filter,
  Agree-set_keywords, Agree-closed,
}

-- What a handler leaves: the session agrees with the stream that has applied the sent commands, and
-- a refused request has changed none of the maps and sent nothing.
pub record Sound (d : DaemonState) (s : ClientSession) (t : StreamState) (r : Handled)
    : Type 0 where
  pub agrees : Agrees r.session (apply_cmds t r.sent)
  pub buffers : BuffersValid r.session
  pub logs_open : LogsOpen r.daemon.serial
  pub on_error :
      r.response.ok ≡ false
      → SameMaps d.serial r.daemon.serial
        × (r.daemon.monitor ≡ d.monitor)
        × (r.session ≡ s)
        × (r.sent ≡ [])

module _ (env : Env) (alive : env.stream_alive ≡ true) (d : DaemonState) (s : ClientSession)
    (t : StreamState) (h : Agrees s t) (valid : BuffersValid s)
    (logs_open : LogsOpen d.serial) where
  pub refused : (msg : String) → Sound d s t (reply (failure msg) d s)
  unfolding apply_cmds
  refused msg = record {
    agrees = h;
    buffers = valid;
    logs_open = logs_open;
    on_error = λ _. ((refl, refl), refl, refl, refl);
  }

  Sound-send :
      (cmd : RxSubCommand) (msg : String) (b : Response) (s' : ClientSession)
      → Agrees s' (apply_cmd t cmd)
      → BuffersValid s'
      → Sound d s t (send_or env cmd (success_msg msg) b d s')
  unfolding apply_cmds
  Sound-send cmd msg b s' k v =
      rw alive (record { agrees = k; buffers = v; logs_open = logs_open; on_error = λ e. cc })

  pub Sound-subscribe_rx : (args : Value) → Sound d s t (subscribe_rx env args d s)
  unfolding subscribe_rx
  Sound-subscribe_rx args =
      on_option (Sound d s t) (str_of "port" args) _ _ (λ _. refused _)
        λ port _.
          on_if (Sound d s t) (is_port_open port d.serial) _ _
            (λ _.
              on_if (Sound d s t) (contains_key port s.rx_subscriptions) _ _ (λ _. refused _)
                (λ _.
                  on_option (Sound d s t) (Serial.subscribe port d.serial) _ _ (λ _. refused _)
                    λ rx _. Sound-send _ _ _ _ (λ j. Agree-subscribe j s t (h j) port rx) valid))
            (λ _. refused _)

  pub Sound-unsubscribe_rx : (args : Value) → Sound d s t (unsubscribe_rx env args d s)
  unfolding unsubscribe_rx
  Sound-unsubscribe_rx args =
      on_option (Sound d s t) (str_of "port" args) _ _ (λ _. refused _)
        λ port _.
          on_if (Sound d s t) (contains_key port s.rx_subscriptions) _ _
            (λ _. Sound-send _ _ _ _ (λ j. Agree-unsubscribe j s t (h j) port) valid)
            (λ _. refused _)

  pub Sound-unfilter_rx : (args : Value) → Sound d s t (unfilter_rx env args d s)
  unfolding unfilter_rx
  Sound-unfilter_rx args =
      on_option (Sound d s t) (str_of "port" args) _ _ (λ _. refused _)
        λ port _.
          on_if (Sound d s t) (contains_key port s.filter_subscriptions) _ _
            (λ _. Sound-send _ _ _ _ (λ j. Agree-remove_filter j s t (h j) port) valid)
            (λ _. refused _)

  Sound-register :
      (port : String) (kws : List String) (text : String)
      → Sound d s t (register_filter env port kws text d s)
  unfolding register_filter
  Sound-register port kws text =
      on_option (Sound d s t) (Serial.subscribe port d.serial) _ _ (λ _. refused _)
        λ rx _. Sound-send _ _ _ _ (λ j. Agree-add_filter j s t (h j) port kws rx) valid

  Sound-filter_port :
      (port : String) (kws : List String) → Sound d s t (filter_port env port kws d s)
  unfolding filter_port
  Sound-filter_port port [] = refused _
  Sound-filter_port port (kw ∷ kws) =
      on_if (Sound d s t) (is_port_open port d.serial) _ _ (λ _. Sound-register port (kw ∷ kws) _)
        (λ _. refused _)

  pub Sound-filter_rx : (args : Value) → Sound d s t (filter_rx env args d s)
  unfolding filter_rx
  Sound-filter_rx args =
      on_option (Sound d s t) (str_of "port" args) _ _ (λ _. refused _)
        λ port _.
          on_option (Sound d s t) (keywords_of (get_arg "keywords" args)) _ _ (λ _. refused _)
            λ kws _. Sound-filter_port port kws

  Sound-add_filter_port :
      (port : String) (kws : List String) → Sound d s t (add_filter_port env port kws d s)
  unfolding add_filter_port
  Sound-add_filter_port port [] = refused _
  Sound-add_filter_port port (kw ∷ kws) =
      on_if (Sound d s t) (is_port_open port d.serial) _ _
        (λ _.
          on_option (Sound d s t) (get port s.filter_subscriptions) _ _
            (λ _. Sound-register port (kw ∷ kws) _)
            λ old e.
              Sound-send _ _ _ _ (λ j. Agree-set_keywords j port s t old (merge old (kw ∷ kws)) h e)
                valid)
        (λ _. refused _)

  pub Sound-add_filter_rx : (args : Value) → Sound d s t (add_filter_rx env args d s)
  unfolding add_filter_rx
  Sound-add_filter_rx args =
      on_option (Sound d s t) (str_of "port" args) _ _ (λ _. refused _)
        λ port _.
          on_option (Sound d s t) (keywords_of (get_arg "keywords" args)) _ _ (λ _. refused _)
            λ kws _. Sound-add_filter_port port kws

  pub Sound-close_port : (args : Value) → Sound d s t (close_port env args d s)
  unfolding close_port apply_cmds
  Sound-close_port args =
      let (r, m) = Logs.close_port args d.serial in
      let k = Invariant.close_port-Sound env d.serial logs_open args in
      on_if (Sound d s t) r.ok _ _
        (λ fine.
          on_option (Sound d s t) (str_of "port" args) _ _
            (λ _. record {
              agrees = h;
              buffers = valid;
              logs_open = k.logs_open;
              on_error = λ e. cc;
            })
            λ port _. record {
              agrees = rw alive (λ j. Agree-closed j port s t (h port) (h j));
              buffers = on_port_closed-BuffersValid s valid port;
              logs_open = k.logs_open;
              on_error = λ e. cc;
            })
        (λ bad. record {
          agrees = h;
          buffers = valid;
          logs_open = k.logs_open;
          on_error = λ e. (k.on_error e, refl, refl, refl);
        })
