-- ===== src/Daemon/Stream/Idle.antt =====
-- When the streaming task sleeps: what `got_data` says of a round. Without data it sleeps for 10
-- ms.
use commmon.Base.{◌≡◌, refl, String, Bool, true, false, ◌||◌, List, [], ◌∷◌}
use commmon.Base.Maps.{Map}
use commmon.Channel.{Receiver, TryRecv, entry, lagged, nothing, closed}
use commmon.Env.{Env, by_stream, by_filter}
use commmon.Filter.{FilterState, filter_entry}
use commmon.Daemon.{StreamState}
use commmon.Daemon.Stream.{poll_rx, poll_filter, poll_receivers, poll_filters, round}
use commmon.Daemon.Stream.Polling.{met}

abbrev is_cons {ℓ} : {A : Type ℓ} → List A → Bool
is_cons [] = false
is_cons (x ∷ xs) = true

-- Whether an entry waits for the task, on one of its subscribed ports or of its filtered ones.
abbrev pub waiting_rx : Env → Map Receiver → Bool
waiting_rx env [] = false
waiting_rx env ((port, rx) ∷ m) = is_cons (met (env.polled by_stream rx)) || waiting_rx env m

abbrev pub waiting_filters : Env → Map FilterState → Bool
waiting_filters env [] = false
waiting_filters env ((port, st) ∷ m) =
    is_cons (met (env.polled by_filter st.rx)) || waiting_filters env m

poll_rx-got_data :
    (env : Env) (port : String) (results : List TryRecv)
    → (poll_rx env port results).got_data ≡ is_cons (met results)
unfolding poll_rx
poll_rx-got_data env port [] = refl
poll_rx-got_data env port (entry e ∷ results) = refl
poll_rx-got_data env port (lagged n ∷ results) = poll_rx-got_data env port results
poll_rx-got_data env port (nothing ∷ results) = refl
poll_rx-got_data env port (closed ∷ results) = refl

poll_filter-got_data :
    (port : String) (st : FilterState) (results : List TryRecv)
    → (poll_filter port st results).got_data ≡ is_cons (met results)
unfolding poll_filter filter_entry
poll_filter-got_data port st [] = refl
poll_filter-got_data port st (entry e ∷ results) = refl
poll_filter-got_data port st (lagged n ∷ results) = poll_filter-got_data port st results
poll_filter-got_data port st (nothing ∷ results) = refl
poll_filter-got_data port st (closed ∷ results) = refl

poll_receivers-got_data :
    (env : Env) (m : Map Receiver) → (poll_receivers env m).got_data ≡ waiting_rx env m
unfolding poll_receivers
poll_receivers-got_data env [] = refl
poll_receivers-got_data env ((port, rx) ∷ m) =
    rw (poll_rx-got_data env port (env.polled by_stream rx), poll_receivers-got_data env m) refl

poll_filters-got_data :
    (env : Env) (m : Map FilterState) → (poll_filters env m).got_data ≡ waiting_filters env m
unfolding poll_filters
poll_filters-got_data env [] = refl
poll_filters-got_data env ((port, st) ∷ m) =
    rw (poll_filter-got_data port st (env.polled by_filter st.rx), poll_filters-got_data env m) refl

-- A round reports that it got data exactly if an entry waits on a subscribed or on a filtered port,
-- whatever was lost before it.
pub round-got_data :
    (env : Env) (t : StreamState)
    → (round env t).got_data
      ≡ (waiting_rx env t.rx_receivers || waiting_filters env t.filter_states)
unfolding round
round-got_data env t =
    rw (poll_receivers-got_data env t.rx_receivers, poll_filters-got_data env t.filter_states) refl
