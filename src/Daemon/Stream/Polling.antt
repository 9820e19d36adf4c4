-- ===== src/Daemon/Stream/Polling.antt =====
-- What a round of the streaming task does to its two maps, and what it reports.
use commmon.Base.{String, ◌≡◌, refl, ap, Bool, true, false, List, [], ◌∷◌, map, arith}
use commmon.Base.Maps.{Map, get}
use commmon.Channel.{RxEntry, Receiver, TryRecv, entry, lagged, nothing, closed}
use commmon.Env.{Env, Poller, by_stream, by_filter}
use commmon.Filter.{FilterState, filter_entry, filter_entries}
use commmon.Daemon.Rx.Agreement.{keywords_in}
use commmon.Daemon.Stream.{rx_data, poll_rx, poll_filter, keep_open, poll_receivers, poll_filters}

-- Whether the polling meets the end of the channel.
abbrev pub ends_closed : List TryRecv → Bool
ends_closed [] = false
ends_closed (entry e ∷ results) = ends_closed results
ends_closed (lagged n ∷ results) = ends_closed results
ends_closed (nothing ∷ results) = false
ends_closed (closed ∷ results) = true

-- The entries that the polling meets; a lag does not end it.
abbrev pub met : List TryRecv → List RxEntry
met [] = []
met (entry e ∷ results) = e ∷ met results
met (lagged n ∷ results) = met results
met (nothing ∷ results) = []
met (closed ∷ results) = []

abbrev pub AllOpen : Env → Type 0
AllOpen env = (who : Poller) (rx : Receiver) → ends_closed (env.polled who rx) ≡ false

-- Polling a subscribed port sends one `rx_data` for each entry up to the end of the queue, in
-- order, whatever was lost in between, and calls the port closed exactly when the channel has
-- ended.
pub poll_rx_lem :
    (env : Env) (port : String) (results : List TryRecv)
    → ((poll_rx env port results).sent ≡ map (rx_data env port) (met results))
      × ((poll_rx env port results).is_closed ≡ ends_closed results)
unfolding poll_rx
poll_rx_lem env port [] = (refl, refl)
poll_rx_lem env port (entry e ∷ results) =
    let (a, b) = poll_rx_lem env port results in (rw a refl, b)
poll_rx_lem env port (lagged n ∷ results) = poll_rx_lem env port results
poll_rx_lem env port (nothing ∷ results) = (refl, refl)
poll_rx_lem env port (closed ∷ results) = (refl, refl)

-- Polling a filtered port sends what the filter sends over the entries up to the end of the queue,
-- leaves the filter's state after them, and calls the port closed exactly when the channel has
-- ended.
pub poll_filter_lem :
    (port : String) (st : FilterState) (results : List TryRecv)
    → ((poll_filter port st results).sent ≡ (filter_entries port st (met results)).0)
      × ((poll_filter port st results).state ≡ (filter_entries port st (met results)).1)
      × ((poll_filter port st results).is_closed ≡ ends_closed results)
unfolding poll_filter filter_entries
poll_filter_lem port st [] = (refl, refl, refl)
poll_filter_lem port st (entry e ∷ results) =
    let (a, b, c) = poll_filter_lem port (filter_entry port st e).1 results in (rw a refl, b, c)
poll_filter_lem port st (lagged n ∷ results) = poll_filter_lem port st results
poll_filter_lem port st (nothing ∷ results) = (refl, refl, refl)
poll_filter_lem port st (closed ∷ results) = (refl, refl, refl)

pub filter_entries-keywords :
    (port : String) (st : FilterState) (es : List RxEntry)
    → (filter_entries port st es).1.keywords ≡ st.keywords
unfolding filter_entries filter_entry
filter_entries-keywords port st [] = refl
filter_entries-keywords port st (e ∷ es) =
    filter_entries-keywords port (filter_entry port st e).1 es

pub poll_receivers-state :
    (env : Env) (m : Map Receiver) → AllOpen env → (poll_receivers env m).state ≡ m
unfolding poll_receivers keep_open
poll_receivers-state env [] h = refl
poll_receivers-state env ((port, rx) ∷ m) h =
    rw
      (
        (poll_rx_lem env port (env.polled by_stream rx)).1,
        h by_stream rx,
        poll_receivers-state env m h,
      )
      refl

pub poll_filters-keywords :
    (env : Env) (j : String) (m : Map FilterState)
    → AllOpen env
    → keywords_in (get j (poll_filters env m).state) ≡ keywords_in (get j m)
unfolding poll_filters keep_open get
poll_filters-keywords env j [] h = refl
poll_filters-keywords env j ((port, st) ∷ m) h =
    let (a, b, c) = poll_filter_lem port st (env.polled by_filter st.rx) in
    rw (c, h by_filter st.rx)
      (ground (
        arith,
        poll_filters-keywords env j m h,
        ap (λ (x : FilterState). x.keywords) b,
        filter_entries-keywords port st (met (env.polled by_filter st.rx)),
      ))
