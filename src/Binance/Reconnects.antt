-- ===== src/Binance/Reconnects.antt =====
-- How often BinanceData itself tries to reconnect.
use btrader.Prelude.{
  ℕ, ◌+◌, ◌-◌, ◌≤◌, length, ◌≡◌, refl, Bool, true, false, not, List, [], ◌∷◌, ◌++◌, map, arith, ltb,
  if◌then◌else◌, both_branches, branches_by,
}
use btrader.Prelude.Int.{ℤ, pos, negsuc, ltb_ℤ}
use btrader.Binance.Data.{InstrumentKey, BinanceData, subscribe_method, unsubscribe_method}
use btrader.Binance.Streams.{
  streams_of, symbol_of, update_streams_uri, update_streams_uri_from_subscribed,
  set_default_streams,
}
use btrader.Binance.Subscriptions.{is_empty, collect, send, erase_each, subscribe, unsubscribe}
use btrader.Binance.Runs.{Call, step, subscribing, unsubscribing}
use btrader.Binance.Connection.{
  open_client, stop, on_disconnect, on_error, reconnect, wake, Event, starting, waking, stopping,
  connecting, disconnecting, failing, calling, happen, history,
}

-- What a call leaves as it is.
record SameLink (s after : BinanceData) : Type 0 where
  opens : after.opened ≡ s.opened
  attempts : after.current_reconnect_attempts ≡ s.current_reconnect_attempts
  limit : after.max_reconnect_attempts ≡ s.max_reconnect_attempts

abbrev Kept : BinanceData → BinanceData × Bool → Type 0
Kept s p = SameLink s p.0

-- The guards of the calls, with what they end in.
guards :
    (s asked done : BinanceData) (empty connected off refused : Bool)
    → SameLink s asked
    → SameLink s done
    → Kept s (
        if empty
        then (s, false)
        else if not connected
        then (s, false)
        else if off
        then (s, false)
        else if refused
        then (asked, false)
        else (done, true))
guards s asked done true connected off refused a d = record {
  opens = refl;
  attempts = refl;
  limit = refl;
}
guards s asked done false false off refused a d = record {
  opens = refl;
  attempts = refl;
  limit = refl;
}
guards s asked done false true true refused a d = record {
  opens = refl;
  attempts = refl;
  limit = refl;
}
guards s asked done false true false true a d = a
guards s asked done false true false false a d = d

subscribe-SameLink :
    (result : ℤ) (keys : List InstrumentKey) (s : BinanceData)
    → SameLink s (subscribe result keys s).0
unfolding subscribe send update_streams_uri
subscribe-SameLink result keys s =
    let (symbols, streams) = collect s keys [] [] in
    let asked = send subscribe_method streams s in
    guards s asked
      (record (update_streams_uri symbols asked) {
        subscribed_instruments = s.subscribed_instruments ++ keys;
      })
      (is_empty keys) s.is_connected (is_empty streams) (ltb_ℤ result (pos 0))
      (record { opens = refl; attempts = refl; limit = refl })
      (record { opens = refl; attempts = refl; limit = refl })

unsubscribe-SameLink :
    (result : ℤ) (keys : List InstrumentKey) (s : BinanceData)
    → SameLink s (unsubscribe result keys s).0
unfolding unsubscribe send update_streams_uri_from_subscribed update_streams_uri set_default_streams
unsubscribe-SameLink result keys s =
    let streams = streams_of s (map symbol_of keys) in
    let asked = send unsubscribe_method streams s in
    let held = erase_each keys s.subscribed_instruments in
    let left = record asked { subscribed_instruments = held } in
    guards s asked
      (if not (is_empty held)
        then update_streams_uri_from_subscribed left
        else set_default_streams left)
      (is_empty keys) s.is_connected (is_empty streams) (ltb_ℤ result (pos 0))
      (record { opens = refl; attempts = refl; limit = refl })
      (both_branches (SameLink s) (not (is_empty held))
        {u = update_streams_uri_from_subscribed left} {v = set_default_streams left}
        (record { opens = refl; attempts = refl; limit = refl })
        (record { opens = refl; attempts = refl; limit = refl }))

step-SameLink : (c : Call) (s : BinanceData) → SameLink s (step c s).0
unfolding step
step-SameLink (subscribing result keys) s = subscribe-SameLink result keys s
step-SameLink (unsubscribing result keys) s = unsubscribe-SameLink result keys s

-- The attempts that a limit leaves after so many.
abbrev pub attempts_left : ℤ → ℕ → ℕ
attempts_left (pos limit) attempts = limit - attempts
attempts_left (negsuc n) attempts = 0

-- The attempts that the service made and may still make before the next start or connection.
abbrev allowed : BinanceData → ℕ
allowed s = length s.opened + attempts_left s.max_reconnect_attempts s.current_reconnect_attempts

one_less :
    (attempts : ℕ) (limit : ℤ)
    → not (ltb_ℤ (pos attempts) limit) ≡ false
    → 1 + attempts_left limit (attempts + 1) ≡ attempts_left limit attempts
one_less attempts (pos limit) e = ground (arith, e)
one_less attempts (negsuc n) e = ground (arith, e)

reconnect-allowed : (failed : Bool) (s : BinanceData) → allowed (reconnect failed s).0 ≤ allowed s
unfolding reconnect
reconnect-allowed failed s =
    let tried =
      open_client (record s { current_reconnect_attempts = s.current_reconnect_attempts + 1 }) in
    branches_by (λ (p : BinanceData × Bool). allowed p.0 ≤ allowed s)
      (not (ltb_ℤ (pos s.current_reconnect_attempts) s.max_reconnect_attempts))
      {u = (record s { should_reconnect = false }, false)}
      {v = if failed then (tried, false) else (tried, true)} (λ e. omega arith)
      (λ e.
        let less : allowed tried ≤ allowed s =
          omega (arith, one_less s.current_reconnect_attempts s.max_reconnect_attempts e) in
        both_branches (λ (p : BinanceData × Bool). allowed p.0 ≤ allowed s) failed
          {u = (tried, false)} {v = (tried, true)} less less)

wake-allowed : (failed : Bool) (s : BinanceData) → allowed (wake failed s) ≤ allowed s
unfolding wake
wake-allowed failed s =
    let awake = record s { sleeping = s.sleeping - 1 } in
    both_branches (λ (x : BinanceData). allowed x ≤ allowed s) s.should_reconnect
      {u = (reconnect failed awake).0} {v = awake} (reconnect-allowed failed awake) (omega arith)

-- A start or a connection, after which the attempts are counted from 0.
unfoldable pub renews : Event → Bool
renews (starting failed) = true
renews connecting = true
renews _ = false

unfoldable pub RenewsNothing : List Event → Type 0
RenewsNothing [] = Unit
RenewsNothing (e ∷ events) = (renews e ≡ false) × RenewsNothing events

happen-allowed : (e : Event) (s : BinanceData) → renews e ≡ false → allowed (happen e s) ≤ allowed s
unfolding happen stop on_disconnect on_error renews
happen-allowed (starting failed) s n = cc
happen-allowed (waking failed) s n =
    both_branches (λ (x : BinanceData). allowed x ≤ allowed s) (ltb 0 s.sleeping)
      {u = wake failed s} {v = s} (wake-allowed failed s) (omega arith)
happen-allowed stopping s n = omega arith
happen-allowed connecting s n = cc
happen-allowed disconnecting s n =
    both_branches (λ (x : BinanceData). allowed x ≤ allowed s) s.should_reconnect (omega arith)
      (omega arith)
happen-allowed failing s n = omega arith
happen-allowed (calling c) s n =
    let link = step-SameLink c s in rw (link.opens, link.attempts, link.limit) (omega arith)

history-allowed :
    (events : List Event) (s : BinanceData)
    → RenewsNothing events
    → allowed (history events s) ≤ allowed s
unfolding history RenewsNothing
history-allowed [] s n = omega arith
history-allowed (e ∷ events) s n =
    let first = happen-allowed e s n.0 in
    let later = history-allowed events (happen e s) n.1 in omega arith

-- As long as there is no start and no connection, whatever else happens, the service itself asks the
-- client to open at most as often as the limit exceeds the attempts made before.
pub history-opens :
    (events : List Event) (s : BinanceData)
    → RenewsNothing events
    → length (history events s).opened
      ≤ length s.opened + attempts_left s.max_reconnect_attempts s.current_reconnect_attempts
history-opens events s n = let bound = history-allowed events s n in omega arith
