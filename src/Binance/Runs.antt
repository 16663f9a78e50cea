-- ===== src/Binance/Runs.antt =====
-- Sequences of subscriptions and of their withdrawals, against a bag of identifiers.
use btrader.Prelude.{
  ℕ, ◌+◌, ◌-◌, ◌≡◌, refl, sym, ◌∙◌, ap, Bool, List, [], ◌∷◌, ◌++◌, map, inl, inr, Bool-cases,
  if◌then◌else◌, if_true, if_false,
}
use btrader.Prelude.Int.{ℤ}
use btrader.Binance.Data.{InstrumentKey, BinanceData}
use btrader.Binance.Subscriptions.{subscribe, unsubscribe, erase_each}
use btrader.Binance.Bags.{
  count, accepts, Follows, Guarded, subscribe-Guarded, unsubscribe-Guarded, count-append,
  count-erase_each,
}

-- A call, with what the client returns for its write.
pub data Call : Type 0 where
  subscribing unsubscribing : ℤ → List InstrumentKey → Call

unfoldable pub step : Call → BinanceData → BinanceData × Bool
step (subscribing result keys) s = subscribe result keys s
step (unsubscribing result keys) s = unsubscribe result keys s

-- The object after the calls, and what they returned.
unfoldable pub run : List Call → BinanceData → BinanceData × List Bool
run [] s = (s, [])
run (c ∷ calls) s =
    let (after, done) = step c s in let (last, answers) = run calls after in (last, done ∷ answers)

unfoldable pub accepted : BinanceData → Call → Bool
accepted s (subscribing result keys) = accepts s result keys
accepted s (unsubscribing result keys) = accepts s result keys

-- What a call does to the number of times that an identifier is held.
unfoldable pub changed : List ℕ → Call → ℕ → ℕ
changed id (subscribing result keys) n = n + count id keys
changed id (unsubscribing result keys) n = n - count id keys

unfoldable pub held_after : BinanceData → List ℕ → List Call → ℕ → ℕ
held_after s id [] n = n
held_after s id (c ∷ calls) n = held_after s id calls (if accepted s c then changed id c n else n)

change_of : Call → BinanceData → List InstrumentKey
change_of (subscribing result keys) s = s.subscribed_instruments ++ keys
change_of (unsubscribing result keys) s = erase_each keys s.subscribed_instruments

step-Guarded : (c : Call) (s : BinanceData) → Guarded s (accepted s c) (change_of c s) (step c s)
unfolding step accepted change_of
step-Guarded (subscribing result keys) s = subscribe-Guarded s result keys
step-Guarded (unsubscribing result keys) s = unsubscribe-Guarded s result keys

count-change_of :
    (c : Call) (s : BinanceData) (id : List ℕ)
    → count id (change_of c s) ≡ changed id c (count id s.subscribed_instruments)
unfolding change_of changed
count-change_of (subscribing result keys) s id = count-append id s.subscribed_instruments keys
count-change_of (unsubscribing result keys) s id = count-erase_each id keys s.subscribed_instruments

accepted-Follows :
    (s after : BinanceData) (held : List InstrumentKey) (c : Call)
    → Follows s after held
    → accepted after c ≡ accepted s c
unfolding accepted
accepted-Follows s after held (subscribing result keys) f = rw (f.connected, f.kline, f.depth) refl
accepted-Follows s after held (unsubscribing result keys) f =
    rw (f.connected, f.kline, f.depth) refl

count-step :
    (c : Call) (s : BinanceData) (id : List ℕ)
    → count id (step c s).0.subscribed_instruments ≡ (
        if accepted s c
        then changed id c (count id s.subscribed_instruments)
        else count id s.subscribed_instruments)
unfolding Guarded
count-step c s id =
    let before = s.subscribed_instruments in
    let held = (step-Guarded c s).1.holds in
    elim (Bool-cases (accepted s c)) [
      | inl e ↦
          ap (count id) (held ∙ if_true (accepted s c) (change_of c s) before e)
          ∙ count-change_of c s id
          ∙ sym (if_true (accepted s c) _ _ e)
      | inr e ↦
          ap (count id) (held ∙ if_false (accepted s c) (change_of c s) before e)
          ∙ sym (if_false (accepted s c) _ _ e)
    ]

held_after-Follows :
    (s after : BinanceData) (held : List InstrumentKey) (id : List ℕ) (calls : List Call) (n : ℕ)
    → Follows s after held
    → held_after after id calls n ≡ held_after s id calls n
unfolding held_after
held_after-Follows s after held id [] n f = refl
held_after-Follows s after held id (c ∷ calls) n f =
    ap (λ b. held_after after id calls (if b then changed id c n else n))
      (accepted-Follows s after held c f)
    ∙ held_after-Follows s after held id calls (if accepted s c then changed id c n else n) f

answers-Follows :
    (s after : BinanceData) (held : List InstrumentKey) (calls : List Call)
    → Follows s after held
    → map (accepted after) calls ≡ map (accepted s) calls
answers-Follows s after held [] f = refl
answers-Follows s after held (c ∷ calls) f =
    rw (accepted-Follows s after held c f, answers-Follows s after held calls f) refl

-- Over any sequence of calls of subscribe and unsubscribe the subscriptions are a bag: each accepted
-- call adds its instruments, or takes them out as far as they are held, the others change nothing,
-- and each call returns whether it was accepted. That is where instruments are given, the service is
-- connected, a stream is enabled, and the client's write does not fail.
pub run-count :
    (calls : List Call) (s : BinanceData) (id : List ℕ)
    → (count id (run calls s).0.subscribed_instruments
        ≡ held_after s id calls (count id s.subscribed_instruments))
      × ((run calls s).1 ≡ map (accepted s) calls)
unfolding run held_after Guarded
run-count [] s id = (refl, refl)
run-count (c ∷ calls) s id =
    let after = (step c s).0 in
    let guarded = step-Guarded c s in
    let rest = run-count calls after id in
    (
      rest.0
          ∙ held_after-Follows s after _ id calls _ guarded.1
          ∙ ap (held_after s id calls) (count-step c s id),
      ap (λ answers. (step c s).1 ∷ answers) (rest.1 ∙ answers-Follows s after _ calls guarded.1)
          ∙ ap (λ b. b ∷ map (accepted s) calls) guarded.0,
    )
