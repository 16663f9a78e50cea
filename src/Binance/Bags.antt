-- ===== src/Binance/Bags.antt =====
-- The subscriptions of BinanceData as a bag: how often each identifier is held.
use btrader.Prelude.{
  ℕ, suc, ◌+◌, ◌-◌, ◌≡◌, refl, sym, ◌∙◌, ap, subst, Bool, true, false, not, ◌&&◌, ◌||◌, List, [],
  ◌∷◌, ◌++◌, map, arith, inl, inr, Bool-cases, if◌then◌else◌, both_branches,
}
use btrader.Prelude.Int.{ℤ, pos, ltb_ℤ}
use btrader.CharArray.{text}
use btrader.KeyedBook.{same_text}
use btrader.Binance.Data.{InstrumentKey, BinanceData, subscribe_method, unsubscribe_method}
use btrader.Binance.Streams.{
  streams_before, streams_of, symbol_of, update_streams_uri, update_streams_uri_from_subscribed,
  set_default_streams,
}
use btrader.Binance.Subscriptions.{
  is_empty, is_among, collect, send, subscribe, erase_first, erase_each, unsubscribe,
}

unfoldable pub count : List ℕ → List InstrumentKey → ℕ
count id [] = 0
count id (k ∷ keys) =
    if same_text (text k.instrument_id) id then suc (count id keys) else count id keys

pub same_text-equal : (a b : List ℕ) → same_text a b ≡ true → a ≡ b
same_text-equal [] [] e = refl
same_text-equal [] (b ∷ bs) e = ground arith
same_text-equal (a ∷ rest) [] e = ground arith
same_text-equal (a ∷ rest) (b ∷ bs) e = ground (arith, same_text-equal rest bs)

pub same_text_self : (a : List ℕ) → same_text a a ≡ true
same_text_self [] = refl
same_text_self (a ∷ rest) = ground (arith, same_text_self rest)

pub count-append :
    (id : List ℕ) (xs ys : List InstrumentKey) → count id (xs ++ ys) ≡ count id xs + count id ys
unfolding count
count-append id [] ys = omega arith
count-append id (k ∷ xs) ys = ground (arith, count-append id xs ys)

-- At most one of two different identifiers is that of an instrument.
same_text-two :
    (a t id : List ℕ) → same_text a t ≡ false → same_text a id ≡ true → same_text t id ≡ false
same_text-two a t id e h = elim (Bool-cases (same_text t id)) [
  | inl u ↦ absurd (
      true-false (
        sym (same_text_self a)
        ∙ subst (λ x. same_text a x ≡ false) (same_text-equal t id u ∙ sym (same_text-equal a id h))
            e))
  | inr u ↦ u
]
  where
    true-false : true ≡ false → ⊥
    true-false c = cc

count-erase_first :
    (id t : List ℕ) (held : List InstrumentKey)
    → count id (erase_first t held) ≡ (if same_text t id then count id held - 1 else count id held)
unfolding count erase_first
count-erase_first id t [] = ground arith
count-erase_first id t (k ∷ held) = elim (Bool-cases (same_text (text k.instrument_id) t)) [
  | inl e ↦
      let same = same_text-equal (text k.instrument_id) t e in
      ground (arith, e, same, ap (λ x. same_text x id) same)
  | inr e ↦
      ground (arith, e, count-erase_first id t held, same_text-two (text k.instrument_id) t id e)
]

pub count-erase_each :
    (id : List ℕ) (keys held : List InstrumentKey)
    → count id (erase_each keys held) ≡ count id held - count id keys
unfolding count erase_each
count-erase_each id [] held = omega arith
count-erase_each id (k ∷ keys) held = ground (
  arith,
  count-erase_each id keys (erase_first (text k.instrument_id) held),
  count-erase_first id (text k.instrument_id) held,
)

-- Whether a call reaches the client, and whether the client takes it.
abbrev pub is_asking : BinanceData → List InstrumentKey → Bool
is_asking s keys = not (is_empty keys) && (s.is_connected && (s.enable_kline || s.enable_depth))

abbrev pub accepts : BinanceData → ℤ → List InstrumentKey → Bool
accepts s result keys = is_asking s keys && not (ltb_ℤ result (pos 0))

is_empty-append : (xs ys : List (List ℕ)) → is_empty xs ≡ false → is_empty (xs ++ ys) ≡ false
is_empty-append [] ys h = ground arith
is_empty-append (x ∷ xs) ys h = refl

is_empty-streams_before :
    (s : BinanceData) (symbol : List ℕ) (others : List (List ℕ))
    → is_empty (streams_before s symbol others)
      ≡ (not (s.enable_kline || s.enable_depth) && is_empty others)
unfolding streams_before
is_empty-streams_before s symbol others = ground arith

is_empty-collect :
    (s : BinanceData) (keys : List InstrumentKey) (symbols streams : List (List ℕ))
    → is_empty streams ≡ false
    → is_empty (collect s keys symbols streams).1 ≡ false
unfolding collect
is_empty-collect s [] symbols streams h = h
is_empty-collect s (k ∷ keys) symbols streams h =
    let symbol = symbol_of k in
    let more = streams ++ streams_before s symbol [] in
    both_branches (λ p. is_empty p.1 ≡ false) (is_among symbol symbols)
      {u = collect s keys symbols streams} {v = collect s keys (symbols ++ (symbol ∷ [])) more}
      (is_empty-collect s keys symbols streams h)
      (is_empty-collect s keys (symbols ++ (symbol ∷ [])) more (is_empty-append streams _ h))

no_streams :
    (s : BinanceData) (symbol : List ℕ)
    → s.enable_kline || s.enable_depth ≡ false
    → streams_before s symbol [] ≡ []
unfolding streams_before
no_streams s symbol h = ground arith

collect-off :
    (s : BinanceData) (keys : List InstrumentKey) (symbols : List (List ℕ))
    → s.enable_kline || s.enable_depth ≡ false
    → (collect s keys symbols []).1 ≡ []
unfolding collect
collect-off s [] symbols h = refl
collect-off s (k ∷ keys) symbols h =
    let symbol = symbol_of k in
    both_branches (λ p. p.1 ≡ []) (is_among symbol symbols) {u = collect s keys symbols []}
      {v = collect s keys (symbols ++ (symbol ∷ [])) ([] ++ streams_before s symbol [])}
      (collect-off s keys symbols h)
      (subst (λ x. (collect s keys (symbols ++ (symbol ∷ [])) x).1 ≡ [])
        (sym (no_streams s symbol h)) (collect-off s keys (symbols ++ (symbol ∷ [])) h))

-- The first symbol is new, so that only the switches matter.
is_empty-collected :
    (s : BinanceData) (k : InstrumentKey) (keys : List InstrumentKey)
    → is_empty (collect s (k ∷ keys) [] []).1 ≡ not (s.enable_kline || s.enable_depth)
unfolding collect is_among
is_empty-collected s k keys = elim (Bool-cases (s.enable_kline || s.enable_depth)) [
  | inl e ↦
      is_empty-collect s keys _ _
        (is_empty-streams_before s (symbol_of k) [] ∙ ap (λ b. not b && true) e)
      ∙ sym (ap not e)
  | inr e ↦ ap is_empty (collect-off s (k ∷ keys) [] e) ∙ sym (ap not e)
]

streams_of-off :
    (s : BinanceData) (symbols : List (List ℕ))
    → s.enable_kline || s.enable_depth ≡ false
    → streams_of s symbols ≡ []
unfolding streams_of
streams_of-off s [] h = refl
streams_of-off s (symbol ∷ symbols) h =
    ap (streams_before s symbol) (streams_of-off s symbols h) ∙ no_streams s symbol h

is_empty-streams_of :
    (s : BinanceData) (symbol : List ℕ) (symbols : List (List ℕ))
    → is_empty (streams_of s (symbol ∷ symbols)) ≡ not (s.enable_kline || s.enable_depth)
unfolding streams_of
is_empty-streams_of s symbol symbols = elim (Bool-cases (s.enable_kline || s.enable_depth)) [
  | inl e ↦
      is_empty-streams_before s symbol (streams_of s symbols)
      ∙ ap (λ b. not b && is_empty (streams_of s symbols)) e
      ∙ sym (ap not e)
  | inr e ↦ ap is_empty (streams_of-off s (symbol ∷ symbols) e) ∙ sym (ap not e)
]

-- What both calls leave of the object, with the subscriptions `held`.
pub record Follows (s after : BinanceData) (held : List InstrumentKey) : Type 0 where
  pub connected : after.is_connected ≡ s.is_connected
  pub kline : after.enable_kline ≡ s.enable_kline
  pub depth : after.enable_depth ≡ s.enable_depth
  pub holds : after.subscribed_instruments ≡ held

-- The guards that both calls have, before they end in `asked` or `done`.
unfoldable pub Guarded : BinanceData → Bool → List InstrumentKey → BinanceData × Bool → Type 0
Guarded s accepted held p =
    (p.1 ≡ accepted) × Follows s p.0 (if accepted then held else s.subscribed_instruments)

unchanged :
    (s after : BinanceData) {held : List InstrumentKey}
    → after.is_connected ≡ s.is_connected
    → after.enable_kline ≡ s.enable_kline
    → after.enable_depth ≡ s.enable_depth
    → after.subscribed_instruments ≡ held
    → Follows s after held
unchanged s after a b c d = record { connected = a; kline = b; depth = c; holds = d }

not-not : (b : Bool) → not (not b) ≡ b
not-not b = ground arith

same : (s : BinanceData) → Follows s s s.subscribed_instruments
same s = record { connected = refl; kline = refl; depth = refl; holds = refl }

guards :
    (s asked done : BinanceData) (empty connected off refused : Bool) (held : List InstrumentKey)
    → Follows s asked s.subscribed_instruments
    → Follows s done held
    → Guarded s (not empty && (connected && not off) && not refused) held (
        if empty
        then (s, false)
        else if not connected
        then (s, false)
        else if off
        then (s, false)
        else if refused
        then (asked, false)
        else (done, true))
unfolding Guarded
guards s asked done true connected off refused held a d = (refl, same s)
guards s asked done false false off refused held a d = (refl, same s)
guards s asked done false true true refused held a d = (refl, same s)
guards s asked done false true false true held a d = (refl, a)
guards s asked done false true false false held a d = (refl, d)

-- Both calls return whether they were accepted, and change the subscriptions just then.
pub subscribe-Guarded :
    (s : BinanceData) (result : ℤ) (keys : List InstrumentKey)
    → Guarded s (accepts s result keys) (s.subscribed_instruments ++ keys) (subscribe result keys s)
unfolding subscribe Guarded send update_streams_uri
subscribe-Guarded s result [] = (refl, same s)
subscribe-Guarded s result (k ∷ keys) =
    let (symbols, streams) = collect s (k ∷ keys) [] [] in
    let asked = send subscribe_method streams s in
    let updated = update_streams_uri symbols asked in
    let held = s.subscribed_instruments ++ (k ∷ keys) in
    subst
      (λ b.
        Guarded s (true && (s.is_connected && b) && not (ltb_ℤ result (pos 0))) held
          (subscribe result (k ∷ keys) s))
      (ap not (is_empty-collected s k keys) ∙ not-not (s.enable_kline || s.enable_depth))
      (guards s asked (record updated { subscribed_instruments = held }) false s.is_connected
        (is_empty streams) (ltb_ℤ result (pos 0)) held (unchanged s asked refl refl refl refl)
        (unchanged s (record updated { subscribed_instruments = held }) refl refl refl refl))

pub unsubscribe-Guarded :
    (s : BinanceData) (result : ℤ) (keys : List InstrumentKey)
    → Guarded s
        (accepts s result keys)
        (erase_each keys s.subscribed_instruments)
        (unsubscribe result keys s)
unfolding unsubscribe Guarded send update_streams_uri_from_subscribed update_streams_uri
    set_default_streams
unsubscribe-Guarded s result [] = (refl, same s)
unsubscribe-Guarded s result (k ∷ keys) =
    let streams = streams_of s (map symbol_of (k ∷ keys)) in
    let asked = send unsubscribe_method streams s in
    let held = erase_each (k ∷ keys) s.subscribed_instruments in
    let left = record asked { subscribed_instruments = held } in
    let done =
      if not (is_empty held)
      then update_streams_uri_from_subscribed left
      else set_default_streams left in
    subst
      (λ b.
        Guarded s (true && (s.is_connected && b) && not (ltb_ℤ result (pos 0))) held
          (unsubscribe result (k ∷ keys) s))
      (ap not (is_empty-streams_of s (symbol_of k) (map symbol_of keys))
        ∙ not-not (s.enable_kline || s.enable_depth))
      (guards s asked done false s.is_connected (is_empty streams) (ltb_ℤ result (pos 0)) held
        (unchanged s asked refl refl refl refl)
        (both_branches (λ after. Follows s after held) (not (is_empty held))
          {u = update_streams_uri_from_subscribed left} {v = set_default_streams left}
          (unchanged s (update_streams_uri_from_subscribed left) refl refl refl refl)
          (unchanged s (set_default_streams left) refl refl refl refl)))
