-- ===== src/Strategy/Entries.antt =====
-- When ConsecutiveBarStrategy opens a position.
use btrader.Prelude.{
  ◌≡◌, refl, ap, ◌∙◌, Bool, true, false, not, ◌&&◌, Option, none, some, List, [], ◌∷◌, leb,
  if◌then◌else◌, arith,
}
use btrader.Prelude.Int.{ℤ}
use btrader.Double.{Double, Signed, IsIeee}
use btrader.Types.{Bar, OrderInput}
use btrader.Strategy.{Strategy, push_bounded, max_bar_history}
use btrader.Strategy.Signals.{
  update_bar_history, is_up, is_down, with_counts, counted, analyze_history,
  analyze_consecutive_bars, should_buy, should_sell,
}
use btrader.Strategy.Orders.{execute_trade}
use btrader.Strategy.Events.{take_bar, trade_at, may_trade, on_bar}
use btrader.Strategy.Exits.{core, take_bar-core}

and_false : (a b : Bool) → (a ≡ true → b ≡ false) → (a && b) ≡ false
and_false true b h = h refl
and_false false b h = refl

-- A guard that two tests share.
shared_guard {ℓ} :
    {A : Type ℓ} (x y guard : Bool) (u v w : A)
    → (if x && guard then u else if y && guard then v else w)
      ≡ (if guard then (if x then u else if y then v else w) else w)
shared_guard true y true u v w = refl
shared_guard true true false u v w = refl
shared_guard true false false u v w = refl
shared_guard false true true u v w = refl
shared_guard false true false u v w = refl
shared_guard false false true u v w = refl
shared_guard false false false u v w = refl

module _ {ℓ} {D : Type ℓ} ⦃d : Double D⦄ where
  open d use {lt, le}

  -- The two newest bars of a history both rise, or both fall.
  unfoldable pub both_up : List (Bar D) → Bool
  both_up (current ∷ previous ∷ bars) = is_up current && is_up previous
  both_up _ = false

  unfoldable pub both_down : List (Bar D) → Bool
  both_down (current ∷ previous ∷ bars) = is_down current && is_down previous
  both_down _ = false

  counted-up :
      (up previous_up down previous_down : Bool) (s : Strategy D)
      → leb 2 (counted up previous_up down previous_down s).consecutive_up_bars
        ≡ (up && previous_up)
  counted-up true true c e s = refl
  counted-up true false c e s = refl
  counted-up false b true e s = refl
  counted-up false b false e s = refl

  counted-down :
      (up previous_up down previous_down : Bool) (s : Strategy D)
      → (up && down) ≡ false
      → leb 2 (counted up previous_up down previous_down s).consecutive_down_bars
        ≡ (down && previous_down)
  counted-down true b true e s h = absurd (ground (arith, h))
  counted-down true b false e s h = refl
  counted-down false b true true s h = refl
  counted-down false b true false s h = refl
  counted-down false b false e s h = refl

  analyze_history-up :
      (bars : List (Bar D)) (s : Strategy D)
      → leb 2 (analyze_history bars s).consecutive_up_bars ≡ both_up bars
  unfolding both_up
  analyze_history-up [] s = refl
  analyze_history-up (bar ∷ []) s = refl
  analyze_history-up (current ∷ previous ∷ bars) s = counted-up _ _ _ _ s

  counted-same :
      (up previous_up down previous_down : Bool) (s : Strategy D)
      → with_counts 0 0 (counted up previous_up down previous_down s) ≡ with_counts 0 0 s
  counted-same true b c e s = refl
  counted-same false b true e s = refl
  counted-same false b false e s = refl

  -- Only the counts change.
  pub analyze_history-same :
      (bars : List (Bar D)) (s : Strategy D)
      → with_counts 0 0 (analyze_history bars s) ≡ with_counts 0 0 s
  analyze_history-same [] s = refl
  analyze_history-same (bar ∷ []) s = refl
  analyze_history-same (current ∷ previous ∷ bars) s = counted-same _ _ _ _ s

  -- No position is open, and the drawdown is within its limit.
  unfoldable pub may_open : Strategy D → Bool
  may_open s = not s.position_opened && le s.max_drawdown s.config.max_drawdown

  -- The side that the two newest bars ask for: true to buy.
  unfoldable pub signal : List (Bar D) → Option Bool
  signal bars = if both_up bars then some true else if both_down bars then some false else none

module _ {ℓ} {D : Type ℓ} ⦃d : Double D⦄ ⦃law : IsIeee D⦄ where
  not_both : (bar : Bar D) → (is_up bar && is_down bar) ≡ false
  not_both bar = and_false (is_up bar) (is_down bar) λ h. law.lt_asymmetric _ _ h

  analyze_history-down :
      (bars : List (Bar D)) (s : Strategy D)
      → leb 2 (analyze_history bars s).consecutive_down_bars ≡ both_down bars
  unfolding both_down
  analyze_history-down [] s = refl
  analyze_history-down (bar ∷ []) s = refl
  analyze_history-down (current ∷ previous ∷ bars) s = counted-down _ _ _ _ s (not_both current)

module _ {ℓ} {D : Type ℓ} ⦃d : Double D⦄ ⦃sign : Signed D⦄ (blank : OrderInput D) where
  -- The order for a signal, if there is one, and its time.
  unfoldable pub follow : Option Bool → ℤ → D → Strategy D → Strategy D
  follow none now price s = s
  follow (some is_buy) now price s = record (execute_trade blank price is_buy s) {
    last_trade_time = now;
  }

  abbrev traded : Bool → ℤ → D → Strategy D → Strategy D
  traded is_buy now price t = record (execute_trade blank price is_buy t) { last_trade_time = now }

  follow-if :
      (up down : Bool) (now : ℤ) (price : D) (t : Strategy D)
      → (if up then traded true now price t else if down then traded false now price t else t)
        ≡ follow (if up then some true else if down then some false else none) now price t
  unfolding follow
  follow-if true down now price t = refl
  follow-if false true now price t = refl
  follow-if false false now price t = refl

  trade_at-follow :
      (up down : Bool) (now : ℤ) (price : D) (t : Strategy D)
      → leb 2 t.consecutive_up_bars ≡ up
      → leb 2 t.consecutive_down_bars ≡ down
      → trade_at blank now price t ≡ (
          if may_open t
          then follow (if up then some true else if down then some false else none) now price t
          else t)
  unfolding trade_at should_buy should_sell may_open follow
  trade_at-follow up down now price t e f =
      let buys = traded true now price t in
      let sells = traded false now price t in
      let guard = may_open t in
      ap
        (λ x.
          if x && guard then buys else if leb 2 t.consecutive_down_bars && guard then sells else t)
        e
      ∙ ap (λ y. if up && guard then buys else if y && guard then sells else t) f
      ∙ shared_guard up down guard buys sells t
      ∙ ap (λ w. if guard then w else t) (follow-if up down now price t)

module _ {ℓ} {D : Type ℓ} ⦃d : Double D⦄ ⦃sign : Signed D⦄ ⦃law : IsIeee D⦄
    (blank : OrderInput D) where
  take_bar-up :
      (bar : Bar D) (s : Strategy D)
      → leb 2 (take_bar blank bar s).consecutive_up_bars
        ≡ both_up (push_bounded max_bar_history bar s.bar_history)
  unfolding core analyze_consecutive_bars update_bar_history
  take_bar-up bar s =
      ap (λ (t : Strategy D). leb 2 t.consecutive_up_bars) (take_bar-core blank bar s)
      ∙ analyze_history-up (push_bounded max_bar_history bar s.bar_history)
          (update_bar_history bar s)

  take_bar-down :
      (bar : Bar D) (s : Strategy D)
      → leb 2 (take_bar blank bar s).consecutive_down_bars
        ≡ both_down (push_bounded max_bar_history bar s.bar_history)
  unfolding core analyze_consecutive_bars update_bar_history
  take_bar-down bar s =
      ap (λ (t : Strategy D). leb 2 t.consecutive_down_bars) (take_bar-core blank bar s)
      ∙ analyze_history-down (push_bounded max_bar_history bar s.bar_history)
          (update_bar_history bar s)

  take_bar-may_open : (bar : Bar D) (s : Strategy D) → may_open (take_bar blank bar s) ≡ may_open s
  unfolding core may_open analyze_consecutive_bars update_bar_history
  take_bar-may_open bar s =
      ap (λ (t : Strategy D). may_open t) (take_bar-core blank bar s)
      ∙ ap (λ (t : Strategy D). may_open t)
          (analyze_history-same (push_bounded max_bar_history bar s.bar_history)
            (update_bar_history bar s))

  -- For a machine whose doubles keep the IEEE laws: after the exits, on_bar trades where there are
  -- enough bars and the last trade is long enough ago, no position was open, and the drawdown is
  -- within its limit; it buys for two newest bars that rise, sells for two that fall, and sends
  -- nothing else.
  pub on_bar-signal :
      (now : ℤ) (bar : Bar D) (s : Strategy D)
      → on_bar blank now bar s ≡ (
          if may_trade now (take_bar blank bar s)
          then if may_open s
            then follow blank
                (signal (push_bounded max_bar_history bar s.bar_history))
                now
                bar.close
                (take_bar blank bar s)
            else take_bar blank bar s
          else take_bar blank bar s)
  unfolding on_bar signal
  on_bar-signal now bar s =
      let t = take_bar blank bar s in
      ap (λ v. if may_trade now t then v else t)
        (trade_at-follow blank _ _ now bar.close t (take_bar-up bar s) (take_bar-down bar s)
          ∙ ap
              (λ guard.
                if guard
                then follow blank (signal (push_bounded max_bar_history bar s.bar_history)) now
                    bar.close t
                else t)
              (take_bar-may_open bar s))
