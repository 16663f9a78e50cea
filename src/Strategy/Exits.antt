-- ===== src/Strategy/Exits.antt =====
-- The orders by which ConsecutiveBarStrategy leaves a position.
use mathlib.Core.List.{append_assoc, append-nil}
use btrader.Prelude.{
  ℕ, ◌+◌, ◌≡◌, refl, sym, ap, subst, ◌∙◌, true, false, ◌&&◌, List, [], ◌∷◌, ◌++◌, both_branches,
  branches_by, arith,
}
use btrader.Prelude.Int.{pos}
use btrader.Double.{Double, Signed}
use btrader.Types.Enums.{Side, Offset}
use btrader.Types.{Bar, OrderInput}
use btrader.Strategy.{Strategy, Action, insert_order}
use btrader.Strategy.Signals.{update_bar_history, analyze_consecutive_bars}
use btrader.Strategy.Events.{take_bar}
use btrader.Strategy.Orders.{
  send, send_order, close_order, close_position, check_stop_loss, check_take_profit,
  check_exit_conditions,
}

module _ {ℓ} {D : Type ℓ} where
  -- All of the strategy but what the sending of orders changes.
  unfoldable pub core : Strategy D → Strategy D
  core s = record s { last_trade_time = pos 0; next_order_id = 0; sent = [] }

  pub data Every (P : Action D → Type ℓ) : List (Action D) → Type ℓ where
    no_more : Every P []
    and_then :
        {a : Action D} {actions : List (Action D)} → P a → Every P actions → Every P (a ∷ actions)

  pub Every-append :
      {P : Action D → Type ℓ} {a b : List (Action D)} → Every P a → Every P b → Every P (a ++ b)
  Every-append no_more q = q
  Every-append (and_then h p) q = and_then h (Every-append p q)

  -- From s to t only calls of the executor were made, each of which P holds of, and new ids given out:
  -- with the core and the time of the last trade all other fields are as they were.
  pub record Sends (P : Action D → Type ℓ) (s t : Strategy D) : Type ℓ where
    pub same_core : core t ≡ core s
    pub same_time : t.last_trade_time ≡ s.last_trade_time
    pub actions : List (Action D)
    pub added : t.sent ≡ s.sent ++ actions
    pub each : Every P actions

  pub Sends-none : {P : Action D → Type ℓ} (s : Strategy D) → Sends P s s
  Sends-none s = record {
    same_core = refl;
    same_time = refl;
    actions = [];
    added = sym (append-nil s.sent);
    each = no_more;
  }

  pub Sends-trans :
      {P : Action D → Type ℓ} {r s t : Strategy D} → Sends P r s → Sends P s t → Sends P r t
  Sends-trans p q = record {
    same_core = q.same_core ∙ p.same_core;
    same_time = q.same_time ∙ p.same_time;
    actions = p.actions ++ q.actions;
    added =
        q.added ∙ ap (λ as_sent. as_sent ++ q.actions) p.added ∙ append_assoc _ p.actions q.actions;
    each = Every-append p.each q.each;
  }

  pub send-Sends :
      {P : Action D → Type ℓ} (a : Action D) (s : Strategy D) → P a → Sends P s (send a s)
  unfolding core
  send-Sends a s h = record {
    same_core = refl;
    same_time = refl;
    actions = a ∷ [];
    added = refl;
    each = and_then h no_more;
  }

  pub send_order-Sends :
      {P : Action D → Type ℓ} (order : ℕ → OrderInput D) (s : Strategy D)
      → P (insert_order s.institution s.account (order s.next_order_id))
      → Sends P s (send_order order s)
  unfolding core
  send_order-Sends order s h = record {
    same_core = refl;
    same_time = refl;
    actions = insert_order s.institution s.account (order s.next_order_id) ∷ [];
    added = refl;
    each = and_then h no_more;
  }

  pub same_position : (s t : Strategy D) → core t ≡ core s → t.current_position ≡ s.current_position
  unfolding core
  same_position s t e = ap (λ (r : Strategy D). r.current_position) e

module _ {ℓ} {D : Type ℓ} ⦃d : Double D⦄ ⦃sign : Signed D⦄ where
  open d use {zero, lt}
  open sign use {abs}

  -- An order that closes the whole position, against its side.
  pub data IsExit (position : D) : Action D → Type ℓ where
    sells :
        {institution account : List ℕ} {order : OrderInput D}
        → order.side ≡ Side.sell
        → order.offset ≡ Offset.close_position
        → order.volume ≡ abs position
        → lt zero position ≡ true
        → IsExit position (insert_order institution account order)
    buys :
        {institution account : List ℕ} {order : OrderInput D}
        → order.side ≡ Side.buy
        → order.offset ≡ Offset.close_position
        → order.volume ≡ abs position
        → lt position zero ≡ true
        → IsExit position (insert_order institution account order)

module _ {ℓ} {D : Type ℓ} ⦃d : Double D⦄ where
  -- What take_bar does before it looks at the exits.
  abbrev pub noted : Bar D → Strategy D → Strategy D
  noted bar s =
      let analyzed = analyze_consecutive_bars (update_bar_history bar s) in
      record analyzed { bar_count = analyzed.bar_count + 1 }

module _ {ℓ} {D : Type ℓ} ⦃d : Double D⦄ ⦃sign : Signed D⦄ (blank : OrderInput D) where
  open d use {zero, lt}

  close_position-sells :
      (price : D) (s : Strategy D)
      → lt zero s.current_position ≡ true
      → Sends (IsExit s.current_position) s (close_position blank price false s)
  unfolding close_position close_order
  close_position-sells price s h =
      both_branches (Sends (IsExit s.current_position) s) _ (Sends-none s)
        (send_order-Sends (close_order blank price false s) s (sells refl refl refl h))

  close_position-buys :
      (price : D) (s : Strategy D)
      → lt s.current_position zero ≡ true
      → Sends (IsExit s.current_position) s (close_position blank price true s)
  unfolding close_position close_order
  close_position-buys price s h =
      both_branches (Sends (IsExit s.current_position) s) _ (Sends-none s)
        (send_order-Sends (close_order blank price true s) s (buys refl refl refl h))

  check_stop_loss-Sends :
      (price : D) (s : Strategy D)
      → Sends (IsExit s.current_position) s (check_stop_loss blank price s)
  unfolding check_stop_loss
  check_stop_loss-Sends price s =
      branches_by (Sends (IsExit s.current_position) s) (lt zero s.current_position && _)
        (λ h. close_position-sells price s (ground (arith, h)))
        λ e.
          branches_by (Sends (IsExit s.current_position) s) (lt s.current_position zero && _)
            (λ h. close_position-buys price s (ground (arith, h))) λ f. Sends-none s

  check_take_profit-Sends :
      (price : D) (s : Strategy D)
      → Sends (IsExit s.current_position) s (check_take_profit blank price s)
  unfolding check_take_profit
  check_take_profit-Sends price s =
      branches_by (Sends (IsExit s.current_position) s) (lt zero s.current_position && _)
        (λ h. close_position-sells price s (ground (arith, h)))
        λ e.
          branches_by (Sends (IsExit s.current_position) s) (lt s.current_position zero && _)
            (λ h. close_position-buys price s (ground (arith, h))) λ f. Sends-none s

  -- The check of the exits changes nothing but the ids and what was sent, and each order that it sends
  -- is for the whole position, against its side, and marked as closing.
  pub check_exit_conditions-Sends :
      (price : D) (s : Strategy D)
      → Sends (IsExit s.current_position) s (check_exit_conditions blank price s)
  unfolding check_exit_conditions
  check_exit_conditions-Sends price s =
      let t = check_stop_loss blank price s in
      let first = check_stop_loss-Sends price s in
      both_branches (Sends (IsExit s.current_position) s) _ (Sends-none s) (
        Sends-trans first (
          subst (λ p. Sends (IsExit p) t (check_take_profit blank price t))
            (same_position s t first.same_core) (check_take_profit-Sends price t)))

  pub take_bar-core :
      (bar : Bar D) (s : Strategy D) → core (take_bar blank bar s) ≡ core (noted bar s)
  unfolding take_bar
  take_bar-core bar s = (check_exit_conditions-Sends bar.close (noted bar s)).same_core
