-- ===== src/BrokerSim/Fractions.antt =====
-- Orders of less than one unit in the BrokerSim: BrokerSim::execute_summary_trade takes the traded
-- volume off the order as an int64_t.
use btrader.Prelude.{
  ℕ, zero, suc, ◌+◌, ◌≡◌, refl, ◌∙◌, ap, false, some, [], ◌∷◌, arith, if◌then◌else◌, Option-cases,
  inl, inr, ◌++◌, length, length-append,
}
use btrader.Prelude.Int.{pos}
use btrader.Prelude.Dict.{find-insert_self}
use btrader.Double.{Double, IsIeee}
use btrader.Types.Enums.{OrderStatus, is_buy}
use btrader.Types.{Order, Trade}
use btrader.BrokerSim.{
  BrokerSim, traded, notify_response, update_order_status, update_asset, update_position,
}
use btrader.BrokerSim.Cancel.{find_order, find-update_order_status}
use btrader.BrokerSim.Matching.{
  Market, is_done, is_gone, write_order, reduce_order, generate_summary_trade,
  execute_summary_trade, no_depth_price, handle_no_depth_execution, match_order_with_market_data,
  process_order,
}

module _ {ℓ} {D : Type ℓ} ⦃d : Double D⦄ where
  -- An active order to sell, of a volume that int64_t makes 0, for an instrument with no depth.
  unfoldable pub IsFraction : Market D → ℕ → D → BrokerSim D → Type ℓ
  IsFraction m key volume s =
      (o : Order D) × (find_order key s ≡ some o)
      × (o.order_id ≡ key)
      × (is_done o.status ≡ false)
      × (is_buy o.side ≡ false)
      × (o.volume_left ≡ volume)
      × ((m.depth o.instrument_id).real_depth_size ≡ 0)

  -- The status after a trade.
  abbrev status_after : Order D → OrderStatus
  status_after left =
      if d.eq left.volume_left d.zero then OrderStatus.filled else OrderStatus.partial_filled_active

  find-update_order_status_own :
      (now id key : ℕ) (status : OrderStatus) (s : BrokerSim D) (o : Order D)
      → id ≡ key
      → find_order key s ≡ some o
      → find_order key (update_order_status now id status s)
        ≡ some (record o { status = status; update_time = now })
  find-update_order_status_own now id key status s o i e =
      find-update_order_status now id key status s ∙ rw (i, e) ground arith

  update_order_status-responses :
      (now id : ℕ) (status : OrderStatus) (s : BrokerSim D)
      → (update_order_status now id status s).responses ≡ s.responses
  unfolding update_order_status
  update_order_status-responses now id status s = elim (Option-cases (find_order id s)) [
    | inl e ↦ rw (update_order_status, e) refl
    | inr (o, e) ↦ rw (update_order_status, e) refl
  ]

  find-execute_summary_trade :
      (m : Market D) (key : ℕ) (o : Order D) (t : Trade D) (s : BrokerSim D)
      → o.order_id ≡ key
      → let left = reduce_order t o in
        find_order key (execute_summary_trade m key o t s)
        ≡ some (record left { status = status_after left; update_time = m.now })
  unfolding execute_summary_trade notify_response update_asset update_position reduce_order
  find-execute_summary_trade m key o t s i =
      let left = reduce_order t o in
      find-update_order_status_own m.now left.order_id key (status_after left)
        (write_order key left s) left i (find-insert_self key left s.active_orders)

  execute_summary_trade-responses :
      (m : Market D) (key : ℕ) (o : Order D) (t : Trade D) (s : BrokerSim D)
      → length (execute_summary_trade m key o t s).responses ≡ suc (length s.responses)
  unfolding execute_summary_trade notify_response update_asset update_position
  execute_summary_trade-responses m key o t s =
      let left = reduce_order t o in
      let marked =
        update_order_status-responses m.now left.order_id (status_after left)
          (write_order key left s) in
      ap (λ rs. length (rs ++ traded t ∷ [])) marked
      ∙ length-append s.responses (traded t ∷ [])
      ∙ omega arith

  fraction_matched :
      (m : Market D) (key : ℕ) (s : BrokerSim D) (o : Order D)
      → is_buy o.side ≡ false
      → (m.depth o.instrument_id).real_depth_size ≡ 0
      → match_order_with_market_data m key o s
        ≡ execute_summary_trade m key o
            (generate_summary_trade s m.now o (no_depth_price m o s) o.volume_left)
            s
  unfolding match_order_with_market_data handle_no_depth_execution
  fraction_matched m key s o b n =
      rw (match_order_with_market_data, n, handle_no_depth_execution, b) refl

  fraction_left :
      ⦃h : IsIeee D⦄ (o : Order D) (t : Trade D)
      → d.trunc t.volume ≡ pos 0
      → (reduce_order t o).volume_left ≡ o.volume_left
  unfolding reduce_order
  fraction_left ⦃h = h⦄ o t z = rw z (h.sub_zero o.volume_left)

  process_order-kept :
      (m : Market D) (key : ℕ) (s : BrokerSim D) (o q : Order D)
      → find_order key s ≡ some o
      → is_done o.status ≡ false
      → find_order key (match_order_with_market_data m key o s) ≡ some q
      → is_gone q.status ≡ false
      → process_order m key s ≡ match_order_with_market_data m key o s
  unfolding process_order
  process_order-kept m key s o q e c f g = rw (process_order, e, c, f, g) refl

  IsFraction-process_order :
      ⦃h : IsIeee D⦄ (m : Market D) (key : ℕ) (volume : D) (s : BrokerSim D)
      → d.trunc volume ≡ pos 0
      → d.eq volume d.zero ≡ false
      → IsFraction m key volume s
      → IsFraction m key volume (process_order m key s)
        × (length (process_order m key s).responses ≡ suc (length s.responses))
  unfolding IsFraction generate_summary_trade reduce_order
  IsFraction-process_order m key volume s z nz (o, e, i, c, b, v, n) =
      let trade = generate_summary_trade s m.now o (no_depth_price m o s) o.volume_left in
      let left = reduce_order trade o in
      let same : left.volume_left ≡ o.volume_left = fraction_left o trade (ap d.trunc v ∙ z) in
      let not_filled : d.eq left.volume_left d.zero ≡ false =
        ap (λ x. d.eq x d.zero) (same ∙ v) ∙ nz in
      let active : status_after left ≡ OrderStatus.partial_filled_active = rw not_filled refl in
      let matched = fraction_matched m key s o b n in
      let found = ap (find_order key) matched ∙ find-execute_summary_trade m key o trade s i in
      let kept = process_order-kept m key s o _ e c found (ap is_gone active) in
      (
        (
          record left { status = status_after left; update_time = m.now },
          ap (find_order key) kept ∙ found,
          i,
          ap is_done active,
          b,
          same ∙ v,
          n,
        ),
        ap (λ t. length t.responses) (kept ∙ matched)
            ∙ execute_summary_trade-responses m key o trade s,
      )

  -- `n` rounds of the loop for one order.
  unfoldable pub rounds : Market D → ℕ → ℕ → BrokerSim D → BrokerSim D
  rounds m key zero s = s
  rounds m key (suc n) s = rounds m key n (process_order m key s)

  -- Under IEEE arithmetic, for a volume that is not 0 but 0 as an int64_t: in each of n rounds the
  -- order is traded once, and after them it is still a fraction, active with that volume left.
  pub IsFraction-never_filled :
      ⦃h : IsIeee D⦄ (n : ℕ) (m : Market D) (key : ℕ) (volume : D) (s : BrokerSim D)
      → d.trunc volume ≡ pos 0
      → d.eq volume d.zero ≡ false
      → IsFraction m key volume s
      → IsFraction m key volume (rounds m key n s)
        × (length (rounds m key n s).responses ≡ n + length s.responses)
  unfolding rounds
  IsFraction-never_filled zero m key volume s z nz f = (f, omega arith)
  IsFraction-never_filled (suc n) m key volume s z nz f =
      let (after, sent) = IsFraction-process_order m key volume s z nz f in
      let (last, total) =
        IsFraction-never_filled n m key volume (process_order m key s) z nz after in
      (last, omega (arith, total, sent))
