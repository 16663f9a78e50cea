-- ===== src/BrokerSim/Keyed.antt =====
-- The loop of BrokerSim::process_order_matching over active_orders_: the map files each order under
-- its own id, and a round for one order leaves the others alone.
use btrader.Prelude.{
  ℕ, ◌≡◌, refl, sym, ◌∙◌, ap, ◌&&◌, Option, none, some, ◌∷◌, [], List, arith, ◌==◌, ==_iff,
  if◌then◌else◌, both_branches, Bool-cases, Option-cases, inl, inr,
}
use btrader.Prelude.Dict.{erase, find-insert, find-insert_self, find-erase}
use btrader.Double.{Double}
use btrader.Types.Enums.{OrderStatus, is_buy}
use btrader.Types.{Order, Trade}
use btrader.BrokerSim.{
  BrokerSim, notify_response, update_order_status, update_asset, update_position,
}
use btrader.BrokerSim.Cancel.{find_order, find-update_order_status}
use btrader.BrokerSim.Matching.{
  Market, is_done, is_gone, is_submitted, build_price_levels, match_levels, execute_summary_trade,
  generate_summary_trade, no_depth_price, empty_fill, is_none, handle_no_depth_execution,
  match_order_with_market_data, process_order, process_orders, reduce_order, write_order,
}

module _ {ℓ} {D : Type ℓ} ⦃d : Double D⦄ where
  -- Each order stands under its own id.
  unfoldable pub IsKeyed : BrokerSim D → Type ℓ
  IsKeyed s = (k : ℕ) (o : Order D) → find_order k s ≡ some o → o.order_id ≡ k

  abbrev pub OwnId : ℕ → Option (Order D) → Type 0
  OwnId key none = Unit
  OwnId key (some o) = o.order_id ≡ key

  -- From s to t the entry of `key` changed, to one that is filed rightly, and no other entry.
  unfoldable pub Touches : ℕ → BrokerSim D → BrokerSim D → Type ℓ
  Touches key s t =
      (x : Option (Order D)) × OwnId key x
      × ((k : ℕ) → find_order k t ≡ (if key == k then x else find_order k s))

  same-Touches :
      (key : ℕ) (s : BrokerSim D) (x : Option (Order D))
      → find_order key s ≡ x
      → OwnId key x
      → Touches key s s
  unfolding Touches
  same-Touches key s x e h = (x, h, λ k. ground (arith, e))

  pub write_order-Touches :
      (key : ℕ) (o : Order D) (s : BrokerSim D)
      → o.order_id ≡ key
      → Touches key s (write_order key o s)
  unfolding Touches
  write_order-Touches key o s i = (some o, i, λ k. find-insert key k o s.active_orders)

  then-Touches :
      (key : ℕ) (r s t : BrokerSim D) → Touches key r s → Touches key s t → Touches key r t
  unfolding Touches
  then-Touches key r s t (x, _, f) (y, i, g) = (y, i, λ k. ground (arith, f k, g k))

  update_order_status-Touches :
      (now id key : ℕ) (status : OrderStatus) (s : BrokerSim D) (o : Order D)
      → find_order key s ≡ some o
      → o.order_id ≡ key
      → id ≡ key
      → Touches key s (update_order_status now id status s)
  unfolding Touches
  update_order_status-Touches now id key status s o e i j = (
    some (record o { status = status; update_time = now }),
    i,
    λ k. find-update_order_status now id k status s ∙ rw (j, e) refl,
  )

  execute_summary_trade-Touches :
      (m : Market D) (key : ℕ) (o : Order D) (t : Trade D) (s : BrokerSim D)
      → o.order_id ≡ key
      → Touches key s (execute_summary_trade m key o t s)
  unfolding execute_summary_trade notify_response update_asset update_position reduce_order Touches
  execute_summary_trade-Touches m key o t s i =
      let left = reduce_order t o in
      let written = write_order key left s in
      then-Touches key s written (execute_summary_trade m key o t s)
        (write_order-Touches key left s i)
        (update_order_status-Touches m.now left.order_id key _ written left
          (find-insert_self key left s.active_orders) i i)

  handle_no_depth_execution-Touches :
      (m : Market D) (key : ℕ) (o : Order D) (s : BrokerSim D)
      → find_order key s ≡ some o
      → o.order_id ≡ key
      → Touches key s (handle_no_depth_execution m key o s)
  unfolding handle_no_depth_execution
  handle_no_depth_execution-Touches m key o s e i =
      let price = no_depth_price m o s in
      both_branches (Touches key s)
        (is_buy o.side && d.lt s.asset.avail (d.mul price o.volume_left))
        (update_order_status-Touches m.now o.order_id key OrderStatus.error s o e i i)
        (execute_summary_trade-Touches m key o
          (generate_summary_trade s m.now o price o.volume_left) s i)

  match_order_with_market_data-Touches :
      (m : Market D) (key : ℕ) (o : Order D) (s : BrokerSim D)
      → find_order key s ≡ some o
      → o.order_id ≡ key
      → Touches key s (match_order_with_market_data m key o s)
  unfolding match_order_with_market_data
  match_order_with_market_data-Touches m key o s e i =
      let same = same-Touches key s (some o) e i in
      let depth = m.depth o.instrument_id in
      let levels = build_price_levels depth o.side in
      let fill = match_levels s o levels (empty_fill o) in
      let waiting = record o { status = OrderStatus.pending; update_time = m.now } in
      both_branches (Touches key s) (depth.real_depth_size == 0)
        (handle_no_depth_execution-Touches m key o s e i)
        (both_branches (Touches key s) (is_none levels)
          (both_branches (Touches key s) (is_submitted o.status)
            (write_order-Touches key waiting s i) same)
          (both_branches (Touches key s) (d.lt d.zero fill.total)
            (execute_summary_trade-Touches m key o
              (generate_summary_trade s m.now o (d.div fill.weighted fill.total) fill.total) s i)
            same))

  erase-Touches :
      (key : ℕ) (s : BrokerSim D)
      → Touches key s (record s { active_orders = erase key s.active_orders })
  unfolding Touches
  erase-Touches key s = (none, tt, λ k. find-erase key k s.active_orders)

  pub process_order-Touches :
      (m : Market D) (key : ℕ) (s : BrokerSim D) → IsKeyed s → Touches key s (process_order m key s)
  unfolding process_order IsKeyed
  process_order-Touches m key s h = elim (Option-cases (find_order key s)) [
    | inl e ↦ rw (process_order, e) (same-Touches key s none e tt)
    | inr (o, e) ↦
        let t = match_order_with_market_data m key o s in
        let same = same-Touches key s (some o) e (h key o e) in
        let matched = match_order_with_market_data-Touches m key o s e (h key o e) in
        rw (process_order, e)
          (both_branches (Touches key s) (is_done o.status) same
            (elim (Option-cases (find_order key t)) [
              | inl f ↦ rw f matched
              | inr (q, f) ↦ rw f (
                  both_branches (Touches key s) (is_gone q.status)
                    (then-Touches key s t _ matched (erase-Touches key t)) matched)
            ]))
  ]

  owned :
      (key k : ℕ) (x : Option (Order D)) (o : Order D)
      → OwnId key x
      → key ≡ k
      → x ≡ some o
      → o.order_id ≡ k
  owned key k none o i c e = cc
  owned key k (some q) o i c e = cc

  pub Touches-IsKeyed : (key : ℕ) (s t : BrokerSim D) → Touches key s t → IsKeyed s → IsKeyed t
  unfolding Touches IsKeyed
  Touches-IsKeyed key s t (x, i, f) h k o e = elim (Bool-cases (key == k)) [
    | inl c ↦
        owned key k x o i ((==_iff key k).0 c)
          (sym (ap (λ b. if b then x else find_order k s) c) ∙ sym (f k) ∙ e)
    | inr c ↦ h k o (sym (f k ∙ ap (λ b. if b then x else find_order k s) c) ∙ e)
  ]

  pub process_orders-IsKeyed :
      (m : Market D) (ks : List ℕ) (s : BrokerSim D) → IsKeyed s → IsKeyed (process_orders m ks s)
  unfolding process_orders
  process_orders-IsKeyed m [] s h = h
  process_orders-IsKeyed m (k ∷ ks) s h =
      process_orders-IsKeyed m ks (process_order m k s)
        (Touches-IsKeyed k s (process_order m k s) (process_order-Touches m k s h) h)
