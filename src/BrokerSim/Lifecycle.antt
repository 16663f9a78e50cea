-- ===== src/BrokerSim/Lifecycle.antt =====
-- Orders of the BrokerSim over time: which operations keep active_orders_ filed by id, and what becomes
-- of an order that is done.
use btrader.Prelude.{
  subst, ℕ, ◌≡◌, refl, ◌∙◌, ap, Bool, true, false, ◌&&◌, some, ◌∷◌, [], List, ◌==◌, ==_iff,
  if◌then◌else◌, both_branches, Bool-cases, Option-cases, inl, inr,
}
use btrader.Double.{Double}
use btrader.Types.Enums.{OrderStatus, is_buy}
use btrader.Types.{Order, OrderInput, OrderCancel, order_from_input, assign_order}
use btrader.BrokerSim.{BrokerSim, zero_order, cancellable, cancel_order, insert_order, add_order}
use btrader.BrokerSim.Cancel.{find_order, cancel_order-answers, cancelled}
use btrader.BrokerSim.Matching.{
  Market, is_done, process_order, process_orders, process_order_matching, keys_of,
}
use btrader.BrokerSim.Keyed.{
  IsKeyed, OwnId, Touches, Touches-IsKeyed, write_order-Touches, process_order-Touches,
  process_orders-IsKeyed,
}

module _ {ℓ} {D : Type ℓ} ⦃d : Double D⦄ where
  process_order-done_own :
      (m : Market D) (key : ℕ) (s : BrokerSim D) (o : Order D)
      → find_order key s ≡ some o
      → is_done o.status ≡ true
      → find_order key (process_order m key s) ≡ some o
  unfolding process_order
  process_order-done_own m key s o e c = rw (process_order, e, c) e

  process_order-other :
      (m : Market D) (key k : ℕ) (s : BrokerSim D)
      → IsKeyed s
      → (key == k) ≡ false
      → find_order k (process_order m key s) ≡ find_order k s
  unfolding Touches
  process_order-other m key k s h f =
      let (x, i, g) = process_order-Touches m key s h in
      g k ∙ ap (λ b. if b then x else find_order k s) f

  -- An order that is filled, cancelled or failed is passed over.
  process_order-done :
      (m : Market D) (key k : ℕ) (s : BrokerSim D) (o : Order D)
      → IsKeyed s
      → find_order k s ≡ some o
      → is_done o.status ≡ true
      → find_order k (process_order m key s) ≡ some o
  process_order-done m key k s o h e c = elim (Bool-cases (key == k)) [
    | inl f ↦
        let same = (==_iff key k).0 f in
        subst (λ j. find_order j (process_order m key s) ≡ some o) same
          (process_order-done_own m key s o (ap (λ j. find_order j s) same ∙ e) c)
    | inr f ↦ process_order-other m key k s h f ∙ e
  ]

  process_orders-done :
      (m : Market D) (ks : List ℕ) (k : ℕ) (s : BrokerSim D) (o : Order D)
      → IsKeyed s
      → find_order k s ≡ some o
      → is_done o.status ≡ true
      → find_order k (process_orders m ks s) ≡ some o
  unfolding process_orders
  process_orders-done m [] k s o h e c = e
  process_orders-done m (j ∷ ks) k s o h e c =
      process_orders-done m ks k (process_order m j s) o
        (Touches-IsKeyed j s (process_order m j s) (process_order-Touches m j s h) h)
        (process_order-done m j k s o h e c) c

  -- One call of process_order_matching for each market that the thread or the sync signal meets.
  unfoldable pub match_all : List (Market D) → BrokerSim D → BrokerSim D
  match_all [] s = s
  match_all (m ∷ ms) s = match_all ms (process_order_matching m s)

  pub process_order_matching-IsKeyed :
      (m : Market D) (s : BrokerSim D) → IsKeyed s → IsKeyed (process_order_matching m s)
  unfolding process_order_matching
  process_order_matching-IsKeyed m s h = process_orders-IsKeyed m (keys_of s.active_orders) s h

  -- Where orders are filed by id, an order that is filled, cancelled or failed stays as it is and
  -- where it is, through any number of calls of process_order_matching, whatever the markets.
  pub match_all-done :
      (ms : List (Market D)) (k : ℕ) (s : BrokerSim D) (o : Order D)
      → IsKeyed s
      → find_order k s ≡ some o
      → is_done o.status ≡ true
      → find_order k (match_all ms s) ≡ some o
  unfolding match_all process_order_matching
  match_all-done [] k s o h e c = e
  match_all-done (m ∷ ms) k s o h e c =
      match_all-done ms k (process_order_matching m s) o (process_order_matching-IsKeyed m s h)
        (process_orders-done m (keys_of s.active_orders) k s o h e c) c

  cancelled-OwnId :
      (now key : ℕ) (s : BrokerSim D) → IsKeyed s → OwnId key (cancelled now (find_order key s))
  unfolding IsKeyed
  cancelled-OwnId now key s h = elim (Option-cases (find_order key s)) [
    | inl e ↦ rw e tt
    | inr (o, e) ↦ rw e (both_branches (OwnId key) (cancellable o.status) (h key o e) (h key o e))
  ]

  cancel_order-IsKeyed :
      (now : ℕ) (input : OrderCancel D) (s : BrokerSim D)
      → IsKeyed s
      → IsKeyed (cancel_order now input s).0
  unfolding Touches
  cancel_order-IsKeyed now input s h =
      let key = input.target_order_id in
      let (_, _, slots, _, _) = cancel_order-answers now input s in
      Touches-IsKeyed key s (cancel_order now input s).0
        (cancelled now (find_order key s), cancelled-OwnId now key s h, slots) h

  add_order-IsKeyed : (o : Order D) (s : BrokerSim D) → IsKeyed s → IsKeyed (add_order o s)
  unfolding add_order assign_order
  add_order-IsKeyed o s h = elim (Option-cases (find_order o.order_id s)) [
    | inl e ↦
        rw (add_order, e)
          (Touches-IsKeyed o.order_id s _
            (write_order-Touches o.order_id (assign_order zero_order o) s refl) h)
    | inr (old, e) ↦
        rw (add_order, e)
          (Touches-IsKeyed o.order_id s _
            (write_order-Touches o.order_id (assign_order old o) s refl) h)
  ]

  -- Where orders are filed by id, inserting, cancelling and matching keep them so, whether they
  -- succeed or not.
  pub operations-IsKeyed :
      (s : BrokerSim D)
      → IsKeyed s
      → ((input : OrderInput D) → IsKeyed (insert_order input s).0)
        × ((now : ℕ) (input : OrderCancel D) → IsKeyed (cancel_order now input s).0)
        × ((m : Market D) → IsKeyed (process_order_matching m s))
  unfolding insert_order
  operations-IsKeyed s h = (
    λ input.
        let order = record (order_from_input input zero_order) {
          status = OrderStatus.submitted;
          insert_time = input.insert_time;
          update_time = input.insert_time;
        } in
        both_branches (λ (r : BrokerSim D × Bool). IsKeyed r.0)
          (is_buy input.side && d.lt s.asset.avail (d.mul input.limit_price input.volume))
          {u = (s, false)} {v = (add_order order s, true)} h (add_order-IsKeyed order s h),
    λ now input. cancel_order-IsKeyed now input s h,
    λ m. process_order_matching-IsKeyed m s h,
  )
