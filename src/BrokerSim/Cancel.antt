-- ===== src/BrokerSim/Cancel.antt =====
-- Orders of the BrokerSim: what BrokerSim::insert_order and BrokerSim::cancel_order do to every entry
-- of active_orders_.
use btrader.Prelude.{
  ℕ, ◌≡◌, refl, Bool, false, Option, none, some, ◌∷◌, [], ◌++◌, arith, ◌==◌, if◌then◌else◌,
  Bool-cases, Option-cases, inl, inr,
}
use btrader.Prelude.Int.{ℤ, pos, negsuc}
use btrader.Prelude.Dict.{find, find-insert}
use btrader.Double.{Double}
use btrader.Types.Enums.{OrderStatus}
use btrader.Types.{Order, OrderCancel}
use btrader.BrokerSim.{
  BrokerSim, cancellable, notify_response, update_order_status, cancel_response, cancel_order,
}

module _ {ℓ} {D : Type ℓ} ⦃d : Double D⦄ where
  -- The error code of a cancellation: 0, -1 for an order that cannot be cancelled, -2 for no order.
  abbrev pub cancel_code : Option (Order D) → ℤ
  cancel_code none = negsuc 1
  cancel_code (some o) = if cancellable o.status then pos 0 else negsuc 0

  abbrev pub is_cancellable : Option (Order D) → Bool
  is_cancellable none = false
  is_cancellable (some o) = cancellable o.status

  abbrev pub cancelled : ℕ → Option (Order D) → Option (Order D)
  cancelled now none = none
  cancelled now (some o) =
      if cancellable o.status
      then some (record o { status = OrderStatus.cancelled; update_time = now })
      else some o

  abbrev pub find_order : ℕ → BrokerSim D → Option (Order D)
  find_order k s = find k s.active_orders

  pub find-update_order_status :
      (now id k : ℕ) (status : OrderStatus) (s : BrokerSim D)
      → find_order k (update_order_status now id status s) ≡ (
          if id == k
          then elim (find_order id s) [
            | none ↦ none
            | some o ↦ some (record o { status = status; update_time = now })
          ]
          else find_order k s)
  unfolding update_order_status
  find-update_order_status now id k status s = elim (Option-cases (find_order id s)) [
    | inl e ↦ rw (e, update_order_status) ground arith
    | inr (o, e) ↦ rw (e, update_order_status) (find-insert id k _ s.active_orders)
  ]

  -- A cancellation answers true exactly where the order is there and can be cancelled, sends one
  -- response, whose code tells the three cases apart, changes the order that it names and no
  -- other, and leaves the funds and the positions as they were.
  pub cancel_order-answers :
      (now : ℕ) (input : OrderCancel D) (s : BrokerSim D)
      → let (after, accepted) = cancel_order now input s in
        let target = find_order input.target_order_id s in
        (accepted ≡ is_cancellable target)
        × (after.responses ≡ s.responses ++ cancel_response input (cancel_code target) ∷ [])
        × ((k : ℕ)
            → find_order k after
              ≡ (if input.target_order_id == k then cancelled now target else find_order k s))
        × (after.asset ≡ s.asset)
        × (after.positions ≡ s.positions)
  unfolding cancel_order notify_response update_order_status
  cancel_order-answers now input s =
      let target = find_order input.target_order_id s in
      elim (Option-cases target) [
        | inl e ↦ rw (e, cancel_order) (refl, refl, λ k. ground arith, refl, refl)
        | inr (o, e) ↦ elim (Bool-cases (cancellable o.status)) [
          | inl c ↦
              rw (e, cancel_order, c, update_order_status, e)
                (refl, refl, λ k. find-insert input.target_order_id k _ s.active_orders, refl, refl)
          | inr c ↦ rw (e, cancel_order, c) (refl, refl, λ k. ground arith, refl, refl)
        ]
      ]
