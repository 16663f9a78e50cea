-- ===== src/Strategy/Tracking.antt =====
-- The orders that ConsecutiveBarStrategy tracks, and the size of those that it sends.
use btrader.Prelude.{
  ℕ, ◌≡◌, refl, sym, ◌∙◌, ◌⊎◌, inl, inr, Bool, true, false, Bool-cases, none, some, List, ◌==◌,
  if◌then◌else◌, branches_by, if_true, if_false,
}
use btrader.Prelude.Dict.{find, insert, erase, find-insert, find-erase}
use btrader.Double.{Double, IsIeee}
use btrader.Types.{Order}
use btrader.Strategy.{Strategy}
use btrader.Strategy.Orders.{calculate_position_size}
use btrader.Strategy.Events.{is_finished, stored_order, store_order, on_order}

module _ {ℓ} {D : Type ℓ} where
  find-erase-insert :
      (k id : ℕ) (v : Order D) (m : List (ℕ × Order D))
      → find id (erase k (insert k v m)) ≡ (if k == id then none else find id m)
  find-erase-insert k id v m = elim (Bool-cases (k == id)) [
    | inl e ↦
        find-erase k id (insert k v m) ∙ if_true (k == id) _ _ e ∙ sym (if_true (k == id) _ _ e)
    | inr e ↦
        find-erase k id (insert k v m)
        ∙ if_false (k == id) _ _ e
        ∙ find-insert k id v m
        ∙ if_false (k == id) _ _ e
        ∙ sym (if_false (k == id) _ _ e)
  ]

  find-store_if :
      (finished : Bool) (fresh order : Order D) (s : Strategy D) (id : ℕ)
      → find id
          (if finished
            then record (store_order fresh order s) {
              active_orders = erase order.order_id (store_order fresh order s).active_orders;
            }
            else store_order fresh order s).active_orders
        ≡ (if order.order_id == id
            then if finished then none else some (stored_order fresh order s)
            else find id s.active_orders)
  find-store_if true fresh order s id =
      find-erase-insert order.order_id id (stored_order fresh order s) s.active_orders
  find-store_if false fresh order s id =
      find-insert order.order_id id (stored_order fresh order s) s.active_orders

  -- After the update of an order, that order is tracked as it was last reported unless it is filled,
  -- cancelled or in error, when it is not tracked; the other orders are tracked as before.
  pub on_order-find :
      (fresh order : Order D) (s : Strategy D) (id : ℕ)
      → find id (on_order fresh order s).active_orders ≡ (
          if order.order_id == id
          then if is_finished order.status then none else some (stored_order fresh order s)
          else find id s.active_orders)
  unfolding on_order
  on_order-find fresh order s id = find-store_if (is_finished order.status) fresh order s id

module _ {ℓ} {D : Type ℓ} ⦃d : Double D⦄ ⦃law : IsIeee D⦄ where
  open d use {mul, div, lt, literal}

  below_itself : (x : D) → lt x x ≡ false
  below_itself x = elim (Bool-cases (lt x x)) [ inl e ↦ law.lt_asymmetric x x e | inr e ↦ e ]

  -- For a machine whose doubles keep the IEEE laws: the size of a new order is not below 1, whatever
  -- the price, and it exceeds the largest position only where it is 1.
  pub calculate_position_size-within :
      (price : D) (s : Strategy D)
      → (lt (calculate_position_size price s) (literal 1 0) ≡ false)
        × ((calculate_position_size price s ≡ literal 1 0)
            ⊎ (lt s.config.max_position (calculate_position_size price s) ≡ false))
  unfolding calculate_position_size
  calculate_position_size-within price s =
      let size = div (mul (literal 100000 0) s.config.risk_per_trade) price in
      let largest = s.config.max_position in
      let limited = if lt largest size then largest else size in
      let below : lt largest limited ≡ false =
        branches_by (λ x. lt largest x ≡ false) (lt largest size) {u = largest} {v = size}
          (λ e. below_itself largest) λ e. e in
      branches_by (λ x. (lt x (literal 1 0) ≡ false) × ((x ≡ literal 1 0) ⊎ (lt largest x ≡ false)))
        (lt limited (literal 1 0)) {u = literal 1 0} {v = limited}
        (λ e. (below_itself (literal 1 0), inl refl)) λ e. (e, inr below)
