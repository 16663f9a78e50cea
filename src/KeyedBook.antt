-- ===== src/KeyedBook.antt =====
-- core/book.cpp: OrderInputBook, OrderBook and TradeBook, which differ in the type and the key of
-- their values: maps from an id, with searches over the values.
pub mod Stores
pub mod Hashed
use btrader.Prelude.{
  ℕ, ◌-◌, ◌^◌, Bool, true, false, not, ◌&&◌, Option, none, some, List, [], ◌∷◌, ltb, ◌==◌,
  if◌then◌else◌,
}
use btrader.Prelude.Int.{ℤ, pos, negsuc, ltb_ℤ}
use btrader.Prelude.Dict
use btrader.CharArray.{Chars, text}
use btrader.Types.Enums.{OrderStatus, status_code}
use btrader.Types.{Trade, Order, OrderInput}

module _ {ℓ} {V : Type ℓ} where
  unfoldable pub get : ℕ → List (ℕ × V) → Option V
  get = Dict.find

  unfoldable pub contains : ℕ → List (ℕ × V) → Bool
  contains = Dict.contains

  -- The loop of the searches.
  unfoldable pub find_by : (V → Bool) → List (ℕ × V) → List V
  find_by test [] = []
  find_by test ((_, v) ∷ m) = let rest = find_by test m in if test v then v ∷ rest else rest

  -- The key of a value, and the struct assignment of a value to what the key holds, which is a value
  -- just made where it holds none.
  module _ (key_of : V → ℕ) (store : Option V → V → V) where
    -- map[key] = value
    unfoldable pub set : V → List (ℕ × V) → List (ℕ × V)
    set v m = Dict.insert (key_of v) (store (Dict.find (key_of v) m) v) m

    unfoldable pub set_batch : List V → List (ℕ × V) → List (ℕ × V)
    set_batch [] m = m
    set_batch (v ∷ vs) m = set_batch vs (set v m)

-- The comparison of two strings
abbrev pub same_text : List ℕ → List ℕ → Bool
same_text [] [] = true
same_text (a ∷ rest) (b ∷ others) = (a == b) && same_text rest others
same_text _ _ = false

abbrev pub same_ids : Chars → Chars → Chars → Chars → Bool
same_ids instrument_id exchange_id i x =
    same_text (text i) (text instrument_id) && same_text (text x) (text exchange_id)

-- static_cast<int64_t> of a uint64_t
abbrev pub to_int64 : ℕ → ℤ
to_int64 n = if ltb n (2 ^ 63) then pos n else negsuc (2 ^ 64 - n - 1)

module _ {ℓ} {D : Type ℓ} where
  unfoldable pub find_inputs_by_instrument :
      Chars → Chars → List (ℕ × OrderInput D) → List (OrderInput D)
  find_inputs_by_instrument instrument_id exchange_id =
      find_by (λ o. same_ids instrument_id exchange_id o.instrument_id o.exchange_id)

  unfoldable pub find_orders_by_instrument : Chars → Chars → List (ℕ × Order D) → List (Order D)
  find_orders_by_instrument instrument_id exchange_id =
      find_by (λ o. same_ids instrument_id exchange_id o.instrument_id o.exchange_id)

  unfoldable pub find_by_status : OrderStatus → List (ℕ × Order D) → List (Order D)
  find_by_status status = find_by (λ o. status_code o.status == status_code status)

  unfoldable pub find_trades_by_instrument : Chars → Chars → List (ℕ × Trade D) → List (Trade D)
  find_trades_by_instrument instrument_id exchange_id =
      find_by (λ t. same_ids instrument_id exchange_id t.instrument_id t.exchange_id)

  unfoldable pub find_by_time_range : ℕ → ℕ → List (ℕ × Trade D) → List (Trade D)
  find_by_time_range start_time end_time = find_by (λ t.
      not (ltb_ℤ (pos t.trade_time) (to_int64 start_time))
      && not (ltb_ℤ (to_int64 end_time) (pos t.trade_time)))
