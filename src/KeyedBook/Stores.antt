-- ===== src/KeyedBook/Stores.antt =====
-- core/book.cpp: what OrderInputBook, OrderBook and TradeBook store. A struct is assigned to what its
-- key holds; its arrays are copied by their operator=.
use btrader.Prelude.{ℕ, Option, List}
use btrader.CharArray.{assign_over}
use btrader.Types.{
  Trade, Order, OrderInput, instrument_id_len, exchange_id_len, date_len, external_id_len,
}
use btrader.KeyedBook

abbrev error_msg_len : ℕ
error_msg_len = 256

unfoldable pub store_input {ℓ} : {D : Type ℓ} → Option (OrderInput D) → OrderInput D → OrderInput D
store_input old i = record i {
  instrument_id = assign_over instrument_id_len (λ o. o.instrument_id) old i.instrument_id;
  exchange_id = assign_over exchange_id_len (λ o. o.exchange_id) old i.exchange_id;
}

unfoldable pub store_order {ℓ} : {D : Type ℓ} → Option (Order D) → Order D → Order D
store_order old o = record o {
  external_order_id =
      assign_over external_id_len (λ o. o.external_order_id) old o.external_order_id;
  trading_day = assign_over date_len (λ o. o.trading_day) old o.trading_day;
  instrument_id = assign_over instrument_id_len (λ o. o.instrument_id) old o.instrument_id;
  exchange_id = assign_over exchange_id_len (λ o. o.exchange_id) old o.exchange_id;
  error_msg = assign_over error_msg_len (λ o. o.error_msg) old o.error_msg;
}

unfoldable pub store_trade {ℓ} : {D : Type ℓ} → Option (Trade D) → Trade D → Trade D
store_trade old t = record t {
  external_order_id =
      assign_over external_id_len (λ o. o.external_order_id) old t.external_order_id;
  external_trade_id =
      assign_over external_id_len (λ o. o.external_trade_id) old t.external_trade_id;
  trading_day = assign_over date_len (λ o. o.trading_day) old t.trading_day;
  instrument_id = assign_over instrument_id_len (λ o. o.instrument_id) old t.instrument_id;
  exchange_id = assign_over exchange_id_len (λ o. o.exchange_id) old t.exchange_id;
}

module _ {ℓ} {D : Type ℓ} where
  unfoldable pub set_order_input : OrderInput D → List (ℕ × OrderInput D) → List (ℕ × OrderInput D)
  set_order_input v book = KeyedBook.set (λ o. o.order_id) store_input v book

  unfoldable pub set_order_inputs :
      List (OrderInput D) → List (ℕ × OrderInput D) → List (ℕ × OrderInput D)
  set_order_inputs vs book = KeyedBook.set_batch (λ o. o.order_id) store_input vs book

  unfoldable pub set_order : Order D → List (ℕ × Order D) → List (ℕ × Order D)
  set_order v book = KeyedBook.set (λ o. o.order_id) store_order v book

  unfoldable pub set_orders : List (Order D) → List (ℕ × Order D) → List (ℕ × Order D)
  set_orders vs book = KeyedBook.set_batch (λ o. o.order_id) store_order vs book

  unfoldable pub set_trade : Trade D → List (ℕ × Trade D) → List (ℕ × Trade D)
  set_trade v book = KeyedBook.set (λ o. o.trade_id) store_trade v book

  unfoldable pub set_trades : List (Trade D) → List (ℕ × Trade D) → List (ℕ × Trade D)
  set_trades vs book = KeyedBook.set_batch (λ o. o.trade_id) store_trade vs book
