-- ===== src/Types/Products.antt =====
-- core/types.h: what is charged for a product, and what an instrument is.
use btrader.Prelude.{ℕ, Bool, Option, List}
use btrader.Prelude.Int.{ℤ}
use btrader.CharArray.{Chars, assign_over}
use btrader.Types.{instrument_id_len, exchange_id_len, date_len}
use btrader.Types.Enums.{InstrumentType}

pub data CommissionRateMode : Type 0 where
  by_amount by_volume : CommissionRateMode

pub data CurrencyType : Type 0 where
  unknown cny hkd usd jpy gbp eur cnh sgd myr : CurrencyType

pub record Commission {ℓ} (D : Type ℓ) : Type ℓ where
  pub product_id : Chars
  pub exchange_id : Chars
  pub instrument_type : InstrumentType
  pub mode : CommissionRateMode
  pub open_ratio : D
  pub close_ratio : D
  pub close_today_ratio : D
  pub min_commission : D

pub record Instrument {ℓ} (D : Type ℓ) : Type ℓ where
  pub instrument_id : Chars
  pub exchange_id : Chars
  pub instrument_type : InstrumentType
  pub product_id : List ℤ
  pub contract_multiplier : ℤ
  pub price_tick : D
  pub open_date : Chars
  pub create_date : Chars
  pub expire_date : Chars
  pub delivery_year : ℤ
  pub delivery_month : ℤ
  pub is_trading : Bool
  pub force_update_ratio : Bool
  pub long_margin_ratio : D
  pub short_margin_ratio : D
  pub conversion_rate : D
  pub exchange_rate : D
  pub currency_type : CurrencyType

-- product_id of a commission
abbrev product_id_len : ℕ
product_id_len = 128

-- The copies of the structs into a map copy their arrays of char by their operator=.
unfoldable pub store_commission {ℓ} :
    {D : Type ℓ} → Option (Commission D) → Commission D → Commission D
store_commission old c = record c {
  product_id = assign_over product_id_len (λ o. o.product_id) old c.product_id;
  exchange_id = assign_over exchange_id_len (λ o. o.exchange_id) old c.exchange_id;
}

unfoldable pub store_instrument {ℓ} :
    {D : Type ℓ} → Option (Instrument D) → Instrument D → Instrument D
store_instrument old i = record i {
  instrument_id = assign_over instrument_id_len (λ o. o.instrument_id) old i.instrument_id;
  exchange_id = assign_over exchange_id_len (λ o. o.exchange_id) old i.exchange_id;
  open_date = assign_over date_len (λ o. o.open_date) old i.open_date;
  create_date = assign_over date_len (λ o. o.create_date) old i.create_date;
  expire_date = assign_over date_len (λ o. o.expire_date) old i.expire_date;
}
