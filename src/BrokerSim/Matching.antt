-- ===== src/BrokerSim/Matching.antt =====
-- The matching of BrokerSim: from process_order_matching down to execute_summary_trade. An order is
-- reached through its key in active_orders_, as the references of the source reach it.
use Prim.Native.Nat.{min}
use btrader.Prelude.{
  ℕ, zero, suc, ◌+◌, ◌*◌, ◌/◌, ◌%◌, ◌^◌, Bool, true, false, not, ◌&&◌, none, some, List, [], ◌∷◌,
  ◌++◌, ◌==◌, if◌then◌else◌, take,
}
use btrader.Prelude.Dict.{find, insert, erase}
use btrader.Double.{Double}
use btrader.CharArray.{Chars, assign, empty_array}
use btrader.Types.Enums.{Side, OrderStatus, is_buy, is_limit}
use btrader.Types.{
  Trade, Order, InstrumentDepth, date_len, instrument_id_len, exchange_id_len, external_id_len,
}
use btrader.BrokerSim.{
  BrokerSim, traded, notify_response, update_order_status, update_asset, update_position,
}

-- What process_order_matching reads from outside.
pub record Market {ℓ} (D : Type ℓ) : Type ℓ where
  pub now : ℕ
  pub depth : Chars → InstrumentDepth D
  pub price_change : D
  pub hash_str_32 : List ℕ → ℕ

abbrev pub max_depth_levels : ℕ
max_depth_levels = 20

-- std::to_string of an unsigned number, in ASCII
unfoldable pub decimal : ℕ → ℕ → List ℕ → List ℕ
decimal zero n rest = rest
decimal (suc fuel) n rest =
    let digits = (48 + n % 10) ∷ rest in
    let more = decimal fuel (n / 10) digits in if n / 10 == 0 then digits else more

-- "SIM_" and the number, cut to the array
unfoldable pub external_id : ℕ → Chars
unfolding decimal
external_id n =
    assign (empty_array external_id_len) (take 31 (83 ∷ 73 ∷ 77 ∷ 95 ∷ decimal 20 n []) ++ 0 ∷ [])

-- Filled, Cancelled or Error: the orders that the loop passes over.
abbrev pub is_done : OrderStatus → Bool
is_done OrderStatus.filled = true
is_done OrderStatus.cancelled = true
is_done OrderStatus.error = true
is_done _ = false

-- Filled or Cancelled: the orders that leave the list once they were matched.
abbrev pub is_gone : OrderStatus → Bool
is_gone OrderStatus.filled = true
is_gone OrderStatus.cancelled = true
is_gone _ = false

abbrev pub is_submitted : OrderStatus → Bool
is_submitted OrderStatus.submitted = true
is_submitted _ = false

-- The state of the loop over the price levels, with the executed prices and volumes, last first.
pub record Fill {ℓ} (D : Type ℓ) : Type ℓ where
  pub remaining : D
  pub weighted : D
  pub total : D
  pub executed : List (D × D)

abbrev pub keys_of {κ} : {V : Type κ} → List (ℕ × V) → List ℕ
keys_of [] = []
keys_of ((k, _) ∷ rest) = k ∷ keys_of rest

module _ {ℓ} {D : Type ℓ} ⦃d : Double D⦄ where
  open d use {add, sub, mul, div, lt, le, eq, trunc, of_int, literal}

  unfoldable pub apply_slippage : BrokerSim D → D → Side → D
  apply_slippage s base_price side =
      if not s.enable_slippage
      then base_price
      else if is_buy side
      then mul base_price (add (literal 1 0) s.slippage_rate)
      else mul base_price (sub (literal 1 0) s.slippage_rate)

  unfoldable pub can_execute_order : Order D → D → Bool
  can_execute_order o market_price =
      if is_limit o.price_type
      then if is_buy o.side then le market_price o.limit_price else le o.limit_price market_price
      else true

  unfoldable pub check_funds_sufficiency : BrokerSim D → Order D → D → D → Bool
  check_funds_sufficiency s o price volume =
      not (is_buy o.side && lt s.asset.avail (mul price volume))

  -- At most n levels whose price and volume are valid.
  unfoldable pub valid_levels : ℕ → List D → List D → List (D × D)
  valid_levels zero ps vs = []
  valid_levels (suc n) (p ∷ ps) (v ∷ vs) =
      let rest = valid_levels n ps vs in
      if lt (literal 1 6) p && lt (literal 1 6) v then (p, v) ∷ rest else rest
  valid_levels (suc n) _ _ = []

  unfoldable pub build_price_levels : InstrumentDepth D → Side → List (D × D)
  build_price_levels depth side =
      let n = min depth.real_depth_size max_depth_levels in
      if is_buy side
      then valid_levels n depth.ask_price depth.ask_volume
      else valid_levels n depth.bid_price depth.bid_volume

  abbrev pub take_level : D → D → Fill D → Fill D
  take_level price volume f = record {
    remaining = sub f.remaining volume;
    weighted = add f.weighted (mul price volume);
    total = add f.total volume;
    executed = (price, volume) ∷ f.executed;
  }

  -- std::min(a, b)
  abbrev pub min_double : D → D → D
  min_double a b = if lt b a then b else a

  unfoldable pub match_levels : BrokerSim D → Order D → List (D × D) → Fill D → Fill D
  match_levels s o [] f = f
  match_levels s o ((price, volume) ∷ levels) f =
      let final_price = apply_slippage s price o.side in
      let trade_volume = min_double f.remaining volume in
      let filled = match_levels s o levels (take_level final_price trade_volume f) in
      let skipped = match_levels s o levels f in
      if le f.remaining d.zero
      then f
      else if can_execute_order o final_price
      then if check_funds_sufficiency s o final_price trade_volume then filled else skipped
      else f

  -- The id wraps at 64 bits, where the source's product of the signed time with 1000000 has no
  -- defined value once it overflows.
  unfoldable pub generate_summary_trade : BrokerSim D → ℕ → Order D → D → D → Trade D
  generate_summary_trade s now o avg_price total_volume =
      let trade_id = (now * 1_000_000 + o.order_id % 1_000_000) % 2 ^ 64 in
      record {
        trade_id = trade_id;
        order_id = o.order_id;
        external_order_id = external_id o.order_id;
        external_trade_id = external_id trade_id;
        trade_time = now;
        trading_day = assign (empty_array date_len) o.trading_day;
        instrument_id = assign (empty_array instrument_id_len) o.instrument_id;
        exchange_id = assign (empty_array exchange_id_len) o.exchange_id;
        instrument_type = o.instrument_type;
        side = o.side;
        offset = o.offset;
        hedge_flag = o.hedge_flag;
        price = avg_price;
        volume = total_volume;
        tax = d.zero;
        commission =
            if s.enable_commission
            then mul (mul avg_price total_volume) s.commission_rate
            else d.zero;
      }

  -- order.volume_left -= static_cast<int64_t>(summary_trade.volume)
  unfoldable pub reduce_order : Trade D → Order D → Order D
  reduce_order t o = record o { volume_left = sub o.volume_left (of_int (trunc t.volume)) }

  abbrev pub write_order : ℕ → Order D → BrokerSim D → BrokerSim D
  write_order key o s = record s { active_orders = insert key o s.active_orders }

  unfoldable pub execute_summary_trade :
      Market D → ℕ → Order D → Trade D → BrokerSim D → BrokerSim D
  execute_summary_trade m key o t s =
      let left = reduce_order t o in
      let status =
        if eq left.volume_left d.zero
        then OrderStatus.filled
        else OrderStatus.partial_filled_active in
      notify_response (traded t) (
        update_asset m.now t (
          update_position m.hash_str_32 m.now t
            (update_order_status m.now left.order_id status (write_order key left s))))

  unfoldable pub generate_market_price : Market D → Order D → D
  generate_market_price m o =
      let base_price = if le o.limit_price d.zero then literal 100 0 else o.limit_price in
      mul base_price (add (literal 1 0) m.price_change)

  unfoldable pub no_depth_price : Market D → Order D → BrokerSim D → D
  no_depth_price m o s =
      if is_limit o.price_type
      then o.limit_price
      else apply_slippage s (generate_market_price m o) o.side

  unfoldable pub handle_no_depth_execution : Market D → ℕ → Order D → BrokerSim D → BrokerSim D
  handle_no_depth_execution m key o s =
      let price = no_depth_price m o s in
      if is_buy o.side && lt s.asset.avail (mul price o.volume_left)
      then update_order_status m.now o.order_id OrderStatus.error s
      else execute_summary_trade m key o (generate_summary_trade s m.now o price o.volume_left) s

  abbrev pub is_none : List (D × D) → Bool
  is_none [] = true
  is_none (_ ∷ _) = false

  abbrev pub empty_fill : Order D → Fill D
  empty_fill o = record {
    remaining = o.volume_left;
    weighted = d.zero;
    total = d.zero;
    executed = [];
  }

  unfoldable pub match_order_with_market_data : Market D → ℕ → Order D → BrokerSim D → BrokerSim D
  match_order_with_market_data m key o s =
      let depth = m.depth o.instrument_id in
      let levels = build_price_levels depth o.side in
      let fill = match_levels s o levels (empty_fill o) in
      if depth.real_depth_size == 0
      then handle_no_depth_execution m key o s
      else if is_none levels
      then (if is_submitted o.status
          then write_order key (record o { status = OrderStatus.pending; update_time = m.now }) s
          else s)
      else if lt d.zero fill.total
      then execute_summary_trade m key o
          (generate_summary_trade s m.now o (div fill.weighted fill.total) fill.total) s
      else s

  -- One round of the loop of process_order_matching.
  unfoldable pub process_order : Market D → ℕ → BrokerSim D → BrokerSim D
  process_order m key s = elim (find key s.active_orders) [
    | none ↦ s
    | some o ↦
        if is_done o.status
        then s
        else let t = match_order_with_market_data m key o s in
          elim (find key t.active_orders) [
            | none ↦ t
            | some q ↦
                if is_gone q.status
                then record t { active_orders = erase key t.active_orders }
                else t
          ]
  ]

  unfoldable pub process_orders : Market D → List ℕ → BrokerSim D → BrokerSim D
  process_orders m [] s = s
  process_orders m (k ∷ ks) s = process_orders m ks (process_order m k s)

  -- A round changes or erases its own entry alone, so the loop meets the keys that were there first.
  unfoldable pub process_order_matching : Market D → BrokerSim D → BrokerSim D
  process_order_matching m s = process_orders m (keys_of s.active_orders) s
