-- ===== src/Binance/Broker/Params.antt =====
-- binance_broker.cpp: the parameters of a request. `print` is std::to_string of a double, and `sign`
-- signs with the key, none where it throws.
use btrader.Prelude.{
  ℕ, Bool, true, false, Option, none, some, List, [], ◌∷◌, ◌++◌, ltb, ◌==◌, if◌then◌else◌,
}
use btrader.CharArray.{text}
use btrader.KeyedBook.{same_text}
use btrader.Types.{OrderInput, OrderCancel}
use btrader.Types.Enums.{Side, PriceType, TimeCondition, is_limit}
use btrader.Binance.{decimal}

-- std::map of strings: in ascending order of the keys.
abbrev pub Params : Type 0
Params = List (List ℕ × List ℕ)

-- operator< of two strings
unfoldable pub before : List ℕ → List ℕ → Bool
before [] [] = false
before [] (d ∷ ds) = true
before (c ∷ cs) [] = false
before (c ∷ cs) (d ∷ ds) = if c == d then before cs ds else ltb c d

-- params[key] = value
unfoldable pub put : List ℕ → List ℕ → Params → Params
put k v [] = (k, v) ∷ []
put k v ((j, w) ∷ m) =
    if same_text j k
    then (k, v) ∷ m
    else if before k j
    then (k, v) ∷ (j, w) ∷ m
    else (j, w) ∷ put k v m

-- s_sides.at, none where it throws
unfoldable pub side_name : Side → Option (List ℕ)
side_name Side.buy = some (66 ∷ 85 ∷ 89 ∷ [])
side_name Side.sell = some (83 ∷ 69 ∷ 76 ∷ 76 ∷ [])
side_name _ = none

-- s_price_types.at
unfoldable pub price_type_name : PriceType → Option (List ℕ)
price_type_name PriceType.limit = some (76 ∷ 73 ∷ 77 ∷ 73 ∷ 84 ∷ [])
price_type_name PriceType.any = some (77 ∷ 65 ∷ 82 ∷ 75 ∷ 69 ∷ 84 ∷ [])
price_type_name PriceType.fak_best5 = some (70 ∷ 65 ∷ 75 ∷ 95 ∷ 66 ∷ 69 ∷ 83 ∷ 84 ∷ 53 ∷ [])
price_type_name PriceType.forward_best =
    some (70 ∷ 79 ∷ 82 ∷ 87 ∷ 65 ∷ 82 ∷ 68 ∷ 95 ∷ 66 ∷ 69 ∷ 83 ∷ 84 ∷ [])
price_type_name PriceType.reverse_best =
    some (82 ∷ 69 ∷ 86 ∷ 69 ∷ 82 ∷ 83 ∷ 69 ∷ 95 ∷ 66 ∷ 69 ∷ 83 ∷ 84 ∷ [])
price_type_name PriceType.fak = some (70 ∷ 65 ∷ 75 ∷ [])
price_type_name PriceType.fok = some (70 ∷ 79 ∷ 75 ∷ [])
price_type_name PriceType.unknown = none

-- s_time_conditions.at
unfoldable pub time_condition_name : TimeCondition → List ℕ
time_condition_name TimeCondition.gtc = 71 ∷ 84 ∷ 67 ∷ []
time_condition_name TimeCondition.ioc = 73 ∷ 79 ∷ 67 ∷ []
time_condition_name TimeCondition.fok = 70 ∷ 79 ∷ 75 ∷ []
time_condition_name TimeCondition.gfd = 71 ∷ 70 ∷ 68 ∷ []

abbrev pub symbol_key : List ℕ
symbol_key = 115 ∷ 121 ∷ 109 ∷ 98 ∷ 111 ∷ 108 ∷ []

abbrev pub side_key : List ℕ
side_key = 115 ∷ 105 ∷ 100 ∷ 101 ∷ []

abbrev pub order_type_key : List ℕ
order_type_key = 116 ∷ 121 ∷ 112 ∷ 101 ∷ []

abbrev pub quantity_key : List ℕ
quantity_key = 113 ∷ 117 ∷ 97 ∷ 110 ∷ 116 ∷ 105 ∷ 116 ∷ 121 ∷ []

abbrev pub time_in_force_key : List ℕ
time_in_force_key = 116 ∷ 105 ∷ 109 ∷ 101 ∷ 73 ∷ 110 ∷ 70 ∷ 111 ∷ 114 ∷ 99 ∷ 101 ∷ []

abbrev pub timestamp_key : List ℕ
timestamp_key = 116 ∷ 105 ∷ 109 ∷ 101 ∷ 115 ∷ 116 ∷ 97 ∷ 109 ∷ 112 ∷ []

abbrev pub api_key : List ℕ
api_key = 97 ∷ 112 ∷ 105 ∷ 75 ∷ 101 ∷ 121 ∷ []

abbrev pub price_key : List ℕ
price_key = 112 ∷ 114 ∷ 105 ∷ 99 ∷ 101 ∷ []

abbrev pub orig_client_order_id_key : List ℕ
orig_client_order_id_key =
    111 ∷ 114 ∷ 105 ∷ 103 ∷ 67 ∷ 108 ∷ 105 ∷ 101 ∷ 110 ∷ 116 ∷ 79 ∷ 114 ∷ 100 ∷ 101 ∷ 114 ∷ 73 ∷ 100
    ∷ []

abbrev pub order_id_key : List ℕ
order_id_key = 111 ∷ 114 ∷ 100 ∷ 101 ∷ 114 ∷ 73 ∷ 100 ∷ []

abbrev pub signature_key : List ℕ
signature_key = 115 ∷ 105 ∷ 103 ∷ 110 ∷ 97 ∷ 116 ∷ 117 ∷ 114 ∷ 101 ∷ []

-- The parameters that every request carries.
abbrev pub stamped : ℕ → List ℕ → Params → Params
stamped insert_time public_key m =
    put api_key public_key (put timestamp_key (decimal insert_time) m)

abbrev pub order_params {ℓ} :
    {D : Type ℓ}
    → (D → List ℕ)
    → List ℕ
    → OrderInput D
    → Option (List ℕ)
    → Option (List ℕ)
    → Option Params
order_params print public_key input (some side_text) (some type_text) =
    let params = stamped input.insert_time public_key (
      put time_in_force_key (time_condition_name input.time_condition) (
        put quantity_key (print input.volume) (
          put order_type_key type_text
            (put side_key side_text (put symbol_key (text input.instrument_id) []))))) in
    some
      (if is_limit input.price_type then put price_key (print input.limit_price) params else params)
order_params print public_key input _ _ = none

-- None where a lookup throws.
unfoldable pub build_order_params {ℓ} :
    {D : Type ℓ} → (D → List ℕ) → List ℕ → OrderInput D → Option Params
build_order_params print public_key input =
    order_params print public_key input (side_name input.side) (price_type_name input.price_type)

unfoldable pub build_cancel_params {ℓ} : {D : Type ℓ} → List ℕ → OrderCancel D → Params
build_cancel_params public_key input = stamped input.insert_time public_key (
    put orig_client_order_id_key (decimal input.target_order_id)
      (put symbol_key (text input.instrument_id) []))

unfoldable pub build_account_params : List ℕ → ℕ → Params
build_account_params public_key insert_time = stamped insert_time public_key []

abbrev pub add_pair : List ℕ → List ℕ × List ℕ → List ℕ
add_pair [] (k, v) = k ++ (61 ∷ v)
add_pair (c ∷ cs) (k, v) = (c ∷ cs) ++ (38 ∷ k ++ (61 ∷ v))

-- The loop of build_query_string, with "=" in a pair and "&" between two.
unfoldable pub query_from : List ℕ → Params → List ℕ
query_from query [] = query
query_from query (p ∷ m) = query_from (add_pair query p) m

unfoldable pub build_query_string : Params → List ℕ
build_query_string m = query_from [] m
