-- ===== src/Binance/Broker/Requests.antt =====
-- binance_broker.cpp: the requests, and the responses to them. `result` is what the client returns
-- for the write, and `now` the time at which a request is noted.
use btrader.Prelude.{
  ℕ, ◌+◌, ◌-◌, ◌*◌, ◌^◌, Bool, true, false, not, ◌&&◌, Option, none, some, List, [], ◌∷◌, ltb, leb,
  if◌then◌else◌,
}
use btrader.Prelude.Int.{ℤ, pos, ltb_ℤ}
use btrader.Json.{Entry, given}
use btrader.CharArray.{Chars, text}
use btrader.Types.{OrderInput, OrderCancel}
use btrader.RequestBook.{BrokerReqType, add_request, has_request, get_request}
use btrader.Binance.{decimal}
use btrader.Binance.Broker.{BrokerMessage, BinanceBroker}
use btrader.Binance.Broker.Params.{
  Params, put, symbol_key, order_id_key, signature_key, build_order_params, build_cancel_params,
  build_account_params, build_query_string,
}

pub data ReqType : Type 0 where
  status order_book order position_book : ReqType

pub record AccountReq : Type 0 where
  pub id : ℕ
  pub req_type : ReqType
  pub instrument_id : Chars
  pub target_id : ℕ
  pub insert_time : ℕ

-- "order.place"
abbrev pub order_place_method : List ℕ
order_place_method = 111 ∷ 114 ∷ 100 ∷ 101 ∷ 114 ∷ 46 ∷ 112 ∷ 108 ∷ 97 ∷ 99 ∷ 101 ∷ []

-- "order.cancel"
abbrev pub order_cancel_method : List ℕ
order_cancel_method = 111 ∷ 114 ∷ 100 ∷ 101 ∷ 114 ∷ 46 ∷ 99 ∷ 97 ∷ 110 ∷ 99 ∷ 101 ∷ 108 ∷ []

-- "account.status"
abbrev pub account_status_method : List ℕ
account_status_method =
    97 ∷ 99 ∷ 99 ∷ 111 ∷ 117 ∷ 110 ∷ 116 ∷ 46 ∷ 115 ∷ 116 ∷ 97 ∷ 116 ∷ 117 ∷ 115 ∷ []

-- "openOrders.status"
abbrev pub open_orders_method : List ℕ
open_orders_method =
    111 ∷ 112 ∷ 101 ∷ 110 ∷ 79 ∷ 114 ∷ 100 ∷ 101 ∷ 114 ∷ 115 ∷ 46 ∷ 115 ∷ 116 ∷ 97 ∷ 116 ∷ 117 ∷ 115
    ∷ []

-- "order.status"
abbrev pub order_status_method : List ℕ
order_status_method = 111 ∷ 114 ∷ 100 ∷ 101 ∷ 114 ∷ 46 ∷ 115 ∷ 116 ∷ 97 ∷ 116 ∷ 117 ∷ 115 ∷ []

module _ (sign : List ℕ → List ℕ → Option (List ℕ)) where
  unfoldable pub generate_signature : List ℕ → Params → Option (List ℕ)
  generate_signature secret_key params = sign secret_key (build_query_string params)

  abbrev pub with_signature : List ℕ → Params → ℕ → Option (List ℕ) → Option BrokerMessage
  with_signature method params request_id none = none
  with_signature method params request_id (some signature) = some (record {
    id = decimal request_id;
    method = method;
    params = put signature_key signature params;
  })

  unfoldable pub format_websocket_message : List ℕ → List ℕ → Params → ℕ → Option BrokerMessage
  format_websocket_message secret_key method params request_id =
      with_signature method params request_id (generate_signature secret_key params)

  abbrev pub send_message :
      ℤ → ℕ → ℕ → BrokerReqType → Option BrokerMessage → BinanceBroker → BinanceBroker × Bool
  send_message result now request_id req_type none s = (s, false)
  send_message result now request_id req_type (some message) s =
      let asked = record s { sent = message ∷ s.sent } in
      if ltb_ℤ result (pos 0)
      then (asked, false)
      else (record asked { req_book = add_request now request_id req_type asked.req_book }, true)

  unfoldable pub send_order_request :
      ℤ → ℕ → List ℕ → Params → ℕ → BrokerReqType → BinanceBroker → BinanceBroker × Bool
  send_order_request result now method params request_id req_type s =
      send_message result now request_id req_type
        (format_websocket_message s.secret_key method params request_id) s

  abbrev pub send_built :
      ℤ → ℕ → List ℕ → ℕ → BrokerReqType → Option Params → BinanceBroker → BinanceBroker × Bool
  send_built result now method request_id req_type none s = (s, false)
  send_built result now method request_id req_type (some params) s =
      send_order_request result now method params request_id req_type s

  unfoldable pub insert_order {ℓ} :
      {D : Type ℓ} → (D → List ℕ) → ℤ → ℕ → OrderInput D → BinanceBroker → BinanceBroker × Bool
  insert_order print result now input s =
      if not s.is_connected
      then (s, false)
      else send_built result now order_place_method input.order_id BrokerReqType.order_place
          (build_order_params print s.public_key_str input) s

  unfoldable pub cancel_order {ℓ} :
      {D : Type ℓ} → ℤ → ℕ → OrderCancel D → BinanceBroker → BinanceBroker × Bool
  cancel_order result now input s =
      if not s.is_connected
      then (s, false)
      else send_order_request result now order_cancel_method
          (build_cancel_params s.public_key_str input) input.order_id BrokerReqType.order_cancel s

  abbrev pub account_request : ℤ → ℕ → AccountReq → ReqType → BinanceBroker → BinanceBroker × Bool
  account_request result now req ReqType.status s =
      send_order_request result now account_status_method
        (build_account_params s.public_key_str req.insert_time) req.id BrokerReqType.position_book s
  account_request result now req ReqType.order_book s =
      send_order_request result now open_orders_method
        (build_account_params s.public_key_str req.insert_time) req.id BrokerReqType.order_book s
  account_request result now req ReqType.order s =
      send_order_request result now order_status_method
        (put order_id_key (decimal req.target_id) (
          put symbol_key (text req.instrument_id)
            (build_account_params s.public_key_str req.insert_time)))
        req.id BrokerReqType.order_state s
  account_request result now req ReqType.position_book s = (s, true)

  unfoldable pub req_account_info : ℤ → ℕ → AccountReq → BinanceBroker → BinanceBroker × Bool
  req_account_info result now req s =
      if not s.is_connected then (s, false) else account_request result now req req.req_type s

-- The digits at the front of a text, as a number after others, and whether there is one.
unfoldable pub parse_digits : ℕ → List ℕ → ℕ
parse_digits n [] = n
parse_digits n (c ∷ cs) =
    let longer = parse_digits (n * 10 + (c - 48)) cs in if leb 48 c && leb c 57 then longer else n

abbrev pub begins_with_digit : List ℕ → Bool
begins_with_digit [] = false
begins_with_digit (c ∷ cs) = leb 48 c && leb c 57

-- std::stoull of a text without a sign or blanks in front, none where it throws
unfoldable pub stoull : List ℕ → Option ℕ
stoull s =
    let n = parse_digits 0 s in
    if begins_with_digit s then if ltb n (2 ^ 64) then some n else none else none

-- What on_msg does with a message: it hands a response to handle_response, which only logs it, with
-- the type of the request, or it logs something else.
pub data Reaction : Type 0 where
  handled : ℕ → BrokerReqType → Reaction
  unknown_request ignored : Reaction

abbrev pub respond : Option ℕ → BinanceBroker → Reaction
respond none s = ignored
respond (some req_id) s =
    if has_request req_id s.req_book
    then handled req_id (get_request req_id s.req_book)
    else unknown_request

abbrev pub react_to : Entry (List ℕ) → BinanceBroker → Reaction
react_to (given id) s = respond (stoull id) s
react_to _ s = ignored

-- The message is empty, no JSON, or has this entry for its id.
unfoldable pub on_msg : Bool → Bool → Entry (List ℕ) → BinanceBroker → Reaction
on_msg is_empty is_json id s =
    if is_empty then ignored else if not is_json then ignored else react_to id s
