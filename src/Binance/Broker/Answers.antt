-- ===== src/Binance/Broker/Answers.antt =====
-- Which request a response is taken to answer.
use btrader.Prelude.{
  ℕ, ◌<◌, ◌^◌, ◌≡◌, refl, sym, ap, ◌∙◌, Bool, true, false, not, ◌&&◌, Option, none, some, List,
  ◌==◌, if◌then◌else◌, both_branches,
}
use btrader.Prelude.Int.{ℤ, pos, ltb_ℤ}
use btrader.Prelude.Dict.{find, find-insert, contains-find}
use btrader.Json.{given}
use btrader.Types.{OrderInput, OrderCancel}
use btrader.RequestBook.{BrokerReqType, add_request, has_request, get_request, type_or_unknown}
use btrader.Binance.{decimal}
use btrader.Binance.Decimals.{stoull-decimal}
use btrader.Binance.Broker.{BrokerMessage, BinanceBroker}
use btrader.Binance.Broker.Params.{Params, build_order_params}
use btrader.Binance.Broker.Requests.{
  ReqType, AccountReq, send_message, send_order_request, send_built, insert_order, cancel_order,
  account_request, req_account_info, Reaction, handled, unknown_request, respond, on_msg,
}

-- The reaction to a response with this number.
unfoldable pub answer : ℕ → BinanceBroker → Reaction
answer id s = on_msg false true (given (decimal id)) s

abbrev reaction_to : ℕ → Option (BrokerReqType × ℕ) → Reaction
reaction_to id none = unknown_request
reaction_to id (some (req_type, time)) = handled id req_type

respond-find :
    (id : ℕ) (s : BinanceBroker) → respond (some id) s ≡ reaction_to id (find id s.req_book)
unfolding has_request get_request
respond-find id s = rw (contains-find id s.req_book) (by_entry (find id s.req_book))
  where
    by_entry :
        (e : Option (BrokerReqType × ℕ))
        → (if (elim e [ none ↦ false | some _ ↦ true ])
            then handled id (type_or_unknown e)
            else unknown_request)
          ≡ reaction_to id e
    by_entry none = refl
    by_entry (some (req_type, time)) = refl

answer-find :
    (id : ℕ) (s : BinanceBroker) → id < 2 ^ 64 → answer id s ≡ reaction_to id (find id s.req_book)
unfolding answer on_msg
answer-find id s h = rw (stoull-decimal id h) (respond-find id s)

-- A request of some type and number.
pub data Call {ℓ} (D : Type ℓ) : Type ℓ where
  inserting : OrderInput D → Call D
  cancelling : OrderCancel D → Call D
  asking : AccountReq → Call D

-- The number and the type that a response has, where the request is sent.
abbrev pub account_type : ReqType → Option BrokerReqType
account_type ReqType.status = some BrokerReqType.position_book
account_type ReqType.order_book = some BrokerReqType.order_book
account_type ReqType.order = some BrokerReqType.order_state
account_type ReqType.position_book = none

abbrev pub number_of {ℓ} : {D : Type ℓ} → Call D → ℕ
number_of (inserting input) = input.order_id
number_of (cancelling input) = input.order_id
number_of (asking req) = req.id

abbrev pub type_of {ℓ} : {D : Type ℓ} → Call D → Option BrokerReqType
type_of (inserting input) = some BrokerReqType.order_place
type_of (cancelling input) = some BrokerReqType.order_cancel
type_of (asking req) = account_type req.req_type

-- The reaction after a request, where it was `done`.
abbrev pub answer_after : ℕ → ℕ → Option BrokerReqType → Bool → Reaction → Reaction
answer_after number id (some req_type) done before =
    if done && (number == id) then handled id req_type else before
answer_after number id none done before = before

-- What a request leaves, for the response with number id.
Answers : ℕ → ℕ → Option BrokerReqType → BinanceBroker → BinanceBroker × Bool → Type 0
Answers number id req_type s p =
    reaction_to id (find id p.0.req_book)
    ≡ answer_after number id req_type p.1 (reaction_to id (find id s.req_book))

refused-Answers :
    (number id : ℕ) (req_type : Option BrokerReqType) (s asked : BinanceBroker)
    → asked.req_book ≡ s.req_book
    → Answers number id req_type s (asked, false)
unfolding Answers
refused-Answers number id none s asked e = ap (λ b. reaction_to id (find id b)) e
refused-Answers number id (some t) s asked e = ap (λ b. reaction_to id (find id b)) e

added-Answers :
    (number id now : ℕ) (t : BrokerReqType) (s added : BinanceBroker)
    → added.req_book ≡ add_request now number t s.req_book
    → Answers number id (some t) s (added, true)
unfolding Answers add_request
added-Answers number id now t s added e =
    ap (λ b. reaction_to id (find id b)) e
    ∙ ap (reaction_to id) (find-insert number id (t, now) s.req_book)
    ∙ by_test (number == id)
  where
    by_test :
        (b : Bool)
        → reaction_to id (if b then some (t, now) else find id s.req_book)
          ≡ (if true && b then handled id t else reaction_to id (find id s.req_book))
    by_test true = refl
    by_test false = refl

module _ (sign : List ℕ → List ℕ → Option (List ℕ)) where
  send-Answers :
      (result : ℤ) (now : ℕ) (number id : ℕ) (t : BrokerReqType) (m : Option BrokerMessage)
      (s : BinanceBroker)
      → Answers number id (some t) s (send_message sign result now number t m s)
  send-Answers result now number id t none s = refused-Answers number id (some t) s s refl
  send-Answers result now number id t (some m) s =
      both_branches (Answers number id (some t) s) (ltb_ℤ result (pos 0))
        (refused-Answers number id (some t) s _ refl) (added-Answers number id now t s _ refl)

  request-Answers :
      (result : ℤ) (now : ℕ) (method : List ℕ) (params : Params) (number id : ℕ) (t : BrokerReqType)
      (s : BinanceBroker)
      → Answers number id (some t) s (send_order_request sign result now method params number t s)
  unfolding send_order_request
  request-Answers result now method params number id t s = send-Answers result now number id t _ s

  built-Answers :
      (result : ℤ) (now : ℕ) (method : List ℕ) (params : Option Params) (number id : ℕ)
      (t : BrokerReqType) (s : BinanceBroker)
      → Answers number id (some t) s (send_built sign result now method number t params s)
  built-Answers result now method none number id t s = refused-Answers number id (some t) s s refl
  built-Answers result now method (some params) number id t s =
      request-Answers result now method params number id t s

  account-Answers :
      (result : ℤ) (now : ℕ) (req : AccountReq) (t : ReqType) (id : ℕ) (s : BinanceBroker)
      → Answers req.id id (account_type t) s (account_request sign result now req t s)
  unfolding Answers
  account-Answers result now req ReqType.status id s =
      request-Answers result now _ _ req.id id BrokerReqType.position_book s
  account-Answers result now req ReqType.order_book id s =
      request-Answers result now _ _ req.id id BrokerReqType.order_book s
  account-Answers result now req ReqType.order id s =
      request-Answers result now _ _ req.id id BrokerReqType.order_state s
  account-Answers result now req ReqType.position_book id s = refl

  module _ {ℓ} {D : Type ℓ} (print : D → List ℕ) where
    unfoldable pub perform : ℤ → ℕ → Call D → BinanceBroker → BinanceBroker × Bool
    perform result now (inserting input) s = insert_order sign print result now input s
    perform result now (cancelling input) s = cancel_order sign result now input s
    perform result now (asking req) s = req_account_info sign result now req s

    perform-Answers :
        (result : ℤ) (now : ℕ) (c : Call D) (id : ℕ) (s : BinanceBroker)
        → Answers (number_of c) id (type_of c) s (perform result now c s)
    unfolding perform insert_order cancel_order req_account_info
    perform-Answers result now (inserting input) id s =
        both_branches (Answers _ id _ s) (not s.is_connected) (refused-Answers _ id _ s s refl) (
          built-Answers result now _ (build_order_params print s.public_key_str input)
            input.order_id id BrokerReqType.order_place s)
    perform-Answers result now (cancelling input) id s =
        both_branches (Answers _ id _ s) (not s.is_connected) (refused-Answers _ id _ s s refl)
          (request-Answers result now _ _ input.order_id id BrokerReqType.order_cancel s)
    perform-Answers result now (asking req) id s =
        both_branches (Answers _ id _ s) (not s.is_connected) (refused-Answers _ id _ s s refl)
          (account-Answers result now req req.req_type id s)

    -- After a request that returned true, the response with its number is handed on with the type of
    -- the request; a request that failed, a request for the position book, which is not sent, and
    -- one of another number leave the reaction to a response as it was. The numbers have 64 bits.
    pub perform-answer :
        (result : ℤ) (now : ℕ) (c : Call D) (id : ℕ) (s : BinanceBroker)
        → id < 2 ^ 64
        → answer id (perform result now c s).0
          ≡ answer_after (number_of c) id (type_of c) (perform result now c s).1 (answer id s)
    unfolding Answers
    perform-answer result now c id s h =
        let (after, done) = perform result now c s in
        answer-find id after h
        ∙ perform-Answers result now c id s
        ∙ sym (ap (answer_after (number_of c) id (type_of c) done) (answer-find id s h))
