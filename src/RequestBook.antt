-- ===== src/RequestBook.antt =====
-- core/requestbook.cpp: the requests that a broker waits for, by their ids. Requests and their times
-- are kept in a map; `now` is the time at which one is added.
use btrader.Prelude.{ℕ, Bool, Option, none, some, List}
use btrader.Prelude.Dict.{find, contains, insert, erase}

pub data BrokerReqType : Type 0 where
  unknown order_place order_cancel order_book order_state position_book : BrokerReqType

abbrev pub RequestBook : Type 0
RequestBook = List (ℕ × (BrokerReqType × ℕ))

unfoldable pub add_request : ℕ → ℕ → BrokerReqType → RequestBook → RequestBook
add_request now req_id req_type book = insert req_id (req_type, now) book

unfoldable pub remove_request : ℕ → RequestBook → RequestBook
remove_request req_id book = erase req_id book

unfoldable pub has_request : ℕ → RequestBook → Bool
has_request req_id book = contains req_id book

abbrev pub type_or_unknown : Option (BrokerReqType × ℕ) → BrokerReqType
type_or_unknown none = BrokerReqType.unknown
type_or_unknown (some (req_type, time)) = req_type

unfoldable pub get_request : ℕ → RequestBook → BrokerReqType
get_request req_id book = type_or_unknown (find req_id book)
