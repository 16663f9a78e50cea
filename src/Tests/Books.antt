-- ===== src/Tests/Books.antt =====
-- A position book with one long position, and trades against it.
use btrader.Prelude.{
  not, ◌||◌, ℕ, ◌+◌, ◌≡◌, ◌≢◌, ◌↔◌, refl, sym, ap, subst, ◌∙◌, inl, inr, Bool-cases, ==_iff, true,
  ◌&&◌, some, none, List, [], ◌∷◌, ◌==◌, if◌then◌else◌,
}
use mathlib.Core.Option.{some-injective}
use btrader.Prelude.Dict.{find}
use btrader.Double.{NotNegative}
use btrader.CharArray.{Chars}
use btrader.Types.Enums.{InstrumentType, Side, Offset, HedgeFlag, Direction}
use btrader.Types.{Trade, Position, Bar}
use btrader.PositionBook.{PositionBook, hash_instrument, remove_position, update}
use btrader.PositionBook.Slots.{slot, Changed, same_side, slot-remove_position}
use btrader.PositionBook.Trades.{Booked, sells_close, update-Booked}
use btrader.PositionBook.Invariants.{
  BothSides, Everywhere, IsKeyed, update-IsKeyed, update-NotNegative,
}
use btrader.Book.{Book, is_blank, update_bar, total_commission, total_tax, total_realized_pnl}
use btrader.Book.Updates.{
  by_trade, by_bar, Marked, run_events, update_bar-Marked, run_events-totals,
}
use btrader.Tests.Tenths.{tenths, tenths-IsIeee}

-- A hash that adds the characters.
abbrev hash : List ℕ → ℕ
hash [] = 0
hash (c ∷ cs) = c + hash cs

abbrev btc : Chars
btc = 98 ∷ 116 ∷ 99 ∷ 0 ∷ []

abbrev sim : Chars
sim = 115 ∷ 0 ∷ []

abbrev long_btc : Position ℕ
long_btc = record {
  update_time = 1;
  trading_day = [];
  instrument_id = btc;
  instrument_type = InstrumentType.crypto;
  exchange_id = sim;
  direction = Direction.long;
  volume = 30;
  position_cost_price = 1000;
  unrealized_pnl = 0;
}

-- Two more units at 110.
abbrev buy_two : Trade ℕ
buy_two = record {
  trade_id = 1;
  order_id = 1;
  external_order_id = [];
  external_trade_id = [];
  trade_time = 2;
  trading_day = [];
  instrument_id = btc;
  exchange_id = sim;
  instrument_type = InstrumentType.crypto;
  side = Side.buy;
  offset = Offset.open_position;
  hedge_flag = HedgeFlag.speculation;
  price = 1100;
  volume = 20;
  tax = 0;
  commission = 0;
}

abbrev book : PositionBook ℕ
book = record {
  long_positions = (hash_instrument hash sim btc, long_btc) ∷ [];
  short_positions = [];
}

-- All of the long position and more is sold.
abbrev sell_four : Trade ℕ
sell_four = record buy_two { side = Side.sell; offset = Offset.close_position; volume = 40 }

update-Booked_example :
    let key = hash_instrument hash sim btc in
    Changed
      (same_side Direction.long Direction.long && (key == key))
      (Booked sell_four Direction.long)
      (slot Direction.long key book)
      (slot Direction.long key (update hash sell_four book))
update-Booked_example =
    update-Booked hash sell_four Direction.long book Direction.long (hash_instrument hash sim btc)
      sells_close

slot-remove_position_example :
    let key = hash_instrument hash sim btc in
    let (after, removed) = remove_position hash btc sim Direction.long book in
    ((removed ≡ true) ↔ (slot Direction.long key book ≢ none))
    × (slot Direction.long key after ≡ (
        if same_side Direction.long Direction.long && (key == key)
        then none
        else slot Direction.long key book))
slot-remove_position_example =
    slot-remove_position hash btc sim Direction.long Direction.long (hash_instrument hash sim btc)
      book

none-some : (p : Position ℕ) → none ≢ some p
none-some p e = cc

only_entry :
    (P : ℕ → Position ℕ → Type 0) (a : ℕ) (q : Position ℕ) → P a q → Everywhere P ((a, q) ∷ [])
unfolding find
only_entry P a q h k p e = elim (Bool-cases (a == k)) [
  | inl c ↦
      subst (λ i. P i p) ((==_iff a k).0 c)
        (subst (P a) (some-injective _ _ (sym (ap (λ b. if b then some q else none) c) ∙ e)) h)
  | inr c ↦ absurd (none-some p (sym (ap (λ b. if b then some q else none) c) ∙ e))
]

book-IsKeyed : BothSides (IsKeyed hash) book
unfolding find
book-IsKeyed = (only_entry (IsKeyed hash) _ long_btc refl, λ k p e. absurd (none-some p e))

update-IsKeyed_example : BothSides (IsKeyed hash) (update hash buy_two book)
update-IsKeyed_example = update-IsKeyed hash buy_two book book-IsKeyed

book-NotNegative : BothSides (λ k p. NotNegative p.volume) book
unfolding find tenths
book-NotNegative =
    (only_entry (λ k p. NotNegative p.volume) _ long_btc refl, λ k p e. absurd (none-some p e))

update-NotNegative_example : BothSides (λ k p. NotNegative p.volume) (update hash buy_two book)
unfolding tenths
update-NotNegative_example =
    update-NotNegative hash tenths-IsIeee buy_two book refl book-NotNegative

abbrev account : Book ℕ
account = record {
  asset = record {
    update_time = 0;
    trading_day = [];
    avail = 10000;
    margin = 0;
    accumulated_fee = 0;
  };
  positions = book;
  trades = [];
}

abbrev btc_bar : Bar ℕ
btc_bar = record {
  trading_day = [];
  instrument_id = btc;
  exchange_id = sim;
  instrument_type = InstrumentType.crypto;
  start_time = 0;
  end_time = 60;
  open_price = 1000;
  close = 1200;
  low = 1000;
  high = 1200;
  volume = 10;
  start_volume = 0;
  tick_count = 3;
}

update_bar-Marked_example :
    let key = hash_instrument hash sim btc in
    Changed
      (not (is_blank btc_bar.instrument_id || is_blank btc_bar.exchange_id) && (key == key))
      (Marked btc_bar)
      (slot Direction.long key account.positions)
      (slot Direction.long key (update_bar hash btc_bar account).positions)
update_bar-Marked_example =
    update_bar-Marked hash btc_bar account Direction.long (hash_instrument hash sim btc)

run_events-totals_example :
    let es = by_trade buy_two ∷ by_bar btc_bar ∷ [] in
    (total_commission (run_events hash es account) ≡ total_commission account)
    × (total_tax (run_events hash es account) ≡ total_tax account)
    × (total_realized_pnl (run_events hash es account) ≡ total_realized_pnl account)
run_events-totals_example = run_events-totals hash (by_trade buy_two ∷ by_bar btc_bar ∷ []) account
