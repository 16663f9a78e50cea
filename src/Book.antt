-- ===== src/Book.antt =====
-- core/book.cpp: struct Book, its updates by a trade and by a bar and its totals. The commissions,
-- instruments, margins and orders of a book, which these neither read nor write, are left out.
pub mod Updates
pub mod Validation
use btrader.Prelude.{
  ℕ, Bool, true, false, ◌||◌, ◌==◌, Option, none, some, List, [], ◌∷◌, if◌then◌else◌,
}
use btrader.Prelude.Int.{ℤ, pos, negsuc}
use btrader.Prelude.Dict.{find, insert}
use btrader.Double.{Double}
use btrader.CharArray.{Chars}
use btrader.Types.Enums.{Direction, is_buy, is_sell, is_close, is_long}
use btrader.Types.{Trade, Bar, Asset, Position}
use btrader.PositionBook.{Positions, PositionBook, hash_instrument, unrealized_pnl}
use btrader.PositionBook

pub record Book {ℓ} (D : Type ℓ) : Type ℓ where
  pub asset : Asset D
  pub positions : PositionBook D
  pub trades : List (ℕ × Trade D)

-- id[0] == '\0'
abbrev pub is_blank : Chars → Bool
is_blank [] = true
is_blank (c ∷ cs) = c == 0

abbrev pub direction_factor : Direction → ℤ
direction_factor dir = if is_long dir then pos 1 else negsuc 0

abbrev pub is_found {ℓ} : {A : Type ℓ} → Option A → Bool
is_found none = false
is_found (some a) = true

module _ {ℓ} {D : Type ℓ} ⦃d : Double D⦄ where
  open d use {zero, add, sub, mul, lt, of_int}

  unfoldable pub update_cash : Trade D → D → D
  update_cash t avail =
      let value = mul t.price t.volume in
      let moved =
        if is_buy t.side
        then sub avail value
        else if is_sell t.side
        then add avail value
        else avail in
      sub (sub moved t.commission) t.tax

  unfoldable pub update_position_pnl : Bar D → Position D → Position D
  update_position_pnl bar p = record p {
    unrealized_pnl =
        mul (mul p.volume (sub bar.close p.position_cost_price))
          (of_int (direction_factor p.direction));
    update_time = bar.end_time;
  }

  -- What update does with the position of the bar's instrument on one side.
  unfoldable pub mark_side : ℕ → Bar D → Positions D → Positions D
  mark_side key bar m = elim (find key m) [
    | none ↦ m
    | some p ↦ if lt zero p.volume then insert key (update_position_pnl bar p) m else m
  ]

  unfoldable pub asset_price : Book D → D
  asset_price b = add b.asset.avail (unrealized_pnl b.positions)

  unfoldable pub total_unrealized_pnl : Book D → D
  total_unrealized_pnl b = unrealized_pnl b.positions

  -- Selling and buying give the same simplified amount.
  unfoldable pub sum_realized_pnl : D → List (ℕ × Trade D) → D
  sum_realized_pnl total [] = total
  sum_realized_pnl total ((_, t) ∷ ts) =
      sum_realized_pnl
        (if is_close t.offset then add total (mul (sub t.price t.price) t.volume) else total) ts

  unfoldable pub total_realized_pnl : Book D → D
  total_realized_pnl b = sum_realized_pnl zero b.trades

  unfoldable pub sum_commission : D → List (ℕ × Trade D) → D
  sum_commission total [] = total
  sum_commission total ((_, t) ∷ ts) = sum_commission (add total t.commission) ts

  unfoldable pub total_commission : Book D → D
  total_commission b = sum_commission zero b.trades

  unfoldable pub sum_tax : D → List (ℕ × Trade D) → D
  sum_tax total [] = total
  sum_tax total ((_, t) ∷ ts) = sum_tax (add total t.tax) ts

  unfoldable pub total_tax : Book D → D
  total_tax b = sum_tax zero b.trades

  module _ (hash_str_32 : List ℕ → ℕ) where
    unfoldable pub update_trade : Trade D → Book D → Book D
    update_trade t b = record b {
      positions = PositionBook.update hash_str_32 t b.positions;
      asset = record (b.asset) { avail = update_cash t b.asset.avail };
    }

    abbrev pub bar_key : Bar D → ℕ
    bar_key bar = hash_instrument hash_str_32 bar.exchange_id bar.instrument_id

    -- The long and the short position of the bar's instrument, and the time of the asset where there
    -- is one.
    unfoldable pub mark_book : Bar D → Book D → Book D
    mark_book bar b =
        let key = bar_key bar in
        let held =
          is_found (find key b.positions.long_positions)
          || is_found (find key b.positions.short_positions) in
        record b {
          positions = record {
            long_positions = mark_side key bar b.positions.long_positions;
            short_positions = mark_side key bar b.positions.short_positions;
          };
          asset = if held then record (b.asset) { update_time = bar.end_time } else b.asset;
        }

    unfoldable pub update_bar : Bar D → Book D → Book D
    update_bar bar b =
        if is_blank bar.instrument_id || is_blank bar.exchange_id then b else mark_book bar b
