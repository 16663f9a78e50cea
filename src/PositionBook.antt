-- ===== src/PositionBook.antt =====
-- core/book.cpp: struct PositionBook. The hash of a string (MurmurHash3, under thirdparty) is a
-- parameter.
pub mod Slots
pub mod Invariants
pub mod Trades
use Prim.Native.Nat.{bit_xor}
use btrader.Prelude.{
  ℕ, Bool, true, false, not, ◌||◌, ◌+◌, Option, none, some, List, [], ◌∷◌, length, if◌then◌else◌,
}
use btrader.Prelude.Int.{ℤ, pos, ltb_ℤ}
use btrader.Prelude.Dict.{find, contains, insert, erase}
use btrader.Double.{Double}
use btrader.CharArray.{Chars, text, assign, empty_array}
use btrader.Types.Enums.{Side, Offset, Direction, is_open, is_long}
use btrader.Types.{
  Trade, Position, assign_position, zero_position, date_len, instrument_id_len, exchange_id_len,
}

abbrev pub Positions {ℓ} : Type ℓ → Type ℓ
Positions D = List (ℕ × Position D)

pub record PositionBook {ℓ} (D : Type ℓ) : Type ℓ where
  pub long_positions : Positions D
  pub short_positions : Positions D

-- core/hashid.h
unfoldable pub hash_instrument : (List ℕ → ℕ) → Chars → Chars → ℕ
hash_instrument hash_str_32 exchange_id instrument_id =
    bit_xor (hash_str_32 (text instrument_id)) (hash_str_32 (text exchange_id))

-- The direction that a trade moves; none for the sides that are passed over.
unfoldable pub position_direction : Side → Offset → Option Direction
position_direction Side.buy o = some (if is_open o then Direction.long else Direction.short)
position_direction Side.sell o = some (if is_open o then Direction.short else Direction.long)
position_direction _ o = none

module _ {ℓ} {D : Type ℓ} where
  -- direction == Long ? long_positions : short_positions
  abbrev pub side_of : Direction → PositionBook D → Positions D
  side_of dir b = if is_long dir then b.long_positions else b.short_positions

  abbrev pub with_side : Direction → Positions D → PositionBook D → PositionBook D
  with_side dir m b =
      if is_long dir then record b { long_positions = m } else record b { short_positions = m }

  unfoldable pub clear : PositionBook D → PositionBook D
  clear b = record { long_positions = []; short_positions = [] }

  abbrev pub is_empty : Positions D → Bool
  is_empty [] = true
  is_empty (_ ∷ _) = false

  unfoldable pub has_positions : PositionBook D → Bool
  has_positions b = not (is_empty b.long_positions) || not (is_empty b.short_positions)

  unfoldable pub total_positions : PositionBook D → ℕ
  total_positions b = length b.long_positions + length b.short_positions

module _ {ℓ} {D : Type ℓ} ⦃d : Double D⦄ where
  open d use {zero, add, sub, mul, div, le, trunc, of_int}

  -- positions[key] = position
  unfoldable pub put : ℕ → Position D → Positions D → Positions D
  put key p m =
      insert key
        (elim (find key m) [
          | none ↦ assign_position zero_position p
          | some old ↦ assign_position old p
        ])
        m

  -- The position that a trade without one creates.
  unfoldable pub created_position : Trade D → Direction → Position D
  created_position t dir = record {
    update_time = t.trade_time;
    trading_day = assign (empty_array date_len) t.trading_day;
    instrument_id = assign (empty_array instrument_id_len) t.instrument_id;
    instrument_type = t.instrument_type;
    exchange_id = assign (empty_array exchange_id_len) t.exchange_id;
    direction = dir;
    volume = t.volume;
    position_cost_price = t.price;
    unrealized_pnl = zero;
  }

  -- The average cost; the total volume goes through int64_t.
  unfoldable pub average_cost : Trade D → Position D → D
  average_cost t p =
      let total_cost = mul p.position_cost_price p.volume in
      let new_cost = mul t.price t.volume in
      let total_volume = trunc (add p.volume t.volume) in
      if ltb_ℤ (pos 0) total_volume
      then div (add total_cost new_cost) (of_int total_volume)
      else p.position_cost_price

  -- A trade against a position that exists; none where it is fully closed.
  unfoldable pub traded_position : Trade D → Position D → Option (Position D)
  traded_position t p =
      let cost = average_cost t p in
      if is_open t.offset
      then some (record p {
        position_cost_price = cost;
        volume = add p.volume t.volume;
        update_time = t.trade_time;
      })
      else if le (sub p.volume t.volume) zero
      then none
      else some (record p {
        position_cost_price = cost;
        volume = sub p.volume t.volume;
        update_time = t.trade_time;
      })

  unfoldable pub update_side : ℕ → Trade D → Direction → Positions D → Positions D
  update_side key t dir m = elim (find key m) [
    | none ↦ put key (created_position t dir) m
    | some p ↦ elim (traded_position t p) [ none ↦ erase key m | some q ↦ insert key q m ]
  ]

  abbrev sum_pnl : D → Positions D → D
  sum_pnl acc [] = acc
  sum_pnl acc ((_, p) ∷ m) = sum_pnl (add acc p.unrealized_pnl) m

  unfoldable pub unrealized_pnl : PositionBook D → D
  unrealized_pnl b = sum_pnl (sum_pnl zero b.long_positions) b.short_positions

  module _ (hash_str_32 : List ℕ → ℕ) where
    unfoldable pub set : Position D → PositionBook D → PositionBook D
    set p b =
        with_side p.direction
          (put (hash_instrument hash_str_32 p.exchange_id p.instrument_id) p
            (side_of p.direction b))
          b

    unfoldable pub get : Chars → Chars → Direction → PositionBook D → Option (Position D)
    get instrument_id exchange_id dir b =
        find (hash_instrument hash_str_32 exchange_id instrument_id) (side_of dir b)

    unfoldable pub get_all_positions : Chars → Chars → PositionBook D → List (Position D)
    get_all_positions instrument_id exchange_id b =
        let key = hash_instrument hash_str_32 exchange_id instrument_id in
        let shorts : List (Position D) = elim (find key b.short_positions) [
          | none ↦ []
          | some p ↦ p ∷ []
        ] in
        elim (find key b.long_positions) [ none ↦ shorts | some p ↦ p ∷ shorts ]

    unfoldable pub remove_position :
        Chars → Chars → Direction → PositionBook D → PositionBook D × Bool
    remove_position instrument_id exchange_id dir b =
        let key = hash_instrument hash_str_32 exchange_id instrument_id in
        if contains key (side_of dir b)
        then (with_side dir (erase key (side_of dir b)) b, true)
        else (b, false)

    unfoldable pub update : Trade D → PositionBook D → PositionBook D
    update t b = elim (position_direction t.side t.offset) [
      | none ↦ b
      | some dir ↦
          with_side dir
            (update_side (hash_instrument hash_str_32 t.exchange_id t.instrument_id) t dir
              (side_of dir b))
            b
    ]
