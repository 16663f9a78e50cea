-- ===== src/PositionBook/Trades.antt =====
-- What a trade does to a position book, told by the side of the book that it moves and by the
-- position that it finds there.
use btrader.Prelude.{
  ℕ, ◌≡◌, ◌≢◌, refl, ap, ◌∙◌, ==_iff, inl, inr, Bool, true, false, ◌&&◌, Bool-cases, Option, none,
  some, List, arith, ◌==◌, if◌then◌else◌, if_true, if_false, subst, sym, branches_by,
}
use btrader.Prelude.Int.{pos, ltb_ℤ}
use btrader.Prelude.Dict.{find}
use btrader.Double.{Double}
use btrader.CharArray.{text, text-assign_empty}
use btrader.Types.Enums.{Side, Offset, Direction, is_open}
use btrader.Types.{
  Trade, Position, assign_position, zero_position, date_len, instrument_id_len, exchange_id_len,
}
use btrader.PositionBook.{
  PositionBook, side_of, position_direction, created_position, traded_position, average_cost,
  update,
}
use btrader.PositionBook.Slots.{
  slot, Changed, same_side, slot_after, trade_key, shown_after, slot-update,
}

-- The positions that a trade moves: opening trades those of their own side, the others the opposite.
pub data Moves : Side → Offset → Direction → Type 0 where
  buys_open : Moves Side.buy Offset.open_position Direction.long
  buys_close : Moves Side.buy Offset.close_position Direction.short
  buys_close_today : Moves Side.buy Offset.close_today Direction.short
  buys_close_yesterday : Moves Side.buy Offset.close_yesterday Direction.short
  sells_open : Moves Side.sell Offset.open_position Direction.short
  sells_close : Moves Side.sell Offset.close_position Direction.long
  sells_close_today : Moves Side.sell Offset.close_today Direction.long
  sells_close_yesterday : Moves Side.sell Offset.close_yesterday Direction.long

Moves-position_direction :
    {side : Side} {offset : Offset} {dir : Direction}
    → Moves side offset dir
    → position_direction side offset ≡ some dir
unfolding position_direction
Moves-position_direction buys_open = refl
Moves-position_direction buys_close = refl
Moves-position_direction buys_close_today = refl
Moves-position_direction buys_close_yesterday = refl
Moves-position_direction sells_open = refl
Moves-position_direction sells_close = refl
Moves-position_direction sells_close_today = refl
Moves-position_direction sells_close_yesterday = refl

opening : (o : Offset) → is_open o ≡ true → o ≡ Offset.open_position
opening Offset.open_position e = refl
opening Offset.close_position e = cc
opening Offset.close_today e = cc
opening Offset.close_yesterday e = cc

not_opening : (o : Offset) → is_open o ≡ false → o ≢ Offset.open_position
not_opening o e r = ground (arith, sym (rw r at e))

-- Directions that name the same map.
same_side-side_of {ℓ} :
    {D : Type ℓ} (at dir : Direction) (b : PositionBook D)
    → same_side at dir ≡ true
    → side_of dir b ≡ side_of at b
same_side-side_of Direction.long Direction.long b e = refl
same_side-side_of Direction.long Direction.short b e = cc
same_side-side_of Direction.long Direction.unknown b e = cc
same_side-side_of Direction.short Direction.long b e = cc
same_side-side_of Direction.short Direction.short b e = refl
same_side-side_of Direction.short Direction.unknown b e = refl
same_side-side_of Direction.unknown Direction.long b e = cc
same_side-side_of Direction.unknown Direction.short b e = refl
same_side-side_of Direction.unknown Direction.unknown b e = refl

both : (a b : Bool) → a && b ≡ true → (a ≡ true) × (b ≡ true)
both true b e = (refl, e)
both false b e = cc

module _ {ℓ} {D : Type ℓ} ⦃d : Double D⦄ where
  open d use {zero, add, sub, mul, div, le, trunc, of_int}

  -- A position where there was none: that of the trade, whatever its offset.
  pub record IsOpened (t : Trade D) (dir : Direction) (q : Position D) : Type ℓ where
    pub volume : q.volume ≡ t.volume
    pub cost : q.position_cost_price ≡ t.price
    pub pnl : q.unrealized_pnl ≡ zero
    pub direction : q.direction ≡ dir
    pub instrument_type : q.instrument_type ≡ t.instrument_type
    pub time : q.update_time ≡ t.trade_time
    pub day : text q.trading_day ≡ text t.trading_day
    pub instrument : text q.instrument_id ≡ text t.instrument_id
    pub exchange : text q.exchange_id ≡ text t.exchange_id

  -- A position p that became q with this volume: the cost is the average of both, where the sum of
  -- the volumes is 1 or more, as an integer, and the time is that of the trade.
  pub record IsCarried (t : Trade D) (p q : Position D) (left : D) : Type ℓ where
    pub volume : q.volume ≡ left
    pub cost : q.position_cost_price ≡ (
        if ltb_ℤ (pos 0) (trunc (add p.volume t.volume))
        then div
            (add (mul p.position_cost_price p.volume) (mul t.price t.volume))
            (of_int (trunc (add p.volume t.volume)))
        else p.position_cost_price)
    pub time : q.update_time ≡ t.trade_time
    pub others :
        record q {
          volume = p.volume;
          position_cost_price = p.position_cost_price;
          update_time = p.update_time;
        }
        ≡ p

  -- What a slot holds before and after a trade that moves it.
  pub data Booked (t : Trade D) (dir : Direction)
      : Option (Position D) → Option (Position D) → Type ℓ where
    opens : {q : Position D} → IsOpened t dir q → Booked t dir none (some q)
    adds :
        {p q : Position D}
        → t.offset ≡ Offset.open_position
        → IsCarried t p q (add p.volume t.volume)
        → Booked t dir (some p) (some q)
    closes :
        {p : Position D}
        → t.offset ≢ Offset.open_position
        → le (sub p.volume t.volume) zero ≡ true
        → Booked t dir (some p) none
    reduces :
        {p q : Position D}
        → t.offset ≢ Offset.open_position
        → le (sub p.volume t.volume) zero ≡ false
        → IsCarried t p q (sub p.volume t.volume)
        → Booked t dir (some p) (some q)

  carried :
      (t : Trade D) (p : Position D) (left : D)
      → IsCarried t p
          (record p {
            position_cost_price = average_cost t p;
            volume = left;
            update_time = t.trade_time;
          })
          left
  unfolding average_cost
  carried t p left = record { volume = refl; cost = refl; time = refl; others = refl }

  slot_after-Booked :
      (t : Trade D) (dir : Direction) (o : Option (Position D))
      → Booked t dir o (slot_after t dir o)
  unfolding slot_after traded_position created_position assign_position zero_position
  slot_after-Booked t dir none = opens record {
    volume = refl;
    cost = refl;
    pnl = refl;
    direction = refl;
    instrument_type = refl;
    time = refl;
    day = rw (text-assign_empty date_len _, text-assign_empty date_len t.trading_day) refl;
    instrument =
        rw
          (
            text-assign_empty instrument_id_len _,
            text-assign_empty instrument_id_len t.instrument_id,
          )
          refl;
    exchange =
        rw (text-assign_empty exchange_id_len _, text-assign_empty exchange_id_len t.exchange_id)
          refl;
  }
  slot_after-Booked t dir (some p) =
      branches_by (Booked t dir (some p)) (is_open t.offset)
        (λ e. adds (opening t.offset e) (carried t p (add p.volume t.volume)))
        (λ e.
          branches_by (Booked t dir (some p)) (le (sub p.volume t.volume) zero)
            (λ l. closes (not_opening t.offset e) l)
            (λ l. reduces (not_opening t.offset e) l (carried t p (sub p.volume t.volume))))

  module _ (hash_str_32 : List ℕ → ℕ) where
    shown :
        (t : Trade D) (dir : Direction) (b : PositionBook D) (at : Direction) (k : ℕ)
        → Moves t.side t.offset dir
        → slot at k (update hash_str_32 t b) ≡ (
            if same_side at dir && (trade_key hash_str_32 t == k)
            then slot_after t dir (slot dir (trade_key hash_str_32 t) b)
            else slot at k b)
    shown t dir b at k m =
        slot-update hash_str_32 t b at k ∙ rw (shown_after, Moves-position_direction m) refl

    -- A trade whose side and offset move the positions of a direction books itself in the slot of its
    -- instrument on that side of the book, whatever the slot held, and leaves every other slot. An
    -- empty slot takes the position of the trade, whatever its offset; an opening trade adds its
    -- volume; a closing one takes its volume off, and the position goes where nothing is left. The
    -- cost becomes the average, also at a closing trade, where both volumes make 1 or more.
    pub update-Booked :
        (t : Trade D) (dir : Direction) (b : PositionBook D) (at : Direction) (k : ℕ)
        → Moves t.side t.offset dir
        → Changed
            (same_side at dir && (trade_key hash_str_32 t == k))
            (Booked t dir)
            (slot at k b)
            (slot at k (update hash_str_32 t b))
    update-Booked t dir b at k m =
        let key = trade_key hash_str_32 t in
        let after = slot at k (update hash_str_32 t b) in
        elim (Bool-cases (same_side at dir && (key == k))) [
          | inl e ↦
              let (side, same) = both _ _ e in
              let here : slot dir key b ≡ slot at k b =
                ap (find key) (same_side-side_of at dir b side)
                ∙ ap (λ j. slot at j b) ((==_iff key k).0 same) in
              subst (λ hit. Changed hit (Booked t dir) (slot at k b) after) (sym e)
                (subst (λ o. Booked t dir o after) here
                  (subst (Booked t dir (slot dir key b))
                    (sym (shown t dir b at k m ∙ if_true _ _ _ e))
                    (slot_after-Booked t dir (slot dir key b))))
          | inr e ↦
              subst (λ hit. Changed hit (Booked t dir) (slot at k b) after) (sym e)
                (shown t dir b at k m ∙ if_false _ _ _ e)
        ]
