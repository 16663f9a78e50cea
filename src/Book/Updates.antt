-- ===== src/Book/Updates.antt =====
-- What trades and bars do to a Book over time.
use btrader.Prelude.{
  ℕ, ◌≡◌, ◌≢◌, refl, sym, ap, subst, ◌⊎◌, true, false, if_true, if_false, branches_by, ◌∙◌, ◌||◌,
  ◌&&◌, not, Bool-cases, Option-cases, inl, inr, Option, none, some, List, [], ◌∷◌, arith, ◌==◌,
  if◌then◌else◌, both_branches,
}
use btrader.Prelude.Int.{ℤ, pos, negsuc}
use btrader.Prelude.Dict.{find, find-insert}
use btrader.Double.{Double}
use btrader.Types.Enums.{Direction}
use btrader.Types.{Trade, Bar, Position}
use btrader.PositionBook.{Positions}
use btrader.PositionBook.Slots.{slot, Changed}
use btrader.Book.{
  Book, is_blank, direction_factor, update_position_pnl, mark_side, bar_key, mark_book, update_bar,
  update_trade, total_realized_pnl, total_commission, total_tax,
}

pub data Event {ℓ} (D : Type ℓ) : Type ℓ where
  by_trade : Trade D → Event D
  by_bar : Bar D → Event D

long_or_not :
    (dir : Direction)
    → (dir ≡ Direction.long) ⊎ (dir ≢ Direction.long) × (direction_factor dir ≡ negsuc 0)
long_or_not Direction.long = inl refl
long_or_not Direction.short = inr (λ e. cc, refl)
long_or_not Direction.unknown = inr (λ e. cc, refl)

module _ {ℓ} {D : Type ℓ} ⦃d : Double D⦄ where
  -- What a bar makes of the position of its instrument: it is revalued where it has volume.
  abbrev pub revalued : Bar D → Option (Position D) → Option (Position D)
  revalued bar none = none
  revalued bar (some p) = if d.lt d.zero p.volume then some (update_position_pnl bar p) else some p

  -- The position p became q at the close of a bar, with this factor for its direction.
  pub record IsRevalued (bar : Bar D) (factor : ℤ) (p q : Position D) : Type ℓ where
    pub pnl :
        q.unrealized_pnl
        ≡ d.mul (d.mul p.volume (d.sub bar.close p.position_cost_price)) (d.of_int factor)
    pub time : q.update_time ≡ bar.end_time
    pub others : record q { unrealized_pnl = p.unrealized_pnl; update_time = p.update_time } ≡ p

  -- What a slot holds before and after a bar of its instrument.
  pub data Marked (bar : Bar D) : Option (Position D) → Option (Position D) → Type ℓ where
    empty : Marked bar none none
    idle : {p : Position D} → d.lt d.zero p.volume ≡ false → Marked bar (some p) (some p)
    long :
        {p q : Position D}
        → d.lt d.zero p.volume ≡ true
        → p.direction ≡ Direction.long
        → IsRevalued bar (pos 1) p q
        → Marked bar (some p) (some q)
    not_long :
        {p q : Position D}
        → d.lt d.zero p.volume ≡ true
        → p.direction ≢ Direction.long
        → IsRevalued bar (negsuc 0) p q
        → Marked bar (some p) (some q)

  pnl-IsRevalued :
      (bar : Bar D) (p : Position D)
      → IsRevalued bar (direction_factor p.direction) p (update_position_pnl bar p)
  unfolding update_position_pnl
  pnl-IsRevalued bar p = record { pnl = refl; time = refl; others = refl }

  pnl-Marked :
      (bar : Bar D) (p : Position D)
      → d.lt d.zero p.volume ≡ true
      → Marked bar (some p) (some (update_position_pnl bar p))
  pnl-Marked bar p v = elim (long_or_not p.direction) [
    | inl e ↦ long v e (
        subst (λ f. IsRevalued bar f p (update_position_pnl bar p)) (ap direction_factor e)
          (pnl-IsRevalued bar p))
    | inr (n, e) ↦
        not_long v n
          (subst (λ f. IsRevalued bar f p (update_position_pnl bar p)) e (pnl-IsRevalued bar p))
  ]

  revalued-Marked : (bar : Bar D) (o : Option (Position D)) → Marked bar o (revalued bar o)
  revalued-Marked bar none = empty
  revalued-Marked bar (some p) =
      branches_by (Marked bar (some p)) (d.lt d.zero p.volume)
        {u = some (update_position_pnl bar p)} {v = some p} (pnl-Marked bar p) idle

  find-mark_side :
      (key k : ℕ) (bar : Bar D) (m : Positions D)
      → find k (mark_side key bar m) ≡ (if key == k then revalued bar (find k m) else find k m)
  unfolding mark_side
  find-mark_side key k bar m = elim (Option-cases (find key m)) [
    | inl e ↦ rw (mark_side, e) ground (arith, e)
    | inr (p, e) ↦ elim (Bool-cases (d.lt d.zero p.volume)) [
      | inl v ↦ rw (mark_side, e, v, find-insert key k _ m) ground (arith, e, v)
      | inr v ↦ rw (mark_side, e, v) ground (arith, e, v)
    ]
  ]

  module _ (hash_str_32 : List ℕ → ℕ) where
    slot-mark_book :
        (x : Bar D) (b : Book D) (at : Direction) (k : ℕ)
        → slot at k (mark_book hash_str_32 x b).positions ≡ (
            if bar_key hash_str_32 x == k
            then revalued x (slot at k b.positions)
            else slot at k b.positions)
    unfolding mark_book
    slot-mark_book x b Direction.long k =
        find-mark_side (bar_key hash_str_32 x) k x b.positions.long_positions
    slot-mark_book x b Direction.short k =
        find-mark_side (bar_key hash_str_32 x) k x b.positions.short_positions
    slot-mark_book x b Direction.unknown k =
        find-mark_side (bar_key hash_str_32 x) k x b.positions.short_positions

    -- A bar revalues the positions of its instrument, on both sides, and no other slot of the book;
    -- a bar without an instrument or an exchange changes none.
    pub slot-update_bar :
        (bar : Bar D) (b : Book D) (at : Direction) (k : ℕ)
        → slot at k (update_bar hash_str_32 bar b).positions ≡ (
            if not (is_blank bar.instrument_id || is_blank bar.exchange_id)
              && (bar_key hash_str_32 bar == k)
            then revalued bar (slot at k b.positions)
            else slot at k b.positions)
    unfolding update_bar mark_book
    slot-update_bar bar b at k =
        elim (Bool-cases (is_blank bar.instrument_id || is_blank bar.exchange_id)) [
          | inl e ↦ rw (update_bar, e) refl
          | inr e ↦ rw (update_bar, e) (slot-mark_book bar b at k)
        ]

    -- A bar with an instrument and an exchange revalues the positions of its instrument, on both sides,
    -- where they have volume: the profit is the volume times the close over the cost, negated where
    -- the position is not long, and the time is the end of the bar. No other slot changes, and a bar
    -- without an instrument or an exchange changes none.
    pub update_bar-Marked :
        (bar : Bar D) (b : Book D) (at : Direction) (k : ℕ)
        → Changed
            (not (is_blank bar.instrument_id || is_blank bar.exchange_id)
              && (bar_key hash_str_32 bar == k))
            (Marked bar)
            (slot at k b.positions)
            (slot at k (update_bar hash_str_32 bar b).positions)
    update_bar-Marked bar b at k =
        let after = slot at k (update_bar hash_str_32 bar b).positions in
        let hit =
          not (is_blank bar.instrument_id || is_blank bar.exchange_id)
          && (bar_key hash_str_32 bar == k) in
        elim (Bool-cases hit) [
          | inl e ↦
              subst (λ h. Changed h (Marked bar) (slot at k b.positions) after) (sym e)
                (subst (Marked bar (slot at k b.positions))
                  (sym (slot-update_bar bar b at k ∙ if_true _ _ _ e))
                  (revalued-Marked bar (slot at k b.positions)))
          | inr e ↦
              subst (λ h. Changed h (Marked bar) (slot at k b.positions) after) (sym e)
                (slot-update_bar bar b at k ∙ if_false _ _ _ e)
        ]

    unfoldable pub run_events : List (Event D) → Book D → Book D
    run_events [] b = b
    run_events (by_trade t ∷ es) b = run_events es (update_trade hash_str_32 t b)
    run_events (by_bar x ∷ es) b = run_events es (update_bar hash_str_32 x b)

    update_bar-trades : (x : Bar D) (b : Book D) → (update_bar hash_str_32 x b).trades ≡ b.trades
    unfolding update_bar mark_book
    update_bar-trades x b =
        both_branches (λ (c : Book D). c.trades ≡ b.trades)
          (is_blank x.instrument_id || is_blank x.exchange_id) refl refl

    run_events-trades : (es : List (Event D)) (b : Book D) → (run_events es b).trades ≡ b.trades
    unfolding run_events update_trade
    run_events-trades [] b = refl
    run_events-trades (by_trade t ∷ es) b = run_events-trades es (update_trade hash_str_32 t b)
    run_events-trades (by_bar x ∷ es) b =
        run_events-trades es (update_bar hash_str_32 x b) ∙ update_bar-trades x b

    -- No history of trades and bars changes the commission, the tax and the realized profit that a
    -- book reports: `update` does not record the trade.
    pub run_events-totals :
        (es : List (Event D)) (b : Book D)
        → (total_commission (run_events es b) ≡ total_commission b)
          × (total_tax (run_events es b) ≡ total_tax b)
          × (total_realized_pnl (run_events es b) ≡ total_realized_pnl b)
    unfolding total_commission total_tax total_realized_pnl
    run_events-totals es b = let same = run_events-trades es b in rw same (refl, refl, refl)
