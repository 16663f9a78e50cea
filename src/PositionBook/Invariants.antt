-- ===== src/PositionBook/Invariants.antt =====
-- What trades keep true of every position of a book.
use mathlib.Core.Option.{some-injective}
use btrader.Prelude.{
  ℕ, ◌≡◌, refl, ◌∙◌, sym, subst, inl, inr, Bool-cases, Option-cases, Option, none, some, List,
  arith, ◌==◌, ==_iff,
}
use btrader.Prelude.Dict.{find}
use btrader.Double.{Double, NotNegative, IsIeee}
use btrader.CharArray.{text-assign_empty}
use btrader.Types.Enums.{Direction}
use btrader.Types.{
  Trade, Position, assign_position, zero_position, instrument_id_len, exchange_id_len,
}
use btrader.PositionBook.{
  Positions, PositionBook, hash_instrument, position_direction, side_of, with_side,
  created_position, traded_position, update_side, update,
}
use btrader.PositionBook.Slots.{slot, slot_after, find-update_side, trade_key}

module _ {ℓ} {D : Type ℓ} ⦃d : Double D⦄ where
  -- `P` holds of every slot of a map that is taken.
  abbrev pub Everywhere {κ} : (ℕ → Position D → Type κ) → Positions D → Type (ℓ ⊔ κ)
  Everywhere P m = (k : ℕ) (p : Position D) → find k m ≡ some p → P k p

  abbrev pub BothSides {κ} : (ℕ → Position D → Type κ) → PositionBook D → Type (ℓ ⊔ κ)
  BothSides P b = Everywhere P b.long_positions × Everywhere P b.short_positions

  Everywhere-update_side {κ} :
      (P : ℕ → Position D → Type κ) (key : ℕ) (t : Trade D) (dir : Direction) (m : Positions D)
      → ((q : Position D) → slot_after t dir (find key m) ≡ some q → P key q)
      → Everywhere P m
      → Everywhere P (update_side key t dir m)
  Everywhere-update_side P key t dir m new old k p e =
      let f = find-update_side key k t dir m in
      elim (Bool-cases (key == k)) [
        | inl hit ↦ subst (λ i. P i p) ((==_iff key k).0 hit) (new p (sym (rw hit at f) ∙ e))
        | inr miss ↦ old k p (sym (rw miss at f) ∙ e)
      ]

  side-Everywhere {κ} :
      (P : ℕ → Position D → Type κ) (dir : Direction) (b : PositionBook D)
      → BothSides P b
      → Everywhere P (side_of dir b)
  side-Everywhere P Direction.long b h = h.0
  side-Everywhere P _ b h = h.1

  traded_ids :
      (t : Trade D) (p q : Position D)
      → traded_position t p ≡ some q
      → (q.instrument_id ≡ p.instrument_id) × (q.exchange_id ≡ p.exchange_id)
  unfolding traded_position
  traded_ids t p q e = ground arith

  slot_after-NotNegative :
      (laws : IsIeee D) (t : Trade D) (dir : Direction) (o : Option (Position D)) (q : Position D)
      → NotNegative t.volume
      → ((p : Position D) → o ≡ some p → NotNegative p.volume)
      → slot_after t dir o ≡ some q
      → NotNegative q.volume
  unfolding slot_after traded_position assign_position created_position
  slot_after-NotNegative laws t dir none q v h e = ground arith
  slot_after-NotNegative laws t dir (some p) q v h e = ground (
    arith,
    h p,
    laws.add_not_negative p.volume t.volume,
    laws.le_of_lt (d.sub p.volume t.volume) d.zero,
  )

  module _ (hash_str_32 : List ℕ → ℕ) where
    BothSides-update {κ} :
        (P : ℕ → Position D → Type κ) (t : Trade D) (b : PositionBook D)
        → ((dir : Direction) (q : Position D)
            → slot_after t dir (slot dir (trade_key hash_str_32 t) b) ≡ some q
            → P (trade_key hash_str_32 t) q)
        → BothSides P b
        → BothSides P (update hash_str_32 t b)
    unfolding update
    BothSides-update P t b new old = elim (Option-cases (position_direction t.side t.offset)) [
      | inl e ↦ rw (e, update) old
      | inr (dir, e) ↦ rw (e, update) (moved dir)
    ]
      where
        moved :
            (dir : Direction)
            → BothSides P
                (with_side dir (update_side (trade_key hash_str_32 t) t dir (side_of dir b)) b)
        moved Direction.long =
            (Everywhere-update_side P _ t Direction.long _ (new Direction.long) old.0, old.1)
        moved Direction.short =
            (old.0, Everywhere-update_side P _ t Direction.short _ (new Direction.short) old.1)
        moved Direction.unknown =
            (old.0, Everywhere-update_side P _ t Direction.unknown _ (new Direction.unknown) old.1)

    -- The position in a slot carries the instrument that the slot's key is the hash of.
    abbrev pub IsKeyed : ℕ → Position D → Type 0
    IsKeyed k p = hash_instrument hash_str_32 p.exchange_id p.instrument_id ≡ k

    slot_after-IsKeyed :
        (t : Trade D) (dir : Direction) (o : Option (Position D)) (q : Position D)
        → ((p : Position D) → o ≡ some p → IsKeyed (trade_key hash_str_32 t) p)
        → slot_after t dir o ≡ some q
        → IsKeyed (trade_key hash_str_32 t) q
    unfolding slot_after hash_instrument assign_position created_position zero_position
    slot_after-IsKeyed t dir none q h e =
        rw
          (
            ← some-injective _ _ e,
            text-assign_empty instrument_id_len _,
            text-assign_empty instrument_id_len t.instrument_id,
            text-assign_empty exchange_id_len _,
            text-assign_empty exchange_id_len t.exchange_id,
          )
          refl
    slot_after-IsKeyed t dir (some p) q h e =
        let (i, x) = traded_ids t p q e in rw (i, x) (h p refl)

    -- Trades keep every position under the key of its own instrument, in a book where it is so.
    pub update-IsKeyed :
        (t : Trade D) (b : PositionBook D)
        → BothSides IsKeyed b
        → BothSides IsKeyed (update hash_str_32 t b)
    update-IsKeyed t b h =
        BothSides-update IsKeyed t b
          (λ dir q e.
            slot_after-IsKeyed t dir _ q (side-Everywhere IsKeyed dir b h (trade_key hash_str_32 t))
              e)
          h

    -- Under IEEE arithmetic, trades of a volume that is not negative leave no position with a negative
    -- volume in a book that had none.
    pub update-NotNegative :
        (laws : IsIeee D) (t : Trade D) (b : PositionBook D)
        → NotNegative t.volume
        → BothSides (λ k p. NotNegative p.volume) b
        → BothSides (λ k p. NotNegative p.volume) (update hash_str_32 t b)
    update-NotNegative laws t b v h =
        BothSides-update _ t b
          (λ dir q e.
            slot_after-NotNegative laws t dir _ q v
              (side-Everywhere _ dir b h (trade_key hash_str_32 t)) e)
          h
