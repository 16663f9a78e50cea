-- ===== src/Book/Validation.antt =====
-- core/book.cpp: the checks of Book, over its positions and over the keys of its orders and trades.
use btrader.Prelude.{
  ℕ, suc, ◌≤◌, ◌<◌, ◌≡◌, refl, ◌∙◌, Bool, true, false, not, ◌||◌, List, [], ◌∷◌, arith, ◌==◌,
  if◌then◌else◌, if_false,
}
use btrader.Prelude.Dict.{Above}
use btrader.Double.{Double}
use btrader.PositionBook.{Positions, PositionBook}

module _ {ℓ} {D : Type ℓ} ⦃d : Double D⦄ where
  open d use {lt, zero}

  unfoldable pub validate_side : Positions D → Bool
  validate_side [] = true
  validate_side ((key, position) ∷ m) =
      let rest = validate_side m in if lt position.volume zero then false else rest

  unfoldable pub validate_positions : PositionBook D → Bool
  validate_positions b =
      if not (validate_side b.long_positions) then false else validate_side b.short_positions

-- Whether a set holds the id.
unfoldable pub is_known : ℕ → List ℕ → Bool
is_known id [] = false
is_known id (other ∷ ids) = (other == id) || is_known id ids

AllBelow : ℕ → List ℕ → Type 0
AllBelow n [] = Unit
AllBelow n (id ∷ ids) = (id < n) × AllBelow n ids

AllBelow-mono : {n m : ℕ} (ids : List ℕ) → n ≤ m → AllBelow n ids → AllBelow m ids
unfolding AllBelow
AllBelow-mono [] h b = tt
AllBelow-mono (id ∷ ids) h b = (omega (arith, h, b.0), AllBelow-mono ids h b.1)

AllBelow-unknown : (n : ℕ) (ids : List ℕ) → AllBelow n ids → is_known n ids ≡ false
unfolding AllBelow is_known
AllBelow-unknown n [] b = refl
AllBelow-unknown n (id ∷ ids) b = ground (arith, b.0, AllBelow-unknown n ids b.1)

module _ {ℓ} {V : Type ℓ} where
  -- The loop of validate_orders and of validate_trades, with the ids that the set holds.
  unfoldable pub validate_ids : List (ℕ × V) → List ℕ → Bool
  validate_ids [] ids = true
  validate_ids ((id, v) ∷ m) ids =
      let rest = validate_ids m (id ∷ ids) in if is_known id ids then false else rest

  ascending_pass :
      (n : ℕ) (m : List (ℕ × V)) (ids : List ℕ)
      → Above n m
      → AllBelow n ids
      → validate_ids m ids ≡ true
  unfolding validate_ids AllBelow
  ascending_pass n [] ids a b = refl
  ascending_pass n ((id, v) ∷ m) ids a b =
      if_false (is_known id ids) _ _ (AllBelow-unknown id ids (AllBelow-mono ids a.0 b))
      ∙ ascending_pass (suc id) m (id ∷ ids) a.1
          (omega arith, AllBelow-mono ids (omega (arith, a.0)) b)

  -- The check of the ids of a map never fails, since a map has each key once.
  pub validate_ids-passes : (m : List (ℕ × V)) → Above 0 m → validate_ids m [] ≡ true
  unfolding AllBelow
  validate_ids-passes m a = ascending_pass 0 m [] a tt
