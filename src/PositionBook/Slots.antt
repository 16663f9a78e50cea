-- ===== src/PositionBook/Slots.antt =====
-- A position book as a function from a direction and a key to a position: what each operation does
-- to every slot.
use btrader.Prelude.{
  ℕ, ◌≡◌, refl, ◌≢◌, ◌↔◌, inl, inr, Bool, true, false, not, ◌&&◌, Option-cases, Option, none, some,
  List, arith, ◌==◌, if◌then◌else◌,
}
use btrader.Prelude.Dict.{find, find-insert, find-erase, contains-find}
use btrader.Double.{Double}
use btrader.CharArray.{Chars}
use btrader.Types.Enums.{Direction, is_long}
use btrader.Types.{Trade, Position, assign_position, zero_position}
use btrader.PositionBook.{
  Positions, PositionBook, hash_instrument, position_direction, side_of, with_side, put,
  created_position, traded_position, update_side, set, remove_position, update,
}

-- Two directions that name the same map: whatever is not Long is the short side.
abbrev pub same_side : Direction → Direction → Bool
same_side a b = if is_long a then is_long b else not (is_long b)

-- Where the slot is touched it changes as `P` says, else it stays as it was.
abbrev pub Changed {ℓ} : {A : Type ℓ} → Bool → (A → A → Type ℓ) → A → A → Type ℓ
Changed true P before after = P before after
Changed false P before after = after ≡ before

module _ {ℓ} {D : Type ℓ} ⦃d : Double D⦄ where
  -- What is stored where `p` is assigned over a slot.
  unfoldable pub stored : Option (Position D) → Position D → Position D
  stored none p = assign_position zero_position p
  stored (some old) p = assign_position old p

  -- What a trade makes of the slot that it concerns.
  unfoldable pub slot_after : Trade D → Direction → Option (Position D) → Option (Position D)
  slot_after t dir none = some (assign_position zero_position (created_position t dir))
  slot_after t dir (some p) = traded_position t p

  find-put :
      (key k : ℕ) (p : Position D) (m : Positions D)
      → find k (put key p m) ≡ (if key == k then some (stored (find key m) p) else find k m)
  unfolding put stored
  find-put key k p m = elim (Option-cases (find key m)) [
    | inl e ↦ rw (e, find-insert key k _ m) refl
    | inr (q, e) ↦ rw (e, find-insert key k _ m) refl
  ]

  pub find-update_side :
      (key k : ℕ) (t : Trade D) (dir : Direction) (m : Positions D)
      → find k (update_side key t dir m)
        ≡ (if key == k then slot_after t dir (find key m) else find k m)
  unfolding update_side slot_after stored
  find-update_side key k t dir m = elim (Option-cases (find key m)) [
    | inl e ↦ rw (e, update_side) (rw (find-put key k (created_position t dir) m, e) refl)
    | inr (p, e) ↦ elim (Option-cases (traded_position t p)) [
      | inl e' ↦ rw (e, update_side, e') (rw (find-erase key k m) refl)
      | inr (q, e') ↦ rw (e, update_side, e') (rw (find-insert key k q m) refl)
    ]
  ]

  -- The slot of a book: what `get` finds for a direction and a key.
  abbrev pub slot : Direction → ℕ → PositionBook D → Option (Position D)
  slot dir k b = find k (side_of dir b)

  -- Where one key of one side is changed, every other slot is as before.
  slot-with_side :
      (at dir : Direction) (key k : ℕ) (m : Positions D) (x : Option (Position D))
      (b : PositionBook D)
      → ((j : ℕ) → find j m ≡ (if key == j then x else find j (side_of dir b)))
      → slot at k (with_side dir m b) ≡ (if same_side at dir && (key == k) then x else slot at k b)
  slot-with_side Direction.long Direction.long key k m x b h = h k
  slot-with_side Direction.long _ key k m x b h = refl
  slot-with_side Direction.short Direction.long key k m x b h = refl
  slot-with_side Direction.short Direction.short key k m x b h = h k
  slot-with_side Direction.short Direction.unknown key k m x b h = h k
  slot-with_side Direction.unknown Direction.long key k m x b h = refl
  slot-with_side Direction.unknown Direction.short key k m x b h = h k
  slot-with_side Direction.unknown Direction.unknown key k m x b h = h k

  slot_unchanged :
      (at dir : Direction) (key k : ℕ) (x : Option (Position D)) (b : PositionBook D)
      → slot dir key b ≡ x
      → slot at k b ≡ (if same_side at dir && (key == k) then x else slot at k b)
  slot_unchanged Direction.long Direction.long key k x b h = ground arith
  slot_unchanged Direction.long _ key k x b h = refl
  slot_unchanged Direction.short Direction.long key k x b h = refl
  slot_unchanged Direction.short _ key k x b h = ground arith
  slot_unchanged Direction.unknown Direction.long key k x b h = refl
  slot_unchanged Direction.unknown _ key k x b h = ground arith

  module _ (hash_str_32 : List ℕ → ℕ) where
    abbrev pub trade_key : Trade D → ℕ
    trade_key t = hash_instrument hash_str_32 t.exchange_id t.instrument_id

    -- What a book shows in a slot after a trade, from what it showed before.
    abbrev pub shown_after : Trade D → PositionBook D → Direction → ℕ → Option (Position D)
    shown_after t b at k = elim (position_direction t.side t.offset) [
      | none ↦ slot at k b
      | some dir ↦
          if same_side at dir && (trade_key t == k)
          then slot_after t dir (slot dir (trade_key t) b)
          else slot at k b
    ]

    -- A trade changes the slot of its instrument on the side that it moves, as `slot_after` says, and
    -- no other slot of the book. A trade whose side is neither buy nor sell changes no slot.
    pub slot-update :
        (t : Trade D) (b : PositionBook D) (at : Direction) (k : ℕ)
        → slot at k (update hash_str_32 t b) ≡ shown_after t b at k
    unfolding update
    slot-update t b at k = elim (Option-cases (position_direction t.side t.offset)) [
      | inl e ↦ rw (shown_after, e, update) refl
      | inr (dir, e) ↦
          rw (shown_after, e, update)
            (slot-with_side at dir (trade_key t) k _ _ b
              λ j. find-update_side (trade_key t) j t dir (side_of dir b))
    ]

    abbrev position_key : Position D → ℕ
    position_key p = hash_instrument hash_str_32 p.exchange_id p.instrument_id

    -- `set` writes one slot, by struct assignment to what stood there; every other slot is as before.
    pub slot-set :
        (p : Position D) (b : PositionBook D) (at : Direction) (k : ℕ)
        → slot at k (set hash_str_32 p b) ≡ (
            if same_side at p.direction && (position_key p == k)
            then some (stored (slot p.direction (position_key p) b) p)
            else slot at k b)
    unfolding set
    slot-set p b at k =
        slot-with_side at p.direction (position_key p) k _ _ b
          λ j. find-put (position_key p) j p (side_of p.direction b)

    -- `remove_position` says whether the position was there, empties its slot, and leaves every
    -- other slot as it was.
    pub slot-remove_position :
        (instrument_id exchange_id : Chars) (dir at : Direction) (k : ℕ) (b : PositionBook D)
        → let key = hash_instrument hash_str_32 exchange_id instrument_id in
          let (after, removed) = remove_position hash_str_32 instrument_id exchange_id dir b in
          ((removed ≡ true) ↔ (slot dir key b ≢ none))
          × (slot at k after ≡ (if same_side at dir && (key == k) then none else slot at k b))
    unfolding remove_position
    slot-remove_position instrument_id exchange_id dir at k b =
        let key = hash_instrument hash_str_32 exchange_id instrument_id in
        elim (Option-cases (slot dir key b)) [
          | inl e ↦
              rw (contains-find key (side_of dir b), e)
                ((λ r. cc, λ r. absurd (r refl)), slot_unchanged at dir key k none b e)
          | inr (p, e) ↦
              rw (contains-find key (side_of dir b), e)
                (
                  (λ r q. cc, λ r. refl),
                  slot-with_side at dir key k _ none b λ j. find-erase key j (side_of dir b),
                )
        ]
