-- ===== src/BrokerSim/Levels.antt =====
-- What the loop over the price levels in BrokerSim::match_order_with_market_data executes.
use btrader.Prelude.{
  ◌≡◌, refl, true, false, List, [], ◌∷◌, inl, inr, arith, if◌then◌else◌, Bool-cases,
}
use btrader.Double.{Double, IsIeee}
use btrader.Types.Enums.{is_buy, is_limit}
use btrader.Types.{Order}
use btrader.BrokerSim.{BrokerSim}
use btrader.BrokerSim.Matching.{
  Fill, apply_slippage, can_execute_order, check_funds_sufficiency, take_level, min_double,
  match_levels,
}

module _ {ℓ} {D : Type ℓ} ⦃d : Double D⦄ where
  -- The price keeps to the limit of the order.
  abbrev pub WithinLimit : Order D → D → Type 0
  WithinLimit o price =
      is_limit o.price_type ≡ true
      → (if is_buy o.side then d.le price o.limit_price else d.le o.limit_price price) ≡ true

  -- An execution against a level: at the slipped price, within the limit, of no more than the level
  -- offers, and for a buyer within the funds.
  abbrev pub Fits : BrokerSim D → Order D → D × D → D × D → Type ℓ
  Fits s o (offered, offered_volume) (price, volume) =
      (price ≡ apply_slippage s offered o.side)
      × WithinLimit o price
      × (d.lt offered_volume volume ≡ false)
      × (is_buy o.side ≡ true → d.lt s.asset.avail (d.mul price volume) ≡ false)

  -- Executions that fit levels of the depth, in the order of the levels, each level at most once.
  pub data AsOffered (s : BrokerSim D) (o : Order D) : List (D × D) → List (D × D) → Type ℓ where
    done : (levels : List (D × D)) → AsOffered s o levels []
    taken :
        (level x : D × D) (levels xs : List (D × D))
        → Fits s o level x
        → AsOffered s o levels xs
        → AsOffered s o (level ∷ levels) (x ∷ xs)
    passed :
        (level : D × D) (levels xs : List (D × D))
        → AsOffered s o levels xs
        → AsOffered s o (level ∷ levels) xs

  abbrev pub take_all : List (D × D) → Fill D → Fill D
  take_all [] f = f
  take_all ((price, volume) ∷ xs) f = take_all xs (take_level price volume f)

  can_execute_order-WithinLimit :
      (o : Order D) (price : D) → can_execute_order o price ≡ true → WithinLimit o price
  unfolding can_execute_order
  can_execute_order-WithinLimit o price h l = ground arith

  lt_irreflexive : ⦃h : IsIeee D⦄ (x : D) → d.lt x x ≡ false
  lt_irreflexive ⦃h = h⦄ x = elim (Bool-cases (d.lt x x)) [
    | inl e ↦ h.lt_asymmetric x x e
    | inr e ↦ e
  ]

  check_funds_sufficiency_lem :
      (s : BrokerSim D) (o : Order D) (price volume : D)
      → check_funds_sufficiency s o price volume ≡ true
      → is_buy o.side ≡ true
      → d.lt s.asset.avail (d.mul price volume) ≡ false
  unfolding check_funds_sufficiency
  check_funds_sufficiency_lem s o price volume h b = ground arith

  min_double_lem : ⦃h : IsIeee D⦄ (a b : D) → d.lt b (min_double a b) ≡ false
  min_double_lem a b = elim (Bool-cases (d.lt b a)) [
    | inl e ↦ rw e (lt_irreflexive b)
    | inr e ↦ rw e e
  ]

  -- Under IEEE arithmetic the loop over the levels executes fills as AsOffered describes them, and
  -- its totals are those of taking these fills one after the other.
  pub match_levels-AsOffered :
      ⦃h : IsIeee D⦄ (s : BrokerSim D) (o : Order D) (levels : List (D × D)) (f : Fill D)
      → (xs : List (D × D)) × AsOffered s o levels xs × (match_levels s o levels f ≡ take_all xs f)
  unfolding match_levels
  match_levels-AsOffered s o [] f = ([], AsOffered.done [], refl)
  match_levels-AsOffered s o ((price, volume) ∷ levels) f =
      let final_price = apply_slippage s price o.side in
      let trade_volume = min_double f.remaining volume in
      let next = take_level final_price trade_volume f in
      elim (Bool-cases (d.le f.remaining d.zero)) [
        | inl e ↦ ([], AsOffered.done _, rw e refl)
        | inr e ↦ elim (Bool-cases (can_execute_order o final_price)) [
          | inr c ↦ ([], AsOffered.done _, rw (e, c) refl)
          | inl c ↦ elim (Bool-cases (check_funds_sufficiency s o final_price trade_volume)) [
            | inr q ↦
                let (xs, offered, same) = match_levels-AsOffered s o levels f in
                (xs, AsOffered.passed _ _ _ offered, rw (e, c, q) same)
            | inl q ↦
                let (xs, offered, same) = match_levels-AsOffered s o levels next in
                (
                  (final_price, trade_volume) ∷ xs,
                  AsOffered.taken _ _ _ _
                      (
                        refl,
                        can_execute_order-WithinLimit o final_price c,
                        min_double_lem f.remaining volume,
                        check_funds_sufficiency_lem s o final_price trade_volume q,
                      )
                      offered,
                  rw (e, c, q) same,
                )
          ]
        ]
      ]
