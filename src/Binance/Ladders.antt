-- ===== src/Binance/Ladders.antt =====
-- The ladders of the quotes that BinanceData writes.
use btrader.Prelude.{
  ℕ, zero, suc, ◌+◌, ◌≤◌, ◌<◌, ◌≡◌, refl, sym, ap, ◌∙◌, Bool, true, false, not, Option, none, some,
  List, [], ◌∷◌, ◌++◌, map, arith, ltb, if◌then◌else◌, length, set, replicate, branches_by,
  length-append,
}
use Prim.Native.Nat.{min}
use mathlib.Core.List.{append-nil, append_assoc}
use btrader.Double.{Double}
use btrader.CharArray.{assign}
use btrader.Json.{given, Lookup, found}
use btrader.Types.Quotes.{Quote, new_quote, ladder_length}
use btrader.Binance.Feed.{
  Item, other, level, Message, quote, fill, price_of, depth_from, process_depth_data, before_at,
  binance,
}

-- The levels among the items.
unfoldable pub levels : List (Option (List ℕ × List ℕ)) → List (List ℕ × List ℕ)
levels [] = []
levels (none ∷ items) = levels items
levels (some p ∷ items) = p ∷ levels items

-- An item that is no level, or one of two strings.
unfoldable pub item_of : Option (List ℕ × List ℕ) → Item
item_of none = other
item_of (some (price, volume)) = level (given price) (given volume)

module _ {ℓ} {A : Type ℓ} (blank : A) where
  -- The first n values, with blanks where there are fewer.
  unfoldable pub pad : ℕ → List A → List A
  pad zero xs = []
  pad (suc n) [] = blank ∷ pad n []
  pad (suc n) (x ∷ xs) = x ∷ pad n xs

  set-pad :
      (n : ℕ) (xs : List A) (x : A)
      → length xs < n
      → set (pad n xs) (length xs) x ≡ pad n (xs ++ (x ∷ []))
  unfolding pad
  set-pad zero xs x h = absurd (omega (arith, h))
  set-pad (suc n) [] x h = refl
  set-pad (suc n) (y ∷ xs) x h = ap (λ t. y ∷ t) (set-pad n xs x (omega arith))

  pad-full : (n : ℕ) (xs ys : List A) → n ≤ length xs → pad n (xs ++ ys) ≡ pad n xs
  unfolding pad
  pad-full zero xs ys h = refl
  pad-full (suc n) [] ys h = absurd (omega (arith, h))
  pad-full (suc n) (x ∷ xs) ys h = ap (λ t. x ∷ t) (pad-full n xs ys (omega arith))

  pad-empty : (n : ℕ) → pad n [] ≡ replicate n blank
  unfolding pad
  pad-empty zero = refl
  pad-empty (suc n) = ap (λ t. blank ∷ t) (pad-empty n)

module _ {ℓ} {D : Type ℓ} ⦃d : Double D⦄ (stod : List ℕ → Option D) where
  open d use {zero}

  unfoldable pub prices : List (List ℕ × List ℕ) → List D
  prices [] = []
  prices ((price, volume) ∷ ls) = price_of stod price ∷ prices ls

  unfoldable pub volumes : List (List ℕ × List ℕ) → List D
  volumes [] = []
  volumes ((price, volume) ∷ ls) = price_of stod volume ∷ volumes ls

  is_full : (n : ℕ) → n ≤ ladder_length → not (ltb n ladder_length) ≡ true → n ≡ ladder_length
  is_full n h e = ground (arith, h, e)

  is_below : (n : ℕ) → not (ltb n ladder_length) ≡ false → n < ladder_length
  is_below n e = ground (arith, e)

  -- What the loop returns for the prices and the volumes of some levels.
  unfoldable pub ladders : List D → List D → Lookup (ℕ × (List D × List D))
  ladders ps vs =
      found (min ladder_length (length ps), (pad zero ladder_length ps, pad zero ladder_length vs))

  ladders-full :
      (ps vs xs ys : List D)
      → length vs ≡ length ps
      → length ps ≡ ladder_length
      → found (length ps, (pad zero ladder_length ps, pad zero ladder_length vs))
        ≡ ladders (ps ++ xs) (vs ++ ys)
  unfolding ladders
  ladders-full ps vs xs ys same h =
      rw
        (
          pad-full zero ladder_length ps xs (omega (arith, h)),
          pad-full zero ladder_length vs ys (omega (arith, h, same)),
          full_size (length ps) (length (ps ++ xs)) h (length-append ps xs),
        )
        refl
    where
      full_size : (n m : ℕ) → n ≡ ladder_length → m ≡ n + length xs → min ladder_length m ≡ n
      full_size n m e k = omega (arith, e, k)

  ladders-here :
      (ps vs : List D)
      → length ps ≤ ladder_length
      → found (length ps, (pad zero ladder_length ps, pad zero ladder_length vs)) ≡ ladders ps vs
  unfolding ladders
  ladders-here ps vs h = rw (within (length ps) h) refl
    where
      within : (n : ℕ) → n ≤ ladder_length → min ladder_length n ≡ n
      within n k = omega (arith, k)

  ladders-more :
      (items : List Item) (ps vs xs ys : List D) (x y : D)
      → length vs ≡ length ps
      → length ps < ladder_length
      → fill stod items
          (length (ps ++ (x ∷ [])))
          (pad zero ladder_length (ps ++ (x ∷ [])))
          (pad zero ladder_length (vs ++ (y ∷ [])))
        ≡ ladders ((ps ++ (x ∷ [])) ++ xs) ((vs ++ (y ∷ [])) ++ ys)
      → fill stod items
          (length ps + 1)
          (set (pad zero ladder_length ps) (length ps) x)
          (set (pad zero ladder_length vs) (length ps) y)
        ≡ ladders (ps ++ (x ∷ xs)) (vs ++ (y ∷ ys))
  ladders-more items ps vs xs ys x y same h rest =
      let stored =
        ap (λ i. set (pad zero ladder_length vs) i y) (sym same)
        ∙ set-pad zero ladder_length vs y (omega (arith, h, same)) in
      rw
        (
          set-pad zero ladder_length ps x h,
          stored,
          sym (length-append ps (x ∷ [])),
          sym (append_assoc ps (x ∷ []) xs),
          sym (append_assoc vs (y ∷ []) ys),
        )
        rest

  length-snoc : (xs : List D) (x : D) → length (xs ++ (x ∷ [])) ≡ length xs + 1
  length-snoc xs x = length-append xs (x ∷ [])

  fill-ladders :
      (items : List (Option (List ℕ × List ℕ))) (ps vs : List D)
      → length vs ≡ length ps
      → length ps ≤ ladder_length
      → fill stod
          (map item_of items)
          (length ps)
          (pad zero ladder_length ps)
          (pad zero ladder_length vs)
        ≡ ladders (ps ++ prices (levels items)) (vs ++ volumes (levels items))
  unfolding fill levels item_of prices volumes
  fill-ladders [] ps vs same h = rw (append-nil ps, append-nil vs) (ladders-here ps vs h)
  fill-ladders (none ∷ items) ps vs same h =
      branches_by
        (λ (r : Lookup (ℕ × (List D × List D))).
          r ≡ ladders (ps ++ prices (levels items)) (vs ++ volumes (levels items)))
        (not (ltb (length ps) ladder_length))
        (λ e. ladders-full ps vs _ _ same (is_full (length ps) h e))
        (λ e. fill-ladders items ps vs same h)
  fill-ladders (some (price, volume) ∷ items) ps vs same h =
      let x = price_of stod price in
      let y = price_of stod volume in
      branches_by
        (λ (r : Lookup (ℕ × (List D × List D))).
          r ≡ ladders (ps ++ (x ∷ prices (levels items))) (vs ++ (y ∷ volumes (levels items))))
        (not (ltb (length ps) ladder_length))
        (λ e. ladders-full ps vs _ _ same (is_full (length ps) h e))
        (λ e. ladders-more (map item_of items) ps vs _ _ x y same (is_below (length ps) e) (
          fill-ladders items (ps ++ (x ∷ [])) (vs ++ (y ∷ []))
            (omega (arith, length-snoc ps x, length-snoc vs y, same))
            (omega (arith, length-snoc ps x, is_below (length ps) e))))

  fill-new :
      (items : List (Option (List ℕ × List ℕ)))
      → fill stod
          (map item_of items)
          0
          (replicate ladder_length zero)
          (replicate ladder_length zero)
        ≡ ladders (prices (levels items)) (volumes (levels items))
  unfolding pad
  fill-new items = fill-ladders items [] [] refl (omega arith)

  -- The quote that the levels of a message make.
  unfoldable pub quote_of :
      Quote D → List ℕ → List (Option (List ℕ × List ℕ)) → List (Option (List ℕ × List ℕ)) → Quote D
  quote_of memory stream bids asks =
      let depth = new_quote memory in
      record depth {
        instrument_id = assign depth.instrument_id (before_at stream ++ (0 ∷ []));
        exchange_id = assign depth.exchange_id binance;
        bid_price = pad zero ladder_length (prices (levels bids));
        bid_volume = pad zero ladder_length (volumes (levels bids));
        real_depth_size = min ladder_length (length (prices (levels bids)));
        ask_price = pad zero ladder_length (prices (levels asks));
        ask_volume = pad zero ladder_length (volumes (levels asks));
      }

  depth_from-quote_of :
      (memory : Quote D) (stream : List ℕ) (bids asks : List (Option (List ℕ × List ℕ)))
      → depth_from stod memory stream (map item_of bids) (map item_of asks)
        ≡ found (quote_of memory stream bids asks)
  unfolding depth_from quote_of new_quote ladders
  depth_from-quote_of memory stream bids asks = rw (fill-new bids, fill-new asks) refl

  -- Where every item of the message is no level or a level of two strings, the quote that is written
  -- holds the first 20 levels of the bids and of the asks, in order, with 0 where a string is no
  -- number and where there are fewer, and its size is the number of levels of the bids, at most 20.
  pub process_depth_data-quote_of :
      (has_writer : Bool) (memory : Quote D) (m : Message) (stream : List ℕ)
      (bids asks : List (Option (List ℕ × List ℕ)))
      → m.has_data ≡ true
      → m.stream ≡ given stream
      → m.bids ≡ some (map item_of bids)
      → m.asks ≡ some (map item_of asks)
      → process_depth_data stod has_writer memory m
        ≡ found (true, if has_writer then some (quote (quote_of memory stream bids asks)) else none)
  unfolding process_depth_data
  process_depth_data-quote_of has_writer memory m stream bids asks h s b a =
      rw (h, s, b, a, depth_from-quote_of memory stream bids asks) refl
