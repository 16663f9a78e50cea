-- ===== src/KeyedBook/Hashed.antt =====
-- core/book.cpp: CommissionBook and InstrumentBook, whose keys are hashes of strings.
use btrader.Prelude.{ℕ, Bool, Option, none, some, List}
use btrader.CharArray.{Chars, text}
use btrader.Types.Products.{Commission, Instrument, store_commission, store_instrument}
use btrader.PositionBook.{hash_instrument}
use btrader.KeyedBook
use btrader.KeyedBook.{same_text, find_by}

module _ {ℓ} {D : Type ℓ} (hash_str_32 : List ℕ → ℕ) where
  unfoldable pub set_commission : Commission D → List (ℕ × Commission D) → List (ℕ × Commission D)
  set_commission commission book =
      KeyedBook.set (λ c. hash_str_32 (text c.product_id)) store_commission commission book

  unfoldable pub set_commissions :
      List (Commission D) → List (ℕ × Commission D) → List (ℕ × Commission D)
  set_commissions commissions book =
      KeyedBook.set_batch (λ c. hash_str_32 (text c.product_id)) store_commission commissions book

  unfoldable pub get_commission : Chars → List (ℕ × Commission D) → Option (Commission D)
  get_commission product_id book = KeyedBook.get (hash_str_32 (text product_id)) book

  unfoldable pub contains_commission : Chars → List (ℕ × Commission D) → Bool
  contains_commission product_id book = KeyedBook.contains (hash_str_32 (text product_id)) book

  unfoldable pub get_with_default : Chars → Commission D → List (ℕ × Commission D) → Commission D
  get_with_default product_id default_commission book = elim (get_commission product_id book) [
    | none ↦ default_commission
    | some c ↦ c
  ]

  unfoldable pub set_instrument : Instrument D → List (ℕ × Instrument D) → List (ℕ × Instrument D)
  set_instrument instrument book =
      KeyedBook.set (λ i. hash_instrument hash_str_32 i.exchange_id i.instrument_id)
        store_instrument instrument book

  unfoldable pub set_instruments :
      List (Instrument D) → List (ℕ × Instrument D) → List (ℕ × Instrument D)
  set_instruments instruments book =
      KeyedBook.set_batch (λ i. hash_instrument hash_str_32 i.exchange_id i.instrument_id)
        store_instrument instruments book

  unfoldable pub get_instrument : Chars → Chars → List (ℕ × Instrument D) → Option (Instrument D)
  get_instrument instrument_id exchange_id book =
      KeyedBook.get (hash_instrument hash_str_32 exchange_id instrument_id) book

  unfoldable pub contains_instrument : Chars → Chars → List (ℕ × Instrument D) → Bool
  contains_instrument instrument_id exchange_id book =
      KeyedBook.contains (hash_instrument hash_str_32 exchange_id instrument_id) book

module _ {ℓ} {D : Type ℓ} where
  unfoldable pub find_by_exchange : Chars → List (ℕ × Instrument D) → List (Instrument D)
  find_by_exchange exchange_id = find_by (λ i. same_text (text i.exchange_id) (text exchange_id))
