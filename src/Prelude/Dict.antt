-- ===== src/Prelude/Dict.antt =====
-- Dictionaries with numbers for keys: std::map and std::unordered_map as association lists in
-- ascending order of their keys. The order of an unordered_map is the implementation's; no theorem
-- about one depends on it.
use btrader.Prelude.{
  ℕ, suc, ◌≤◌, ◌≡◌, refl, Bool, true, false, Option, none, some, List, [], ◌∷◌, arith, ltb, ◌==◌,
  if◌then◌else◌,
}

module _ {ℓ} {V : Type ℓ} where
  -- m.find(k)
  unfoldable pub find : ℕ → List (ℕ × V) → Option V
  find k [] = none
  find k ((j, v) ∷ m) = if j == k then some v else find k m

  -- m.contains(k)
  unfoldable pub contains : ℕ → List (ℕ × V) → Bool
  contains k [] = false
  contains k ((j, v) ∷ m) = if j == k then true else contains k m

  -- m[k] = v, also where the key is new
  unfoldable pub insert : ℕ → V → List (ℕ × V) → List (ℕ × V)
  insert k v [] = (k, v) ∷ []
  insert k v ((j, w) ∷ m) =
      if j == k then (k, v) ∷ m else if ltb k j then (k, v) ∷ (j, w) ∷ m else (j, w) ∷ insert k v m

  -- m.erase(k)
  unfoldable pub erase : ℕ → List (ℕ × V) → List (ℕ × V)
  erase k [] = []
  erase k ((j, v) ∷ m) = if j == k then erase k m else (j, v) ∷ erase k m

  pub find-insert :
      (k j : ℕ) (v : V) (m : List (ℕ × V))
      → find j (insert k v m) ≡ (if k == j then some v else find j m)
  unfolding find insert
  find-insert k j v [] = refl
  find-insert k j v ((i, w) ∷ m) = ground (arith, find-insert k j v m)

  pub find-insert_self : (k : ℕ) (v : V) (m : List (ℕ × V)) → find k (insert k v m) ≡ some v
  find-insert_self k v m = ground (arith, find-insert k k v m)

  pub find-erase :
      (k j : ℕ) (m : List (ℕ × V)) → find j (erase k m) ≡ (if k == j then none else find j m)
  unfolding find erase
  find-erase k j [] = ground arith
  find-erase k j ((i, w) ∷ m) = ground (arith, find-erase k j m)

  pub find-erase_self : (k : ℕ) (m : List (ℕ × V)) → find k (erase k m) ≡ none
  find-erase_self k m = ground (arith, find-erase k k m)

  pub contains-find :
      (k : ℕ) (m : List (ℕ × V)) → contains k m ≡ (elim (find k m) [ none ↦ false | some _ ↦ true ])
  unfolding find contains
  contains-find k [] = refl
  contains-find k ((j, v) ∷ m) = ground (arith, contains-find k m)

  -- All keys lie above a bound, in ascending order.
  abbrev pub Above : ℕ → List (ℕ × V) → Type 0
  Above n [] = Unit
  Above n ((k, v) ∷ m) = (n ≤ k) × Above (suc k) m

  Above-mono : {a b : ℕ} (m : List (ℕ × V)) → a ≤ b → Above b m → Above a m
  Above-mono [] h p = tt
  Above-mono ((k, v) ∷ m) h p = (omega arith, p.1)

  pub insert-Above :
      (n k : ℕ) (v : V) (m : List (ℕ × V)) → n ≤ k → Above n m → Above n (insert k v m)
  unfolding insert
  insert-Above n k v [] h p = (h, tt)
  insert-Above n k v ((j, w) ∷ m) h p = ground (arith, insert-Above (suc j) k v m)

  pub erase-Above : (n k : ℕ) (m : List (ℕ × V)) → Above n m → Above n (erase k m)
  unfolding erase
  erase-Above n k [] p = tt
  erase-Above n k ((j, w) ∷ m) p =
      ground (arith, erase-Above (suc j) k m p.1, Above-mono {a = n} {b = suc j} (erase k m))
