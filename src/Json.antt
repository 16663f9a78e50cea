-- ===== src/Json.antt =====
-- How the code reads the entries of a JSON object, which a library parses: what it looks up is an
-- argument of the model. An entry is absent, has another type than the one asked for, or is given.
use btrader.Prelude.{Bool, true, false}

pub data Entry {ℓ} (A : Type ℓ) : Type ℓ where
  absent mistyped : Entry A
  given : A → Entry A

-- What one entry does to the strategy, where no entry before it threw.
abbrev pub apply_entry {ℓ κ} :
    {A : Type ℓ} {S : Type κ} → Entry A → (A → S → S) → S × Bool → S × Bool
apply_entry e f (s, false) = (s, false)
apply_entry absent f (s, true) = (s, true)
apply_entry mistyped f (s, true) = (s, false)
apply_entry (given a) f (s, true) = (f a s, true)

-- P holds of the object that the parsing leaves.
pub record Leaves {ℓ μ} {S : Type ℓ} (P : S → Type μ) (p : S × Bool) : Type μ where
  pub holds : P p.0

pub apply_entry-Leaves {ℓ κ μ} :
    {A : Type ℓ} {S : Type κ} (P : S → Type μ) (e : Entry A) (f : A → S → S) (p : S × Bool)
    → ((a : A) (s : S) → P s → P (f a s))
    → Leaves P p
    → Leaves P (apply_entry e f p)
apply_entry-Leaves P e f (s, false) keep h = h
apply_entry-Leaves P absent f (s, true) keep h = h
apply_entry-Leaves P mistyped f (s, true) keep h = record { holds = h.holds }
apply_entry-Leaves P (given a) f (s, true) keep h = record { holds = keep a s h.holds }

-- A chain of lookups. `get` of an entry of another type throws, which the caller catches; operator[]
-- of a constant object on an absent key is undefined behaviour.
pub data Lookup {ℓ} (A : Type ℓ) : Type ℓ where
  found : A → Lookup A
  thrown undefined : Lookup A

infixl 20 ◌>>=◌
abbrev pub ◌>>=◌ {ℓ κ} : {A : Type ℓ} {B : Type κ} → Lookup A → (A → Lookup B) → Lookup B
found a >>= next = next a
thrown >>= next = thrown
undefined >>= next = undefined

-- object[key].get<A>()
abbrev pub value {ℓ} : {A : Type ℓ} → Entry A → Lookup A
value absent = undefined
value mistyped = thrown
value (given a) = found a

-- object.contains(key)
abbrev pub contains {ℓ} : {A : Type ℓ} → Entry A → Bool
contains absent = false
contains _ = true
