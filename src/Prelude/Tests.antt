-- ===== src/Prelude/Tests.antt =====
-- Boolean tests on the native numbers, and the conditional.
use Prim.Native.Nat.{ℕ, ◌≤◌, ◌<◌, compare, Ordering}
use mathlib.Core.Path.{◌≡◌, refl, ap}
use mathlib.Core.Logic.{◌↔◌, ◌⊎◌, inl, inr}
use mathlib.Core.Bool.{Bool, true, false}
use mathlib.Core.Option.{Option, none, some}
use native.Mathlib.Omega.{arith}

-- These compute to `compare`, which `ground` and `grind` read with no lemma listed.
abbrev pub ltb : ℕ → ℕ → Bool
ltb a b = elim (compare a b) [ Ordering.lt ↦ true | _ ↦ false ]

abbrev pub leb : ℕ → ℕ → Bool
leb a b = elim (compare a b) [ Ordering.gt ↦ false | _ ↦ true ]

infix 50 ◌==◌
abbrev pub ◌==◌ : ℕ → ℕ → Bool
a == b = elim (compare a b) [ Ordering.eq ↦ true | _ ↦ false ]

infix 1 if◌then◌else◌
abbrev pub if◌then◌else◌ {ℓ} : {A : Type ℓ} → Bool → A → A → A
if true then x else y = x
if false then x else y = y

-- `omega` reads a test through such lemmas.
pub ltb→lt : (a b : ℕ) → ltb a b ≡ true → a < b
ltb→lt a b h = ground arith

pub lt→ltb : (a b : ℕ) → a < b → ltb a b ≡ true
lt→ltb a b h = ground arith

pub leb→le : (a b : ℕ) → leb a b ≡ true → a ≤ b
leb→le a b h = ground arith

pub ==_iff : (a b : ℕ) → ((a == b) ≡ true) ↔ (a ≡ b)
==_iff a b = ground arith

pub ruleset tests = (arith, ltb→lt, lt→ltb, leb→le)

-- Both branches of a conditional satisfy Q.
pub both_branches {ℓ κ} :
    {A : Type ℓ} (Q : A → Type κ) (test : Bool) {u v : A} → Q u → Q v → Q (if test then u else v)
both_branches Q true = λ p q. p
both_branches Q false = λ p q. q

-- Each branch under the value of the test.
pub branches_by {ℓ κ} :
    {A : Type ℓ} (Q : A → Type κ) (test : Bool) {u v : A}
    → (test ≡ true → Q u)
    → (test ≡ false → Q v)
    → Q (if test then u else v)
branches_by Q true = λ p q. p refl
branches_by Q false = λ p q. q refl

-- A test whose value is known.
pub if_true {ℓ} : {A : Type ℓ} (test : Bool) (u v : A) → test ≡ true → (if test then u else v) ≡ u
if_true test u v e = ap (λ b. if b then u else v) e

pub if_false {ℓ} : {A : Type ℓ} (test : Bool) (u v : A) → test ≡ false → (if test then u else v) ≡ v
if_false test u v e = ap (λ b. if b then u else v) e

-- To split on a computed value and keep the equation.
pub Bool-cases : (b : Bool) → (b ≡ true) ⊎ (b ≡ false)
Bool-cases true = inl refl
Bool-cases false = inr refl

pub Option-cases {ℓ} : {A : Type ℓ} (o : Option A) → (o ≡ none) ⊎ ((a : A) × (o ≡ some a))
Option-cases none = inl refl
Option-cases (some a) = inr (a, refl)
