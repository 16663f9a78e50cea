-- ===== src/CharArray.antt =====
-- infra/array.h at T = char: the N bytes of a fixed array that holds a C string.
use mathlib.Core.List.{append-nil}
use native.Mathlib.Decide.{dec_lt}
use btrader.Prelude.{
  ℕ, zero, suc, ◌-◌, ◌≤◌, ◌≡◌, refl, ap, sym, ◌∙◌, ◌↔◌, length-append, length-drop, Option, none,
  some, List, [], ◌∷◌, ◌++◌, arith, ◌==◌, if◌then◌else◌, length, drop, replicate,
}

abbrev pub Chars : Type 0
Chars = List ℕ

-- to_string, for an array that holds a NUL (reading past the array is not modelled).
unfoldable pub text : Chars → List ℕ
text [] = []
text (c ∷ cs) = if c == 0 then [] else c ∷ text cs

-- strlen(data)
abbrev pub strlen : Chars → ℕ
strlen cs = length (text cs)

-- The default constructor.
abbrev pub empty_array : ℕ → Chars
empty_array n = replicate n 0

-- operator=: memcpy(value, data, strlen(data)), for a string that fits
unfoldable pub assign : Chars → Chars → Chars
assign old source = text source ++ drop (strlen source) old

-- An array of a struct that a map holds, or has just made, assigned to.
abbrev pub assign_over {ℓ} : {V : Type ℓ} → ℕ → (V → Chars) → Option V → Chars → Chars
assign_over n array none source = assign (empty_array n) source
assign_over n array (some old) source = assign (array old) source

text-append : (cs ds : Chars) → text (text cs ++ ds) ≡ text cs ++ text ds
unfolding text
text-append [] ds = refl
text-append (c ∷ cs) ds = ground (arith, text-append cs ds)

text-zeros : (n : ℕ) → text (replicate n 0) ≡ []
unfolding text
text-zeros zero = refl
text-zeros (suc n) = refl

drop-replicate : (k n : ℕ) → drop k (empty_array n) ≡ empty_array (n - k)
drop-replicate zero n = ground arith
drop-replicate (suc k) zero = ground arith
drop-replicate (suc k) (suc n) = ground (arith, drop-replicate k n)

drop-text : (k : ℕ) (cs : Chars) → k ≤ strlen cs → text (drop k cs) ≡ drop k (text cs)
unfolding text
drop-text zero cs h = refl
drop-text (suc k) [] h = refl
drop-text (suc k) (c ∷ cs) h = ground (arith, drop-text k cs)

-- After an assignment the string is the new one, followed by what the old one had beyond its length.
pub text-assign :
    (old source : Chars) → text (assign old source) ≡ text source ++ text (drop (strlen source) old)
unfolding assign
text-assign old source = text-append source (drop (strlen source) old)

-- Into an array that was just constructed the copy is exact.
pub text-assign_empty :
    (n : ℕ) (source : Chars) → text (assign (empty_array n) source) ≡ text source
text-assign_empty n source =
    text-assign (empty_array n) source
    ∙ rw (drop-replicate (strlen source) n, text-zeros, append-nil)

-- Nothing is left behind the first NUL; so it is for an array that was only constructed and assigned.
abbrev pub IsClean : Chars → Type 0
IsClean cs = (k : ℕ) → strlen cs ≤ k → text (drop k cs) ≡ []

pub empty_array-IsClean : (n : ℕ) → IsClean (empty_array n)
empty_array-IsClean n k h = rw (drop-replicate k n) (text-zeros (n - k))

drop_all : (k : ℕ) (cs : List ℕ) → length cs ≤ k → drop k cs ≡ []
drop_all zero [] h = refl
drop_all zero (c ∷ cs) h = absurd (omega (arith, h))
drop_all (suc k) [] h = refl
drop_all (suc k) (c ∷ cs) h = drop_all k cs (omega arith)

text-drop-clean : (k : ℕ) (cs : Chars) → IsClean cs → text (drop k cs) ≡ drop k (text cs)
text-drop-clean k cs clean = elim (dec_lt k (strlen cs)) [
  | yes h ↦ drop-text k cs (omega arith)
  | no h ↦ clean k (omega arith) ∙ sym (drop_all k (text cs) (omega arith))
]

-- After an assignment to a clean array the string is the new one, followed by what the old string
-- had beyond its length; so it is the new one exactly when that is not shorter than the old.
pub assign_exact_iff :
    (old source : Chars)
    → IsClean old
    → (text (assign old source) ≡ text source ++ drop (strlen source) (text old))
      × ((text (assign old source) ≡ text source) ↔ (strlen old ≤ strlen source))
assign_exact_iff old source clean = (tail, (exact→le, le→exact))
  where
    tail : text (assign old source) ≡ text source ++ drop (strlen source) (text old)
    tail =
        rw (text-assign old source)
          (ap (λ r. text source ++ r) (text-drop-clean (strlen source) old clean))

    le→exact : strlen old ≤ strlen source → text (assign old source) ≡ text source
    le→exact h = rw (text-assign old source, clean (strlen source) h) (append-nil (text source))

    exact→le : text (assign old source) ≡ text source → strlen old ≤ strlen source
    exact→le e = omega (
      arith,
      ap length e,
      ap length tail,
      length-append (text source) (drop (strlen source) (text old)),
      length-drop (strlen source) (text old),
    )
