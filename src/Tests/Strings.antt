-- ===== src/Tests/Strings.antt =====
-- Arrays of characters that were written once and twice.
use btrader.Prelude.{ℕ, zero, suc, arith, refl, ◌≡◌, ◌↔◌, ◌≤◌, ◌++◌, [], ◌∷◌, drop}
use btrader.CharArray.{Chars, text, strlen, assign, assign_exact_iff, IsClean}

-- "cu" and "m"
abbrev cu : Chars
cu = 99 ∷ 117 ∷ 0 ∷ 0 ∷ []

abbrev m : Chars
m = 109 ∷ 0 ∷ 0 ∷ 0 ∷ []

drop_nil : (k : ℕ) → drop {A = ℕ} k [] ≡ []
drop_nil zero = refl
drop_nil (suc k) = refl

cu-IsClean : IsClean cu
unfolding text
cu-IsClean zero h = absurd (omega (arith, h))
cu-IsClean (suc zero) h = absurd (omega (arith, h))
cu-IsClean (suc (suc zero)) h = refl
cu-IsClean (suc (suc (suc zero))) h = refl
cu-IsClean (suc (suc (suc (suc k)))) h = rw (drop_nil k) refl

assign_exact_iff_example :
    (text (assign cu m) ≡ text m ++ drop (strlen m) (text cu))
    × ((text (assign cu m) ≡ text m) ↔ (strlen cu ≤ strlen m))
assign_exact_iff_example = assign_exact_iff cu m cu-IsClean
