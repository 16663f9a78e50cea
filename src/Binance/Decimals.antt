-- ===== src/Binance/Decimals.antt =====
-- Numbers that are printed by std::to_string are read back by std::stoull.
use btrader.Prelude.{
  ℕ, zero, suc, ◌+◌, ◌*◌, ◌/◌, ◌%◌, ◌^◌, ◌<◌, ◌≡◌, ap, ◌∙◌, true, ◌&&◌, some, List, [], ◌∷◌, arith,
  ltb, leb, ◌==◌, both_branches, branches_by, if_true,
}
use btrader.Binance.{digits, decimal}
use btrader.Binance.Broker.Requests.{parse_digits, begins_with_digit, stoull}

-- 10 ^ n, by recursion
power : ℕ → ℕ
power zero = 1
power (suc n) = 10 * power n

parse_digit :
    (n d : ℕ) (rest : List ℕ)
    → d < 10
    → parse_digits n ((48 + d) ∷ rest) ≡ parse_digits (n * 10 + d) rest
unfolding parse_digits
parse_digit n d rest h =
    if_true (leb 48 (48 + d) && leb (48 + d) 57) _ n (ground (arith, h))
    ∙ ap (λ k. parse_digits k rest) (omega arith)

parse_digits-digits :
    (fuel n : ℕ) (rest : List ℕ)
    → n < power fuel
    → parse_digits 0 (digits fuel n rest) ≡ parse_digits n rest
unfolding digits power
parse_digits-digits zero n rest h = ap (λ k. parse_digits k rest) (omega (arith, h))
parse_digits-digits (suc fuel) n rest h =
    branches_by (λ s. parse_digits 0 s ≡ parse_digits n rest) (n / 10 == 0)
      (λ e.
        parse_digit 0 (n % 10) rest (omega arith)
        ∙ ap (λ k. parse_digits k rest) (ground (arith, e)))
      (λ e.
        parse_digits-digits fuel (n / 10) ((48 + n % 10) ∷ rest) (omega (arith, h))
        ∙ parse_digit (n / 10) (n % 10) rest (omega arith)
        ∙ ap (λ k. parse_digits k rest) (omega arith))

begins_with_digit-digits :
    (fuel n d : ℕ) (rest : List ℕ)
    → d < 10
    → begins_with_digit (digits fuel n ((48 + d) ∷ rest)) ≡ true
unfolding digits
begins_with_digit-digits zero n d rest h = ground (arith, h)
begins_with_digit-digits (suc fuel) n d rest h =
    both_branches (λ s. begins_with_digit s ≡ true) (n / 10 == 0) (ground arith)
      (begins_with_digit-digits fuel (n / 10) (n % 10) ((48 + d) ∷ rest) (omega arith))

begins_with_digit-digits-suc : (fuel n : ℕ) → begins_with_digit (digits (suc fuel) n []) ≡ true
unfolding digits
begins_with_digit-digits-suc fuel n =
    both_branches (λ s. begins_with_digit s ≡ true) (n / 10 == 0) (ground arith)
      (begins_with_digit-digits fuel (n / 10) (n % 10) [] (omega arith))

begins_with_digit-decimal : (n : ℕ) → begins_with_digit (decimal n) ≡ true
unfolding decimal
begins_with_digit-decimal n = begins_with_digit-digits-suc 19 n

parse_digits-decimal : (n : ℕ) → n < 2 ^ 64 → parse_digits 0 (decimal n) ≡ n
unfolding decimal power parse_digits
parse_digits-decimal n h = parse_digits-digits 20 n [] (omega arith)

-- A number of 64 bits that is printed is read back.
pub stoull-decimal : (n : ℕ) → n < 2 ^ 64 → stoull (decimal n) ≡ some n
unfolding stoull
stoull-decimal n h =
    rw (begins_with_digit-decimal n, parse_digits-decimal n h)
      (if_true (ltb n (2 ^ 64)) _ _ (ground arith))
