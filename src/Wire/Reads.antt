-- ===== src/Wire/Reads.antt =====
-- What was written is read back, with any bytes behind it.
use btrader.Prelude.{
  ℕ, zero, suc, ◌+◌, ◌*◌, ◌/◌, ◌%◌, ◌^◌, ◌<◌, ◌≡◌, refl, ap, some, List, [], ◌∷◌, ◌++◌, arith,
  length,
}
use mathlib.Core.List.{append_assoc}
use btrader.Wire.{put_uint, get_uint, get_bytes, put_text, get_text}

-- n lies in w bytes.
abbrev pub Fits : ℕ → ℕ → Type 0
Fits w n = n < 256 ^ w

pub get_uint-put_uint :
    (w n : ℕ) (rest : List ℕ) → Fits w n → get_uint w (put_uint w n ++ rest) ≡ some (n, rest)
unfolding get_uint put_uint
get_uint-put_uint zero n rest h = let e : n ≡ 0 = omega (arith, h) in rw e refl
get_uint-put_uint (suc w) n rest h =
    let whole : n % 256 + 256 * (n / 256) ≡ n = omega arith in
    rw (get_uint-put_uint w (n / 256) rest (omega (arith, h)), whole) refl

pub get_bytes-append : (s rest : List ℕ) → get_bytes (length s) (s ++ rest) ≡ some (s, rest)
unfolding get_bytes
get_bytes-append [] rest = refl
get_bytes-append (b ∷ s) rest = rw (get_bytes-append s rest) refl

pub get_text-put_text :
    (s rest : List ℕ) → Fits 4 (length s) → get_text (put_text s ++ rest) ≡ some (s, rest)
unfolding get_text put_text
get_text-put_text s rest h =
    rw (append_assoc (put_uint 4 (length s)) s rest, get_uint-put_uint 4 (length s) (s ++ rest) h)
      (get_bytes-append s rest)

pub length-put_uint : (w n : ℕ) → length (put_uint w n) ≡ w
unfolding put_uint
length-put_uint zero n = refl
length-put_uint (suc w) n = ap suc (length-put_uint w (n / 256))
