-- ===== src/Journal/Memory.antt =====
-- The memory of one page. A cell is the scalar or the data byte that begins at that offset from the
-- page's address; every field is read and written at the offset where it begins.
use btrader.Prelude.{
  ℕ, zero, suc, ◌+◌, ◌≤◌, ◌<◌, ◌≡◌, refl, ◌≢◌, ◌&&◌, List, [], ◌∷◌, arith, ltb, leb, ◌==◌,
  if◌then◌else◌, length,
}

abbrev pub Mem : Type 0
Mem = ℕ → ℕ

-- *(T *)(address + o) = v
unfoldable pub store : ℕ → ℕ → Mem → Mem
store o v m i = if i == o then v else m i

-- memset(address + o, 0, n)
unfoldable pub zero_fill : ℕ → ℕ → Mem → Mem
zero_fill o n m i = if leb o i && ltb i (o + n) then 0 else m i

-- memcpy(address + o, bytes, bytes.size())
unfoldable pub copy_in : ℕ → List ℕ → Mem → Mem
copy_in o [] m = m
copy_in o (b ∷ bs) m = store o b (copy_in (suc o) bs m)

-- n bytes at address + o
unfoldable pub copy_out : ℕ → ℕ → Mem → List ℕ
copy_out o zero m = []
copy_out o (suc n) m = m o ∷ copy_out (suc o) n m

pub store_at : (o v : ℕ) (m : Mem) → store o v m o ≡ v
unfolding store
store_at o v m = ground arith

pub store_off : (o v : ℕ) (m : Mem) (i : ℕ) → i ≢ o → store o v m i ≡ m i
unfolding store
store_off o v m i h = ground arith

pub zero_fill_at : (o n : ℕ) (m : Mem) (i : ℕ) → o ≤ i → i < o + n → zero_fill o n m i ≡ 0
unfolding zero_fill
zero_fill_at o n m i h k = ground arith

pub zero_fill_below : (o n : ℕ) (m : Mem) (i : ℕ) → i < o → zero_fill o n m i ≡ m i
unfolding zero_fill
zero_fill_below o n m i h = ground arith

pub zero_fill_above : (o n : ℕ) (m : Mem) (i : ℕ) → o + n ≤ i → zero_fill o n m i ≡ m i
unfolding zero_fill
zero_fill_above o n m i h = ground arith

pub copy_in_below : (o : ℕ) (bs : List ℕ) (m : Mem) (i : ℕ) → i < o → copy_in o bs m i ≡ m i
unfolding copy_in store
copy_in_below o [] m i h = refl
copy_in_below o (b ∷ bs) m i h = ground (arith, copy_in_below (suc o) bs m i)

pub copy_in_above :
    (o : ℕ) (bs : List ℕ) (m : Mem) (i : ℕ) → o + length bs ≤ i → copy_in o bs m i ≡ m i
unfolding copy_in store
copy_in_above o [] m i h = refl
copy_in_above o (b ∷ bs) m i h = ground (arith, copy_in_above (suc o) bs m i)

-- Memories that agree on a range give the same bytes there.
pub copy_out_congr :
    (o n : ℕ) (m m' : Mem)
    → ((i : ℕ) → o ≤ i → i < o + n → m' i ≡ m i)
    → copy_out o n m' ≡ copy_out o n m
unfolding copy_out
copy_out_congr o zero m m' h = refl
copy_out_congr o (suc n) m m' h = ground (
  arith,
  h o (omega arith) (omega arith),
  copy_out_congr (suc o) n m m' (λ i a b. h i (omega arith) (omega arith)),
)

pub copy_out-copy_in :
    (o : ℕ) (bs : List ℕ) (m : Mem) → copy_out o (length bs) (copy_in o bs m) ≡ bs
unfolding copy_out copy_in
copy_out-copy_in o [] m = refl
copy_out-copy_in o (b ∷ bs) m = ground (
  arith,
  store_at o b (copy_in (suc o) bs m),
  copy_out_congr (suc o) (length bs) (copy_in (suc o) bs m) (store o b (copy_in (suc o) bs m))
      (λ i p q. store_off o b _ i (omega arith)),
  copy_out-copy_in (suc o) bs m,
)
