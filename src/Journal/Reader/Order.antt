-- ===== src/Journal/Reader/Order.antt =====
-- Which journal Reader::sort chooses.
use btrader.Prelude.{
  ℕ, ◌≤◌, ◌<◌, ◌≡◌, refl, ◌⊎◌, inl, inr, Bool, true, false, Bool-cases, Option, some, List, [], ◌∷◌,
  arith,
}
use btrader.Journal.Frame.{has_data, gen_time}
use btrader.Journal.Cursor.{page}
use btrader.Journal.Reader.{Joined, Reader, ready, sort_from, sort}

abbrev Entries : Type 0
Entries = List (ℕ × Joined)

abbrev holds_data : Joined → Bool
holds_data s = has_data s.journal.frame (page s.journal)

abbrev time_of : Joined → ℕ
time_of s = gen_time s.journal.frame (page s.journal)

abbrev IsIn : ℕ → Joined → Entries → Type 0
IsIn k s [] = ⊥
IsIn k s ((j, t) ∷ rest) = ((k ≡ j) × (s ≡ t)) ⊎ IsIn k s rest

-- No frame is due.
abbrev AllIdle : ℕ → Entries → Type 0
AllIdle now [] = Unit
AllIdle now ((k, s) ∷ rest) = (ready s.journal now ≡ false) × AllIdle now rest

-- Every frame that has data is of time `t` or later.
abbrev AllFrom : ℕ → Entries → Type 0
AllFrom t [] = Unit
AllFrom t ((k, s) ∷ rest) = (holds_data s ≡ true → t ≤ time_of s) × AllFrom t rest

abbrev pub Chosen : ℕ → Option ℕ → Entries → Option ℕ → Type 0
Chosen now old entries new =
    (AllIdle now entries × (new ≡ old))
    ⊎ ((k : ℕ) × (s : Joined) × (new ≡ some k)
        × IsIn k s entries
        × (holds_data s ≡ true)
        × (time_of s ≤ now)
        × AllFrom (time_of s) entries)

AllIdle-AllFrom :
    (now t : ℕ) (entries : Entries) → t ≤ now → AllIdle now entries → AllFrom t entries
unfolding ready
AllIdle-AllFrom now t [] h i = tt
AllIdle-AllFrom now t ((k, s) ∷ rest) h i = (λ d. ground arith, AllIdle-AllFrom now t rest h i.1)

ready_elim :
    (s : Joined) (now : ℕ) → ready s.journal now ≡ true → (holds_data s ≡ true) × (time_of s ≤ now)
unfolding ready
ready_elim s now e = ground arith

not_ready :
    (s : Joined) (now : ℕ) → ready s.journal now ≡ false → holds_data s ≡ true → now < time_of s
unfolding ready
not_ready s now e d = ground arith

sort_from-Chosen :
    (now : ℕ) (old : Option ℕ) (entries : Entries)
    → Chosen now old entries (sort_from now old entries)
unfolding sort_from
sort_from-Chosen now old [] = inl (tt, refl)
sort_from-Chosen now old ((k, s) ∷ rest) = elim (Bool-cases (ready s.journal now)) [
  | inl e ↦
      let (d₀, le₀) = ready_elim s now e in
      rw e (elim (sort_from-Chosen (time_of s) (some k) rest) [
        | inl (idle, same) ↦ inr (
          k,
          s,
          same,
          inl (refl, refl),
          d₀,
          le₀,
          (λ _. omega arith, AllIdle-AllFrom (time_of s) (time_of s) rest (omega arith) idle),
        )
        | inr (j, t, new, at, d, le, from) ↦
            inr (j, t, new, inr at, d, omega arith, (λ _. le, from))
      ])
  | inr e ↦ rw e (elim (sort_from-Chosen now old rest) [
    | inl (idle, same) ↦ inl ((refl, idle), same)
    | inr (j, t, new, at, d, le, from) ↦
        inr (j, t, new, inr at, d, le, (λ d₀. omega (arith, not_ready s now e d₀), from))
  ])
]

-- After `sort` the reader stands at a frame that is due and earliest of all that have data; where
-- none is due it stands where it stood.
pub sort-Chosen : (now : ℕ) (r : Reader) → Chosen now r.current r.journals (sort now r).current
unfolding sort
sort-Chosen now r = sort_from-Chosen now r.current r.journals
