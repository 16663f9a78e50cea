-- ===== src/Journal/Chain.antt =====
-- The frames of a page as a list, and how that list is laid out in the page's memory.
use btrader.Prelude.{ℕ, ◌+◌, ◌≤◌, ◌<◌, ◌≡◌, refl, ◌∙◌, List, [], ◌∷◌, ◌++◌, arith, length}
use btrader.Journal.Memory.{Mem, copy_out, copy_out_congr}
use btrader.Journal.Frame.{
  header_size, frame_length, header_length, gen_time, trigger_time, msg_type, source, dest,
}

pub record Frame : Type 0 where
  pub created : ℕ
  pub trigger : ℕ
  pub type : ℕ
  pub from : ℕ
  pub to : ℕ
  pub bytes : List ℕ

-- The bytes that a frame takes.
abbrev pub extent : Frame → ℕ
extent f = header_size + length f.bytes

-- Frame `f` stands at offset `a`.
pub record Stored (m : Mem) (a : ℕ) (f : Frame) : Type 0 where
  pub total : frame_length a m ≡ extent f
  pub header : header_length a m ≡ header_size
  pub created : gen_time a m ≡ f.created
  pub trigger : trigger_time a m ≡ f.trigger
  pub type : msg_type a m ≡ f.type
  pub from : source a m ≡ f.from
  pub to : dest a m ≡ f.to
  pub bytes : copy_out (a + header_size) (length f.bytes) m ≡ f.bytes

-- The frames `fs` stand one behind the other from `a`, and `b` is the offset behind the last.
abbrev pub Chain : Mem → ℕ → List Frame → ℕ → Type 0
Chain m a [] b = a ≡ b
Chain m a (f ∷ fs) b = Stored m a f × Chain m (a + extent f) fs b

abbrev pub Agree : Mem → Mem → ℕ → ℕ → Type 0
Agree m m' a b = (i : ℕ) → a ≤ i → i < b → m' i ≡ m i

pub Stored_congr :
    (m m' : Mem) (a : ℕ) (f : Frame) → Agree m m' a (a + extent f) → Stored m a f → Stored m' a f
Stored_congr m m' a f h s = record {
  total = h a (omega arith) (omega arith) ∙ s.total;
  header = h (a + 4) (omega arith) (omega arith) ∙ s.header;
  created = h (a + 8) (omega arith) (omega arith) ∙ s.created;
  trigger = h (a + 16) (omega arith) (omega arith) ∙ s.trigger;
  type = h (a + 24) (omega arith) (omega arith) ∙ s.type;
  from = h (a + 28) (omega arith) (omega arith) ∙ s.from;
  to = h (a + 32) (omega arith) (omega arith) ∙ s.to;
  bytes =
      copy_out_congr (a + header_size) (length f.bytes) m m'
        (λ i p q. h i (omega arith) (omega arith))
      ∙ s.bytes;
}

pub Chain-le : (m : Mem) (a : ℕ) (fs : List Frame) (b : ℕ) → Chain m a fs b → a ≤ b
Chain-le m a [] b c = omega arith
Chain-le m a (f ∷ fs) b c = omega (arith, Chain-le m (a + extent f) fs b c.1)

pub Chain_congr :
    (m m' : Mem) (a : ℕ) (fs : List Frame) (b : ℕ)
    → Agree m m' a b
    → Chain m a fs b
    → Chain m' a fs b
Chain_congr m m' a [] b h c = c
Chain_congr m m' a (f ∷ fs) b h c =
    let far = Chain-le m (a + extent f) fs b c.1 in
    (
      Stored_congr m m' a f (λ i p q. h i p (omega arith)) c.0,
      Chain_congr m m' (a + extent f) fs b (λ i p q. h i (omega arith) q) c.1,
    )

pub Chain-snoc :
    (m : Mem) (a : ℕ) (fs : List Frame) (b : ℕ) (f : Frame)
    → Chain m a fs b
    → Stored m b f
    → Chain m a (fs ++ f ∷ []) (b + extent f)
Chain-snoc m a [] b f c s = rw c (s, refl)
Chain-snoc m a (g ∷ fs) b f c s = (c.0, Chain-snoc m (a + extent g) fs b f c.1 s)
