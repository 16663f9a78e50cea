-- ===== src/Journal/Writer/Append.antt =====
-- One call of Writer::write whose frame fits into the current page.
use mathlib.Core.Path.{fun_ext}
use btrader.Prelude.{
  ℕ, ◌+◌, ◌≤◌, ◌<◌, ◌≡◌, refl, ◌≢◌, some, List, [], ◌∷◌, ◌++◌, arith, length, length-append,
}
use btrader.Journal.Memory.{Mem}
use btrader.Journal.Frame.{frame_length}
use btrader.Journal.Page.{Setup, page_size, page_header_length, last_frame_address}
use btrader.Journal.Cursor.{Journal, set_page, page, with_page, next}
use btrader.Journal.Chain.{Frame, Stored, Chain, Chain_congr, Chain-snoc, Chain-le}
use btrader.Journal.Writer.{write, open_frame, close_frame, make_room, begin_frame}
use btrader.Journal.Writer.Written.{
  filled, filled-header, filled_before, written, frame_written, written_before, written_last,
  written_next, Stored-written,
}

-- The writer stands behind the frames `fs` of its page, at a zeroed header, below the border.
pub record IsReady (c : Setup) (j : Journal) (fs : List Frame) : Type 0 where
  pub size : page_size (page j) ≡ c.size
  pub first : page_header_length (page j) ≡ 24
  pub chain : Chain (page j) 24 fs j.frame
  pub count : j.page_frame_nb ≡ length fs
  pub last :
      last_frame_address (page j) + frame_length (last_frame_address (page j)) (page j) ≡ j.frame
  pub blank : (i : ℕ) → i < 40 → page j (j.frame + i) ≡ 0
  pub room : j.frame + 40 < c.size

abbrev pub Fits : Setup → Journal → List ℕ → Type 0
Fits c j bytes = j.frame + 40 + length bytes + 40 < c.size

pub set_page_set :
    (id : ℕ) (m m' : Mem) (p : ℕ → Mem) → set_page id m (set_page id m' p) ≡ set_page id m p
unfolding set_page
set_page_set id m m' p = fun_ext λ k. ground arith

pub set_page_at : (id : ℕ) (m : Mem) (p : ℕ → Mem) → set_page id m p id ≡ m
unfolding set_page
set_page_at id m p = ground arith

pub set_page_off : (id : ℕ) (m : Mem) (p : ℕ → Mem) (k : ℕ) → k ≢ id → set_page id m p k ≡ p k
unfolding set_page
set_page_off id m p k h = ground arith

module _ (c : Setup) (trigger type now : ℕ) (bytes : List ℕ) (j : Journal) where
  -- The journal after a write into the current page.
  unfoldable pub appended : Journal
  appended = record j {
    pages = set_page j.page_id (written c trigger type now bytes j.frame (page j)) j.pages;
    frame = j.frame + (40 + length bytes);
    page_frame_nb = j.page_frame_nb + 1;
  }

  module _ {fs : List Frame} (r : IsReady c j fs) (f : Fits c j bytes) (t : 0 < type) where
    start : 24 ≤ j.frame
    start = Chain-le (page j) 24 fs j.frame r.chain

    body : Mem
    body = filled c trigger type now bytes j.frame (page j)

    stored :
        Stored
          (written c trigger type now bytes j.frame (page j))
          j.frame
          (frame_written c trigger type now bytes)
    stored = Stored-written c trigger type now bytes j.frame (page j) start

    after_open :
        open_frame c trigger type now (length bytes) j
        ≡ some (with_page (begin_frame c trigger type j.frame) j)
    unfolding open_frame make_room
    after_open = ground (arith, r.size)

    after_close :
        close_frame c (length bytes) now (record j { pages = set_page j.page_id body j.pages })
        ≡ some appended
    unfolding close_frame appended next body written
    after_close =
        rw (set_page_at j.page_id body j.pages, set_page_set, set_page_at)
          (ground (
            arith,
            r.size,
            start,
            stored.type,
            stored.total,
            filled-header c trigger type now bytes j.frame (page j),
            filled_before c trigger type now bytes j.frame (page j) 8,
          ))

    pub write-eq-appended : write c trigger type now bytes j ≡ some appended
    unfolding write body filled
    write-eq-appended = rw (after_open, set_page_at, set_page_set) after_close

    abbrev new_page : Mem
    new_page = written c trigger type now bytes j.frame (page j)

    new_page_before : (i : ℕ) → i < j.frame → i ≢ 16 → new_page i ≡ page j i
    new_page_before = written_before c trigger type now bytes j.frame (page j)

    new_page-IsReady :
        (k : Journal)
        → page k ≡ new_page
        → k.frame ≡ j.frame + (40 + length bytes)
        → k.page_frame_nb ≡ j.page_frame_nb + 1
        → IsReady c k (fs ++ frame_written c trigger type now bytes ∷ [])
    new_page-IsReady k p q n = record {
      size = rw (p, new_page_before 8 (omega (arith, start)) (omega arith)) r.size;
      first = rw (p, new_page_before 4 (omega (arith, start)) (omega arith)) r.first;
      chain =
          rw (p, q)
            (Chain-snoc new_page 24 fs j.frame _
              (Chain_congr (page j) new_page 24 fs j.frame
                (λ i a b. new_page_before i b (omega arith)) r.chain)
              stored);
      count =
          omega (arith, r.count, n, length-append fs (frame_written c trigger type now bytes ∷ []));
      last = rw (p, q, written_last c trigger type now bytes j.frame (page j), stored.total) refl;
      blank = λ i h. rw (p, q) (written_next c trigger type now bytes j.frame (page j) start i h);
      room = omega (arith, q);
    }

    pub appended-IsReady : IsReady c appended (fs ++ frame_written c trigger type now bytes ∷ [])
    unfolding appended
    appended-IsReady = new_page-IsReady appended (set_page_at j.page_id new_page j.pages) refl refl
