-- ===== src/Journal/Cursor.antt =====
-- core/journal/journal.h and journal.cpp: class Journal. The pages of a journal are files that its
-- writer and its readers share; here they are a function from page ids to memories.
use btrader.Prelude.{
  ℕ, zero, suc, ◌+◌, Option, none, some, ◌&&◌, ◌||◌, ltb, leb, ◌==◌, if◌then◌else◌,
}
use btrader.Journal.Memory.{Mem}
use btrader.Journal.Frame.{frame_length, gen_time, msg_type, page_end, has_data}
use btrader.Journal.Page.{Setup, first_frame_address, is_full, end_time, load, reset_page}

pub record Journal : Type 0 where
  pub pages : ℕ → Mem
  pub page_id : ℕ
  pub frame : ℕ
  pub page_frame_nb : ℕ
  pub page_id_in_rollback : ℕ

infixl 5 ◌>>=◌
abbrev pub ◌>>=◌ {ℓ κ} : {A : Type ℓ} {B : Type κ} → Option A → (A → Option B) → Option B
none >>= f = none
some a >>= f = f a

unfoldable pub set_page : ℕ → Mem → (ℕ → Mem) → ℕ → Mem
set_page id m pages k = if k == id then m else pages k

-- page_
abbrev pub page : Journal → Mem
page j = j.pages j.page_id

abbrev pub with_page : (Mem → Mem) → Journal → Journal
with_page f j = record j { pages = set_page j.page_id (f (page j)) j.pages }

-- load_page where page_ is null or another page
unfoldable pub open_page : Setup → ℕ → Journal → Option Journal
open_page c id j = do
  m ← load c (j.pages id)
  some (record j {
    pages = set_page id m j.pages;
    page_id = id;
    frame = first_frame_address m;
    page_frame_nb = 0;
  })

unfoldable pub load_page : Setup → ℕ → Journal → Option Journal
load_page c id j =
    if j.page_id == id
    then some (record j { frame = first_frame_address (page j); page_frame_nb = 0 })
    else open_page c id j

-- The current page is emptied and marked.
unfoldable pub restart : ℕ → Journal → Journal
restart id j = record (with_page reset_page j) { page_id_in_rollback = id }

unfoldable pub load_next_page : Setup → Journal → Option Journal
load_next_page c j =
    if c.rollback_size == 0 || ltb j.page_id c.rollback_size
    then (load_page c (j.page_id + 1) j >>= λ k.
        some
          (if c.is_writing && (k.page_id_in_rollback == j.page_id) then restart k.page_id k else k))
    else (load_page c 1 j >>= λ k. some (if c.is_writing then restart 1 k else k))

unfoldable pub next : Setup → Journal → Option Journal
next c j =
    if msg_type j.frame (page j) == page_end
    then load_next_page c j
    else some (record j {
      frame = j.frame + frame_length j.frame (page j);
      page_frame_nb = j.page_frame_nb + 1;
    })

-- The two loops of seek_to_time, on fuel; `none` is also where the fuel runs out.
unfoldable pub skip_pages : ℕ → Setup → ℕ → Journal → Option Journal
skip_pages zero c time j = none
skip_pages (suc n) c time j =
    let rest = load_next_page c j >>= skip_pages n c time in
    if is_full (page j) && leb (end_time (page j)) time then rest else some j

unfoldable pub skip_frames : ℕ → Setup → ℕ → Journal → Option Journal
skip_frames zero c time j = none
skip_frames (suc n) c time j =
    let rest = next c j >>= skip_frames n c time in
    if has_data j.frame (page j) && leb (gen_time j.frame (page j)) time then rest else some j

-- `id` is what PageUnit::find_page_id found.
unfoldable pub seek_to_time : ℕ → Setup → ℕ → ℕ → Journal → Option Journal
seek_to_time fuel c id time j = do
  a ← load_page c id j
  b ← skip_pages fuel c time a
  skip_frames fuel c time b
