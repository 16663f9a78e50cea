-- ===== src/Journal/Writer/Opened.antt =====
-- A journal whose pages were never used: what Journal::load_page makes of the first one, and all that
-- follows from there.
use btrader.Prelude.{ℕ, ◌+◌, ◌<◌, ◌≡◌, refl, some, List, [], arith, map}
use btrader.Journal.Page.{Setup, init_page}
use btrader.Journal.Cursor.{Journal, ◌>>=◌, set_page, open_page}
use btrader.Journal.Writer.Append.{IsReady, set_page_at, set_page_off}
use btrader.Journal.Writer.Turn.{IsBlank, init_page_cells, init_page_rest, load_blank}
use btrader.Journal.Writer.Log.{
  Message, Layout, Holds, Writable, place_all, write_all, write_all-Holds, contents,
  contents-place_all, to_frame,
}

abbrev pub empty_layout : Layout
empty_layout = record { closed = []; open_frames = [] }

module _ (c : Setup) (j : Journal) (b : (k : ℕ) → IsBlank (j.pages k)) where
  abbrev pub opened : Journal
  opened = record j {
    pages = set_page 1 (init_page c (j.pages 1)) j.pages;
    page_id = 1;
    frame = 24;
    page_frame_nb = 0;
  }

  open_page-eq-opened : open_page c 1 j ≡ some opened
  unfolding open_page
  open_page-eq-opened =
      let (_, first, _, _) = init_page_cells c (j.pages 1) (b 1) in
      rw (load_blank c (j.pages 1) (b 1), first) refl

  opened-IsReady : 64 < c.size → IsReady c opened []
  opened-IsReady room =
      let (_, first, size, last) = init_page_cells c (j.pages 1) (b 1) in
      let rest = init_page_rest c (j.pages 1) (b 1) in
      record {
        size = rw set_page_at size;
        first = rw set_page_at first;
        chain = refl;
        count = refl;
        last = rw (set_page_at, last, rest 24 (omega arith)) refl;
        blank = λ i h. rw set_page_at (rest (24 + i) (omega arith));
        room = room;
      }

  pub opened-Holds : j.page_id_in_rollback ≡ 0 → 64 < c.size → Holds c opened empty_layout
  opened-Holds never room =
      let (version, _, _, _) = init_page_cells c (j.pages 1) (b 1) in
      record {
        never = never;
        id = refl;
        version = rw set_page_at version;
        ready = opened-IsReady room;
        sealed = tt;
        ahead = λ k p. rw (set_page_off 1 (init_page c (j.pages 1)) j.pages k (omega arith)) (b k);
      }

  -- Opened on unused pages of more than 64 bytes, a journal without rollback accepts every history of
  -- writable messages; its pages then hold a layout that lists the messages as they were written.
  pub opened-write_all :
      (ms : List Message)
      → c.rollback_size ≡ 0
      → j.page_id_in_rollback ≡ 0
      → 64 < c.size
      → Writable c ms
      → (k : Journal) × (l : Layout) × ((open_page c 1 j >>= write_all c ms) ≡ some k)
        × Holds c k l
        × (contents l ≡ map (to_frame c) ms)
  opened-write_all ms straight never room w =
      let (k, e, held) =
        write_all-Holds c ms opened empty_layout straight w (opened-Holds never room) in
      (
        k,
        place_all c empty_layout ms,
        rw open_page-eq-opened e,
        held,
        contents-place_all c ms empty_layout,
      )
