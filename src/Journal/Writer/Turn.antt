-- ===== src/Journal/Writer/Turn.antt =====
-- The change of page: close_page and the load of a page that was never used.
use btrader.Prelude.{ℕ, ◌+◌, ◌≤◌, ◌<◌, ◌≡◌, refl, ◌≢◌, ◌∙◌, some, List, [], arith, length}
use btrader.Journal.Memory.{Mem, store}
use btrader.Journal.Frame.{frame_length, msg_type, page_end}
use btrader.Journal.Page.{
  Setup, page_size, page_header_length, page_version, last_frame_address, last_frame_position,
  init_page, load,
}
use btrader.Journal.Cursor.{Journal, set_page, page, load_page, load_next_page, open_page}
use btrader.Journal.Chain.{Frame, Chain, Chain_congr, Chain-le}
use btrader.Journal.Writer.{write, open_frame, close_page, end_page, make_room}
use btrader.Journal.Writer.Append.{IsReady, set_page_at, set_page_off}

abbrev pub IsBlank : Mem → Type 0
IsBlank m = (i : ℕ) → m i ≡ 0

-- A page that is closed: its frames, then a PageEnd frame.
pub record Sealed (c : Setup) (m : Mem) (fs : List Frame) : Type 0 where
  pub stop : ℕ
  pub size : page_size m ≡ c.size
  pub version : page_version m ≡ c.version
  pub first : page_header_length m ≡ 24
  pub chain : Chain m 24 fs stop
  pub last : last_frame_position m ≡ stop
  pub length : frame_length stop m ≡ 40
  pub mark : msg_type stop m ≡ page_end

module _ (c : Setup) (m : Mem) (b : IsBlank m) where
  pub init_page_cells :
      (page_version (init_page c m) ≡ c.version)
      × (page_header_length (init_page c m) ≡ 24)
      × (page_size (init_page c m) ≡ c.size)
      × (last_frame_position (init_page c m) ≡ 24)
  unfolding init_page store
  init_page_cells = ground (arith, b 16)

  pub init_page_rest : (i : ℕ) → 24 ≤ i → init_page c m i ≡ 0
  unfolding init_page store
  init_page_rest i h = ground (arith, b 16, b i)

  pub load_blank : load c m ≡ some (init_page c m)
  unfolding load
  load_blank = ground (arith, init_page_cells)

module _ (c : Setup) (trigger now : ℕ) (m : Mem) where
  end_page_cells :
      (a : ℕ)
      → 24 ≤ a
      → last_frame_address m + frame_length (last_frame_address m) m ≡ a
      → (end_page c trigger now m 16 ≡ a)
        × (end_page c trigger now m a ≡ 40)
        × (end_page c trigger now m (a + 24) ≡ 0)
  unfolding end_page store
  end_page_cells a h e = rw e (ground arith, ground arith, ground arith)

  end_page_before :
      (a : ℕ)
      → last_frame_address m + frame_length (last_frame_address m) m ≡ a
      → (i : ℕ) → i < a
      → i ≢ 16
      → end_page c trigger now m i ≡ m i
  unfolding end_page store
  end_page_before a e i h k = rw e (ground arith)

end_page-Sealed :
    (c : Setup) (trigger now : ℕ) (j : Journal) {fs : List Frame}
    → IsReady c j fs
    → page_version (page j) ≡ c.version
    → Sealed c (end_page c trigger now (page j)) fs
end_page-Sealed c trigger now j {fs} r v =
    let start : 24 ≤ j.frame = Chain-le (page j) 24 fs j.frame r.chain in
    let cells = end_page_cells c trigger now (page j) j.frame start r.last in
    let before = end_page_before c trigger now (page j) j.frame r.last in
    record {
      stop = j.frame;
      size = before 8 (omega arith) (omega arith) ∙ r.size;
      version = before 0 (omega arith) (omega arith) ∙ v;
      first = before 4 (omega arith) (omega arith) ∙ r.first;
      chain = Chain_congr (page j) _ 24 fs j.frame (λ i p q. before i q (omega arith)) r.chain;
      last = cells.0;
      length = cells.1;
      mark = cells.2;
    }

make_room_free :
    (c : Setup) (trigger now : ℕ) (j : Journal) {fs : List Frame}
    → IsReady c j fs
    → (len : ℕ) → j.frame + 40 + len + 40 < c.size
    → make_room c trigger now len j ≡ some j
unfolding make_room
make_room_free c trigger now j r len f = ground (arith, r.size)

module _ (c : Setup) (trigger now : ℕ) (j : Journal) where
  unfoldable pub turned : Journal
  turned = record {
    pages =
        set_page j.page_id (end_page c trigger now (page j))
          (set_page (j.page_id + 1) (init_page c (j.pages (j.page_id + 1))) j.pages);
    page_id = j.page_id + 1;
    frame = 24;
    page_frame_nb = 0;
    page_id_in_rollback = j.page_id_in_rollback;
  }

  module _ (straight : c.rollback_size ≡ 0) (never : j.page_id_in_rollback ≡ 0)
      (one : 0 < j.page_id) (b : IsBlank (j.pages (j.page_id + 1))) where
    fresh : Mem
    fresh = init_page c (j.pages (j.page_id + 1))

    opened : Journal
    opened = record j {
      pages = set_page (j.page_id + 1) fresh j.pages;
      page_id = j.page_id + 1;
      frame = 24;
      page_frame_nb = 0;
    }

    load_next_page-eq-opened : load_next_page c j ≡ some opened
    unfolding load_next_page load_page open_page opened fresh
    load_next_page-eq-opened =
        rw (load_blank c (j.pages (j.page_id + 1)) b)
          (ground (arith, init_page_cells c (j.pages (j.page_id + 1)) b))

    pub close_page-eq-turned : close_page c trigger now j ≡ some turned
    unfolding close_page turned opened fresh
    close_page-eq-turned =
        rw
          (
            load_next_page-eq-opened,
            set_page_off (j.page_id + 1) fresh j.pages j.page_id (omega arith),
          )
          refl

    turned-page : page turned ≡ fresh
    unfolding turned fresh
    turned-page = rw (set_page_off j.page_id _ _ (j.page_id + 1) (omega arith), set_page_at)

    pub turned-IsReady : 64 < c.size → IsReady c turned []
    unfolding turned fresh
    turned-IsReady h =
        let cells = init_page_cells c (j.pages (j.page_id + 1)) b in
        let rest = init_page_rest c (j.pages (j.page_id + 1)) b in
        record {
          size = rw turned-page cells.2;
          first = rw turned-page cells.1;
          chain = refl;
          count = refl;
          last = rw (turned-page, cells.3) (ground (arith, rest 24));
          blank = λ i _. rw turned-page (rest (24 + i) (omega arith));
          room = h;
        }

    pub turned-Sealed :
        {fs : List Frame}
        → IsReady c j fs
        → page_version (page j) ≡ c.version
        → Sealed c (turned.pages j.page_id) fs
    unfolding turned
    turned-Sealed r v = rw set_page_at (end_page-Sealed c trigger now j r v)

    make_room_full :
        (len : ℕ) {fs : List Frame}
        → IsReady c j fs
        → c.size ≤ j.frame + 40 + len + 40
        → make_room c trigger now len j ≡ some turned
    unfolding make_room
    make_room_full len r full = ground (arith, r.size, close_page-eq-turned)

    open_frame-turned :
        (type len : ℕ) {fs : List Frame}
        → IsReady c j fs
        → c.size ≤ j.frame + 40 + len + 40
        → 24 + 40 + len + 40 < c.size
        → open_frame c trigger type now len j ≡ open_frame c trigger type now len turned
    unfolding open_frame turned
    open_frame-turned type len r full big =
        let t : IsReady c turned [] = turned-IsReady (omega arith) in
        rw (make_room_full len r full, make_room_free c trigger now turned t len big)
          (ground (arith, r.size, t.size))

    pub write-turned :
        (type : ℕ) (bytes : List ℕ) {fs : List Frame}
        → IsReady c j fs
        → c.size ≤ j.frame + 40 + length bytes + 40
        → 24 + 40 + length bytes + 40 < c.size
        → write c trigger type now bytes j ≡ write c trigger type now bytes turned
    unfolding write
    write-turned type bytes r full big = rw (open_frame-turned type (length bytes) r full big)

    pub turned_off : (k : ℕ) → k ≢ j.page_id → k ≢ j.page_id + 1 → turned.pages k ≡ j.pages k
    unfolding turned
    turned_off k p q = rw (set_page_off j.page_id _ _ k p, set_page_off (j.page_id + 1) _ _ k q)

    pub turned_version : page_version (page turned) ≡ c.version
    unfolding fresh
    turned_version = rw turned-page (init_page_cells c (j.pages (j.page_id + 1)) b).0
