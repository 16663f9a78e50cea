-- ===== src/Journal/Page.antt =====
-- core/journal/page.h and page.cpp: the header of a page, its borders, and PageUnit::load.
use btrader.Prelude.{ℕ, ◌+◌, ◌-◌, Bool, Option, none, some, ◌&&◌, ltb, ◌==◌, if◌then◌else◌}
use btrader.Journal.Memory.{Mem, store, zero_fill}
use btrader.Journal.Frame.{header_size, frame_length, gen_time}

-- sizeof(PageHeader)
abbrev pub page_header_size : ℕ
page_header_size = 24

-- What a journal is opened with: __JOURNAL_VERSION__, find_page_size of the location,
-- Journal::s_page_rollback_size, location_->uid, dest_id_ and is_writing_.
pub record Setup : Type 0 where
  pub version : ℕ
  pub size : ℕ
  pub rollback_size : ℕ
  pub uid : ℕ
  pub dest_id : ℕ
  pub is_writing : Bool

-- The fields of PageHeader.
abbrev pub page_version : Mem → ℕ
page_version m = m 0

abbrev pub page_header_length : Mem → ℕ
page_header_length m = m 4

abbrev pub page_size : Mem → ℕ
page_size m = m 8

abbrev pub last_frame_position : Mem → ℕ
last_frame_position m = m 16

abbrev pub set_last_frame_position : ℕ → Mem → Mem
set_last_frame_position = store 16

abbrev pub first_frame_address : Mem → ℕ
first_frame_address = page_header_length

abbrev pub last_frame_address : Mem → ℕ
last_frame_address = last_frame_position

abbrev pub address_border : Mem → ℕ
address_border m = page_size m - header_size

unfoldable pub begin_time : Mem → ℕ
begin_time m = gen_time (first_frame_address m) m

unfoldable pub end_time : Mem → ℕ
end_time m = gen_time (last_frame_address m) m

unfoldable pub is_full : Mem → Bool
is_full m = ltb (address_border m) (last_frame_address m + frame_length (last_frame_address m) m)

-- A page that was never used is given its header.
unfoldable pub init_page : Setup → Mem → Mem
init_page c m =
    if last_frame_position m == 0
    then store 16 page_header_size
        (store 12 header_size (store 8 c.size (store 4 page_header_size (store 0 c.version m))))
    else m

-- `none` is the JournalError.
unfoldable pub load : Setup → Mem → Option Mem
unfolding init_page
load c m =
    let p = init_page c m in
    if page_version p == c.version
      && (page_header_length p == page_header_size)
      && (page_size p == c.size)
    then some p
    else none

-- Of load_next_page: the page that is written again starts empty.
unfoldable pub reset_page : Mem → Mem
reset_page m =
    zero_fill (page_header_length m) (page_size m - page_header_length m)
      (store 16 (page_header_length m) m)
