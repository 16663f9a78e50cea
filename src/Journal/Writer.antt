-- ===== src/Journal/Writer.antt =====
-- core/journal/writer.cpp: class Writer. The lock, which one writing thread always obtains, and the
-- event descriptor that post() signals are not part of the state.
pub mod Written
pub mod Append
pub mod Turn
pub mod Log
pub mod Opened
use btrader.Prelude.{ℕ, ◌+◌, Option, none, some, List, ltb, leb, if◌then◌else◌, length}
use btrader.Journal.Memory.{zero_fill}
use btrader.Journal.Frame.{
  header_size, header_length, frame_length, page_end, set_header_length, set_data_length,
  set_gen_time, set_trigger_time, set_msg_type, set_source, set_dest, copy_data,
}
use btrader.Journal.Page.{
  Setup, page_size, last_frame_position, set_last_frame_position, last_frame_address,
  address_border,
}
use btrader.Journal.Memory.{Mem}
use btrader.Journal.Cursor.{Journal, ◌>>=◌, set_page, page, with_page, load_next_page, next}

-- The PageEnd frame behind the last frame of a page.
unfoldable pub end_page : Setup → ℕ → ℕ → Mem → Mem
end_page c trigger now m =
    let a = last_frame_address m + frame_length (last_frame_address m) m in
    set_last_frame_position a (
      set_data_length a 0 (
        set_gen_time a now (
          set_dest a c.dest_id (
            set_source a c.uid
              (set_msg_type a page_end (set_trigger_time a trigger (set_header_length a m)))))))

unfoldable pub close_page : Setup → ℕ → ℕ → Journal → Option Journal
close_page c trigger now j = do
  k ← load_next_page c j
  some
      (record k { pages = set_page j.page_id (end_page c trigger now (k.pages j.page_id)) k.pages })

-- The header of a frame that open_frame hands out.
unfoldable pub begin_frame : Setup → ℕ → ℕ → ℕ → Mem → Mem
begin_frame c trigger type a m =
    set_dest a c.dest_id (
      set_source a c.uid (set_msg_type a type (set_trigger_time a trigger (set_header_length a m))))

-- A frame that would cross the border of the page goes to the next one.
unfoldable pub make_room : Setup → ℕ → ℕ → ℕ → Journal → Option Journal
make_room c trigger now len j =
    if leb (address_border (page j)) (j.frame + header_size + len)
    then close_page c trigger now j
    else some j

-- `none` is a failed assertion, or the JournalError of a page that cannot be loaded.
unfoldable pub open_frame : Setup → ℕ → ℕ → ℕ → ℕ → Journal → Option Journal
open_frame c trigger type now len j =
    if leb (header_size + len + header_size) (page_size (page j))
    then (make_room c trigger now len j >>= λ k.
        some (with_page (begin_frame c trigger type k.frame) k))
    else none

-- What close_frame leaves in the page.
unfoldable pub finish_frame : ℕ → ℕ → ℕ → Mem → Mem
finish_frame len gen a m = set_last_frame_position a (
    set_data_length a len
      (set_gen_time a gen (zero_fill (a + header_length a m + len) header_size m)))

unfoldable pub close_frame : Setup → ℕ → ℕ → Journal → Option Journal
close_frame c len gen j =
    if ltb (j.frame + header_length j.frame (page j) + len) (address_border (page j))
    then next c (with_page (finish_frame len gen j.frame) j)
    else none

-- write, write_raw, write_bytes and, with no bytes, mark
unfoldable pub write : Setup → ℕ → ℕ → ℕ → List ℕ → Journal → Option Journal
write c trigger type now bytes j = do
  k ← open_frame c trigger type now (length bytes) j
  close_frame c (length bytes) now (with_page (copy_data k.frame bytes) k)
