-- ===== src/Journal/Frame.antt =====
-- core/journal/frame.h: the header of a frame, and the accessors of FrameUnit. A frame unit is the
-- offset of its header in the page.
use btrader.Prelude.{ℕ, ◌+◌, ◌-◌, Bool, List, ◌&&◌, ltb}
use btrader.Journal.Memory.{Mem, store, copy_in, copy_out}

-- sizeof(FrameHeader), with the padding to eight bytes
abbrev pub header_size : ℕ
header_size = 40

-- The header's fields, each at its offset.
abbrev pub frame_length : ℕ → Mem → ℕ
frame_length a m = m a

abbrev pub header_length : ℕ → Mem → ℕ
header_length a m = m (a + 4)

abbrev pub gen_time : ℕ → Mem → ℕ
gen_time a m = m (a + 8)

abbrev pub trigger_time : ℕ → Mem → ℕ
trigger_time a m = m (a + 16)

abbrev pub msg_type : ℕ → Mem → ℕ
msg_type a m = m (a + 24)

abbrev pub source : ℕ → Mem → ℕ
source a m = m (a + 28)

abbrev pub dest : ℕ → Mem → ℕ
dest a m = m (a + 32)

abbrev pub data_length : ℕ → Mem → ℕ
data_length a m = frame_length a m - header_length a m

-- MsgTag::PageEnd
abbrev pub page_end : ℕ
page_end = 0

unfoldable pub has_data : ℕ → Mem → Bool
has_data a m = ltb 0 (frame_length a m) && ltb 0 (msg_type a m)

-- data_address() and what stands there
abbrev pub data_at : ℕ → Mem → List ℕ
data_at a m = copy_out (a + header_length a m) (data_length a m) m

abbrev pub set_header_length : ℕ → Mem → Mem
set_header_length a = store (a + 4) header_size

abbrev pub set_data_length : ℕ → ℕ → Mem → Mem
set_data_length a n m = store a (header_length a m + n) m

abbrev pub set_gen_time : ℕ → ℕ → Mem → Mem
set_gen_time a = store (a + 8)

abbrev pub set_trigger_time : ℕ → ℕ → Mem → Mem
set_trigger_time a = store (a + 16)

abbrev pub set_msg_type : ℕ → ℕ → Mem → Mem
set_msg_type a = store (a + 24)

abbrev pub set_source : ℕ → ℕ → Mem → Mem
set_source a = store (a + 28)

abbrev pub set_dest : ℕ → ℕ → Mem → Mem
set_dest a = store (a + 32)

abbrev pub copy_data : ℕ → List ℕ → Mem → Mem
copy_data a bytes m = copy_in (a + header_length a m) bytes m
