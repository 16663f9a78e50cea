-- ===== src/Journal/Writer/Written.antt =====
-- The cells of a page after one frame was written into it.
use btrader.Prelude.{ℕ, ◌+◌, ◌≤◌, ◌<◌, ◌≡◌, refl, ◌≢◌, ◌∙◌, List, arith, length}
use btrader.Journal.Memory.{
  Mem, store, zero_fill, copy_in, copy_in_below, copy_out_congr, copy_out-copy_in, store_off,
  zero_fill_below,
}
use btrader.Journal.Frame.{copy_data}
use btrader.Journal.Page.{Setup}
use btrader.Journal.Writer.{begin_frame, finish_frame}
use btrader.Journal.Chain.{Frame, Stored}

-- The frame that a write is to leave.
abbrev pub frame_written : Setup → ℕ → ℕ → ℕ → List ℕ → Frame
frame_written c trigger type now bytes = record {
  created = now;
  trigger = trigger;
  type = type;
  from = c.uid;
  to = c.dest_id;
  bytes = bytes;
}

module _ (c : Setup) (trigger type now : ℕ) (bytes : List ℕ) (a : ℕ) (m : Mem) where
  -- begin_frame and the copy of the data
  unfoldable pub filled : Mem
  filled = copy_data a bytes (begin_frame c trigger type a m)

  -- and the memory part of close_frame
  unfoldable pub written : Mem
  written = finish_frame (length bytes) now a filled

  begun : Mem
  begun = copy_in (a + 40) bytes (begin_frame c trigger type a m)

  begin_frame-header : begin_frame c trigger type a m (a + 4) ≡ 40
  unfolding begin_frame store
  begin_frame-header = ground arith

  begun-header : begun (a + 4) ≡ 40
  unfolding begun
  begun-header =
      copy_in_below (a + 40) bytes (begin_frame c trigger type a m) (a + 4) (omega arith)
      ∙ begin_frame-header

  filled-begun : filled ≡ begun
  unfolding filled begun
  filled-begun = rw begin_frame-header

  pub filled-header : filled (a + 4) ≡ 40
  filled-header = rw filled-begun begun-header

  pub filled_before : (i : ℕ) → i < a → filled i ≡ m i
  unfolding begun begin_frame store
  filled_before i h =
      rw filled-begun
        (ground (arith, copy_in_below (a + 40) bytes (begin_frame c trigger type a m) i))

  -- close_frame reads the header's length back from the frame.
  closed : Mem
  closed = store (a + 8) now (zero_fill (a + 40 + length bytes) 40 begun)

  closed-header : closed (a + 4) ≡ 40
  unfolding closed
  closed-header =
      store_off (a + 8) now (zero_fill (a + 40 + length bytes) 40 begun) (a + 4) (omega arith)
      ∙ zero_fill_below (a + 40 + length bytes) 40 begun (a + 4) (omega arith)
      ∙ begun-header

  written-closed : written ≡ store 16 a (store a (40 + length bytes) closed)
  unfolding written finish_frame closed
  written-closed = rw (filled-begun, begun-header, closed-header) refl

  pub written_before : (i : ℕ) → i < a → i ≢ 16 → written i ≡ m i
  unfolding store zero_fill closed begun begin_frame
  written_before i h k =
      rw written-closed
        (ground (arith, copy_in_below (a + 40) bytes (begin_frame c trigger type a m) i))

  pub written_last : written 16 ≡ a
  unfolding store
  written_last = rw written-closed (ground arith)

  pub written_next : 24 ≤ a → (i : ℕ) → i < 40 → written (a + (40 + length bytes) + i) ≡ 0
  unfolding store zero_fill closed
  written_next h i k = rw written-closed (ground arith)

  pub Stored-written : 24 ≤ a → Stored written a (frame_written c trigger type now bytes)
  unfolding store zero_fill closed begun begin_frame
  Stored-written h = rw written-closed (record {
    total = ground arith;
    header = ground (arith, copy_in_below (a + 40) bytes (begin_frame c trigger type a m) (a + 4));
    created = ground arith;
    trigger =
        ground (arith, copy_in_below (a + 40) bytes (begin_frame c trigger type a m) (a + 16));
    type = ground (arith, copy_in_below (a + 40) bytes (begin_frame c trigger type a m) (a + 24));
    from = ground (arith, copy_in_below (a + 40) bytes (begin_frame c trigger type a m) (a + 28));
    to = ground (arith, copy_in_below (a + 40) bytes (begin_frame c trigger type a m) (a + 32));
    bytes =
        copy_out_congr (a + 40) (length bytes) begun
          (store 16 a (store a (40 + length bytes) closed)) (λ i p q. ground arith)
        ∙ copy_out-copy_in (a + 40) bytes (begin_frame c trigger type a m);
  })
