-- ===== src/Journal/Reader/Delivery.antt =====
-- What a reader of one journal is given.
use btrader.Prelude.{
  ℕ, zero, suc, ◌+◌, ◌≤◌, ◌<◌, ◌≡◌, ◌∙◌, true, false, Option, none, some, List, [], ◌∷◌, arith,
  length,
}
use btrader.Prelude.Dict.{find, insert}
use btrader.Journal.Frame.{has_data}
use btrader.Journal.Page.{Setup}
use btrader.Journal.Cursor.{Journal, ◌>>=◌, page}
use btrader.Journal.Cursor
use btrader.Journal.Chain.{Frame, Stored, Chain, extent}
use btrader.Journal.Writer.Turn.{Sealed}
use btrader.Journal.Reader.{
  Reader, ready, sort_from, sort, current_has_data, data_available, next, read_frame, drain,
}

abbrev pub single : ℕ → Setup → Journal → Option ℕ → Reader
single k c j current = record {
  journals = (k, record { setup = c; journal = j }) ∷ [];
  current = current;
}

-- The journal one frame further.
abbrev pub moved : Journal → Frame → Journal
moved j f = record j { frame = j.frame + extent f; page_frame_nb = j.page_frame_nb + 1 }

read_frame-Stored : (j : Journal) (f : Frame) → Stored (page j) j.frame f → read_frame j ≡ f
unfolding read_frame
read_frame-Stored j f s = ground (arith, s.total, s.header)

module _ (k : ℕ) (c : Setup) (now end_time : ℕ) where
  drain_end :
      (n : ℕ) (j : Journal) (current : Option ℕ)
      → has_data j.frame (page j) ≡ false
      → drain (suc n) now end_time (single k c j current) ≡ some ([], single k c j current)
  unfolding drain data_available sort sort_from ready current_has_data find
  drain_end n j none e = ground arith
  drain_end n j (some i) e = ground arith

  sort-single : (j : Journal) → sort now (single k c j (some k)) ≡ single k c j (some k)
  unfolding sort sort_from
  sort-single j = ground arith

  drain_sorted :
      (n : ℕ) (j : Journal)
      → drain n now end_time (sort now (single k c j (some k)))
        ≡ drain n now end_time (single k c j (some k))
  drain_sorted n j = rw sort-single

  module _ (j : Journal) (f : Frame) (s : Stored (page j) j.frame f) (typed : 0 < f.type)
      (due : f.created ≤ now) where
    sort_ready : (current : Option ℕ) → sort now (single k c j current) ≡ single k c j (some k)
    unfolding sort sort_from ready has_data
    sort_ready current = ground (arith, s.total, s.type, s.created)

    has_data_ready : current_has_data (single k c j (some k)) ≡ true
    unfolding current_has_data find has_data
    has_data_ready = ground (arith, s.total, s.type)

    next_ready :
        next now (single k c j (some k)) ≡ some (sort now (single k c (moved j f) (some k)))
    unfolding next Cursor.next find insert
    next_ready = ground (arith, s.total, s.type)

    drain_step :
        (n : ℕ) (current : Option ℕ)
        → f.created ≤ end_time
        → drain (suc n) now end_time (single k c j current)
          ≡ (drain n now end_time (single k c (moved j f) (some k)) >>= λ p. some (f ∷ p.0, p.1))
    unfolding drain data_available find
    drain_step n current last =
        rw (sort_ready current, has_data_ready, next_ready, sort-single)
          (ground (arith, s.created, read_frame-Stored j f s))

  -- Each frame is data, was written by `now`, and lies within the engine's time.
  abbrev pub Due : List Frame → Type 0
  Due [] = Unit
  Due (f ∷ fs) = (0 < f.type) × (f.created ≤ now) × (f.created ≤ end_time) × Due fs

  abbrev pub Delivers : ℕ → Journal → Option ℕ → List Frame → ℕ → Type 0
  Delivers n j current fs stop =
      (later : Option ℕ) × (drain n now end_time (single k c j current)
        ≡ some (
          fs,
          single k c (record j { frame = stop; page_frame_nb = j.page_frame_nb + length fs }) later,
        ))

  -- Where the frames fs, fewer than the fuel, follow in a page, each of them data and due, and behind
  -- them is none: a reader of that journal alone is given exactly fs, in order, and stops behind them.
  pub drain-Delivers :
      (fs : List Frame) (n : ℕ) (j : Journal) (current : Option ℕ) (stop : ℕ)
      → length fs < n
      → Due fs
      → Chain (page j) j.frame fs stop
      → has_data stop (page j) ≡ false
      → Delivers n j current fs stop
  drain-Delivers fs zero j current stop h d ch e = elim h [ ]
  drain-Delivers [] (suc n) j current stop h d ch e =
      (current, drain_end n j current (rw ch e) ∙ ground arith)
  drain-Delivers (f ∷ fs) (suc n) j current stop h d ch e =
      let (later, q) = drain-Delivers fs n (moved j f) (some k) stop (omega arith) d.3 ch.1 e in
      (later, drain_step j f ch.0 d.0 d.1 n current d.2 ∙ rw q (ground arith))

no_data :
    {c : Setup} (j : Journal) (fs : List Frame) (closed : Sealed c (page j) fs)
    → has_data closed.stop (page j) ≡ false
unfolding has_data
no_data j fs closed = ground (arith, closed.mark)

-- The journal of a reader that has read `fs` up to `stop`.
abbrev pub at_stop : Journal → List Frame → ℕ → Journal
at_stop j fs stop = record j { frame = stop; page_frame_nb = j.page_frame_nb + length fs }

-- A reader at the first frame of a closed page, whose frames are due and fewer than the fuel, is
-- given the frames of that page, and after that nothing, however often and however late it asks: it
-- does not go on to the next page.
pub drain_closed_page :
    (k : ℕ) (c : Setup) (now end_time n : ℕ) (j : Journal) (current : Option ℕ) (fs : List Frame)
    → (closed : Sealed c (page j) fs) → j.frame ≡ 24
    → Due k c now end_time fs
    → length fs < n
    → Delivers k c now end_time n j current fs closed.stop
      × ((m now' end' : ℕ) (later : Option ℕ)
          → let r = single k c (at_stop j fs closed.stop) later in
            drain (suc m) now' end' r ≡ some ([], r))
drain_closed_page k c now end_time n j current fs closed first due enough = (
  drain-Delivers k c now end_time fs n j current closed.stop enough due (rw first closed.chain)
      (no_data j fs closed),
  λ m now' end' later.
      drain_end k c now' end' m (at_stop j fs closed.stop) later (no_data j fs closed),
)
