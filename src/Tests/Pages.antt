-- ===== src/Tests/Pages.antt =====
-- A journal with pages of 200 bytes, its writer, and a reader of its first page.
use btrader.Prelude.{
  false, ℕ, suc, ◌≡◌, refl, arith, true, Option, some, none, List, [], ◌∷◌, map, replicate,
}
use btrader.Journal.Frame.{has_data}
use btrader.Journal.Page.{Setup}
use btrader.Journal.Cursor.{Journal, ◌>>=◌, page, open_page}
use btrader.Journal.Chain.{Frame, Chain}
use btrader.Journal.Writer.Append.{IsReady}
use btrader.Journal.Writer.Turn.{Sealed}
use btrader.Journal.Writer.Log.{
  Message, Layout, Holds, Writable, to_frame, place, place_all, write_all, contents,
  write_all-Holds,
}
use btrader.Journal.Writer.Opened.{empty_layout, opened, opened-Holds, opened-write_all}
use btrader.Journal.Reader.{Reader, sort, drain}
use btrader.Journal.Reader.Order.{Chosen, sort-Chosen}
use btrader.Journal.Reader.Delivery.{Delivers, single, at_stop, drain-Delivers, drain_closed_page}

abbrev setup : Setup
setup = record {
  version = 1;
  size = 200;
  rollback_size = 0;
  uid = 7;
  dest_id = 9;
  is_writing = true;
}

abbrev unused : Journal
unused = record {
  pages = λ k i. 0;
  page_id = 0;
  frame = 0;
  page_frame_nb = 0;
  page_id_in_rollback = 0;
}

-- The second does not fit behind the first.
abbrev messages : List Message
messages =
    record { trigger = 1; type = 101; now = 5; bytes = replicate 40 1 }
    ∷ record { trigger = 2; type = 102; now = 6; bytes = replicate 50 2 }
    ∷ []

messages-Writable : Writable setup messages
messages-Writable = (omega arith, omega arith, (omega arith, omega arith, tt))

opened-write_all_example :
    (k : Journal) × (l : Layout) × ((open_page setup 1 unused >>= write_all setup messages)
      ≡ some k)
    × Holds setup k l
    × (contents l ≡ map (to_frame setup) messages)
opened-write_all_example =
    opened-write_all setup unused (λ k i. refl) messages refl refl (omega arith) messages-Writable

unused-Holds : Holds setup (opened setup unused λ k i. refl) empty_layout
unused-Holds = opened-Holds setup unused (λ k i. refl) refl (omega arith)

write_all-Holds_example :
    (k : Journal) × (write_all setup messages (opened setup unused λ k i. refl) ≡ some k)
    × Holds setup k (place_all setup empty_layout messages)
write_all-Holds_example =
    write_all-Holds setup messages (opened setup unused λ k i. refl) empty_layout refl
      messages-Writable unused-Holds

abbrev first_frame : Frame
first_frame = to_frame setup (record { trigger = 1; type = 101; now = 5; bytes = replicate 40 1 })

-- A journal whose first page is closed behind one frame.
closed_page : (j : Journal) × Sealed setup (page j) (first_frame ∷ []) × (j.frame ≡ 24)
unfolding place_all place
closed_page =
    let (k, e, held) =
      write_all-Holds setup messages (opened setup unused λ k i. refl) empty_layout refl
        messages-Writable unused-Holds in
    (record k { page_id = 1; frame = 24; page_frame_nb = 0 }, held.sealed.0, refl)

abbrev second_frame : Frame
second_frame = to_frame setup (record { trigger = 2; type = 102; now = 6; bytes = replicate 50 2 })

ready_no_data :
    {c : Setup} {fs : List Frame} (j : Journal) → IsReady c j fs → has_data j.frame (page j) ≡ false
unfolding has_data
ready_no_data j r = ground (arith, r.blank 0 (omega arith))

-- The page that is open then, with the frame in it, from its first frame.
open_page_two :
    (j : Journal) × (stop : ℕ) × Chain (page j) j.frame (second_frame ∷ []) stop
    × (has_data stop (page j) ≡ false)
unfolding place_all place has_data
open_page_two =
    let (k, e, held) =
      write_all-Holds setup messages (opened setup unused λ k i. refl) empty_layout refl
        messages-Writable unused-Holds in
    (
      record k { frame = 24; page_frame_nb = 0 },
      k.frame,
      held.ready.chain,
      ready_no_data k held.ready,
    )

drain-Delivers_example :
    let (j, stop, chain, last) = open_page_two in
    Delivers 3 setup 10 20 2 j none (second_frame ∷ []) stop
drain-Delivers_example =
    let (j, stop, chain, last) = open_page_two in
    drain-Delivers 3 setup 10 20 (second_frame ∷ []) 2 j none stop (omega arith)
      (omega arith, omega arith, omega arith, tt) chain last

drain_closed_page_example :
    let (j, closed, first) = closed_page in
    Delivers 3 setup 10 20 2 j none (first_frame ∷ []) closed.stop
    × ((m now' end' : ℕ) (later : Option ℕ)
        → let r = single 3 setup (at_stop j (first_frame ∷ []) closed.stop) later in
          drain (suc m) now' end' r ≡ some ([], r))
drain_closed_page_example =
    let (j, closed, first) = closed_page in
    drain_closed_page 3 setup 10 20 2 j none (first_frame ∷ []) closed first
      (omega arith, omega arith, omega arith, tt) (omega arith)

abbrev two_journals : Reader
two_journals = record {
  journals =
      (3, record { setup = setup; journal = unused })
      ∷ (4, record { setup = setup; journal = opened setup unused λ k i. refl })
      ∷ [];
  current = none;
}

sort-Chosen_example : Chosen 5 none two_journals.journals (sort 5 two_journals).current
sort-Chosen_example = sort-Chosen 5 two_journals
