-- ===== src/Journal/Reader.antt =====
-- core/journal/reader.cpp: class Reader, and the loop of EventEngine::drain (core/eventengine.cpp)
-- that takes events from it. The clock is an argument; the readings within one drain are taken to
-- be one. Where a page cannot be loaded the call gives `none`.
pub mod Order
pub mod Delivery
use btrader.Prelude.{
  ℕ, zero, suc, ◌+◌, ◌*◌, ◌/◌, ◌^◌, Bool, true, false, not, ◌&&◌, Option, none, some, List, [], ◌∷◌,
  map, ltb, leb, ◌==◌, if◌then◌else◌,
}
use btrader.Prelude.Dict.{find, contains, insert, erase}
use btrader.Journal.Frame.{has_data, gen_time, trigger_time, msg_type, source, dest, data_at}
use btrader.Journal.Memory.{Mem, copy_out}
use btrader.Journal.Page.{Setup}
use btrader.Journal.Cursor.{Journal, ◌>>=◌, page, open_page, skip_pages, skip_frames, seek_to_time}
use btrader.Journal.Cursor
use btrader.Journal.Chain.{Frame}

-- A journal that was joined, with what it was opened with.
pub record Joined : Type 0 where
  pub setup : Setup
  pub journal : Journal

-- journals_, and the key of the journal that current_ points to.
pub record Reader : Type 0 where
  pub journals : List (ℕ × Joined)
  pub current : Option ℕ

-- location_uid << 32 | dest_id, for a dest_id below 2 ^ 32
abbrev pub journal_key : ℕ → ℕ → ℕ
journal_key uid dest_id = uid * 2 ^ 32 + dest_id

-- The frame of a journal has data that is due.
unfoldable pub ready : Journal → ℕ → Bool
ready j min_time = has_data j.frame (page j) && leb (gen_time j.frame (page j)) min_time

-- The loop of `sort`, from the least time so far and the journal that has it.
unfoldable pub sort_from : ℕ → Option ℕ → List (ℕ × Joined) → Option ℕ
sort_from min_time current [] = current
sort_from min_time current ((k, s) ∷ rest) =
    let j = s.journal in
    sort_from (if ready j min_time then gen_time j.frame (page j) else min_time)
      (if ready j min_time then some k else current) rest

unfoldable pub sort : ℕ → Reader → Reader
sort now r = record r { current = sort_from now r.current r.journals }

abbrev pub of_current {ℓ} : {A : Type ℓ} → Reader → Option A → (ℕ → Joined → Option A) → Option A
of_current r other f = elim r.current [
  | none ↦ other
  | some k ↦ elim (find k r.journals) [ none ↦ none | some s ↦ f k s ]
]

-- current_frame() where current_ is set
unfoldable pub current_has_data : Reader → Bool
current_has_data r = elim r.current [
  | none ↦ false
  | some k ↦ elim (find k r.journals) [
    | none ↦ false
    | some s ↦ has_data s.journal.frame (page s.journal)
  ]
]

unfoldable pub data_available : ℕ → Reader → Reader × Bool
data_available now r = let s = sort now r in (s, current_has_data s)

unfoldable pub next : ℕ → Reader → Option Reader
next now r = of_current r (some (sort now r)) λ k s. Cursor.next s.setup s.journal >>= λ j.
    some (sort now (record r { journals = insert k (record s { journal = j }) r.journals }))

-- `id` is the page that find_page_id gives for `from_time`, `pages` the files of the journal.
unfoldable pub join : ℕ → Setup → ℕ → (ℕ → Mem) → ℕ → ℕ → ℕ → Reader → Option Reader
join fuel c dest_id pages id from_time now r =
    let key = journal_key c.uid dest_id in
    let closed : Journal = record {
      pages = pages;
      page_id = 0;
      frame = 0;
      page_frame_nb = 0;
      page_id_in_rollback = 0;
    } in
    let sought =
      open_page c id closed >>= skip_pages fuel c from_time >>= skip_frames fuel c from_time in
    (if contains key r.journals
      then some r
      else (sought >>= λ j.
          some (record r { journals = insert key (record { setup = c; journal = j }) r.journals })))
    >>= λ s. some (elim s.current [ none ↦ sort now s | some _ ↦ s ])

-- The keys whose upper half is the location go.
unfoldable pub drop_location : ℕ → List (ℕ × Joined) → List (ℕ × Joined)
drop_location uid [] = []
drop_location uid ((k, s) ∷ rest) =
    if k / 2 ^ 32 == uid then drop_location uid rest else (k, s) ∷ drop_location uid rest

unfoldable pub disjoin : ℕ → ℕ → Reader → Reader
disjoin uid now r = sort now (record r { journals = drop_location uid r.journals; current = none })

unfoldable pub disjoin_channel : ℕ → ℕ → ℕ → Reader → Reader
disjoin_channel uid dest_id now r =
    sort now (record { journals = erase (journal_key uid dest_id) r.journals; current = none })

-- What a subscriber sees of the current frame.
unfoldable pub read_frame : Journal → Frame
read_frame j =
    let a = j.frame in
    let m = page j in
    record {
      created = gen_time a m;
      trigger = trigger_time a m;
      type = msg_type a m;
      from = source a m;
      to = dest a m;
      bytes = data_at a m;
    }

-- EventEngine::drain: the frames delivered, and the reader afterwards. It stops at a frame that is
-- later than end_time, and where no data is available; `none` is also where the fuel runs out. The
-- flag live_, which stays set, the result and now_event_time_ are left out.
unfoldable pub drain : ℕ → ℕ → ℕ → Reader → Option (List Frame × Reader)
drain zero now end_time r = none
drain (suc n) now end_time r =
    let available = data_available now r in
    let s = available.0 in
    let step = of_current s (some ([], s)) λ k q.
      (let rest =
          next now s >>= drain n now end_time >>= λ p. some (read_frame q.journal ∷ p.0, p.1) in
        if leb (gen_time q.journal.frame (page q.journal)) end_time then rest else some ([], s)) in
    if available.1 then step else some ([], s)
