-- ===== src/Journal/Writer/Log.antt =====
-- What a history of writes leaves in the pages, against a specification that only sorts frames
-- into pages by their size.
use btrader.Prelude.{
  ℕ, suc, ◌+◌, ◌≤◌, ◌<◌, ◌≡◌, refl, ◌∙◌, inl, inr, Bool-cases, map, Option, some, List, [], ◌∷◌,
  ◌++◌, arith, length, length-append, ltb, if◌then◌else◌,
}
use mathlib.Core.List.{append_assoc, append-nil}
use btrader.Journal.Memory.{Mem}
use btrader.Journal.Page.{Setup, page_version}
use btrader.Journal.Cursor.{Journal, ◌>>=◌, page}
use btrader.Journal.Chain.{Frame, Chain, extent, Chain-le}
use btrader.Journal.Writer.{write}
use btrader.Journal.Writer.Written.{written, frame_written, written_before}
use btrader.Journal.Writer.Append.{
  IsReady, appended, write-eq-appended, appended-IsReady, set_page_at, set_page_off,
}
use btrader.Journal.Writer.Turn.{
  IsBlank, Sealed, turned, write-turned, turned-IsReady, turned-Sealed, turned_off, turned_version,
}

-- One call of `write`.
pub record Message : Type 0 where
  pub trigger : ℕ
  pub type : ℕ
  pub now : ℕ
  pub bytes : List ℕ

abbrev pub to_frame : Setup → Message → Frame
to_frame c m = frame_written c m.trigger m.type m.now m.bytes

unfoldable pub write_all : Setup → List Message → Journal → Option Journal
write_all c [] j = some j
write_all c (m ∷ ms) j = write c m.trigger m.type m.now m.bytes j >>= write_all c ms

-- The bytes in use in a page that holds `fs`.
abbrev pub used : List Frame → ℕ
used [] = 24
used (f ∷ fs) = extent f + used fs

-- The closed pages, oldest first, and the frames of the open one.
pub record Layout : Type 0 where
  pub closed : List (List Frame)
  pub open_frames : List Frame

unfoldable pub place : ℕ → Layout → Frame → Layout
place size l f =
    if ltb (used l.open_frames + extent f + 40) size
    then record l { open_frames = l.open_frames ++ f ∷ [] }
    else record { closed = l.closed ++ l.open_frames ∷ []; open_frames = f ∷ [] }

unfoldable pub place_all : Setup → Layout → List Message → Layout
place_all c l [] = l
place_all c l (m ∷ ms) = place_all c (place c.size l (to_frame c m)) ms

abbrev pub flat : List (List Frame) → List Frame
flat [] = []
flat (g ∷ gs) = g ++ flat gs

abbrev pub contents : Layout → List Frame
contents l = flat l.closed ++ l.open_frames

abbrev pub AllSealed : Setup → (ℕ → Mem) → ℕ → List (List Frame) → Type 0
AllSealed c p k [] = Unit
AllSealed c p k (g ∷ gs) = Sealed c (p k) g × AllSealed c p (suc k) gs

-- The journal holds the layout: pages 1, 2, ... are closed, the current one is open, and those
-- after it were never used.
pub record Holds (c : Setup) (j : Journal) (l : Layout) : Type 0 where
  pub never : j.page_id_in_rollback ≡ 0
  pub id : j.page_id ≡ length l.closed + 1
  pub version : page_version (page j) ≡ c.version
  pub ready : IsReady c j l.open_frames
  pub sealed : AllSealed c j.pages 1 l.closed
  pub ahead : (k : ℕ) → j.page_id < k → IsBlank (j.pages k)

Chain-used : (m : Mem) (a : ℕ) (fs : List Frame) (b : ℕ) → Chain m a fs b → b + 24 ≡ a + used fs
Chain-used m a [] b e = omega arith
Chain-used m a (f ∷ fs) b e = omega (arith, Chain-used m (a + extent f) fs b e.1)

AllSealed-congr :
    (c : Setup) (p q : ℕ → Mem) (k n : ℕ) (gs : List (List Frame))
    → ((i : ℕ) → k ≤ i → i < n → q i ≡ p i)
    → k + length gs ≤ n
    → AllSealed c p k gs
    → AllSealed c q k gs
AllSealed-congr c p q k n [] h b s = tt
AllSealed-congr c p q k n (g ∷ gs) h b s = (
  rw (h k (omega arith) (omega arith)) s.0,
  AllSealed-congr c p q (suc k) n gs (λ i x y. h i (omega arith) y) (omega arith) s.1,
)

AllSealed-snoc :
    (c : Setup) (p : ℕ → Mem) (k n : ℕ) (gs : List (List Frame)) (g : List Frame)
    → k + length gs ≡ n
    → AllSealed c p k gs
    → Sealed c (p n) g
    → AllSealed c p k (gs ++ g ∷ [])
AllSealed-snoc c p k n [] g e s t = let e' : k ≡ n = omega arith in rw e' (t, tt)
AllSealed-snoc c p k n (h ∷ gs) g e s t =
    (s.0, AllSealed-snoc c p (suc k) n gs g (omega arith) s.1 t)

module _ (c : Setup) (straight : c.rollback_size ≡ 0) (t ty now : ℕ) (bytes : List ℕ)
    (typed : 0 < ty) where
  abbrev new : Frame
  new = frame_written c t ty now bytes

  append-Holds :
      (j : Journal) (l : Layout)
      → Holds c j l
      → j.frame + 40 + length bytes + 40 < c.size
      → (k : Journal) × (write c t ty now bytes j ≡ some k)
        × Holds c k (record l { open_frames = l.open_frames ++ new ∷ [] })
  unfolding appended
  append-Holds j l h f =
      let w = written_before c t ty now bytes j.frame (page j) in
      let off = set_page_off j.page_id (written c t ty now bytes j.frame (page j)) j.pages in
      (
        appended c t ty now bytes j,
        write-eq-appended c t ty now bytes j h.ready f typed,
        record {
          never = h.never;
          id = h.id;
          version = rw set_page_at (
              w 0 (omega (arith, Chain-le (page j) 24 l.open_frames j.frame h.ready.chain))
                (omega arith)
              ∙ h.version);
          ready = appended-IsReady c t ty now bytes j h.ready f typed;
          sealed =
              AllSealed-congr c j.pages _ 1 j.page_id l.closed (λ i p q. off i (omega arith))
                (omega (arith, h.id)) h.sealed;
          ahead = λ k p. rw (off k (omega arith)) (h.ahead k p);
        },
      )

  turn-Holds :
      (j : Journal) (l : Layout)
      → Holds c j l
      → c.size ≤ j.frame + 40 + length bytes + 40
      → 24 + 40 + length bytes + 40 < c.size
      → Holds c
          (turned c t now j)
          (record { closed = l.closed ++ l.open_frames ∷ []; open_frames = [] })
  unfolding turned
  turn-Holds j l h full big =
      let one : 0 < j.page_id = omega (arith, h.id) in
      let b = h.ahead (j.page_id + 1) (omega arith) in
      let off = turned_off c t now j straight h.never one b in
      record {
        never = h.never;
        id = omega (arith, h.id, length-append l.closed (l.open_frames ∷ []));
        version = turned_version c t now j straight h.never one b;
        ready = turned-IsReady c t now j straight h.never one b (omega arith);
        sealed =
            AllSealed-snoc c _ 1 j.page_id l.closed l.open_frames (omega (arith, h.id))
              (AllSealed-congr c j.pages _ 1 j.page_id l.closed
                (λ i p q. off i (omega arith) (omega arith)) (omega (arith, h.id)) h.sealed)
              (turned-Sealed c t now j straight h.never one b h.ready h.version);
        ahead = λ k p. rw (off k (omega arith) (omega arith)) (h.ahead k (omega arith));
      }

  -- One write puts the frame where the specification puts it.
  pub write-Holds :
      (j : Journal) (l : Layout)
      → Holds c j l
      → 24 + 40 + length bytes + 40 < c.size
      → (k : Journal) × (write c t ty now bytes j ≡ some k) × Holds c k (place c.size l new)
  unfolding place turned
  write-Holds j l h big =
      let u = Chain-used (page j) 24 l.open_frames j.frame h.ready.chain in
      elim (Bool-cases (ltb (used l.open_frames + extent new + 40) c.size)) [
        | inl e ↦ rw e (append-Holds j l h (ground (arith, u)))
        | inr e ↦
            let full : c.size ≤ j.frame + 40 + length bytes + 40 = ground (arith, u) in
            let (k, q, held) =
              append-Holds (turned c t now j)
                (record { closed = l.closed ++ l.open_frames ∷ []; open_frames = [] })
                (turn-Holds j l h full big) big in
            let b = h.ahead (j.page_id + 1) (omega arith) in
            rw e (
              k,
              write-turned c t now j straight h.never (omega (arith, h.id)) b ty bytes h.ready full
                    big
                  ∙ q,
              held,
            )
      ]

-- What a message must meet: it is not a PageEnd, and fits on an empty page.
abbrev pub Writable : Setup → List Message → Type 0
Writable c [] = Unit
Writable c (m ∷ ms) = (0 < m.type) × (24 + 40 + length m.bytes + 40 < c.size) × Writable c ms

-- A journal without rollback that holds a layout accepts every history of writable messages, and
-- its pages then hold the frames that the specification places in them.
pub write_all-Holds :
    (c : Setup) (ms : List Message) (j : Journal) (l : Layout)
    → c.rollback_size ≡ 0
    → Writable c ms
    → Holds c j l
    → (k : Journal) × (write_all c ms j ≡ some k) × Holds c k (place_all c l ms)
unfolding write_all place_all
write_all-Holds c [] j l straight w h = (j, refl, h)
write_all-Holds c (m ∷ ms) j l straight w h =
    let (k, e, held) = write-Holds c straight m.trigger m.type m.now m.bytes w.0 j l h w.1 in
    let (n, e', held') = write_all-Holds c ms k _ straight w.2 held in (n, rw e e', held')

flat-append : (xs ys : List (List Frame)) → flat (xs ++ ys) ≡ flat xs ++ flat ys
flat-append [] ys = refl
flat-append (x ∷ xs) ys = rw (flat-append xs ys, append_assoc x (flat xs) (flat ys))

contents-place : (n : ℕ) (l : Layout) (f : Frame) → contents (place n l f) ≡ contents l ++ f ∷ []
unfolding place
contents-place n l f = elim (Bool-cases (ltb (used l.open_frames + extent f + 40) n)) [
  | inl e ↦ rw (e, append_assoc)
  | inr e ↦ rw (e, flat-append l.closed (l.open_frames ∷ []), append-nil l.open_frames)
]

-- No frame is lost, doubled or reordered: page after page the layout lists the messages as written.
pub contents-place_all :
    (c : Setup) (ms : List Message) (l : Layout)
    → contents (place_all c l ms) ≡ contents l ++ map (to_frame c) ms
unfolding place_all
contents-place_all c [] l = rw append-nil
contents-place_all c (m ∷ ms) l = rw (
  contents-place_all c ms (place c.size l (to_frame c m)),
  contents-place c.size l (to_frame c m),
  append_assoc,
)
