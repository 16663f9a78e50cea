-- ===== src/Wire/Messages.antt =====
-- Register and Deregister of core/types.cpp, there and back.
use btrader.Prelude.{ℕ, ◌≡◌, refl, some, List, ◌++◌, length}
use mathlib.Core.List.{append_assoc}
use btrader.Wire.{
  Register, Deregister, register_to_string, register_from, deregister_to_string, deregister_from,
}
use btrader.Wire.Reads.{Fits, get_uint-put_uint, get_text-put_text}

-- The fields lie within their widths, and the sizes of the strings within four bytes.
abbrev pub DeregisterFits : Deregister → Type 0
DeregisterFits d =
    Fits 4 d.location_uid
    × Fits 1 d.category
    × Fits 1 d.mode
    × Fits 4 (length d.group)
    × Fits 4 (length d.name)

abbrev pub RegisterFits : Register → Type 0
RegisterFits r =
    Fits 4 r.location_uid
    × Fits 1 r.category
    × Fits 1 r.mode
    × Fits 4 (length r.group)
    × Fits 4 (length r.name)
    × Fits 4 r.pid
    × Fits 8 r.last_active_time
    × Fits 8 r.checkin_time

-- A Deregister whose fields lie within their widths is read back from its bytes, and exactly these
-- bytes are used up.
pub deregister_from-to_string :
    (d : Deregister) (rest : List ℕ)
    → DeregisterFits d
    → deregister_from (deregister_to_string d ++ rest) ≡ some (d, rest)
unfolding deregister_from deregister_to_string
deregister_from-to_string d rest (u, c, m, g, n) =
    rw
      (
        append_assoc,
        get_uint-put_uint 4 d.location_uid _ u,
        append_assoc,
        get_uint-put_uint 1 d.category _ c,
        append_assoc,
        get_uint-put_uint 1 d.mode _ m,
        append_assoc,
        get_text-put_text d.group _ g,
        get_text-put_text d.name rest n,
      )
      refl

-- A Register whose fields lie within their widths is read back from its bytes, and exactly these
-- bytes are used up.
pub register_from-to_string :
    (r : Register) (rest : List ℕ)
    → RegisterFits r
    → register_from (register_to_string r ++ rest) ≡ some (r, rest)
unfolding register_from register_to_string
register_from-to_string r rest (u, c, m, g, n, p, a, k) =
    rw
      (
        append_assoc,
        get_uint-put_uint 4 r.location_uid _ u,
        append_assoc,
        get_uint-put_uint 1 r.category _ c,
        append_assoc,
        get_uint-put_uint 1 r.mode _ m,
        append_assoc,
        get_text-put_text r.group _ g,
        append_assoc,
        get_text-put_text r.name _ n,
        append_assoc,
        get_uint-put_uint 4 r.pid _ p,
        append_assoc,
        get_uint-put_uint 8 r.last_active_time _ a,
        get_uint-put_uint 8 r.checkin_time rest k,
      )
      refl
