-- ===== src/Wire.antt =====
-- core/types.cpp: the byte formats of the messages without a fixed size. A number of w bytes lies in
-- the order of a little-endian machine; a read beyond the end of the data, which the source does not
-- guard against, gives `none`. Enumerators and signed fields are their bytes read as numbers.
pub mod Reads
pub mod Messages
use btrader.Prelude.{
  ℕ, zero, suc, ◌+◌, ◌*◌, ◌/◌, ◌%◌, Option, none, some, List, [], ◌∷◌, ◌++◌, length,
}
use btrader.Journal.Cursor.{◌>>=◌}
use btrader.CharArray.{Chars}

-- memcpy(header, &n, w)
unfoldable pub put_uint : ℕ → ℕ → List ℕ
put_uint zero n = []
put_uint (suc w) n = n % 256 ∷ put_uint w (n / 256)

-- memcpy(&n, data, w); data += w
unfoldable pub get_uint : ℕ → List ℕ → Option (ℕ × List ℕ)
get_uint zero bs = some (0, bs)
get_uint (suc w) [] = none
get_uint (suc w) (b ∷ bs) = get_uint w bs >>= λ (n, rest). some (b + 256 * n, rest)

-- assign(data, n); data += n
unfoldable pub get_bytes : ℕ → List ℕ → Option (List ℕ × List ℕ)
get_bytes zero bs = some ([], bs)
get_bytes (suc n) [] = none
get_bytes (suc n) (b ∷ bs) = get_bytes n bs >>= λ (taken, rest). some (b ∷ taken, rest)

-- A string behind its size.
unfoldable pub put_text : List ℕ → List ℕ
put_text s = put_uint 4 (length s) ++ s

unfoldable pub get_text : List ℕ → Option (List ℕ × List ℕ)
get_text bs = get_uint 4 bs >>= λ (n, rest). get_bytes n rest

-- Location fields that Register and Deregister begin with.
pub record Deregister : Type 0 where
  pub location_uid : ℕ
  pub category : ℕ
  pub mode : ℕ
  pub group : List ℕ
  pub name : List ℕ

pub record Register : Type 0 where
  pub location_uid : ℕ
  pub category : ℕ
  pub mode : ℕ
  pub group : List ℕ
  pub name : List ℕ
  pub pid : ℕ
  pub last_active_time : ℕ
  pub checkin_time : ℕ

unfoldable pub deregister_to_string : Deregister → List ℕ
deregister_to_string d =
    put_uint 4 d.location_uid
    ++ (put_uint 1 d.category ++ (put_uint 1 d.mode ++ (put_text d.group ++ put_text d.name)))

-- The constructor from bytes, and what lies behind them.
unfoldable pub deregister_from : List ℕ → Option (Deregister × List ℕ)
deregister_from bs = do
  (uid, bs1) ← get_uint 4 bs
  (category, bs2) ← get_uint 1 bs1
  (mode, bs3) ← get_uint 1 bs2
  (group, bs4) ← get_text bs3
  (name, bs5) ← get_text bs4
  some (
    record { location_uid = uid; category = category; mode = mode; group = group; name = name },
    bs5,
  )

unfoldable pub register_to_string : Register → List ℕ
register_to_string r =
    put_uint 4 r.location_uid
    ++ (put_uint 1 r.category
        ++ (put_uint 1 r.mode
            ++ (put_text r.group
                ++ (put_text r.name
                    ++ (put_uint 4 r.pid
                        ++ (put_uint 8 r.last_active_time ++ put_uint 8 r.checkin_time))))))

unfoldable pub register_from : List ℕ → Option (Register × List ℕ)
register_from bs = do
  (uid, bs1) ← get_uint 4 bs
  (category, bs2) ← get_uint 1 bs1
  (mode, bs3) ← get_uint 1 bs2
  (group, bs4) ← get_text bs3
  (name, bs5) ← get_text bs4
  (pid, bs6) ← get_uint 4 bs5
  (active, bs7) ← get_uint 8 bs6
  (checkin, bs8) ← get_uint 8 bs7
  some (
    record {
      location_uid = uid;
      category = category;
      mode = mode;
      group = group;
      name = name;
      pid = pid;
      last_active_time = active;
      checkin_time = checkin;
    },
    bs8,
  )
