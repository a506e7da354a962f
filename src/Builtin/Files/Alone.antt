-- ===== src/Builtin/Files/Alone.antt =====
-- `get_file` of thruster/src/middleware/file.rs is its accesses of the table, one after the other.
use fanta.Prelude.{
  [], ℕ, zero, suc, ◌≡◌, refl, Bool, true, false, Option, none, some, ◌>>=◌, Result, ok, err,
  IoError, Option-cases, inl, inr,
}
use fanta.Text.{Str, codes}
use fanta.Text.Utf8.{Bytes}
use fanta.Map.{HashMap, get, insert}
use fanta.Builtin.Files.{replace, is_cache_off, choose, keep, get_file}
use fanta.Builtin.Files.Threads.{Stage, looking, missed, returned, unwrapped, advance}

-- Some accesses of one call, with none of another call in between.
abbrev pub accesses :
    ℕ → Bool → Result Bytes IoError → Str → Stage × HashMap Bytes → Stage × HashMap Bytes
accesses zero off read path (stage, cache) = (stage, cache)
accesses (suc n) off read path (stage, cache) =
    accesses n off read path (advance off read cache path stage)

-- What a call that is at its end returned; `none` is a panic.
abbrev pub settled : Stage × HashMap Bytes → Option (Result Bytes IoError × HashMap Bytes)
settled (returned r, cache) = some (r, cache)
settled (stage, cache) = none

settled-unwrapped :
    (o : Option Bytes) (cache : HashMap Bytes)
    → (o >>= λ val. some (ok val, cache)) ≡ settled (unwrapped o, cache)
settled-unwrapped none cache = refl
settled-unwrapped (some val) cache = refl

missed-accesses :
    (read : Result Bytes IoError) (path : Str) (cache : HashMap Bytes)
    → keep cache path read ≡ settled (accesses 3 false read path (missed, cache))
unfolding advance
missed-accesses (err e) path cache = refl
missed-accesses (ok val) path cache =
    settled-unwrapped (get path (insert path val cache)) (insert path val cache)

choose-accesses :
    (off : Bool) (read : Result Bytes IoError) (path : Str) (cache : HashMap Bytes)
    → choose off (get path cache) cache path read
      ≡ settled (accesses 4 off read path (looking, cache))
unfolding advance
choose-accesses true read path cache = refl
choose-accesses false read path cache = elim (Option-cases (get path cache)) [
  | inl e ↦ rw e (missed-accesses read path cache)
  | inr (val, e) ↦ rw e refl
]

-- A call is four accesses, with none of another call in between and the disk unchanged.
pub get_file-accesses :
    (read_file : Str → Result Bytes IoError) (rust_cache : Option Str) (cache : HashMap Bytes)
    (given : Str)
    → get_file read_file rust_cache cache given
      ≡ settled (
          accesses 4
            (is_cache_off rust_cache)
            (read_file (replace (codes "..") [] given))
            (replace (codes "..") [] given)
            (looking, cache))
unfolding get_file
get_file-accesses read_file rust_cache cache given =
    choose-accesses (is_cache_off rust_cache) (read_file (replace (codes "..") [] given))
      (replace (codes "..") [] given) cache
