-- ===== src/Builtin/Files/Threads.antt =====
-- `get_file` of thruster/src/middleware/file.rs where threads share `CACHE`: each access of the
-- table is one step, and other threads may take steps in between, or the disk change.
use fanta.Prelude.{
  ◌≡◌, Bool, true, false, Option, none, some, List, [], ◌∷◌, ◌++◌, Result, ok, err, IoError,
}
use fanta.Text.{Str, codes}
use fanta.Text.Utf8.{Bytes}
use fanta.Map.{HashMap, get, insert}
use fanta.Builtin.Files.{replace, is_cache_off}

-- How far a call is: before the first look into the table, before the read, before the insertion
-- of what was read, before the second look, or at its end; `panicked` is that the second look found
-- nothing.
pub data Stage : Type 0 where
  looking : Stage
  missed : Stage
  holding : Bytes → Stage
  inserted : Stage
  returned : Result Bytes IoError → Stage
  panicked : Stage

-- A call, at the path less its pairs of dots.
pub record Call : Type 0 where
  pub path : Str
  pub stage : Stage

abbrev pub new_call : Str → Call
new_call given = record { path = replace (codes "..") [] given; stage = looking }

-- The first look, when the cache is on.
abbrev pub found : Option Bytes → Stage
found none = missed
found (some val) = returned (ok val)

-- What was read, when the cache is on.
abbrev pub to_keep : Result Bytes IoError → Stage
to_keep (ok val) = holding val
to_keep (err e) = returned (err e)

-- The second look.
abbrev pub unwrapped : Option Bytes → Stage
unwrapped none = panicked
unwrapped (some val) = returned (ok val)

-- The next access of a call, with `read` what the disk has now; and the table after it.
unfoldable pub advance :
    Bool → Result Bytes IoError → HashMap Bytes → Str → Stage → Stage × HashMap Bytes
advance true read cache path looking = (returned read, cache)
advance false read cache path looking = (found (get path cache), cache)
advance off read cache path missed = (to_keep read, cache)
advance off read cache path (holding val) = (inserted, insert path val cache)
advance off read cache path inserted = (unwrapped (get path cache), cache)
advance off read cache path (returned r) = (returned r, cache)
advance off read cache path panicked = (panicked, cache)

pub record State : Type 0 where
  pub disk : Str → Result Bytes IoError
  pub cache : HashMap Bytes
  pub calls : List Call

-- The contents that a file may have.
abbrev pub Versions : Type 1
Versions = Str → Bytes → Type 0

abbrev pub Offers : Versions → (Str → Result Bytes IoError) → Type 0
Offers version disk = (path : Str) (val : Bytes) → disk path ≡ ok val → version path val

module _ (version : Versions) (rust_cache : Option Str) where
  pub data Step : State → State → Type 0 where
    changes :
        {s : State} (disk : Str → Result Bytes IoError)
        → Offers version disk
        → Step s (record s { disk = disk })
    starts : {s : State} (given : Str) → Step s (record s { calls = new_call given ∷ s.calls })
    advances :
        {s : State} (before : List Call) (call : Call) (after : List Call)
        → s.calls ≡ before ++ call ∷ after
        → Step s (
            let next =
              advance (is_cache_off rust_cache) (s.disk call.path) s.cache call.path call.stage in
            record s { cache = next.1; calls = before ++ record call { stage = next.0 } ∷ after })

  pub data Reach (start : State) : State → Type 0 where
    here : Reach start start
    next : {s t : State} → Reach start s → Step s t → Reach start t
