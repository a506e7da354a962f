-- ===== src/Builtin/Files/Sound.antt =====
-- Threads that share the cache of thruster/src/middleware/file.rs.
use fanta.Prelude.{
  ◌≡◌, refl, ◌∙◌, Bool, true, false, Option, none, some, List, [], ◌∷◌, ◌++◌, Result, ok, err,
  IoError, Bool-cases, inl, inr, All, All-append, arith,
}
use fanta.Text.{Str, str_eq}
use fanta.Text.Split.{str_eq_iff, str_eq_refl}
use fanta.Text.Utf8.{Bytes}
use fanta.Map.{HashMap, get, insert, get-insert}
use fanta.Builtin.Files.{is_cache_off, NoDots, replace-NoDots}
use fanta.Builtin.Files.Threads.{
  Stage, looking, missed, holding, inserted, returned, panicked, Call, found, unwrapped, advance,
  State, Versions, Offers, Step, changes, starts, advances, Reach, here, next,
}

-- There is an entry at the path.
abbrev pub HasKey : HashMap Bytes → Str → Type 0
HasKey cache path = (val : Bytes) × (get path cache ≡ some val)

HasKey-insert :
    (cache : HashMap Bytes) (q p : Str) (v : Bytes) → HasKey cache p → HasKey (insert q v cache) p
HasKey-insert cache q p v (val, e) = elim (Bool-cases (str_eq q p)) [
  | inl h ↦ (v, rw (get-insert q p v cache, h) refl)
  | inr h ↦ (val, rw (get-insert q p v cache, h) e)
]

module _ (version : Versions) where
  -- What a stage says of the table and of what was read.
  abbrev pub Says : HashMap Bytes → Str → Stage → Type 0
  Says cache path looking = Unit
  Says cache path missed = Unit
  Says cache path (holding val) = version path val
  Says cache path inserted = HasKey cache path
  Says cache path (returned (ok val)) = version path val
  Says cache path (returned (err e)) = Unit
  Says cache path panicked = ⊥

  abbrev pub SaysCall : HashMap Bytes → Call → Type 0
  SaysCall cache call = NoDots call.path × Says cache call.path call.stage

  Says-insert :
      (cache : HashMap Bytes) (q : Str) (v : Bytes) (p : Str) (stage : Stage)
      → Says cache p stage
      → Says (insert q v cache) p stage
  Says-insert cache q v p looking h = tt
  Says-insert cache q v p missed h = tt
  Says-insert cache q v p (holding val) h = h
  Says-insert cache q v p inserted h = HasKey-insert cache q p v h
  Says-insert cache q v p (returned (ok val)) h = h
  Says-insert cache q v p (returned (err e)) h = tt
  Says-insert cache q v p panicked h = h

  -- The cache holds versions of the files.
  abbrev pub Caches : HashMap Bytes → Type 0
  Caches cache = (p : Str) (val : Bytes) → get p cache ≡ some val → version p val

  Caches-insert :
      (cache : HashMap Bytes) (q : Str) (v : Bytes)
      → Caches cache
      → version q v
      → Caches (insert q v cache)
  Caches-insert cache q v h k p val e =
      ground (arith, str_eq_iff q p, get-insert q p v cache, h p val, k, e)

  found-Says :
      (cache : HashMap Bytes) (path : Str) (o : Option Bytes)
      → Caches cache
      → get path cache ≡ o
      → Says cache path (found o)
  found-Says cache path none c e = tt
  found-Says cache path (some val) c e = c path val e

  unwrapped-Says :
      (cache : HashMap Bytes) (path : Str) (o : Option Bytes)
      → Caches cache
      → HasKey cache path
      → get path cache ≡ o
      → Says cache path (unwrapped o)
  unwrapped-Says cache path none c (val, k) e = cc
  unwrapped-Says cache path (some val) c k e = c path val e

  -- What an access leaves: what the call says after it, and the table.
  advance-Says :
      (off : Bool) (read : Result Bytes IoError) (cache : HashMap Bytes) (path : Str)
      (stage : Stage)
      → ((val : Bytes) → read ≡ ok val → version path val)
      → Caches cache
      → Says cache path stage
      → Says (advance off read cache path stage).1 path (advance off read cache path stage).0
        × Caches (advance off read cache path stage).1
  unfolding advance
  advance-Says true (ok val) cache path looking r c h = (r val refl, c)
  advance-Says true (err e) cache path looking r c h = (tt, c)
  advance-Says false read cache path looking r c h =
      (found-Says cache path (get path cache) c refl, c)
  advance-Says off (ok val) cache path missed r c h = (r val refl, c)
  advance-Says off (err e) cache path missed r c h = (tt, c)
  advance-Says off read cache path (holding val) r c h = (
    (val, get-insert path path val cache ∙ rw (str_eq_refl path) refl),
    Caches-insert cache path val c h,
  )
  advance-Says off read cache path inserted r c h =
      (unwrapped-Says cache path (get path cache) c h refl, c)
  advance-Says off read cache path (returned r') r c h = (h, c)
  advance-Says off read cache path panicked r c h = (h, c)

  -- What holds of the threads' state whatever they do.
  pub record IsSound (s : State) : Type 0 where
    pub offers : Offers version s.disk
    pub caches : Caches s.cache
    pub says : All (SaysCall s.cache) s.calls

  -- An access keeps what other calls say.
  advance-keeps_Says :
      (off : Bool) (read : Result Bytes IoError) (cache : HashMap Bytes) (path : Str)
      (stage : Stage) (p : Str) (other : Stage)
      → Says cache p other
      → Says (advance off read cache path stage).1 p other
  unfolding advance
  advance-keeps_Says true read cache path looking p other h = h
  advance-keeps_Says false read cache path looking p other h = h
  advance-keeps_Says off read cache path missed p other h = h
  advance-keeps_Says off read cache path (holding val) p other h =
      Says-insert cache path val p other h
  advance-keeps_Says off read cache path inserted p other h = h
  advance-keeps_Says off read cache path (returned r) p other h = h
  advance-keeps_Says off read cache path panicked p other h = h

  advance-keeps :
      (off : Bool) (read : Result Bytes IoError) (cache : HashMap Bytes) (path : Str)
      (stage : Stage) (calls : List Call)
      → All (SaysCall cache) calls
      → All (SaysCall (advance off read cache path stage).1) calls
  advance-keeps off read cache path stage [] h = tt
  advance-keeps off read cache path stage (call ∷ calls) ((n, h), hs) = (
    (n, advance-keeps_Says off read cache path stage call.path call.stage h),
    advance-keeps off read cache path stage calls hs,
  )

  All-split :
      (cache : HashMap Bytes) (before : List Call) (call : Call) (after : List Call)
      → All (SaysCall cache) (before ++ call ∷ after)
      → All (SaysCall cache) before × SaysCall cache call × All (SaysCall cache) after
  All-split cache [] call after (h, k) = (tt, h, k)
  All-split cache (c ∷ before) call after (h, k) =
      let (a, b, d) = All-split cache before call after k in ((h, a), b, d)

module _ (version : Versions) (rust_cache : Option Str) where
  Step-IsSound : {s t : State} → Step version rust_cache s t → IsSound version s → IsSound version t
  Step-IsSound (changes disk o) h = record { offers = o; caches = h.caches; says = h.says }
  Step-IsSound (starts given) h = record {
    offers = h.offers;
    caches = h.caches;
    says = ((replace-NoDots given, tt), h.says);
  }
  Step-IsSound {s} (advances before call after e) h =
      let off = is_cache_off rust_cache in
      let read = s.disk call.path in
      let (a, (n, b), d) = All-split version s.cache before call after (rw e at h.says) in
      let (said, kept) =
        advance-Says version off read s.cache call.path call.stage (h.offers call.path) h.caches
          b in
      record {
        offers = h.offers;
        caches = kept;
        says =
            All-append _ before _
              (advance-keeps version off read s.cache call.path call.stage before a)
              ((n, said), advance-keeps version off read s.cache call.path call.stage after d);
      }

  -- Threads call `get_file` at any paths, they run in any order, and the disk changes in between,
  -- to one that has at each path a version of the file, or none. When all is so at the start, then
  -- at any time no call has panicked, what a call returned is an error or a version of the file at
  -- its path, which has no two dots in a row, and the table holds versions of the files.
  pub Reach-IsSound :
      {start s : State}
      → IsSound version start
      → Reach version rust_cache start s
      → IsSound version s
  Reach-IsSound h here = h
  Reach-IsSound h (next r step) = Step-IsSound step (Reach-IsSound h r)
