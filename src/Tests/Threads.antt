-- ===== src/Tests/Threads.antt =====
-- Two threads that ask for one file.
use fanta.Prelude.{ℕ, arith, ◌≡◌, refl, [], ◌∷◌, some, Result, ok, IoError, List}
use fanta.Text.{Str, codes, str_eq}
use fanta.Text.Utf8.{Bytes}
use fanta.Map.{get, insert, HashMap}
use fanta.Builtin.Files.{replace, replace_from}
use fanta.Builtin.Files.Threads.{
  Call, Stage, looking, missed, holding, inserted, advance, State, Versions, Offers, changes,
  starts, advances, Reach, here, next,
}
use fanta.Builtin.Files.Sound.{IsSound, Reach-IsSound}

-- Each file has a version of one character.
abbrev versions : Versions
versions path val = (c : ℕ) × (val ≡ c ∷ [])

abbrev disk_of : Str → Str → Result Bytes IoError
disk_of val path = ok val

a_offered : Offers versions (disk_of (codes "a"))
a_offered path val e = (b'a', ground arith)

b_offered : Offers versions (disk_of (codes "b"))
b_offered path val e = (b'b', ground arith)

abbrev call : Stage → Call
call stage = record { path = codes "/f"; stage = stage }

abbrev at : Str → HashMap Bytes → List Call → State
at val cache calls = record { disk = disk_of val; cache = cache; calls = calls }

-- The first thread reads the old version, the second the new one, and both keep what they read.
raced :
    Reach versions
      (some (codes "on"))
      (at (codes "a") [] [])
      (at (codes "b") ((codes "/f", codes "b") ∷ []) (call inserted ∷ call inserted ∷ []))
unfolding advance get insert str_eq replace replace_from
raced =
    next
      (next
        (next
          (next
            (next
              (next
                (next (next (next here (starts (codes "/f"))) (starts (codes "/f")))
                  (advances (call looking ∷ []) (call looking) [] refl))
                (advances (call looking ∷ []) (call missed) [] refl))
              (changes (disk_of (codes "b")) b_offered))
            (advances [] (call looking) (call (holding (codes "a")) ∷ []) refl))
          (advances [] (call missed) (call (holding (codes "a")) ∷ []) refl))
        (advances (call (holding (codes "b")) ∷ []) (call (holding (codes "a"))) [] refl))
      (advances [] (call (holding (codes "b"))) (call inserted ∷ []) refl)

empty_cache : (path : Str) (val : Bytes) → get path [] ≡ some val → versions path val
unfolding get
empty_cache path val e = cc

Reach-IsSound_example :
    IsSound versions
      (at (codes "b") ((codes "/f", codes "b") ∷ []) (call inserted ∷ call inserted ∷ []))
Reach-IsSound_example =
    Reach-IsSound versions (some (codes "on"))
      (record { offers = a_offered; caches = empty_cache; says = tt }) raced
