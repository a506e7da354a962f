-- ===== src/Builtin/Files.antt =====
-- thruster/src/middleware/file.rs. The variables of the environment and `read_file`, which reads
-- the disk, are parameters; `none` is a panic.
pub mod Threads
pub mod Sound
pub mod Alone
use fanta.Prelude.{
  ap, ℕ, zero, suc, ◌-◌, ◌≡◌, ◌≢◌, refl, Bool, true, false, ◌==◌, ◌&&◌, Option, none, some, [], ◌∷◌,
  ◌++◌, ◌>>=◌, length, arith, Result, ok, err, IoError, Option-cases, Bool-cases, ◌⊎◌, inl, inr,
}
use fanta.Text.{Str, codes, str_eq}
use fanta.Text.Split.{str_eq_refl, str_eq_iff}
use fanta.Text.Utf8.{Bytes}
use fanta.Map.{HashMap, get, insert, get-insert}
use fanta.Context.{Context}
use fanta.Middleware.{MiddlewareFnPointer, not_found_error}

abbrev pub starts_with : Str → Str → Bool
starts_with [] s = true
starts_with (p ∷ ps) [] = false
starts_with (p ∷ ps) (c ∷ s) = p == c && starts_with ps s

-- The matches from the left, which do not overlap; `skip` characters belong to the last one.
unfoldable pub replace_from : ℕ → Str → Str → Str → Str
replace_from skip from to [] = []
replace_from zero from to (c ∷ s) = elim (starts_with from (c ∷ s)) [
  | true ↦ to ++ replace_from (length from - 1) from to s
  | false ↦ c ∷ replace_from zero from to s
]
replace_from (suc skip) from to (c ∷ s) = replace_from skip from to s

-- The empty text matches before each character and at the end.
unfoldable pub replace_empty : Str → Str → Str
replace_empty to [] = to
replace_empty to (c ∷ s) = to ++ c ∷ replace_empty to s

-- `s.replace(from, to)`
unfoldable pub replace : Str → Str → Str → Str
replace [] to s = replace_empty to s
replace (p ∷ ps) to s = replace_from zero (p ∷ ps) to s

-- `env::var("RUST_CACHE").unwrap_or("off") == "off"`
abbrev pub is_cache_off : Option Str → Bool
is_cache_off none = true
is_cache_off (some v) = str_eq v (codes "off")

-- What `get_file` does on a miss, once the file is read.
abbrev pub keep :
    HashMap Bytes → Str → Result Bytes IoError → Option (Result Bytes IoError × HashMap Bytes)
keep cache path (err e) = some (err e, cache)
keep cache path (ok val) = do
  let cache' = insert path val cache
  kept ← get path cache'
  some (ok kept, cache')

-- The match on whether the cache is off and on what it has; `read` is what the disk has.
abbrev pub choose :
    Bool
    → Option Bytes
    → HashMap Bytes
    → Str
    → Result Bytes IoError
    → Option (Result Bytes IoError × HashMap Bytes)
choose false (some val) cache path read = some (ok val, cache)
choose false none cache path read = keep cache path read
choose true fetched cache path read = some (read, cache)

unfoldable pub get_file :
    (Str → Result Bytes IoError)
    → Option Str
    → HashMap Bytes
    → Str
    → Option (Result Bytes IoError × HashMap Bytes)
get_file read_file rust_cache cache given =
    let path = replace (codes "..") [] given in
    choose (is_cache_off rust_cache) (get path cache) cache path (read_file path)

module _ {ℓ κ} {T : Type ℓ} (Response : Type κ) ⦃c : Context T Response⦄ where
  -- `file`, with the two directories and `get_file`.
  unfoldable pub file : Str → Str → (Str → Result Bytes IoError) → MiddlewareFnPointer T
  file root_dir host_dir fetch context next =
      elim (fetch (replace root_dir host_dir (c.route context))) [
        | ok content ↦ ok (c.set_body_bytes context content)
        | err _ ↦ err (not_found_error context)
      ]

-- No two dots in a row.
abbrev pub NoDots : Str → Type 0
NoDots [] = Unit
NoDots (c ∷ []) = Unit
NoDots (c ∷ d ∷ s) = (c ≡ b'.' → d ≢ b'.') × NoDots (d ∷ s)

abbrev clean : Str → Str
clean = replace_from zero (codes "..") []

NoDots-cons : (c : ℕ) (s : Str) → c ≢ b'.' → NoDots s → NoDots (c ∷ s)
NoDots-cons c [] n h = tt
NoDots-cons c (d ∷ s) n h = ((λ e. absurd (n e)), h)

clean-other : (c : ℕ) (s : Str) → c ≢ b'.' → clean (c ∷ s) ≡ c ∷ clean s
unfolding replace_from
clean-other c s n = ground (arith, n)

clean-dot_other : (d : ℕ) (s : Str) → d ≢ b'.' → clean (b'.' ∷ d ∷ s) ≡ b'.' ∷ d ∷ clean s
unfolding replace_from
clean-dot_other d s n = ground (arith, n)

clean-dots : (s : Str) → clean (b'.' ∷ b'.' ∷ s) ≡ clean s
unfolding replace_from
clean-dots s = refl

NoDots-dot_other : (d : ℕ) (s : Str) → d ≢ b'.' → NoDots s → NoDots (b'.' ∷ d ∷ s)
NoDots-dot_other d s n h = ((λ _. n), NoDots-cons d s n h)

-- A character is a dot or not.
dot_cases : (c : ℕ) → (c ≡ b'.') ⊎ (c ≢ b'.')
dot_cases c = ground arith

NoDots-clean : (s : Str) → NoDots (clean s)
NoDots-clean [] = unfold replace_from in tt
NoDots-clean (c ∷ []) = elim (dot_cases c) [
  | inl e ↦ rw e (unfold replace_from in tt)
  | inr n ↦ rw (clean-other c [] n) (unfold replace_from in tt)
]
NoDots-clean (c ∷ d ∷ s) =
    let one = NoDots-clean (d ∷ s) in
    let two = NoDots-clean s in
    elim (dot_cases c) [
      | inr n ↦ rw (clean-other c (d ∷ s) n) (NoDots-cons c (clean (d ∷ s)) n one)
      | inl e ↦ elim (dot_cases d) [
        | inl e' ↦ rw (e, e', clean-dots s) two
        | inr m ↦ rw (e, clean-dot_other d s m) (NoDots-dot_other d (clean s) m two)
      ]
    ]

-- A path less its pairs of dots, which `get_file` looks up and reads, has no two dots in a row.
pub replace-NoDots : (given : Str) → NoDots (replace (codes "..") [] given)
unfolding replace
replace-NoDots given = NoDots-clean given

-- What is kept is what the disk has.
abbrev pub Holds : (Str → Result Bytes IoError) → HashMap Bytes → Type 0
Holds read_file cache =
    (path : Str) (val : Bytes) → get path cache ≡ some val → read_file path ≡ ok val

keep-Holds :
    (read_file : Str → Result Bytes IoError) (cache : HashMap Bytes) (path : Str)
    (r : Result Bytes IoError)
    → read_file path ≡ r
    → Holds read_file cache
    → (cache' : HashMap Bytes) × (keep cache path r ≡ some (r, cache')) × Holds read_file cache'
keep-Holds read_file cache path (err e) d h = (cache, refl, h)
keep-Holds read_file cache path (ok val) d h = (
  insert path val cache,
  rw (get-insert path path val cache, str_eq_refl path) refl,
  λ p v e. ground (arith, str_eq_iff path p, get-insert path p val cache, h p v),
)

-- While the cache holds what the disk has, `get_file` returns what the disk has at the path less
-- its pairs of dots, or the error of reading it, whether the cache is on or off, and the cache that
-- it leaves holds what the disk has.
pub get_file-Holds :
    (read_file : Str → Result Bytes IoError) (rust_cache : Option Str) (cache : HashMap Bytes)
    (given : Str)
    → Holds read_file cache
    → (cache' : HashMap Bytes) × (get_file read_file rust_cache cache given
        ≡ some (read_file (replace (codes "..") [] given), cache'))
      × Holds read_file cache'
unfolding get_file
get_file-Holds read_file rust_cache cache given h =
    let path = replace (codes "..") [] given in
    elim (Bool-cases (is_cache_off rust_cache)) [
      | inl off ↦ (cache, rw off refl, h)
      | inr on ↦ elim (Option-cases (get path cache)) [
        | inl e ↦
            let (cache', d, k) = keep-Holds read_file cache path (read_file path) refl h in
            (cache', rw (on, e) d, k)
        | inr (val, e) ↦ (cache, rw (on, e, h path val e) refl, h)
      ]
    ]

-- Of two disks that agree at the paths with no two dots in a row, `get_file` makes no difference:
-- it reads no path with two dots in a row, whatever path it is given.
pub get_file-safe :
    (read_file other : Str → Result Bytes IoError) (rust_cache : Option Str) (cache : HashMap Bytes)
    (given : Str)
    → ((path : Str) → NoDots path → read_file path ≡ other path)
    → get_file read_file rust_cache cache given ≡ get_file other rust_cache cache given
unfolding get_file
get_file-safe read_file other rust_cache cache given h =
    let path = replace (codes "..") [] given in
    ap (choose (is_cache_off rust_cache) (get path cache) cache path)
      (h path (replace-NoDots given))
