-- ===== src/Tree/Params.antt =====
-- thruster/src/parser/tree.rs: `Params`, the parameters that a match has bound.
use fanta.Prelude.{Option, none, some, List, [], ◌∷◌, ◌++◌, ◌≡◌, refl, arith, if◌then◌else◌}
use fanta.Text.{Str, str_eq}

pub record Param : Type 0 where
  pub key : Str
  pub param : Str

pub record Params : Type 0 where
  pub inner : List Param

-- `Params::default()`
abbrev pub no_params : Params
no_params = record { inner = [] }

find_param : Str → List Param → Option Param
find_param k [] = none
find_param k (p ∷ ps) = if str_eq p.key k then some p else find_param k ps

-- `Params::get`
unfoldable pub get : Params → Str → Option Param
unfolding find_param
get params k = find_param k params.inner

-- `Params::add`
unfoldable pub add : Params → Str → Str → Params
add params k val = record { inner = params.inner ++ record { key = k; param = val } ∷ [] }

-- A name that was added is found, unless it was there before: the first entry of a name counts.
pub get-add :
    (params : Params) (k val j : Str)
    → get (add params k val) j ≡ (elim (get params j) [
      | some p ↦ some p
      | none ↦ if str_eq k j then some (record { key = k; param = val }) else none
    ])
unfolding get add
get-add params k val j = go params.inner
  where
    go :
        (l : List Param)
        → find_param j (l ++ record { key = k; param = val } ∷ []) ≡ (elim (find_param j l) [
          | some p ↦ some p
          | none ↦ if str_eq k j then some (record { key = k; param = val }) else none
        ])
    go [] = refl
    go (p ∷ l) = ground (arith, go l)
