-- ===== src/Middleware/Attribute/Keeps.antt =====
-- The attribute `middleware_fn` of thruster-proc/src/lib.rs on a file of functions.
use fanta.Prelude.{◌≡◌, ◌≢◌, refl, ap, length, ◌∙◌, false, some, List, [], ◌∷◌, All, arith}
use fanta.Text.{Str, str_eq}
use fanta.Text.Split.{str_eq_refl, str_eq_iff}
use fanta.Middleware.Attribute.{
  ItemFn, Item, function, other, unparsed, Written, asynchronous, brought_in, boxing, untouched,
  async_name, return_type_name, rbf_type_name, crate_paths, context_type, middleware_fn, file,
  awaited, called,
}

str_eq_ne : (a b : Str) → a ≢ b → str_eq a b ≡ false
str_eq_ne a b n = ground (arith, str_eq_iff a b, n)

async_name-injective : (a b : Str) → async_name a ≡ async_name b → a ≡ b
async_name-injective a b e = cc

str_eq-async_name : (a b : Str) → a ≢ b → str_eq (async_name a) (async_name b) ≡ false
str_eq-async_name a b n =
    str_eq_ne (async_name a) (async_name b) (λ e. n (async_name-injective a b e))

str_eq-async_name_self : (a : Str) → str_eq (async_name a) a ≡ false
str_eq-async_name_self a = str_eq_ne (async_name a) a (λ e. omega (arith, ap length e))

module _ {ℓ} {T : Type ℓ} where
  -- An item that can be parsed, and if it is a function, its first argument has a type.
  abbrev pub IsTyped : Str × Item T → Type 0
  IsTyped (attr, function f) = (ty : Str) × (context_type f.inputs ≡ some ty)
  IsTyped (attr, other) = Unit
  IsTyped (attr, unparsed) = ⊥

  -- Neither the function of an item nor its async function has a name.
  abbrev pub IsNot : Str → Str × Item T → Type 0
  IsNot name (attr, function f) = (f.ident ≢ name) × (async_name f.ident ≢ name)
  IsNot name (attr, other) = Unit
  IsNot name (attr, unparsed) = Unit

  -- A function is the first item of a file that takes its name.
  pub data IsFirst (f : ItemFn T) : List (Str × Item T) → Type ℓ where
    here : (attr : Str) (items : List (Str × Item T)) → IsFirst f ((attr, function f) ∷ items)
    there :
        (item : Str × Item T) (items : List (Str × Item T))
        → IsNot f.ident item
        → IsFirst f items
        → IsFirst f (item ∷ items)

  -- What stands in a file whose functions have typed first arguments.
  abbrev expanded : (items : List (Str × Item T)) → All IsTyped items → List (Written T)
  expanded [] _ = []
  expanded ((attr, other) ∷ items) (_, h) = untouched ∷ expanded items h
  expanded ((attr, unparsed) ∷ items) (u, h) = absurd u
  expanded ((attr, function f) ∷ items) ((ty, k), h) =
      asynchronous (record f { ident = async_name f.ident })
      ∷ brought_in (crate_paths attr) (return_type_name f.ident) (rbf_type_name f.ident)
      ∷ boxing f.vis f.ident f.generics ty (async_name f.ident)
      ∷ expanded items h

  file-expanded :
      (items : List (Str × Item T)) (h : All IsTyped items) → file items ≡ some (expanded items h)
  unfolding file middleware_fn
  file-expanded [] h = refl
  file-expanded ((attr, other) ∷ items) (u, h) = rw (file-expanded items h) refl
  file-expanded ((attr, unparsed) ∷ items) (u, h) = absurd u
  file-expanded ((attr, function f) ∷ items) ((ty, k), h) = rw (k, file-expanded items h) refl

  awaited-first :
      (f : ItemFn T) (items : List (Str × Item T))
      → IsFirst f items
      → (h : All IsTyped items) → awaited (expanded items h) (async_name f.ident) ≡ some f.body
  unfolding awaited
  awaited-first f _ (here attr items) (k, h) = rw (str_eq_refl (async_name f.ident)) refl
  awaited-first f _ (there (attr, other) items n i) (k, h) = awaited-first f items i h
  awaited-first f _ (there (attr, unparsed) items n i) (u, h) = absurd u
  awaited-first f _ (there (attr, function g) items (n, m) i) (k, h) =
      rw (str_eq-async_name g.ident f.ident n) (awaited-first f items i h)

  called-first :
      (all : List (Written T)) (f : ItemFn T) (items : List (Str × Item T))
      → IsFirst f items
      → (h : All IsTyped items)
      → called all (expanded items h) f.ident ≡ awaited all (async_name f.ident)
  unfolding called
  called-first all f _ (here attr items) (k, h) =
      rw (str_eq-async_name_self f.ident, str_eq_refl f.ident) refl
  called-first all f _ (there (attr, other) items n i) (k, h) = called-first all f items i h
  called-first all f _ (there (attr, unparsed) items n i) (u, h) = absurd u
  called-first all f _ (there (attr, function g) items (n, m) i) (k, h) =
      rw (str_eq_ne (async_name g.ident) f.ident m, str_eq_ne g.ident f.ident n)
        (called-first all f items i h)

  -- When the items of a file can be parsed and each function has a first argument with a type,
  -- `middleware_fn` can be put on all of them; and the name of a function whose name none of the
  -- functions before it has, also with "__async_" put before theirs, still does what the body of that
  -- function does.
  pub called-file :
      (f : ItemFn T) (items : List (Str × Item T))
      → All IsTyped items
      → IsFirst f items
      → (ws : List (Written T)) × ((file items ≡ some ws) × (called ws ws f.ident ≡ some f.body))
  called-file f items h i =
      let ws = expanded items h in
      (ws, (file-expanded items h, called-first ws f items i h ∙ awaited-first f items i h))
