-- ===== src/Middleware/Generated.antt =====
-- thruster-proc/src/lib.rs: the macros `m!` and `async_middleware!` on tokens, and the match that
-- `generate_tuples!` writes for `combine`. `none` is a panic of the macro or of what it wrote.
use fanta.Prelude.{
  ℕ, zero, suc, ◌+◌, ◌-◌, leb, if◌then◌else◌, Option, none, some, List, [], ◌∷◌, ◌++◌, ◌>>=◌, map,
  length,
}
use fanta.Text.{Str, codes, str_eq}
use fanta.Middleware.{MiddlewareFnPointer, MiddlewareTuple, tuple, max_arity}

-- `proc_macro2::TokenTree` and `TokenStream`
mutual
  pub data TokenTree : Type 0 where
    ident : Str → TokenTree
    group : TokenStream → TokenTree
    punct literal : TokenTree

  pub data TokenStream : Type 0 where
    empty : TokenStream
    next : TokenTree → TokenStream → TokenStream

-- The identifiers among the tokens.
unfoldable pub idents_of : TokenStream → List Str
idents_of empty = []
idents_of (next (ident name) items) = name ∷ idents_of items
idents_of (next (group _) items) = idents_of items
idents_of (next punct items) = idents_of items
idents_of (next literal items) = idents_of items

-- `items.next()`, whose item is dropped.
abbrev pub skip : TokenStream → TokenStream
skip empty = empty
skip (next _ items) = items

abbrev pub group_or_panic : TokenStream → Option TokenStream
group_or_panic empty = none
group_or_panic (next (group items) _) = some items
group_or_panic (next (ident _) _) = none
group_or_panic (next punct _) = none
group_or_panic (next literal _) = none

module _ {ℓ} {T : Type ℓ} where
  -- `to_tuple` is there for the tuples that `generate_tuples!` is given identifiers for; the code
  -- does not compile with another number.
  unfoldable pub to_tuple : List (MiddlewareFnPointer T) → Option (MiddlewareTuple T)
  to_tuple [] = none
  to_tuple (f ∷ fs) = if leb (length (f ∷ fs)) max_arity then some (tuple f fs) else none

  -- `m!`, where `scope` is what the identifiers stand for.
  unfoldable pub m : (Str → MiddlewareFnPointer T) → TokenStream → Option (MiddlewareTuple T)
  m scope items = to_tuple (map scope (idents_of items))

  -- `async_middleware!`: the items of the group behind the type and the comma.
  unfoldable pub async_middleware :
      (Str → MiddlewareFnPointer T) → TokenStream → Option (MiddlewareTuple T)
  async_middleware scope items = do
    inner ← group_or_panic (skip (skip items))
    to_tuple (map scope (idents_of inner))

-- The loop that fills `vec_collection`: the identifiers up to each of them.
unfoldable pub vec_collection : List Str → List Str → List (List Str)
vec_collection aggregator [] = []
vec_collection aggregator (i ∷ idents) =
    let aggregator' = aggregator ++ i ∷ [] in aggregator' ∷ vec_collection aggregator' idents

-- `idents.last()`
unfoldable pub last : List Str → Option Str
last [] = none
last (i ∷ []) = some i
last (i ∷ j ∷ l) = last (j ∷ l)

-- The arms of a match on the variants: the first whose variant has the name.
unfoldable pub arm_of : Str → List (List Str) → Option ℕ
arm_of name [] = none
arm_of name (idents ∷ rest) = do
  here ← last idents
  if str_eq here name then some 0 else do some (suc (← arm_of name rest))

-- `VALUES.chars().nth(n).unwrap()` as an identifier.
unfoldable pub nth : ℕ → Str → Option Str
nth n [] = none
nth zero (c ∷ s) = some (c ∷ [])
nth (suc n) (c ∷ s) = nth n s

abbrev pub values : Str
values = codes "ABCDEFGHIJKLMNOPQRSTUVWXYZ"

-- The arm for the variants number `i` and `j`: the variant that it makes, or the panic.
unfoldable pub output_variant : ℕ → ℕ → ℕ → Option Str
output_variant ident_count i j =
    let count_usize = i + j + 2 in
    if leb count_usize ident_count then nth (count_usize - 1) values else none

-- A value of the enum: its variant and its fields.
pub record Variant {ℓ} (F : Type ℓ) : Type ℓ where
  pub name : Str
  pub fields : List F

-- The `combine` that is written for some identifiers.
unfoldable pub generated_combine {ℓ} :
    {F : Type ℓ} → List Str → Variant F → Variant F → Option (Variant F)
generated_combine idents this other = do
  i ← arm_of this.name (vec_collection [] idents)
  j ← arm_of other.name (vec_collection [] idents)
  name ← output_variant (length idents) i j
  some (record { name = name; fields = this.fields ++ other.fields })

-- The number of fields of the variant with a name.
unfoldable pub variant_size : Str → List (List Str) → Option ℕ
variant_size name [] = none
variant_size name (idents ∷ rest) = do
  here ← last idents
  if str_eq here name then some (length idents) else variant_size name rest
