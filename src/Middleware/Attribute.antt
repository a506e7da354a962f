-- ===== src/Middleware/Attribute.antt =====
-- thruster-proc/src/lib.rs: the attribute `middleware_fn`, which puts a function that boxes the future
-- in the place of an async function. `none` is a panic of the macro.
pub mod Keeps
use fanta.Prelude.{if◌then◌else◌, Option, none, some, List, [], ◌∷◌, ◌++◌, ◌>>=◌}
use fanta.Text.{Str, codes, str_eq}
use fanta.Middleware.{MiddlewareFnPointer}

-- `syn::FnArg`: one with a type, or another.
pub data FnArg : Type 0 where
  captured : Str → FnArg
  uncaptured : FnArg

-- A function with what its body does.
pub record ItemFn {ℓ} (T : Type ℓ) : Type ℓ where
  pub ident : Str
  pub vis : Str
  pub generics : Str
  pub inputs : List FnArg
  pub body : MiddlewareFnPointer T

-- What `syn::parse` makes of the item; it may fail.
pub data Item {ℓ} (T : Type ℓ) : Type ℓ where
  function : ItemFn T → Item T
  other : Item T
  unparsed : Item T

-- What stands in the file afterwards: an async function, the two types that are brought in under
-- other names, a function that calls an async one with its own arguments, or an item as it was.
pub data Written {ℓ} (T : Type ℓ) : Type ℓ where
  asynchronous : ItemFn T → Written T
  brought_in : Str × Str → Str → Str → Written T
  boxing : Str → Str → Str → Str → Str → Written T
  untouched : Written T

-- `format!("__async_{}", name)` and the two names beside it
abbrev pub async_name : Str → Str
async_name name = codes "__async_" ++ name

abbrev pub return_type_name : Str → Str
return_type_name name = codes "__MiddlewareReturnValue_" ++ name

abbrev pub rbf_type_name : Str → Str
rbf_type_name name = codes "__ReusableBoxFuture_" ++ name

-- The type of `arguments[0]`
abbrev pub context_type : List FnArg → Option Str
context_type [] = none
context_type (captured ty ∷ _) = some ty
context_type (uncaptured ∷ _) = none

-- Where the two types are brought in from.
abbrev pub crate_paths : Str → Str × Str
crate_paths attr =
    if str_eq attr (codes "_internal")
    then (codes "crate::core::MiddlewareReturnValue", codes "crate::ReusableBoxFuture")
    else (codes "thruster::MiddlewareReturnValue", codes "thruster::ReusableBoxFuture")

module _ {ℓ} {T : Type ℓ} where
  unfoldable pub middleware_fn : Str → Item T → Option (List (Written T))
  middleware_fn attr other = some (untouched ∷ [])
  middleware_fn attr unparsed = none
  middleware_fn attr (function f) = do
    ty ← context_type f.inputs
    some (
        asynchronous (record f { ident = async_name f.ident })
        ∷ brought_in (crate_paths attr) (return_type_name f.ident) (rbf_type_name f.ident)
        ∷ boxing f.vis f.ident f.generics ty (async_name f.ident)
        ∷ [])

  -- A file whose items have the attribute.
  unfoldable pub file : List (Str × Item T) → Option (List (Written T))
  file [] = some []
  file ((attr, item) ∷ items) = do here ← middleware_fn attr item; some (here ++ (← file items))

  -- What an async function of a file does when it is called and awaited.
  unfoldable pub awaited : List (Written T) → Str → Option (MiddlewareFnPointer T)
  awaited [] name = none
  awaited (asynchronous f ∷ ws) name =
      let rest = awaited ws name in if str_eq f.ident name then some f.body else rest
  awaited (brought_in _ _ _ ∷ ws) name = awaited ws name
  awaited (boxing _ _ _ _ _ ∷ ws) name = awaited ws name
  awaited (untouched ∷ ws) name = awaited ws name

  -- What a name of a file does when it is called; the first argument is the whole file.
  unfoldable pub called : List (Written T) → List (Written T) → Str → Option (MiddlewareFnPointer T)
  called all [] name = none
  called all (asynchronous f ∷ ws) name =
      let rest = called all ws name in if str_eq f.ident name then some f.body else rest
  called all (brought_in _ _ _ ∷ ws) name = called all ws name
  called all (boxing _ ident _ _ callee ∷ ws) name =
      let rest = called all ws name in if str_eq ident name then awaited all callee else rest
  called all (untouched ∷ ws) name = called all ws name
