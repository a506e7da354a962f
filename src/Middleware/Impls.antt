-- ===== src/Middleware/Impls.antt =====
-- thruster/src/parser/middleware_traits.rs: the macros `recurse!`, `impl_into_middleware!` and
-- `expand_combine!`, and the calls of `middleware` that `generate_tuples!` writes. `none` is an error
-- of the compiler.
pub mod Resolve
use fanta.Prelude.{
  ℕ, ◌==◌, if◌then◌else◌, Option, none, some, List, [], ◌∷◌, ◌++◌, ◌>>=◌, map, length, ok,
}
use fanta.Text.{Str, str_eq}
use fanta.Http.Request.{to_lowercase}
use fanta.Middleware.{Handler, MiddlewareFnPointer, MiddlewareTuple, funcs}

-- What `recurse!` writes: a closure that calls a function with the rest as its `next`, or with the
-- closure that gives back its argument.
pub data Closure : Type 0 where
  ends : Str → Closure
  calls : Str → Closure → Closure

unfoldable pub recurse_macro : List Str → Option Closure
recurse_macro [] = none
recurse_macro (head ∷ []) = some (ends head)
recurse_macro (head ∷ next ∷ tail) = do some (calls head (← recurse_macro (next ∷ tail)))

-- An implementation of `IntoMiddleware` for the tuples of its type parameters, whose names are also
-- those of the fields.
pub record Impl : Type 0 where
  pub params : List Str
  pub body : Closure

unfoldable pub impl_into_middleware : List Str → Option (List Impl)
impl_into_middleware params = do
  body ← recurse_macro params
  some (record { params = params; body = body } ∷ [])

-- The rules `@mid`, `@rhs` and `@lhs`, and the one without a mark.
unfoldable pub mid : List Str → Option (List Impl)
mid [] = none
mid (head ∷ []) = impl_into_middleware (head ∷ [])
mid (head ∷ next ∷ tail) = do
  here ← impl_into_middleware (head ∷ next ∷ tail)
  some (here ++ (← mid (next ∷ tail)))

unfoldable pub rhs : List Str → List Str → Option (List Impl)
rhs left [] = none
rhs left (head ∷ []) = some []
rhs left (head ∷ next ∷ tail) = rhs left (next ∷ tail)

unfoldable pub lhs : List Str → List Str → Option (List Impl)
lhs [] right = none
lhs (head ∷ []) right = rhs (head ∷ []) (map to_lowercase right)
lhs (head ∷ next ∷ tail) right = do
  here ← rhs (head ∷ next ∷ tail) (map to_lowercase right)
  some (here ++ (← lhs (next ∷ tail) (map to_lowercase right)))

unfoldable pub expand_combine : List Str → Option (List Impl)
expand_combine params = do
  here ← mid params
  some (here ++ (← lhs params (map to_lowercase params)))

-- The implementations for tuples of a size, of which there must be one.
unfoldable pub candidates : ℕ → List Impl → List Impl
candidates n [] = []
candidates n (impl ∷ impls) =
    let rest = candidates n impls in if length impl.params == n then impl ∷ rest else rest

module _ {ℓ} {T : Type ℓ} where
  -- `let ($($param,)*) = self`
  unfoldable pub bound :
      List Str → List (MiddlewareFnPointer T) → Str → Option (MiddlewareFnPointer T)
  bound [] _ name = none
  bound (_ ∷ _) [] name = none
  bound (param ∷ params) (f ∷ fs) name =
      let rest = bound params fs name in if str_eq param name then some f else rest

  -- What a closure does, where its names stand for functions.
  unfoldable pub closed : (Str → Option (MiddlewareFnPointer T)) → Closure → Option (Handler T)
  closed scope (ends head) = do f ← scope head; some (λ i. f i (λ j. ok j))
  closed scope (calls head rest) = do f ← scope head; next ← closed scope rest; some (λ i. f i next)

  abbrev pub sole : List (MiddlewareFnPointer T) → List Impl → Option (Handler T)
  sole fields [] = none
  sole fields (impl ∷ []) = closed (bound impl.params fields) impl.body
  sole fields (impl ∷ _ ∷ _) = none

  -- `MiddlewareTuple::middleware`: the fields of the variant as a tuple, and `.middleware()` of that.
  unfoldable pub generated_middleware : List Impl → MiddlewareTuple T → Option (Handler T)
  generated_middleware impls t = sole (funcs t) (candidates (length (funcs t)) impls)
