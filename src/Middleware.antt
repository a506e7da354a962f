-- ===== src/Middleware.antt =====
-- thruster/src/parser/middleware_traits.rs with the enum and the `combine` that `generate_tuples!`
-- of thruster-proc/src/lib.rs writes, and thruster/src/core/errors.rs.
-- A future is modelled by its output, so a middleware is a function into `Result`.
pub mod Chain
pub mod Generated
pub mod Expansion
pub mod Impls
pub mod Attribute
use fanta.Prelude.{
  ℕ, ◌+◌, Option, none, some, List, [], ◌∷◌, ◌++◌, length, leb, if◌then◌else◌, Result, ok,
}
use fanta.Text.{Str, codes}

-- `Box<dyn StdError>`, of which the sources keep only what it prints.
abbrev pub DynError : Type 0
DynError = Str

pub record ThrusterError {ℓ} (C : Type ℓ) : Type ℓ where
  pub context : C
  pub message : Str
  pub status : ℕ
  pub cause : Option DynError

-- `MiddlewareResult<C>`
abbrev pub MiddlewareResult {ℓ} : Type ℓ → Type ℓ
MiddlewareResult T = Result T (ThrusterError T)

-- A committed middleware, `dyn Fn(T) -> Result<T, ThrusterError<T>>`.
abbrev pub Handler {ℓ} : Type ℓ → Type ℓ
Handler T = T → MiddlewareResult T

abbrev pub NextFn {ℓ} : Type ℓ → Type ℓ
NextFn T = T → MiddlewareResult T

abbrev pub MiddlewareFnPointer {ℓ} : Type ℓ → Type ℓ
MiddlewareFnPointer T = T → NextFn T → MiddlewareResult T

-- The variants `A` to `P` hold one to sixteen functions: the first and the others.
pub data MiddlewareTuple {ℓ} (T : Type ℓ) : Type ℓ where
  tuple : MiddlewareFnPointer T → List (MiddlewareFnPointer T) → MiddlewareTuple T

-- The number of identifiers that `generate_tuples!` is given.
abbrev pub max_arity : ℕ
max_arity = 16

module _ {ℓ} {T : Type ℓ} where
  -- The functions of a variant, in order.
  abbrev pub funcs : MiddlewareTuple T → List (MiddlewareFnPointer T)
  funcs (tuple f fs) = f ∷ fs

  abbrev pub arity : MiddlewareTuple T → ℕ
  arity t = length (funcs t)

  -- `none` is the panic "Can't handle n-tuple".
  unfoldable pub combine : MiddlewareTuple T → MiddlewareTuple T → Option (MiddlewareTuple T)
  combine (tuple f fs) other =
      if leb (arity (tuple f fs) + arity other) max_arity
      then some (tuple f (fs ++ funcs other))
      else none

  -- The macro `recurse!`: each function is given the rest of the row as its `next`.
  unfoldable pub recurse : MiddlewareFnPointer T → List (MiddlewareFnPointer T) → Handler T
  recurse head [] i = head i (λ j. ok j)
  recurse head (f ∷ tail) i = head i (recurse f tail)

  -- `IntoMiddleware::middleware`
  unfoldable pub middleware : MiddlewareTuple T → Handler T
  unfolding recurse
  middleware (tuple f fs) = recurse f fs

  unfoldable pub parsing_error : T → Str → ThrusterError T
  parsing_error context error = record {
    context = context;
    message = codes "Failed to parse '" ++ (error ++ codes "'");
    status = 400;
    cause = none;
  }

  unfoldable pub generic_error : T → ThrusterError T
  generic_error context = record {
    context = context;
    message = codes "Something didn't work!";
    status = 400;
    cause = none;
  }

  unfoldable pub unauthorized_error : T → ThrusterError T
  unauthorized_error context = record {
    context = context;
    message = codes "Unauthorized";
    status = 401;
    cause = none;
  }

  unfoldable pub not_found_error : T → ThrusterError T
  not_found_error context = record {
    context = context;
    message = codes "Not found";
    status = 404;
    cause = none;
  }

  -- `Error::build_context`
  unfoldable pub build_context : ThrusterError T → T
  build_context e = e.context

  -- `clone`, by the clone of the context; the cause is dropped.
  unfoldable pub clone_error : (T → T) → ThrusterError T → ThrusterError T
  clone_error clone e = record e { context = clone e.context; cause = none }
