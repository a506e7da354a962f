-- ===== src/Middleware/Chain.antt =====
-- A row of middlewares as a continuation, and what `combine` and `middleware` make of it.
use fanta.Prelude.{◌+◌, ◌≤◌, ◌<◌, ◌≡◌, refl, ap, none, some, List, [], ◌∷◌, ◌++◌, arith, ok}
use fanta.Middleware.{
  Handler, MiddlewareFnPointer, MiddlewareTuple, tuple, max_arity, funcs, arity, combine, recurse,
  middleware,
}

module _ {ℓ} {T : Type ℓ} where
  -- Runs the row, then goes on with `k`.
  abbrev pub run : List (MiddlewareFnPointer T) → Handler T → Handler T
  run [] k = k
  run (f ∷ fs) k = λ c. f c (run fs k)

  -- The end of each row: the context as it is.
  abbrev pub finish : Handler T
  finish c = ok c

  pub run-append :
      (fs gs : List (MiddlewareFnPointer T)) (k : Handler T) → run (fs ++ gs) k ≡ run fs (run gs k)
  run-append [] gs k = refl
  run-append (f ∷ fs) gs k = ap {B = Handler T} (λ r c. f c r) (run-append fs gs k)

  recurse-eq-run :
      (f : MiddlewareFnPointer T) (fs : List (MiddlewareFnPointer T))
      → recurse f fs ≡ run (f ∷ fs) finish
  unfolding recurse
  recurse-eq-run f [] = refl
  recurse-eq-run f (g ∷ fs) = ap {B = Handler T} (λ r c. f c r) (recurse-eq-run g fs)

  pub middleware-eq-run : (t : MiddlewareTuple T) → middleware t ≡ run (funcs t) finish
  unfolding middleware
  middleware-eq-run (tuple f fs) = recurse-eq-run f fs

  pub combine-eq-some :
      (a b t : MiddlewareTuple T) → combine a b ≡ some t → funcs t ≡ funcs a ++ funcs b
  unfolding combine
  combine-eq-some (tuple f fs) b (tuple g gs) h = ground arith

  -- `combine` succeeds exactly when the two rows together hold at most sixteen functions, and then
  -- the result runs the first row with the second as its `next`.
  pub combine_fits :
      (a b : MiddlewareTuple T)
      → arity a + arity b ≤ max_arity
      → (t : MiddlewareTuple T) × (combine a b ≡ some t) × (funcs t ≡ funcs a ++ funcs b)
  unfolding combine
  combine_fits (tuple f fs) b h = (tuple f (fs ++ funcs b), ground arith, refl)

  pub combine_overflow :
      (a b : MiddlewareTuple T) → max_arity < arity a + arity b → combine a b ≡ none
  unfolding combine
  combine_overflow (tuple f fs) b h = ground arith

  pub combine-le :
      (a b t : MiddlewareTuple T) → combine a b ≡ some t → arity a + arity b ≤ max_arity
  unfolding combine
  combine-le (tuple f fs) b t h = ground arith

  -- When two tuples combine, the handler of what comes out is the row of the functions of the
  -- first around the handler of the second.
  pub middleware-combine :
      (a b t : MiddlewareTuple T)
      → combine a b ≡ some t
      → middleware t ≡ run (funcs a) (middleware b)
  middleware-combine a b t h =
      rw (middleware-eq-run t, middleware-eq-run b, combine-eq-some a b t h)
        (run-append (funcs a) (funcs b) finish)
