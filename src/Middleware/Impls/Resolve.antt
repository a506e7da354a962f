-- ===== src/Middleware/Impls/Resolve.antt =====
-- The calls of `middleware` that `generate_tuples!` of thruster/src/parser/middleware_traits.rs
-- writes, and the implementations that `expand_combine!` writes for them.
use mathlib.Core.Path.{subst}
use fanta.Prelude.{
  Bool-cases, inl, inr, leb, append-nil, ℕ, zero, suc, ◌+◌, ◌≤◌, ◌<◌, ◌==◌, ◌≡◌, refl, ap, ◌∙◌,
  true, false, Option, some, List, [], ◌∷◌, ◌++◌, map, length, arith,
}
use fanta.Text.{Str, str_eq}
use fanta.Http.Request.{to_lowercase}
use fanta.Middleware.{
  MiddlewareFnPointer, MiddlewareTuple, tuple, max_arity, arity, recurse, middleware,
}
use fanta.Middleware.Impls.{
  Closure, ends, calls, recurse_macro, Impl, impl_into_middleware, mid, rhs, lhs, expand_combine,
  candidates, bound, closed, generated_middleware,
}

-- Identifiers of one letter, from the n-th down to `A`.
abbrev pub letters_down : ℕ → List Str
letters_down zero = []
letters_down (suc n) = ((b'A' + n) ∷ []) ∷ letters_down n

-- `P, O, N, M, L, K, J, I, H, G, F, E, D, C, B, A`
abbrev pub parameters_down : List Str
parameters_down = letters_down 16

-- What is written for the last letters.
abbrev nest : ℕ → Closure
nest zero = ends ((b'A' + 0) ∷ [])
nest (suc n) = calls ((b'A' + suc n) ∷ []) (nest n)

abbrev impl_of : ℕ → Impl
impl_of n = record { params = letters_down (suc n); body = nest n }

abbrev impls_to : ℕ → List Impl
impls_to zero = impl_of 0 ∷ []
impls_to (suc n) = impl_of (suc n) ∷ impls_to n

recurse_macro-letters : (n : ℕ) → recurse_macro (letters_down (suc n)) ≡ some (nest n)
unfolding recurse_macro
recurse_macro-letters zero = refl
recurse_macro-letters (suc n) = rw (recurse_macro-letters n) refl

mid-letters : (n : ℕ) → mid (letters_down (suc n)) ≡ some (impls_to n)
unfolding mid impl_into_middleware recurse_macro
mid-letters zero = refl
mid-letters (suc n) = rw (recurse_macro-letters n, mid-letters n) refl

rhs-empty : (left : List Str) (p : Str) (ps : List Str) → rhs left (p ∷ ps) ≡ some []
unfolding rhs
rhs-empty left p [] = refl
rhs-empty left p (q ∷ qs) = rhs-empty left q qs

lhs-empty : (h : Str) (t : List Str) (p : Str) (ps : List Str) → lhs (h ∷ t) (p ∷ ps) ≡ some []
unfolding lhs
lhs-empty h [] p ps = rhs-empty _ _ _
lhs-empty h (k ∷ t) p ps =
    rw
      (
        rhs-empty (h ∷ k ∷ t) (to_lowercase p) (map to_lowercase ps),
        lhs-empty k t (to_lowercase p) (map to_lowercase ps),
      )
      refl

expand_combine-letters : (n : ℕ) → expand_combine (letters_down (suc n)) ≡ some (impls_to n ++ [])
unfolding expand_combine
expand_combine-letters n = rw (mid-letters n, lhs-empty _ _ _ _) refl

length-letters_down : (n : ℕ) → length (letters_down n) ≡ n
length-letters_down zero = refl
length-letters_down (suc n) = ap suc (length-letters_down n)

candidates-over : (n k : ℕ) → suc n < k → candidates k (impls_to n) ≡ []
unfolding candidates
candidates-over zero k h = ground (arith, h)
candidates-over (suc n) k h = ground (arith, h, length-letters_down n, candidates-over n k)

candidates-top : (n : ℕ) → candidates (suc (suc n)) (impls_to (suc n)) ≡ impl_of (suc n) ∷ []
unfolding candidates
candidates-top n =
    let this : (suc (suc n) == suc (suc n)) ≡ true = ground arith in
    rw (length-letters_down n, this)
      (ap (λ l. impl_of (suc n) ∷ l) (candidates-over n (suc (suc n)) (omega arith)))

-- There is one implementation for each size.
candidates-letters : (n k : ℕ) → k ≤ n → candidates (suc k) (impls_to n) ≡ impl_of k ∷ []
unfolding candidates
candidates-letters zero zero h = refl
candidates-letters zero (suc k) h = absurd (omega arith)
candidates-letters (suc n) k h = elim (Bool-cases (leb k n)) [
  | inl e ↦
      let below : k ≤ n = ground (arith, e) in
      let other : (suc (suc n) == suc k) ≡ false = ground (arith, e) in
      rw (length-letters_down n, other) (candidates-letters n k below)
  | inr e ↦
      subst (λ x. candidates (suc x) (impls_to (suc n)) ≡ impl_of x ∷ []) (ground (arith, e, h))
        (candidates-top n)
]

module _ {ℓ} {T : Type ℓ} where
  bound-letter :
      (n k : ℕ) (f : MiddlewareFnPointer T) (fs : List (MiddlewareFnPointer T))
      → k < n
      → bound (letters_down (suc n)) (f ∷ fs) ((b'A' + k) ∷ [])
        ≡ bound (letters_down n) fs ((b'A' + k) ∷ [])
  unfolding bound str_eq
  bound-letter n k f fs h = ground (arith, h)

  bound-first :
      (n : ℕ) (f : MiddlewareFnPointer T) (fs : List (MiddlewareFnPointer T))
      → bound (letters_down (suc n)) (f ∷ fs) ((b'A' + n) ∷ []) ≡ some f
  unfolding bound str_eq
  bound-first n f fs = ground arith

  -- A closure depends on its names only.
  closed-agree :
      (n : ℕ) (s t : Str → Option (MiddlewareFnPointer T))
      → ((k : ℕ) → k ≤ n → s ((b'A' + k) ∷ []) ≡ t ((b'A' + k) ∷ []))
      → closed s (nest n) ≡ closed t (nest n)
  unfolding closed
  closed-agree zero s t h = rw (h 0 (omega arith)) refl
  closed-agree (suc n) s t h =
      rw (h (suc n) (omega arith), closed-agree n s t (λ k i. h k (omega arith))) refl

  closed-nest :
      (n : ℕ) (f : MiddlewareFnPointer T) (fs : List (MiddlewareFnPointer T))
      → length fs ≡ n
      → closed (bound (letters_down (suc n)) (f ∷ fs)) (nest n) ≡ some (recurse f fs)
  unfolding closed recurse
  closed-nest zero f [] h = rw (bound-first 0 f []) refl
  closed-nest zero f (g ∷ fs) h = absurd (omega arith)
  closed-nest (suc n) f [] h = absurd (omega arith)
  closed-nest (suc n) f (g ∷ fs) h =
      rw
        (
          bound-first (suc n) f (g ∷ fs),
          closed-agree n (bound (letters_down (suc (suc n))) (f ∷ g ∷ fs))
              (bound (letters_down (suc n)) (g ∷ fs))
              (λ k i. bound-letter (suc n) k f (g ∷ fs) (omega arith)),
          closed-nest n g fs (omega arith),
        )
        refl

  -- `expand_combine!` on the letters `P` to `A` writes implementations such that each call of
  -- `middleware` that `generate_tuples!` writes has one to go to, and what it does there is the
  -- model's `middleware` of the tuple.
  pub generated_middleware-middleware :
      (t : MiddlewareTuple T)
      → arity t ≤ max_arity
      → (impls : List Impl) × ((expand_combine parameters_down ≡ some impls)
          × (generated_middleware impls t ≡ some (middleware t)))
  unfolding generated_middleware middleware
  generated_middleware-middleware (tuple f fs) h = (
    impls_to 15,
    (
      expand_combine-letters 15 ∙ ap (λ l. some l) (append-nil (impls_to 15)),
      rw (candidates-letters 15 (length fs) (omega arith)) (closed-nest (length fs) f fs refl),
    ),
  )
