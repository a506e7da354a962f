-- ===== src/Middleware/Expansion.antt =====
-- `generate_tuples!(A, B, …, P)` of thruster/src/parser/middleware_traits.rs: what it writes is the
-- enum and the `combine` of `Middleware`.
use fanta.Prelude.{
  map, ℕ, zero, suc, ◌+◌, ◌-◌, ◌≤◌, ◌<◌, ◌≡◌, refl, ap, ◌∙◌, leb, if◌then◌else◌, inl, inr, Bool,
  ◌>>=◌, Bool-cases, Option, none, some, List, [], ◌∷◌, ◌++◌, length, length-append, arith, true,
  false,
}
use fanta.Text.{Str, str_eq}
use fanta.Middleware.{MiddlewareFnPointer, MiddlewareTuple, tuple, max_arity, arity, combine}
use fanta.Middleware.Generated.{
  TokenTree, TokenStream, ident, group, punct, empty, next, idents_of, to_tuple, m,
  async_middleware, vec_collection, last, arm_of, nth, values, output_variant, Variant,
  generated_combine, variant_size,
}

-- Identifiers of one letter, in alphabetical order.
abbrev pub letters : ℕ → ℕ → List Str
letters c zero = []
letters c (suc n) = (c ∷ []) ∷ letters (suc c) n

-- `A, B, C, D, E, F, G, H, I, J, K, L, M, N, O, P`
abbrev pub parameters : List Str
parameters = letters b'A' 16

last-snoc : (l : List Str) (i : Str) → last (l ++ i ∷ []) ≡ some i
unfolding last
last-snoc [] i = refl
last-snoc (j ∷ []) i = refl
last-snoc (j ∷ k ∷ l) i = last-snoc (k ∷ l) i

later-letter : (c k : ℕ) → str_eq (c ∷ []) ((c + suc k) ∷ []) ≡ false
unfolding str_eq
later-letter c k = ground arith

same-letter : (c : ℕ) → str_eq (c ∷ []) ((c + 0) ∷ []) ≡ true
unfolding str_eq
same-letter c = ground arith

shift : (c k : ℕ) → c + suc k ≡ suc c + k
shift c k = omega arith

length-letters : (c n : ℕ) → length (letters c n) ≡ n
length-letters c zero = refl
length-letters c (suc n) = ap suc (length-letters (suc c) n)

arm_of-letters :
    (n k c : ℕ) (l : List Str)
    → k < n
    → arm_of ((c + k) ∷ []) (vec_collection l (letters c n)) ≡ some k
unfolding arm_of vec_collection
arm_of-letters zero k c l h = absurd (omega arith)
arm_of-letters (suc n) zero c l h = rw (last-snoc l (c ∷ [])) (rw (same-letter c) refl)
arm_of-letters (suc n) (suc k) c l h =
    let next = arm_of-letters n k (suc c) (l ++ (c ∷ []) ∷ []) (omega arith) in
    rw (last-snoc l (c ∷ []), later-letter c k)
      (ap (λ r. r >>= λ x. some (suc x))
        (ap (λ d. arm_of (d ∷ []) (vec_collection (l ++ (c ∷ []) ∷ []) (letters (suc c) n)))
            (shift c k)
          ∙ next))

variant_size-letters :
    (n k c : ℕ) (l : List Str)
    → k < n
    → variant_size ((c + k) ∷ []) (vec_collection l (letters c n)) ≡ some (length l + suc k)
unfolding variant_size vec_collection
variant_size-letters zero k c l h = absurd (omega arith)
variant_size-letters (suc n) zero c l h =
    rw (last-snoc l (c ∷ []))
      (rw (same-letter c) (ap (λ m. some m) (length-append l ((c ∷ []) ∷ []))))
variant_size-letters (suc n) (suc k) c l h =
    let next = variant_size-letters n k (suc c) (l ++ (c ∷ []) ∷ []) (omega arith) in
    let more : length (l ++ (c ∷ []) ∷ []) + suc k ≡ length l + suc (suc k) =
      omega (arith, length-append l ((c ∷ []) ∷ [])) in
    rw (last-snoc l (c ∷ []), later-letter c k)
      (ap (λ d. variant_size (d ∷ []) (vec_collection (l ++ (c ∷ []) ∷ []) (letters (suc c) n)))
          (shift c k)
        ∙ next
        ∙ ap (λ m. some m) more)

abbrev row : ℕ → ℕ → Str
row c zero = []
row c (suc n) = c ∷ row (suc c) n

nth-row : (n k c : ℕ) → k < n → nth k (row c n) ≡ some ((c + k) ∷ [])
unfolding nth
nth-row zero k c h = absurd (omega arith)
nth-row (suc n) zero c h = ground arith
nth-row (suc n) (suc k) c h = rw (shift c k) (nth-row n k (suc c) (omega arith))

output-letter :
    (i j : ℕ)
    → output_variant max_arity i j
      ≡ (if leb (i + j + 2) max_arity then some ((b'A' + (i + suc j)) ∷ []) else none)
unfolding output_variant
output-letter i j = elim (Bool-cases (leb (i + j + 2) max_arity)) [
  | inl e ↦
      let small : i + suc j < 26 = ground (arith, e) in
      let same : i + j + 2 - 1 ≡ i + suc j = omega arith in
      rw e (ap (λ k. nth k values) same ∙ nth-row 26 (i + suc j) b'A' small)
  | inr e ↦ rw e refl
]

module _ {ℓ} {T : Type ℓ} where
  -- A tuple as a value of the enum: the variant with the letter of its size.
  abbrev pub variant_of : MiddlewareTuple T → Variant (MiddlewareFnPointer T)
  variant_of (tuple f fs) = record { name = (b'A' + length fs) ∷ []; fields = f ∷ fs }

  abbrev pub combined : Option (MiddlewareTuple T) → Option (Variant (MiddlewareFnPointer T))
  combined none = none
  combined (some t) = some (variant_of t)

  made :
      (f g : MiddlewareFnPointer T) (fs gs : List (MiddlewareFnPointer T)) (b : Bool)
      → leb (length fs + length gs + 2) max_arity ≡ b
      → ((if b then some ((b'A' + (length fs + suc (length gs))) ∷ []) else none) >>= λ name.
          some (record { name = name; fields = (f ∷ fs) ++ (g ∷ gs) }))
        ≡ combined (combine (tuple f fs) (tuple g gs))
  unfolding combine
  made f g fs gs true e =
      let fits : leb (suc (length fs) + suc (length gs)) max_arity ≡ true = ground (arith, e) in
      rw (fits, length-append fs (g ∷ gs)) refl
  made f g fs gs false e =
      let over : leb (suc (length fs) + suc (length gs)) max_arity ≡ false = ground (arith, e) in
      rw over refl

  -- What `generate_tuples!` writes for the sixteen letters: the match of `combine` gives for each two
  -- tuples what the model's `combine` gives, the panic included; and the variant of a tuple is
  -- declared with as many fields as the tuple has functions.
  pub generated_combine-combine :
      (t u : MiddlewareTuple T)
      → arity t ≤ max_arity
      → arity u ≤ max_arity
      → (generated_combine parameters (variant_of t) (variant_of u) ≡ combined (combine t u))
        × (variant_size (variant_of t).name (vec_collection [] parameters) ≡ some (arity t))
  unfolding generated_combine combine
  generated_combine-combine (tuple f fs) (tuple g gs) h k =
      let i = length fs in
      let j = length gs in
      let at_i = arm_of-letters 16 i b'A' [] (omega arith) in
      let at_j = arm_of-letters 16 j b'A' [] (omega arith) in
      (
        rw (at_i, at_j, length-letters b'A' 16, output-letter i j)
            (made f g fs gs (leb (i + j + 2) max_arity) refl),
        variant_size-letters 16 i b'A' [] (omega arith) ∙ ap (λ k. some k) (omega arith),
      )

length-map {ℓ} : {A : Type ℓ} (f : Str → A) (l : List Str) → length (map f l) ≡ length l
length-map f [] = refl
length-map f (x ∷ l) = ap suc (length-map f l)

-- The tokens of some identifiers, each with one punctuation mark behind it.
abbrev pub separated : List Str → TokenStream
separated [] = empty
separated (name ∷ names) = next (ident name) (next punct (separated names))

idents_of-separated : (names : List Str) → idents_of (separated names) ≡ names
unfolding idents_of
idents_of-separated [] = refl
idents_of-separated (name ∷ names) = ap (λ l. name ∷ l) (idents_of-separated names)

-- `m!` and `async_middleware!`, behind a type and a comma, make the tuple of the identifiers, in
-- order; there are at most sixteen of them.
pub m-separated {ℓ} :
    {T : Type ℓ} (scope : Str → MiddlewareFnPointer T) (type : TokenTree) (name : Str)
    (names : List Str)
    → length (name ∷ names) ≤ max_arity
    → (m scope (separated (name ∷ names)) ≡ some (tuple (scope name) (map scope names)))
      × (async_middleware scope
            (next type (next punct (next (group (separated (name ∷ names))) empty)))
          ≡ some (tuple (scope name) (map scope names)))
unfolding m async_middleware to_tuple
m-separated scope type name names h =
    let size : leb (length (scope name ∷ map scope names)) max_arity ≡ true =
      ground (arith, h, length-map scope names) in
    (
      rw (idents_of-separated (name ∷ names), size) refl,
      rw (idents_of-separated (name ∷ names), size) refl,
    )
