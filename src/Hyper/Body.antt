-- ===== src/Hyper/Body.antt =====
-- The loop of `get_body`, the same in thruster/src/context/typed_hyper_context.rs and
-- thruster/src/context/basic_hyper_context.rs, and `TypedHyperContext::get_body`.
use fanta.Prelude.{
  ℕ, ◌+◌, ◌≤◌, ◌<◌, arith, ◌≡◌, refl, ap, ◌∙◌, Option, none, some, List, [], ◌∷◌, ◌++◌, sym,
  append_assoc, append-nil, ◌>>=◌, Result, ok, err, All,
}
use fanta.Text.{Str}
use fanta.Text.Utf8.{Bytes, IsScalar, as_bytes}
use fanta.Text.Lossy.{replacement, from_utf8_lossy}
use fanta.Text.Lossy.Reads.{lossy-cut, from_utf8_lossy-as_bytes}
use fanta.Hyper.{HeaderMap, Hyper, HyperRequest, TypedHyperContext, into_owned_request}

-- `hyper::Body` as a stream of chunks, and `hyper::Error`. The empty body has none.
pub record Stream (Body E Parts Raw H : Type 0) (hy : Hyper Body Parts Raw H) : Type 0 where
  pub chunks : Body → List (Result Bytes E)
  pub chunks-empty : chunks hy.empty ≡ []

-- `results` and the rest of the chunks; the first error ends the loop.
unfoldable pub read_chunks : {E : Type 0} → Str → List (Result Bytes E) → Result Str E
read_chunks results [] = ok results
read_chunks results (err e ∷ chunks) = err e
read_chunks results (ok chunk ∷ chunks) = read_chunks (results ++ from_utf8_lossy chunk) chunks

abbrev pub texts : List Str → Str
texts [] = []
texts (s ∷ ss) = s ++ texts ss

module _ {E : Type 0} where
  abbrev pub chunks_of : List Str → List (Result Bytes E)
  chunks_of [] = []
  chunks_of (s ∷ ss) = ok (as_bytes s) ∷ chunks_of ss

  pub read_chunks-two :
      (a b : Bytes) (s t : Str)
      → from_utf8_lossy a ≡ s
      → from_utf8_lossy b ≡ t
      → read_chunks {E = E} [] (ok a ∷ ok b ∷ []) ≡ ok (s ++ t)
  unfolding read_chunks
  read_chunks-two a b s t e d = rw (e, d) refl

  -- Chunks that are whole texts are read as the texts, one after the other.
  pub read_chunks-texts :
      (results : Str) (ss : List Str)
      → All (All IsScalar) ss
      → read_chunks {E = E} results (chunks_of ss) ≡ ok (results ++ texts ss)
  unfolding read_chunks
  read_chunks-texts results [] h = ap (λ s. ok s) (sym (append-nil results))
  read_chunks-texts results (s ∷ ss) (hs, h) =
      ap (λ k. read_chunks (results ++ k) (chunks_of ss)) (from_utf8_lossy-as_bytes s hs)
      ∙ read_chunks-texts (results ++ s) ss h
      ∙ ap (λ k. ok k) (append_assoc results s (texts ss))

module _ {σ} {Body Parts Raw H : Type 0} {S : Type σ} ⦃hm : HeaderMap H⦄
    ⦃hy : Hyper Body Parts Raw H⦄ where
  -- What `get_body` reads from: the context itself, or the one that owns its request.
  abbrev pub owned : TypedHyperContext Body Parts Raw H S → TypedHyperContext Body Parts Raw H S
  owned ctx = elim ctx.request_body [ some _ ↦ ctx | none ↦ into_owned_request ctx ]

  -- The expectation that the request was taken apart.
  unfoldable pub parts : TypedHyperContext Body Parts Raw H S → Option Parts
  parts ctx = ctx.request_parts

  -- A context whose request was not taken apart yet, and the body of the request.
  pub record Whole (ctx : TypedHyperContext Body Parts Raw H S) (b : Body) : Type σ where
    pub request : HyperRequest Body Parts Raw
    pub has_request : ctx.hyper_request ≡ some request
    pub not_owned : ctx.request_body ≡ none
    pub has_body : (hy.into_parts request.request).1 ≡ b

  owned-Whole :
      (ctx : TypedHyperContext Body Parts Raw H S) (b : Body)
      → Whole ctx b
      → (owned ctx ≡ into_owned_request ctx) × ((into_owned_request ctx).request_body ≡ some b)
  unfolding into_owned_request
  owned-Whole ctx b w = (ground (arith, w.not_owned), ground (arith, w.has_request, w.has_body))

-- What was read, with the context whose request has no body left; or the error.
abbrev pub with_results {σ} :
    {Body E Parts Raw H : Type 0} {S : Type σ} ⦃hy : Hyper Body Parts Raw H⦄
    → TypedHyperContext Body Parts Raw H S
    → Result Str E
    → Result (Str × TypedHyperContext Body Parts Raw H S) E
with_results ⦃hy⦄ ctx (ok results) = ok (results, record ctx { request_body = some hy.empty })
with_results ctx (err e) = err e

module _ {σ} {Body E Parts Raw H : Type 0} {S : Type σ} ⦃hm : HeaderMap H⦄
    ⦃hy : Hyper Body Parts Raw H⦄ ⦃st : Stream Body E Parts Raw H hy⦄ where
  -- `none` is the panic of a context that has neither a request nor a request's body.
  unfoldable pub get_body :
      TypedHyperContext Body Parts Raw H S
      → Option (Result (Str × TypedHyperContext Body Parts Raw H S) E)
  get_body self = do
    unwrapped_body ← (owned self).request_body
    some (with_results (owned self) (read_chunks [] (st.chunks unwrapped_body)))

  get_body-read :
      (ctx owner : TypedHyperContext Body Parts Raw H S) (b : Body) (read : Result Str E)
      → owned ctx ≡ owner
      → owner.request_body ≡ some b
      → read_chunks [] (st.chunks b) ≡ read
      → get_body ctx ≡ some (with_results owner read)
  unfolding get_body
  get_body-read ctx owner b read e d h =
      let body : (owned ctx).request_body ≡ some b = ap (λ c. c.request_body) e ∙ d in
      rw (body, h) (ap (λ c. some (with_results c read)) e)

  -- The body of a request whose chunks are each a whole text is read as the texts, one after the
  -- other; the context then owns the request, and reading the body once more gives nothing.
  pub get_body-texts :
      (ctx : TypedHyperContext Body Parts Raw H S) (b : Body) (ss : List Str)
      → Whole ctx b
      → st.chunks b ≡ chunks_of ss
      → All (All IsScalar) ss
      → let next = record (into_owned_request ctx) { request_body = some hy.empty } in
        (get_body ctx ≡ some (ok (texts ss, next))) × (get_body next ≡ some (ok ([], next)))
  get_body-texts ctx b ss w e h =
      let (o, d) = owned-Whole ctx b w in
      let next = record (into_owned_request ctx) { request_body = some hy.empty } in
      (
        get_body-read ctx (into_owned_request ctx) b (ok (texts ss)) o d
            (ap (read_chunks []) e ∙ read_chunks-texts [] ss h),
        get_body-read next next hy.empty (ok []) refl refl
            (ap (read_chunks []) st.chunks-empty ∙ unfold read_chunks in refl),
      )

  -- When a character of two bytes of a request's body is cut by the end of a chunk, it is read as
  -- two replacement characters.
  pub get_body-cut :
      (ctx : TypedHyperContext Body Parts Raw H S) (b : Body) (s t : Str) (q r : ℕ)
      → Whole ctx b
      → All IsScalar s
      → All IsScalar t
      → 2 ≤ q
      → q < 0x20
      → r < 0x40
      → st.chunks b ≡ ok (as_bytes s ++ (0xc0 + q) ∷ []) ∷ ok ((0x80 + r) ∷ as_bytes t) ∷ []
      → get_body ctx
        ≡ some (
            ok (
              s ++ replacement ∷ replacement ∷ t,
              record (into_owned_request ctx) { request_body = some hy.empty },
            ))
  get_body-cut ctx b s t q r w hs ht l u k e =
      let (o, d) = owned-Whole ctx b w in
      let (before, behind) = lossy-cut s t q r hs ht l u k in
      get_body-read ctx (into_owned_request ctx) b (ok (s ++ replacement ∷ replacement ∷ t)) o d (
        ap (read_chunks []) e
        ∙ read_chunks-two (as_bytes s ++ (0xc0 + q) ∷ []) ((0x80 + r) ∷ as_bytes t) _ _ before
            behind
        ∙ ap (λ k. ok k) (append_assoc s (replacement ∷ []) (replacement ∷ t)))
