-- ===== src/Http/Arrival.antt =====
-- The calls of `decode` while a message arrives in parts.
use Prim.Native.Nat.{◌^◌}
use fanta.Prelude.{
  ℕ, ◌<◌, ◌≡◌, refl, sym, ap, ◌∙◌, ◌≢◌, ◌⊎◌, inl, inr, Option, none, some, List, [], ◌∷◌, ◌++◌,
  append_assoc, ◌>>=◌, length, length-append, Result, ok, IoError, arith,
}
use fanta.Text.Utf8.{Bytes}
use fanta.Http.Request.{Request, partial, Parser, raw_body}
use fanta.Http.Decode.{decode}
use fanta.Http.Framing.{Readable, decode-whole, decode-waits}

abbrev pub Outcome : Type 0
Outcome = Result (Option Request) IoError

-- `decode` is called after each arrival: the bytes are put behind what is left in the buffer.
unfoldable pub arrivals : Parser → Bytes → List Bytes → Option (List Outcome × Bytes)
arrivals p buf [] = some ([], buf)
arrivals p buf (part ∷ parts) = do
  now ← decode p (buf ++ part)
  later ← arrivals p (now.1) parts
  some (now.0 ∷ later.0, later.1)

-- Nothing, for each of the parts.
abbrev pub silence : List Bytes → List Outcome
silence [] = []
silence (part ∷ parts) = ok none ∷ silence parts

abbrev pub concat : List Bytes → Bytes
concat [] = []
concat (part ∷ parts) = part ++ concat parts

-- The parser waits for the rest of the head, and finds it complete, with the same length of the
-- body, whatever is behind it.
pub record Heads (p : Parser) (head : Bytes) (body_len : ℕ) : Type 0 where
  pub waits : (pre rest : Bytes) → rest ≢ [] → pre ++ rest ≡ head → p.parse pre ≡ ok partial
  pub reads : (t : Bytes) → Readable p (head ++ t) (length head) body_len

pub decode-partial :
    (p : Parser) (buf : Bytes) → p.parse buf ≡ ok partial → decode p buf ≡ some (ok none, buf)
unfolding decode
decode-partial p buf e = rw (e, decode) refl

tail-eq : (a b : ℕ) (s t : Bytes) → a ∷ s ≡ b ∷ t → (a ≡ b) × (s ≡ t)
tail-eq a b s t e = (cc, cc)

-- A prefix of a message ends in its head or in its body.
prefix-cases :
    (pre rest head body : Bytes)
    → pre ++ rest ≡ head ++ body
    → ((r : Bytes) × (r ≢ []) × (pre ++ r ≡ head))
      ⊎ ((t : Bytes) × (pre ≡ head ++ t) × (t ++ rest ≡ body))
prefix-cases pre rest [] body e = inr (pre, refl, e)
prefix-cases [] rest (h ∷ head) body e = inl (h ∷ head, (λ q. cc), refl)
prefix-cases (a ∷ pre) rest (h ∷ head) body e =
    let (same, e') = tail-eq a h (pre ++ rest) (head ++ body) e in
    elim (prefix-cases pre rest head body e') [
      | inl (r, n, d) ↦ inl (r, n, rw (same, d) refl)
      | inr (t, d, k) ↦ inr (t, rw (same, d) refl, k)
    ]

pub length-ne : (s : Bytes) → s ≢ [] → length s ≢ 0
length-ne [] n e = n refl
length-ne (c ∷ s) n e = omega arith

-- Nothing comes out of a proper prefix of a message.
pub decode-prefix :
    (p : Parser) (pre rest head body : Bytes)
    → Heads p head (length body)
    → length (head ++ body) < 2 ^ 64
    → rest ≢ []
    → pre ++ rest ≡ head ++ body
    → decode p pre ≡ some (ok none, pre)
decode-prefix p pre rest head body h l n e = elim (prefix-cases pre rest head body e) [
  | inl (r, m, d) ↦ decode-partial p pre (h.waits pre r m d)
  | inr (t, d, k) ↦ rw d (
      decode-waits p (head ++ t) (length head) (length body) (h.reads t)
        (omega (arith, length-append head t))
        (omega (
          arith,
          l,
          length-append head t,
          length-append head body,
          ap length k,
          length-append t rest,
        ))
        (λ q.
          omega
            (arith, q, length-append head t, ap length k, length-append t rest, length-ne rest n)))
]

pub append-ne : (s t : Bytes) → t ≢ [] → s ++ t ≢ []
append-ne [] t n e = n e
append-ne (c ∷ s) t n e = cc

arrivals-step :
    (p : Parser) (buf part : Bytes) (parts : List Bytes) (now : Outcome) (left : Bytes)
    (later : List Outcome) (last : Bytes)
    → decode p (buf ++ part) ≡ some (now, left)
    → arrivals p left parts ≡ some (later, last)
    → arrivals p buf (part ∷ parts) ≡ some (now ∷ later, last)
unfolding arrivals
arrivals-step p buf part parts now left later last e d = ground (arith, e, d)

-- With a rest in the buffer.
arrive-from :
    (p : Parser) (buf head body part : Bytes) (parts : List Bytes)
    → Heads p head (length body)
    → length (head ++ body) < 2 ^ 64
    → part ≢ []
    → buf ++ (concat parts ++ part) ≡ head ++ body
    → (r : Request) × (arrivals p buf (parts ++ part ∷ [])
        ≡ some (silence parts ++ ok (some r) ∷ [], []))
      × (raw_body r ≡ some body)
      × (r.buffer ≡ head ++ body)
      × (decode p (head ++ body) ≡ some (ok (some r), []))
arrive-from p buf head body part [] h l n e =
    let (r, d, b, k) = decode-whole p head body (h.reads body) l in
    (
      r,
      arrivals-step p buf part [] (ok (some r)) [] [] [] (rw e d) (unfold arrivals in refl),
      b,
      k,
      d,
    )
arrive-from p buf head body part (c ∷ parts) h l n e =
    let e' : (buf ++ c) ++ (concat parts ++ part) ≡ head ++ body =
      append_assoc buf c (concat parts ++ part)
      ∙ ap (λ k. buf ++ k) (sym (append_assoc c (concat parts) part))
      ∙ e in
    let quiet =
      decode-prefix p (buf ++ c) (concat parts ++ part) head body h l
        (append-ne (concat parts) part n) e' in
    let (r, d, b, k, w) = arrive-from p (buf ++ c) head body part parts h l n e' in
    (r, arrivals-step p buf c (parts ++ part ∷ []) (ok none) (buf ++ c) _ [] quiet d, b, k, w)

-- However the bytes of a message, fewer than 2^64, are cut into parts of which the last is not empty,
-- `decode` yields nothing before the last part, and then the request with the message's body that
-- it yields for the message in one part; the buffer is empty afterwards.
pub decode-arrives :
    (p : Parser) (head body part : Bytes) (parts : List Bytes)
    → Heads p head (length body)
    → length (head ++ body) < 2 ^ 64
    → part ≢ []
    → concat parts ++ part ≡ head ++ body
    → (r : Request) × (arrivals p [] (parts ++ part ∷ [])
        ≡ some (silence parts ++ ok (some r) ∷ [], []))
      × (raw_body r ≡ some body)
      × (r.buffer ≡ head ++ body)
      × (decode p (head ++ body) ≡ some (ok (some r), []))
decode-arrives p head body part parts h l n e = arrive-from p [] head body part parts h l n e
