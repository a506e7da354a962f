-- ===== src/Http/Bounds.antt =====
-- The slices of a request that `decode` yields lie in its buffer, so that taking them out does not
-- panic.
use Prim.Native.Nat.{◌^◌, ◌%◌}
use mathlib.Core.Option.{some-injective}
use mathlib.Core.Path.{subst}
use fanta.Prelude.{
  ℕ, ◌+◌, ◌-◌, ◌≤◌, ◌<◌, ◌≡◌, refl, ap, inl, inr, Option, none, some, List, [], ◌∷◌, >>=-eq-some,
  length, Result, ok, err, All, arith, Bool-cases, ◌==◌,
}
use fanta.Text.Utf8.{Bytes}
use fanta.Http.Slice.{Slice, index, take, drop, take-all}
use fanta.Http.Request.{Request, Parsed, Status, partial, complete, Parser}
use fanta.Http.Decode.{
  Decoded, toslice, read_headers, take_request, decode_complete, decode, read_headers-lt,
}

-- A place that `httparse` found lies in the buffer.
abbrev pub Lies : Bytes → ℕ × ℕ → Type 0
Lies buf (start, len) = start + len ≤ length buf

abbrev pub LiesIfFound : Bytes → Option (ℕ × ℕ) → Type 0
LiesIfFound buf none = Unit
LiesIfFound buf (some place) = Lies buf place

abbrev pub BothLie : Bytes → (ℕ × ℕ) × (ℕ × ℕ) → Type 0
BothLie buf (name, value) = Lies buf name × Lies buf value

-- `httparse` slices the buffer that it is given: what it finds lies there.
pub record Locates (p : Parser) (buf : Bytes) : Type 0 where
  pub head_lies : (amt : ℕ) (r : Parsed) → p.parse buf ≡ ok (complete amt r) → amt ≤ length buf
  pub method_lies :
      (amt : ℕ) (r : Parsed) → p.parse buf ≡ ok (complete amt r) → LiesIfFound buf r.parsed_method
  pub path_lies :
      (amt : ℕ) (r : Parsed) → p.parse buf ≡ ok (complete amt r) → LiesIfFound buf r.parsed_path
  pub headers_lie :
      (amt : ℕ) (r : Parsed)
      → p.parse buf ≡ ok (complete amt r)
      → All (BothLie buf) r.parsed_headers

-- A slice can be taken out of the buffer.
abbrev pub InBuffer : Bytes → Slice → Type 0
InBuffer buf s = (b : Bytes) × (index buf s ≡ some b)

abbrev pub BothInBuffer : Bytes → Slice × Slice → Type 0
BothInBuffer buf (name, value) = InBuffer buf name × InBuffer buf value

index-InBuffer :
    (buf : Bytes) (start end : ℕ) → start ≤ end → end ≤ length buf → InBuffer buf (start, end)
unfolding index
index-InBuffer buf start end h l = (take (end - start) (drop start buf), ground arith)

toslice-InBuffer :
    (buf : Bytes) (place : ℕ × ℕ) (s : Slice)
    → Lies buf place
    → toslice buf place ≡ some s
    → InBuffer buf s
toslice-InBuffer buf (start, len) s h e =
    let same : (start, start + len) ≡ s = ground (arith, e) in
    subst (InBuffer buf) same (index-InBuffer buf start (start + len) (omega arith) h)

read_headers-InBuffer :
    (p : Parser) (buf : Bytes) (hs : List ((ℕ × ℕ) × (ℕ × ℕ))) (k n : ℕ)
    (slices : List (Slice × Slice))
    → All (BothLie buf) hs
    → read_headers p buf hs k ≡ some (n, slices)
    → All (BothInBuffer buf) slices
unfolding read_headers
read_headers-InBuffer p buf [] k n slices h e =
    subst (All (BothInBuffer buf)) (ap (λ q. q.1) (some-injective _ _ e)) tt
read_headers-InBuffer p buf ((name, value) ∷ hs) k n slices ((hn, hv), h) e =
    let (a, ea, e1) = >>=-eq-some (toslice buf name) _ e in
    let (b, eb, e2) = >>=-eq-some (toslice buf value) _ e1 in
    let (rest, e3, e4) = >>=-eq-some (read_headers p buf hs _) _ e2 in
    subst (All (BothInBuffer buf)) (ap (λ q. q.1) (some-injective _ _ e4)) (
      (toslice-InBuffer buf name a hn ea, toslice-InBuffer buf value b hv eb),
      read_headers-InBuffer p buf hs _ (rest.0) (rest.1) h e3,
    )

-- The body, the method, the path and the headers of a request lie in its buffer.
abbrev pub AllInBuffer : Request → Type 0
AllInBuffer r =
    InBuffer r.buffer r.body
    × InBuffer r.buffer r.method
    × InBuffer r.buffer r.path
    × All (BothInBuffer r.buffer) r.headers

-- The request of an outcome.
abbrev yielded : Request → Decoded → Request
yielded other (ok (some r), left) = r
yielded other (ok none, left) = other
yielded other (err e, left) = other

-- The request that is taken out of a buffer that has `end` bytes.
abbrev taken : Bytes → ℕ → ℕ → Slice → Slice → ℕ → List (Slice × Slice) → Request
taken buf amt end method path version headers = record {
  body = (amt, end);
  method = method;
  path = path;
  version = version;
  headers = headers;
  buffer = take end buf;
  params = none;
}

take_request-eq-some :
    (buf : Bytes) (amt n v : ℕ) (m pa : Slice) (hs : List (Slice × Slice)) (r : Request)
    (left : Bytes)
    → take_request buf amt n m pa v hs ≡ (ok (some r), left)
    → ((amt + n) % 2 ^ 64 ≡ length buf) × (taken buf amt ((amt + n) % 2 ^ 64) m pa v hs ≡ r)
unfolding take_request
take_request-eq-some buf amt n v m pa hs r left e =
    elim (Bool-cases ((amt + n) % 2 ^ 64 == length buf)) [
      | inl b ↦ (ground (arith, b), ap (yielded r) (rw b at e))
      | inr b ↦ let e' = rw b at e in cc
    ]

-- A sum that wraps around is less than where the head ends, so it never is the buffer's length.
take_request-AllInBuffer :
    (buf : Bytes) (amt n v : ℕ) (m pa : Slice) (hs : List (Slice × Slice)) (r : Request)
    (left : Bytes)
    → amt ≤ length buf
    → n < 2 ^ 64
    → length buf < 2 ^ 64
    → InBuffer buf m
    → InBuffer buf pa
    → All (BothInBuffer buf) hs
    → take_request buf amt n m pa v hs ≡ (ok (some r), left)
    → AllInBuffer r
take_request-AllInBuffer buf amt n v m pa hs r left h k l hm hp hh e =
    let (exact, same) = take_request-eq-some buf amt n v m pa hs r left e in
    subst AllInBuffer same (
      rw (exact, take-all buf)
        (index-InBuffer buf amt (length buf) (omega arith) (omega arith), hm, hp, hh))

decode_complete-AllInBuffer :
    (p : Parser) (buf : Bytes) (amt : ℕ) (found : Parsed) (r : Request) (left : Bytes)
    → Locates p buf
    → length buf < 2 ^ 64
    → p.parse buf ≡ ok (complete amt found)
    → decode_complete p buf amt found ≡ some (ok (some r), left)
    → AllInBuffer r
unfolding decode_complete
decode_complete-AllInBuffer p buf amt found r left h l e d =
    let (heads, e1, d1) = >>=-eq-some (read_headers p buf found.parsed_headers 0) _ d in
    let (m, e2, d2) = >>=-eq-some found.parsed_method _ d1 in
    let (ms, e3, d3) = >>=-eq-some (toslice buf m) _ d2 in
    let (pa, e4, d4) = >>=-eq-some found.parsed_path _ d3 in
    let (ps, e5, d5) = >>=-eq-some (toslice buf pa) _ d4 in
    let (v, e6, d6) = >>=-eq-some found.parsed_version _ d5 in
    take_request-AllInBuffer buf amt (heads.0) v ms ps (heads.1) r left (h.head_lies amt found e)
      (read_headers-lt p buf found.parsed_headers 0 (omega arith) (heads.0) (heads.1) e1) l
      (toslice-InBuffer buf m ms (subst (LiesIfFound buf) e2 (h.method_lies amt found e)) e3)
      (toslice-InBuffer buf pa ps (subst (LiesIfFound buf) e4 (h.path_lies amt found e)) e5)
      (read_headers-InBuffer p buf found.parsed_headers 0 (heads.0) (heads.1)
        (h.headers_lie amt found e) e1)
      (some-injective _ _ d6)

decode-cases :
    (p : Parser) (buf : Bytes) (s : Result Status (List ℕ)) (r : Request) (left : Bytes)
    → Locates p buf
    → length buf < 2 ^ 64
    → p.parse buf ≡ s
    → decode p buf ≡ some (ok (some r), left)
    → AllInBuffer r
unfolding decode
decode-cases p buf (err e) r left h l q d = let d' = rw (q, decode) at d in cc
decode-cases p buf (ok partial) r left h l q d = let d' = rw (q, decode) at d in cc
decode-cases p buf (ok (complete amt found)) r left h l q d =
    let d' = rw (q, decode) at d in decode_complete-AllInBuffer p buf amt found r left h l q d'

-- Of each request that `decode` yields from fewer than 2^64 bytes, the body, the method, the path
-- and the names and values of the headers can be sliced out of its buffer: no index is out of range,
-- provided that what `httparse` finds lies in the bytes that it is given.
pub decode-AllInBuffer :
    (p : Parser) (buf : Bytes) (r : Request) (left : Bytes)
    → Locates p buf
    → length buf < 2 ^ 64
    → decode p buf ≡ some (ok (some r), left)
    → AllInBuffer r
decode-AllInBuffer p buf r left h l d = decode-cases p buf (p.parse buf) r left h l refl d
