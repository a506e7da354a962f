-- ===== src/Http/Decode.antt =====
-- thruster/src/core/request.rs: `decode`, and what it takes from the buffer.
use Prim.Native.Nat.{◌^◌, ◌%◌, ◌*◌, ◌-◌}
use fanta.Prelude.{
  ℕ, ◌+◌, ◌≤◌, ◌<◌, ◌≡◌, refl, ◌≢◌, ltb, ◌==◌, if◌then◌else◌, Option, none, some, List, [], ◌∷◌,
  ◌++◌, ◌>>=◌, >>=-eq-some, length, arith, Result, ok, err, IoError, Option-cases, Bool-cases, inl,
  inr, ap, true, length-append,
}
use mathlib.Core.Option.{some-injective}
use fanta.Text.{Str, codes}
use fanta.Text.Utf8.{Bytes, from_utf8}
use fanta.Http.Slice.{Slice, take, drop, take-all, drop-all, index-rest}
use fanta.Http.Request.{
  Request, Parsed, Status, partial, complete, Parser, parse_digits, parse_usize, raw_body, slice,
}

-- The closure `toslice`, with its assertion.
abbrev pub toslice : Bytes → ℕ × ℕ → Option Slice
toslice buf (start, len) = if ltb start (length buf) then some (start, start + len) else none

-- The bytes at a place.
abbrev pub bytes_at : Bytes → ℕ × ℕ → Bytes
bytes_at buf (start, len) = take len (drop start buf)

abbrev pub unwrap_or {ℓ} : {A : Type ℓ} → A → Option A → A
unwrap_or a none = a
unwrap_or a (some b) = b

unfoldable pub content_length : Bytes → ℕ
content_length value = unwrap_or 0 (parse_usize (unwrap_or (codes "0") (from_utf8 value)))

-- The loop over the headers: the length of the body, and where the headers are.
unfoldable pub read_headers :
    Parser → Bytes → List ((ℕ × ℕ) × (ℕ × ℕ)) → ℕ → Option (ℕ × List (Slice × Slice))
read_headers p buf [] body_len = some (body_len, [])
read_headers p buf ((name, value) ∷ headers) body_len = do
  n ← toslice buf name
  v ← toslice buf value
  rest ← read_headers p buf headers (
      if p.is_content_length (bytes_at buf name)
      then content_length (bytes_at buf value)
      else body_len)
  some (rest.0, (n, v) ∷ rest.1)

-- What `decode` returns, with the buffer that it leaves.
abbrev pub Decoded : Type 0
Decoded = Result (Option Request) IoError × Bytes

-- The end of `decode`, in 64 bits: the buffer must be exactly one request.
unfoldable pub take_request : Bytes → ℕ → ℕ → Slice → Slice → ℕ → List (Slice × Slice) → Decoded
take_request buf amt body_len method path version headers =
    let end = (amt + body_len) % 2 ^ 64 in
    if end == length buf
    then (
      ok (
          some (record {
            body = (amt, end);
            method = method;
            path = path;
            version = version;
            headers = headers;
            buffer = take end buf;
            params = none;
          })),
      drop end buf,
    )
    else (ok none, buf)

unfoldable pub decode_complete : Parser → Bytes → ℕ → Parsed → Option Decoded
decode_complete p buf amt r = do
  found ← read_headers p buf r.parsed_headers 0
  method ← r.parsed_method
  method_slice ← toslice buf method
  path ← r.parsed_path
  path_slice ← toslice buf path
  version ← r.parsed_version
  some (take_request buf amt (found.0) method_slice path_slice version (found.1))

abbrev pub decode_status : Parser → Bytes → Status → Option Decoded
decode_status p buf partial = some (ok none, buf)
decode_status p buf (complete amt r) = decode_complete p buf amt r

unfoldable pub decode : Parser → Bytes → Option Decoded
decode p buf = elim (p.parse buf) [
  | err e ↦ some (err (record { message = codes "failed to parse http request: " ++ e }), buf)
  | ok status ↦ decode_status p buf status
]

-- A number of digits is less than 2^64.
parse_digits-lt :
    (acc : ℕ) (s : Str) (k : ℕ) → acc < 2 ^ 64 → parse_digits acc s ≡ some k → k < 2 ^ 64
unfolding parse_digits
parse_digits-lt acc [] k h e = ground arith
parse_digits-lt acc (c ∷ s) k h e = ground (arith, parse_digits-lt (10 * acc + (c - 48)) s k)

parse_usize-lt : (s : Str) (k : ℕ) → parse_usize s ≡ some k → k < 2 ^ 64
unfolding parse_usize
parse_usize-lt [] k e = cc
parse_usize-lt (c ∷ []) k e = ground (arith, parse_digits-lt 0 (c ∷ []) k)
parse_usize-lt (c ∷ d ∷ s) k e =
    ground (arith, parse_digits-lt 0 (d ∷ s) k, parse_digits-lt 0 (c ∷ d ∷ s) k)

pub content_length-lt : (value : Bytes) → content_length value < 2 ^ 64
unfolding content_length
content_length-lt value =
    let number = parse_usize (unwrap_or (codes "0") (from_utf8 value)) in
    elim (Option-cases number) [
      | inl e ↦ rw e (omega arith)
      | inr (k, e) ↦ rw e (parse_usize-lt _ k e)
    ]

pub read_headers-lt :
    (p : Parser) (buf : Bytes) (hs : List ((ℕ × ℕ) × (ℕ × ℕ))) (k : ℕ)
    → k < 2 ^ 64
    → (n : ℕ) (slices : List (Slice × Slice)) → read_headers p buf hs k ≡ some (n, slices)
    → n < 2 ^ 64
unfolding read_headers
read_headers-lt p buf [] k h n slices e = rw (← ap (λ q. q.0) (some-injective _ _ e)) h
read_headers-lt p buf ((name, value) ∷ hs) k h n slices e =
    let (_, _, e1) = >>=-eq-some (toslice buf name) _ e in
    let (_, _, e2) = >>=-eq-some (toslice buf value) _ e1 in
    let k' =
      if p.is_content_length (bytes_at buf name) then content_length (bytes_at buf value) else k in
    let (rest, e3, e4) = >>=-eq-some (read_headers p buf hs k') _ e2 in
    let h' : k' < 2 ^ 64 = elim (Bool-cases (p.is_content_length (bytes_at buf name))) [
      | inl b ↦ rw b (content_length-lt (bytes_at buf value))
      | inr b ↦ rw b h
    ] in
    rw (← ap (λ q. q.0) (some-injective _ _ e4))
      (read_headers-lt p buf hs k' h' (rest.0) (rest.1) e3)

==-refl : (n : ℕ) → (n == n) ≡ true
==-refl n = ground arith

-- When the buffer is the head and the body of one request, the request takes all of it.
pub take_request-exact :
    (head t : Bytes) (m pa : Slice) (v : ℕ) (hs : List (Slice × Slice))
    → length (head ++ t) < 2 ^ 64
    → (r : Request) × (take_request (head ++ t) (length head) (length t) m pa v hs
        ≡ (ok (some r), []))
      × (raw_body r ≡ some t)
      × (r.buffer ≡ head ++ t)
unfolding take_request raw_body slice
take_request-exact head t m pa v hs h =
    let buf = head ++ t in
    let end : (length head + length t) % 2 ^ 64 ≡ length buf =
      omega (arith, h, length-append head t) in
    (
      record {
        body = (length head, length buf);
        method = m;
        path = pa;
        version = v;
        headers = hs;
        buffer = buf;
        params = none;
      },
      rw (end, ==-refl (length buf), take-all buf, drop-all buf) refl,
      index-rest head t (length buf) (length-append head t),
      refl,
    )

pub take_request-other :
    (buf : Bytes) (amt n : ℕ) (m pa : Slice) (v : ℕ) (hs : List (Slice × Slice))
    → amt ≤ length buf
    → length buf < 2 ^ 64
    → n < 2 ^ 64
    → amt + n ≢ length buf
    → take_request buf amt n m pa v hs ≡ (ok none, buf)
unfolding take_request
take_request-other buf amt n m pa v hs h l k e = ground arith
