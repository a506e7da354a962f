-- ===== src/Http/Framing.antt =====
-- When `decode` yields a request: exactly when the buffer ends with the request's body.
use Prim.Native.Nat.{◌^◌}
use fanta.Prelude.{
  ℕ, ◌+◌, ◌≤◌, ◌<◌, ◌≡◌, refl, ◌≢◌, ap, ◌∙◌, some, none, List, [], ◌++◌, length, ok, arith,
}
use fanta.Text.Utf8.{Bytes}
use fanta.Http.Slice.{Slice}
use fanta.Http.Request.{Request, Parsed, complete, Parser, raw_body}
use fanta.Http.Decode.{
  toslice, read_headers, take_request, decode_complete, decode, take_request-exact,
  take_request-other, read_headers-lt,
}

-- The parser found a complete head of `amt` bytes in the buffer, whose parts lie in the buffer, and
-- its headers announce a body of `body_len` bytes.
pub record Readable (p : Parser) (buf : Bytes) (amt body_len : ℕ) : Type 0 where
  pub found : Parsed
  pub parses : p.parse buf ≡ ok (complete amt found)
  pub slices : List (Slice × Slice)
  pub reads : read_headers p buf found.parsed_headers 0 ≡ some (body_len, slices)
  pub method : ℕ × ℕ
  pub has_method : found.parsed_method ≡ some method
  pub method_slice : Slice
  pub method_lies : toslice buf method ≡ some method_slice
  pub path : ℕ × ℕ
  pub has_path : found.parsed_path ≡ some path
  pub path_slice : Slice
  pub path_lies : toslice buf path ≡ some path_slice
  pub version : ℕ
  pub has_version : found.parsed_version ≡ some version

decode-Readable :
    (p : Parser) (buf : Bytes) (amt n : ℕ) (h : Readable p buf amt n)
    → decode p buf ≡ some (take_request buf amt n h.method_slice h.path_slice h.version h.slices)
unfolding decode decode_complete
decode-Readable p buf amt n h =
    rw
      (
        h.parses, h.reads, h.has_method, h.method_lies, h.has_path, h.path_lies, h.has_version,
        decode, decode_complete,
      )
      refl

-- When the buffer, of fewer than 2^64 bytes, holds a head that the parser finds complete and exactly
-- the body that its headers announce, `decode` takes all of it and yields a request with that body.
pub decode-whole :
    (p : Parser) (head t : Bytes)
    → Readable p (head ++ t) (length head) (length t)
    → length (head ++ t) < 2 ^ 64
    → (r : Request) × (decode p (head ++ t) ≡ some (ok (some r), []))
      × (raw_body r ≡ some t)
      × (r.buffer ≡ head ++ t)
decode-whole p head t h l =
    let (r, e, b, d) = take_request-exact head t h.method_slice h.path_slice h.version h.slices l in
    (r, decode-Readable p (head ++ t) (length head) (length t) h ∙ ap (λ q. some q) e, b, d)

-- When the buffer, of fewer than 2^64 bytes, holds a complete head, but less or more than the body
-- that its headers announce, `decode` yields nothing and leaves the buffer as it is. A second
-- request behind the first keeps both from being read.
pub decode-waits :
    (p : Parser) (buf : Bytes) (amt n : ℕ)
    → Readable p buf amt n
    → amt ≤ length buf
    → length buf < 2 ^ 64
    → amt + n ≢ length buf
    → decode p buf ≡ some (ok none, buf)
decode-waits p buf amt n h a l e =
    let k = read_headers-lt p buf h.found.parsed_headers 0 (omega arith) n h.slices h.reads in
    decode-Readable p buf amt n h
    ∙ ap (λ q. some q)
        (take_request-other buf amt n h.method_slice h.path_slice h.version h.slices a l k e)
