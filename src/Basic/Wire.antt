-- ===== src/Basic/Wire.antt =====
-- What a client reads off the response of a `BasicContext`: `get_response` of
-- thruster/src/context/basic_context.rs, then `encode` of thruster/src/core/response.rs.
use Prim.Native.Nat.{◌^◌}
use fanta.Prelude.{
  List, append_assoc, ℕ, ◌<◌, ◌≡◌, refl, ap, ◌∙◌, ◌≢◌, some, [], ◌∷◌, ◌++◌, map, length, All,
  All-append, arith,
}
use fanta.Text.{Str, codes, str_eq}
use fanta.Text.Decimal.{decimal, digits}
use fanta.Text.Split.{Lacks, Lacks_of_lacks}
use fanta.Text.Utf8.{Bytes, as_bytes, as_bytes-append, encode_char}
use fanta.Map.{HashMap, insert}
use fanta.Http.Response.{crlf, custom, show_status, encode, status_code}
use fanta.Http.Client.{
  read_message, rows, IsLine, read_message-encode, as_bytes-decimal, decimal-Lacks,
}
use fanta.Basic.{BasicContext, get_response, new_context, set, set_status, redirect}
use fanta.Basic.Reading.{
  line_of, lines_of, add_headers-raw, add_headers-response, add_headers-status,
}

-- A name and a value without a carriage return.
abbrev pub IsPlain : Str × Str → Type 0
IsPlain (key, value) = Lacks b'\r' key × Lacks b'\r' value

-- The bytes of a header.
abbrev pub header_bytes : Str × Str → Bytes
header_bytes p = as_bytes (line_of p)

encode_char-Lacks : (c : ℕ) → c ≢ b'\r' → Lacks b'\r' (encode_char c)
unfolding encode_char
encode_char-Lacks c h = ground arith

pub as_bytes-Lacks : (s : Str) → Lacks b'\r' s → Lacks b'\r' (as_bytes s)
unfolding as_bytes
as_bytes-Lacks [] h = tt
as_bytes-Lacks (c ∷ s) (n, h) =
    All-append _ (encode_char c) (as_bytes s) (encode_char-Lacks c n) (as_bytes-Lacks s h)

lines_of-rows :
    (headers : HashMap Str) → as_bytes (lines_of headers) ≡ rows (map header_bytes headers)
unfolding as_bytes encode_char
lines_of-rows [] = refl
lines_of-rows (p ∷ headers) =
    as_bytes-append (line_of p) (b'\r' ∷ b'\n' ∷ lines_of headers)
    ∙ ap (λ b. header_bytes p ++ (crlf ++ b)) (lines_of-rows headers)

encode_char-ne-nil : (c : ℕ) (bs : Bytes) → encode_char c ++ bs ≢ []
unfolding encode_char
encode_char-ne-nil c bs h = ground arith

header_bytes-ne-nil : (key value : Str) → header_bytes (key, value) ≢ []
unfolding as_bytes
header_bytes-ne-nil [] value = encode_char-ne-nil b':' (as_bytes (b' ' ∷ value))
header_bytes-ne-nil (c ∷ key) value = encode_char-ne-nil c (as_bytes (line_of (key, value)))

line-Lacks : (key value : Str) → IsPlain (key, value) → Lacks b'\r' (line_of (key, value))
line-Lacks key value (k, v) = All-append _ key (b':' ∷ b' ' ∷ value) k ((λ e. cc), ((λ e. cc), v))

headers-IsLine :
    (headers : HashMap Str) → All IsPlain headers → All IsLine (map header_bytes headers)
headers-IsLine [] h = tt
headers-IsLine ((key, value) ∷ headers) (p, h) = (
  (header_bytes-ne-nil key value, as_bytes-Lacks (line_of (key, value)) (line-Lacks key value p)),
  headers-IsLine headers h,
)

-- The status line of `get_response` has no message.
shown-bytes : (n : ℕ) → as_bytes (show_status (custom n [])) ≡ decimal n ++ codes " "
unfolding as_bytes encode_char show_status
shown-bytes n =
    as_bytes-append (decimal n) (codes " ") ∙ ap (λ b. b ++ codes " ") (as_bytes-decimal n)

-- A response whose headers come to some lines is read to those lines.
read_message-lines :
    (now : Str) (ctx : BasicContext) (hs : List Bytes) (rest : Bytes)
    → ctx.response.header_raw ≡ []
    → as_bytes (lines_of ctx.headers) ≡ rows hs
    → All IsLine hs
    → Lacks b'\r' now
    → length ctx.response.response < 2 ^ 64
    → read_message (encode now (get_response ctx) [] ++ rest)
      ≡ some (
        (codes "HTTP/1.1 " ++ (decimal ctx.status ++ codes " "))
            ∷ (codes "Content-Length: " ++ decimal (length ctx.response.response))
            ∷ (codes "Date: " ++ as_bytes now)
            ∷ hs,
        (ctx.response.response, rest),
      )
unfolding get_response status_code
read_message-lines now ctx hs rest raw e h hn hb =
    let r = status_code ctx.response ctx.status [] in
    let status : as_bytes (show_status (get_response ctx).status_message)
        ≡ decimal ctx.status ++ codes " " =
      ap (λ m. as_bytes (show_status m)) (add_headers-status ctx.headers r)
      ∙ shown-bytes ctx.status in
    let body = add_headers-response ctx.headers r in
    let bytes =
      add_headers-raw ctx.headers r ∙ ap (λ b. b ++ as_bytes (lines_of ctx.headers)) raw ∙ e in
    read_message-encode now (get_response ctx) hs rest bytes h
      (rw status
        (All-append _ (decimal ctx.status) (codes " ") (decimal-Lacks ctx.status) ((λ e. cc), tt)))
      (as_bytes-Lacks now hn) (rw body hb)
    ∙ rw (status, body) refl

-- From the bytes of the response of a context, whatever stands behind them, a client reads the
-- status, the length of the body, the date, the headers of the context one line each, and the
-- whole body and no more. The conditions are that the response has no header yet, that no name,
-- value or date has a carriage return, and that the length of the body is a `usize`.
pub read_message-get_response :
    (now : Str) (ctx : BasicContext) (rest : Bytes)
    → ctx.response.header_raw ≡ []
    → All IsPlain ctx.headers
    → Lacks b'\r' now
    → length ctx.response.response < 2 ^ 64
    → read_message (encode now (get_response ctx) [] ++ rest)
      ≡ some (
        (codes "HTTP/1.1 " ++ (decimal ctx.status ++ codes " "))
            ∷ (codes "Content-Length: " ++ decimal (length ctx.response.response))
            ∷ (codes "Date: " ++ as_bytes now)
            ∷ map header_bytes ctx.headers,
        (ctx.response.response, rest),
      )
read_message-get_response now ctx rest raw h hn hb =
    read_message-lines now ctx (map header_bytes ctx.headers) rest raw (lines_of-rows ctx.headers)
      (headers-IsLine ctx.headers h) hn hb

split-rows :
    (a b : Str)
    → as_bytes
        (lines_of ((codes "Server", codes "Thruster") ∷ (codes "Location", a ++ (crlf ++ b)) ∷ []))
      ≡ rows (codes "Server: Thruster" ∷ (codes "Location: " ++ as_bytes a) ∷ as_bytes b ∷ [])
unfolding as_bytes encode_char
split-rows a b = simp (as_bytes-append, append_assoc)

-- What a redirect to a destination with a line break in it sends: without a carriage return in the
-- date and the two parts of the destination, of which the second is not empty, a client reads the
-- second part as a header of its own, behind the location.
pub read_message-redirect :
    (now : Str) (a b : Str) (rest : Bytes)
    → Lacks b'\r' now
    → Lacks b'\r' a
    → Lacks b'\r' b
    → as_bytes b ≢ []
    → read_message (encode now (get_response (redirect new_context (a ++ (crlf ++ b)))) [] ++ rest)
      ≡ some (
        codes "HTTP/1.1 302 "
            ∷ codes "Content-Length: 0"
            ∷ (codes "Date: " ++ as_bytes now)
            ∷ codes "Server: Thruster"
            ∷ (codes "Location: " ++ as_bytes a)
            ∷ as_bytes b
            ∷ [],
        ([], rest),
      )
unfolding redirect new_context set insert decimal digits set_status str_eq
read_message-redirect now a b rest hn ha hb n =
    read_message-lines now (redirect new_context (a ++ (crlf ++ b)))
      (codes "Server: Thruster" ∷ (codes "Location: " ++ as_bytes a) ∷ as_bytes b ∷ []) rest refl
      (split-rows a b)
      (
        ((λ e. cc), Lacks_of_lacks b'\r' (codes "Server: Thruster") refl),
        (
          (
            (λ e. cc),
            All-append _ (codes "Location: ") (as_bytes a)
                (Lacks_of_lacks b'\r' (codes "Location: ") refl) (as_bytes-Lacks a ha),
          ),
          ((n, as_bytes-Lacks b hb), tt),
        ),
      )
      hn (omega arith)
