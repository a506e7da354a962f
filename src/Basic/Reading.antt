-- ===== src/Basic/Reading.antt =====
-- What `TestResponse::new` reads from the response of a `BasicContext`.
use fanta.Prelude.{◌≡◌, refl, sym, ap, ◌∙◌, ◌≢◌, [], ◌∷◌, ◌++◌, append_assoc, append-nil, All}
use fanta.Text.{Str}
use fanta.Text.Split.{Lacks}
use fanta.Text.Trim.{IsTight}
use fanta.Text.Utf8.{IsScalar, as_bytes, as_bytes-append}
use fanta.Map.{HashMap}
use fanta.Http.Response.{Response, crlf, header_line, header}
use fanta.Basic.{add_headers}

-- `key: value`, without the end of the line.
abbrev pub line_of : Str × Str → Str
line_of (key, value) = key ++ b':' ∷ b' ' ∷ value

-- All the lines, each with its end.
abbrev pub lines_of : HashMap Str → Str
lines_of [] = []
lines_of (p ∷ headers) = line_of p ++ b'\r' ∷ b'\n' ∷ lines_of headers

-- A name and a value that a header line can carry.
abbrev pub IsHeader : Str × Str → Type 0
IsHeader (key, value) =
    ((key ≢ []) × Lacks b':' key × Lacks b'\r' key × IsTight key × All IsScalar key)
    × (Lacks b':' value × Lacks b'\r' value × IsTight value × All IsScalar value)

line_assoc : (key value : Str) → header_line key value ≡ line_of (key, value) ++ crlf
line_assoc key value = sym (append_assoc key (b':' ∷ b' ' ∷ value) crlf)

-- The raw headers are the bytes of the lines, after what was there.
pub add_headers-raw :
    (headers : HashMap Str) (r : Response)
    → (add_headers headers r).header_raw ≡ r.header_raw ++ as_bytes (lines_of headers)
unfolding add_headers header as_bytes
add_headers-raw [] r = sym (append-nil r.header_raw)
add_headers-raw ((key, value) ∷ headers) r =
    add_headers-raw headers (header r key value)
    ∙ append_assoc r.header_raw (as_bytes (header_line key value)) (as_bytes (lines_of headers))
    ∙ ap (λ b. r.header_raw ++ b)
        (sym (as_bytes-append (header_line key value) (lines_of headers))
          ∙ ap as_bytes (
              ap (λ l. l ++ lines_of headers) (line_assoc key value)
              ∙ append_assoc (line_of (key, value)) crlf (lines_of headers)))

pub add_headers-response :
    (headers : HashMap Str) (r : Response) → (add_headers headers r).response ≡ r.response
unfolding add_headers header
add_headers-response [] r = refl
add_headers-response ((key, value) ∷ headers) r = add_headers-response headers (header r key value)

pub add_headers-status :
    (headers : HashMap Str) (r : Response)
    → (add_headers headers r).status_message ≡ r.status_message
unfolding add_headers header
add_headers-status [] r = refl
add_headers-status ((key, value) ∷ headers) r = add_headers-status headers (header r key value)
