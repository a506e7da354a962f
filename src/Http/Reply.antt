-- ===== src/Http/Reply.antt =====
-- thruster/src/app/testing_async.rs: `TestResponse::new`, which reads a response back. `none` is a
-- panic.
use fanta.Prelude.{ℕ, ◌==◌, ◌&&◌, if◌then◌else◌, Option, none, some, List, [], ◌∷◌, ◌>>=◌}
use fanta.Text.{Str, codes, split, onto_first}
use fanta.Text.Trim.{trim}
use fanta.Text.Utf8.{from_utf8}
use fanta.Map.{HashMap, insert}
use fanta.Http.Response.{Response, StatusMessage, okay, custom}

pub record TestResponse : Type 0 where
  pub body : Str
  pub headers : HashMap Str
  pub status : Str × ℕ

-- Puts a character before the pieces of what follows it; with the line feed that begins them, a
-- carriage return is a separator.
abbrev pub cut : ℕ → List Str → List Str
cut c [] = onto_first c []
cut c ([] ∷ pieces) = onto_first c ([] ∷ pieces)
cut c ((d ∷ piece) ∷ pieces) =
    if c == b'\r' && d == b'\n' then [] ∷ piece ∷ pieces else onto_first c ((d ∷ piece) ∷ pieces)

-- `s.split("\r\n")`
unfoldable pub split_crlf : Str → List Str
split_crlf [] = [] ∷ []
split_crlf (c ∷ s) = cut c (split_crlf s)

-- The key and the value of a header, the first two pieces around `:`.
abbrev pub header_pair : List Str → Option (Str × Str)
header_pair (key ∷ value ∷ _) = some (trim key, trim value)
header_pair _ = none

-- The loop over the lines; an empty line is passed over, and a line without `:` is a panic.
unfoldable pub read_lines : List Str → HashMap Str → Option (HashMap Str)
read_lines [] m = some m
read_lines ([] ∷ lines) m = read_lines lines m
read_lines ((c ∷ line) ∷ lines) m = do
  pair ← header_pair (split b':' (c ∷ line))
  read_lines lines (insert (pair.0) (pair.1) m)

abbrev pub status_of : StatusMessage → Str × ℕ
status_of okay = (codes "Ok", 200)
status_of (custom code message) = (message, code)

-- `TestResponse::new`
unfoldable pub test_response : Response → Option TestResponse
test_response response = do
  header_string ← from_utf8 response.header_raw
  headers ← read_lines (split_crlf header_string) []
  body ← from_utf8 response.response
  some (record { body = body; headers = headers; status = status_of response.status_message })
