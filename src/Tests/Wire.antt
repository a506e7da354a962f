-- ===== src/Tests/Wire.antt =====
-- Texts, requests and responses: runs, and the theorems at concrete inputs.
use fanta.Prelude.{ℕ, ◌≡◌, refl, [], ◌∷◌, map, true}
use fanta.Text.{Str, codes, str_eq, split, join}
use fanta.Text.Utf8.{as_bytes, from_utf8, encode_char, decode_from, feed}
use fanta.Text.Decimal.{decimal, digits}
use fanta.Text.Trim.{trim, trim_start, trim_end}
use fanta.Map.{insert, get}
use fanta.Builtin.Query.{parse_query, insert_pieces, insert_all, render_route, parse_query-render}
use fanta.Builtin.Cookies.{parse_string, cookie_with, render_header, parse_string-render}
use fanta.Http.Slice.{index, take, drop}
use fanta.Http.Request.{raw_body, slice, parse_usize, parse_digits}
use fanta.Http.Decode.{decode, decode_complete, read_headers, content_length, take_request}
use fanta.Http.Response.{body_bytes_from_vec, status_code, header, encode, show_status}
use fanta.Http.Reply.{test_response, split_crlf, read_lines}
use fanta.Basic.{
  BasicContext, new_context, set, body, get_response, add_headers, cookie, cookify_options,
  option_pieces,
}
use fanta.Text.Split.{Lacks, lacks, Lacks_of_lacks}

-- Opens what the runs below compute with.
opened : ℕ
unfolding str_eq split join as_bytes from_utf8 encode_char decode_from feed decimal digits trim
    trim_start trim_end insert get parse_query insert_pieces parse_string index take drop raw_body
    slice parse_usize parse_digits decode decode_complete read_headers content_length take_request
    status_code header encode show_status test_response split_crlf read_lines new_context set body
    get_response body_bytes_from_vec add_headers cookie cookify_options option_pieces
opened = 0

decimal_302 : decimal 302 ≡ codes "302"
unfolding opened
decimal_302 = refl

abbrev plain : (c : ℕ) (s : Str) → lacks c s ≡ true → Lacks c s
plain = Lacks_of_lacks

-- A value that has a `=` is cut at it.
cut_at_equals :
    parse_query (codes "/a?x=1=2&y") ≡ (codes "x", codes "1") ∷ (codes "y", codes "true") ∷ []
unfolding opened
cut_at_equals = refl

parse_query-render_example :
    parse_query (render_route (codes "/a") ((codes "x", codes "1") ∷ []))
    ≡ insert_all ((codes "x", codes "1") ∷ []) []
parse_query-render_example =
    parse_query-render (codes "/a") (codes "x", codes "1") [] (plain b'?' (codes "/a") refl)
      (
        (
          (plain b'?' (codes "x") refl, plain b'&' (codes "x") refl, plain b'=' (codes "x") refl),
          (plain b'?' (codes "1") refl, plain b'&' (codes "1") refl, plain b'=' (codes "1") refl),
        ),
        tt,
      )

parse_string-render_example :
    parse_string (render_header ((codes "a", codes "1") ∷ []))
    ≡ map (λ (q : Str × Str). cookie_with (q.0) (q.1)) ((codes "a", codes "1") ∷ [])
unfolding opened
parse_string-render_example =
    parse_string-render (codes "a", codes "1") []
      (
        (
          (plain b';' (codes "a") refl, plain b'=' (codes "a") refl, refl),
          (plain b';' (codes "1") refl, plain b'=' (codes "1") refl, refl),
        ),
        tt,
      )

-- A context with a body and a header.
abbrev ctx : BasicContext
ctx = body (set new_context (codes "X") (codes "y")) (codes "hi")
