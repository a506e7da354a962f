-- ===== src/Tests/Clients.antt =====
-- What clients read: the reading of responses at concrete inputs.
use fanta.Prelude.{◌≡◌, refl, some, ok, map, All, [], ◌∷◌, ◌++◌, arith}
use fanta.Text.{codes, str_eq, split}
use fanta.Text.Split.{Lacks_of_lacks}
use fanta.Text.Utf8.{Bytes, as_bytes, encode_char}
use fanta.Text.Decimal.{decimal, digits}
use fanta.Http.Response.{crlf, status_code, header, body_bytes_from_vec, encode, show_status}
use fanta.Map.{get as map_get, insert}
use fanta.Basic.{
  BasicContext, basic_context, new_context, set, body, redirect, get_response, generate_context,
  add_headers,
}
use fanta.Basic.Wire.{IsPlain, read_message-get_response, read_message-redirect}
use fanta.Http.Request.{Request, new_request}
use fanta.Basic.Unmatched.{new_basic}
use fanta.App.{create, resolve, resolve_from_method_and_path}
use fanta.Tree.Match.{get_value_at_path, get_value_at_split_path}
use fanta.Tree.Route.{route}
use fanta.Server.{Served, process}
use fanta.Server.Wire.{IsReadable, read_messages, write, process-read}
use fanta.Tests.Services.{app, stray_response, takes, one_answer}
use fanta.Http.Client.{read_message, status_line, date_line}

abbrev now : Bytes
now = codes "Thu, 01 Jan 1970 00:00:00 GMT"

abbrev next : Bytes
next = codes "HTTP/1.1 200 OK"

abbrev page : BasicContext
page = body (set new_context (codes "X") (codes "y")) (codes "hi")

page-IsPlain : All IsPlain page.headers
unfolding body set new_context insert str_eq
page-IsPlain = (
  (Lacks_of_lacks b'\r' (codes "Server") refl, Lacks_of_lacks b'\r' (codes "Thruster") refl),
  ((Lacks_of_lacks b'\r' (codes "X") refl, Lacks_of_lacks b'\r' (codes "y") refl), tt),
)

read_message-get_response_example :
    read_message (encode now (get_response page) [] ++ next)
    ≡ some (
      codes "HTTP/1.1 200 "
          ∷ codes "Content-Length: 2"
          ∷ date_line now
          ∷ codes "Server: Thruster"
          ∷ codes "X: y"
          ∷ [],
      (codes "hi", next),
    )
unfolding body set new_context insert str_eq body_bytes_from_vec as_bytes encode_char decimal digits
read_message-get_response_example =
    read_message-get_response now page next refl page-IsPlain
      (Lacks_of_lacks b'\r' (codes "Thu, 01 Jan 1970 00:00:00 GMT") refl) (omega arith)

read_message-redirect_example :
    read_message (
      encode now (get_response (redirect new_context (codes "/a" ++ (crlf ++ codes "X: y")))) []
      ++ next)
    ≡ some (
      codes "HTTP/1.1 302 "
          ∷ codes "Content-Length: 0"
          ∷ date_line now
          ∷ codes "Server: Thruster"
          ∷ codes "Location: /a"
          ∷ codes "X: y"
          ∷ [],
      ([], next),
    )
unfolding as_bytes encode_char
read_message-redirect_example =
    read_message-redirect now (codes "/a") (codes "X: y") next
      (Lacks_of_lacks b'\r' (codes "Thu, 01 Jan 1970 00:00:00 GMT") refl)
      (Lacks_of_lacks b'\r' (codes "/a") refl) (Lacks_of_lacks b'\r' (codes "X: y") refl) (λ e. cc)

stray-IsReadable : IsReadable stray_response
unfolding resolve resolve_from_method_and_path new_basic create get_value_at_path
    get_value_at_split_path split str_eq route generate_context new_context set insert get_response
    status_code header as_bytes encode_char decimal digits add_headers show_status map_get
stray-IsReadable = (
  codes "Server: Thruster" ∷ [],
  (
    refl,
    (
      (((λ e. cc), Lacks_of_lacks b'\r' (codes "Server: Thruster") refl), tt),
      (Lacks_of_lacks b'\r' (codes "200 ") refl, omega arith),
    ),
  ),
)

process-read_example :
    (served : Served) × ((process ⦃c = basic_context⦄ app takes
          (map (λ (r : Request). ok r) (new_request ∷ []))
        ≡ some served)
      × ((served.outcome ≡ ok tt)
          × (read_messages 1 (write now served.sent [])
              ≡ some ((status_line stray_response, stray_response.response) ∷ [], []))))
unfolding as_bytes encode_char
process-read_example =
    process-read ⦃c = basic_context⦄ now app takes one_answer (λ r. refl)
      (Lacks_of_lacks b'\r' (as_bytes now) refl) (stray-IsReadable, tt)
