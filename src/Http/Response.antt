-- ===== src/Http/Response.antt =====
-- thruster/src/core/response.rs: `Response` and `encode`.
use fanta.Prelude.{ℕ, [], ◌∷◌, ◌++◌, length}
use fanta.Text.{Str, codes}
use fanta.Text.Decimal.{decimal}
use fanta.Text.Utf8.{Bytes, as_bytes}

pub data StatusMessage : Type 0 where
  okay : StatusMessage
  custom : ℕ → Str → StatusMessage

pub record Response : Type 0 where
  pub response : Bytes
  pub status_message : StatusMessage
  pub header_raw : Bytes

-- `Response::new()`
abbrev pub new_response : Response
new_response = record { response = []; status_message = okay; header_raw = [] }

unfoldable pub status_code : Response → ℕ → Str → Response
status_code r code message = record r { status_message = custom code message }

-- "\r\n"
abbrev pub crlf : Str
crlf = b'\r' ∷ b'\n' ∷ []

-- `templatify! { "" ; name ; ": " ; val ; "\r\n" }`
abbrev pub header_line : Str → Str → Str
header_line name val = name ++ (codes ": " ++ (val ++ crlf))

unfoldable pub header : Response → Str → Str → Response
header r name val = record r { header_raw = r.header_raw ++ as_bytes (header_line name val) }

unfoldable pub body_text : Response → Str → Response
body_text r s = record r { response = as_bytes s }

unfoldable pub body_bytes : Response → Bytes → Response
body_bytes r b = record r { response = b }

unfoldable pub body_bytes_from_vec : Response → Bytes → Response
body_bytes_from_vec r b = record r { response = b }

-- `impl Display for StatusMessage`
unfoldable pub show_status : StatusMessage → Str
show_status okay = codes "200 OK"
show_status (custom c s) = decimal c ++ (codes " " ++ s)

-- `encode`, with the date that `now()` renders.
unfoldable pub encode : Str → Response → Bytes → Bytes
encode now msg buf =
    buf
    ++ (as_bytes (
          codes "HTTP/1.1 "
          ++ (show_status msg.status_message
              ++ (crlf
                  ++ (codes "Content-Length: "
                      ++ (decimal (length msg.response)
                          ++ (crlf ++ (codes "Date: " ++ (now ++ crlf))))))))
        ++ (msg.header_raw ++ (as_bytes crlf ++ msg.response)))
