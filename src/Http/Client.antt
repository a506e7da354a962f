-- ===== src/Http/Client.antt =====
-- What a client makes of the bytes that `encode` of thruster/src/core/response.rs writes: a reader
-- of HTTP messages that stands for no code of the repository.
use Prim.Native.Nat.{◌^◌}
use fanta.Prelude.{
  ℕ, ◌<◌, ◌≡◌, ◌≢◌, refl, sym, ap, ◌∙◌, leb, ◌==◌, if◌then◌else◌, Bool, true, false, Option, none,
  some, List, [], ◌∷◌, ◌++◌, append_assoc, ◌>>=◌, length, All, All-append, arith, append-nil,
  length-append,
}
use fanta.Text.{Str, codes}
use fanta.Text.Decimal.{decimal, digits}
use fanta.Text.Split.{Lacks, lacks, Lacks_of_lacks}
use fanta.Text.Utf8.{Bytes, as_bytes, as_bytes-append, encode_char}
use fanta.Http.Slice.{take, drop, take-append, drop-append}
use fanta.Http.Request.{parse_usize}
use fanta.Http.Response.{Response, crlf, show_status, encode}
use fanta.Http.Numbers.{IsDigit, as_bytes-digits, digits-IsDigit, parse_usize-decimal}

-- The end of a line: an empty one ends the head.
abbrev end_line : Bytes → Option (List Bytes × Bytes) → Bytes → Option (List Bytes × Bytes)
end_line [] lines s = some ([], s)
end_line (c ∷ line) lines s = do l ← lines; some ((c ∷ line) ∷ l.0, l.1)

-- The lines up to the first empty one, and what is behind it; `cr` says that a carriage return was
-- read, which only stands before a line feed.
unfoldable pub scan : Bytes → Bool → Bytes → Option (List Bytes × Bytes)
scan line cr [] = none
scan line false (c ∷ s) = elim (c == b'\r') [
  | true ↦ scan line true s
  | false ↦ scan (line ++ c ∷ []) false s
]
scan line true (c ∷ s) = elim (c == b'\n') [
  | true ↦ end_line line (scan [] false s) s
  | false ↦ none
]

-- What is behind a prefix.
unfoldable pub strip_prefix : Bytes → Bytes → Option Bytes
strip_prefix [] s = some s
strip_prefix (a ∷ p) [] = none
strip_prefix (a ∷ p) (b ∷ s) = elim (a == b) [ true ↦ strip_prefix p s | false ↦ none ]

-- The number of the first line that has the content length.
unfoldable pub content_length_of : List Bytes → Option ℕ
content_length_of [] = none
content_length_of (line ∷ lines) = elim (strip_prefix (codes "Content-Length: ") line) [
  | some n ↦ parse_usize n
  | none ↦ content_length_of lines
]

-- The lines of the head, the body, and the bytes of the next message.
unfoldable pub read_message : Bytes → Option (List Bytes × (Bytes × Bytes))
read_message s = do
  head ← scan [] false s
  n ← content_length_of (head.0)
  if leb n (length (head.1)) then some (head.0, (take n (head.1), drop n (head.1))) else none

-- Some lines, each with its end.
abbrev pub rows : List Bytes → Bytes
rows [] = []
rows (line ∷ lines) = line ++ (crlf ++ rows lines)

-- A line that is not empty and has no carriage return.
abbrev pub IsLine : Bytes → Type 0
IsLine line = (line ≢ []) × Lacks b'\r' line

scan-line :
    (before line s : Bytes)
    → Lacks b'\r' line
    → scan before false (line ++ (crlf ++ s)) ≡ end_line (before ++ line) (scan [] false s) s
unfolding scan
scan-line before [] s h = ap (λ k. end_line k (scan [] false s) s) (sym (append-nil before))
scan-line before (c ∷ line) s (n, h) =
    let other : (c == b'\r') ≡ false = ground arith in
    rw (scan, other)
      (scan-line (before ++ c ∷ []) line s h
        ∙ ap (λ k. end_line k (scan [] false s) s) (append_assoc before (c ∷ []) line))

scan-rows :
    (lines : List Bytes) (s : Bytes)
    → All IsLine lines
    → scan [] false (rows lines ++ (crlf ++ s)) ≡ some (lines, s)
unfolding scan
scan-rows [] s h = refl
scan-rows ([] ∷ lines) s ((n, k), h) = absurd (n refl)
scan-rows ((c ∷ line) ∷ lines) s ((n, k), h) =
    ap (scan [] false) (
      append_assoc (c ∷ line) (crlf ++ rows lines) (crlf ++ s)
      ∙ ap (λ t. (c ∷ line) ++ t) (append_assoc crlf (rows lines) (crlf ++ s)))
    ∙ scan-line [] (c ∷ line) (rows lines ++ (crlf ++ s)) k
    ∙ ap (λ o. end_line (c ∷ line) o (rows lines ++ (crlf ++ s))) (scan-rows lines s h)

abbrev pub status_line : Response → Bytes
status_line msg = codes "HTTP/1.1 " ++ as_bytes (show_status msg.status_message)

abbrev pub length_line : Response → Bytes
length_line msg = codes "Content-Length: " ++ decimal (length msg.response)

abbrev pub date_line : Str → Bytes
date_line now = codes "Date: " ++ as_bytes now

pub as_bytes-decimal : (n : ℕ) → as_bytes (decimal n) ≡ decimal n
unfolding decimal
as_bytes-decimal n = as_bytes-digits (digits 20 n) (digits-IsDigit 20 n)

-- One line of what `encode` writes, from what is behind it.
as_bytes-line :
    (p x t : Str) (s : Bytes)
    → as_bytes (p ++ (x ++ (crlf ++ t))) ++ s
      ≡ (as_bytes p ++ as_bytes x) ++ (crlf ++ (as_bytes t ++ s))
unfolding as_bytes encode_char
as_bytes-line p x t s = simp (as_bytes-append, append_assoc)

-- The head that `encode` writes is lines, and an empty one.
encode-rows :
    (now : Str) (msg : Response) (hs : List Bytes) (rest : Bytes)
    → msg.header_raw ≡ rows hs
    → encode now msg [] ++ rest
      ≡ rows (status_line msg ∷ length_line msg ∷ date_line now ∷ hs)
        ++ (crlf ++ (msg.response ++ rest))
unfolding encode as_bytes encode_char
encode-rows now msg hs rest h = simp (as_bytes-append, append_assoc, as_bytes-decimal, h)

content_length_of-lines :
    (msg : Response) (lines : List Bytes)
    → length msg.response < 2 ^ 64
    → content_length_of (status_line msg ∷ length_line msg ∷ lines) ≡ some (length msg.response)
unfolding content_length_of strip_prefix
content_length_of-lines msg lines h = parse_usize-decimal (length msg.response) h

digits-Lacks : (s : Str) → All IsDigit s → Lacks b'\r' s
digits-Lacks [] h = tt
digits-Lacks (c ∷ s) (d, h) = ((λ e. omega (arith, e, d)), digits-Lacks s h)

pub decimal-Lacks : (n : ℕ) → Lacks b'\r' (decimal n)
unfolding decimal
decimal-Lacks n = digits-Lacks (digits 20 n) (digits-IsDigit 20 n)

-- A line of a name and a value.
Lacks-line : (p x : Str) → lacks b'\r' p ≡ true → Lacks b'\r' x → Lacks b'\r' (p ++ x)
Lacks-line p x h k = All-append (λ c. c ≢ b'\r') p x (Lacks_of_lacks b'\r' p h) k

lines-IsLine :
    (now : Str) (msg : Response) (hs : List Bytes)
    → All IsLine hs
    → Lacks b'\r' (as_bytes (show_status msg.status_message))
    → Lacks b'\r' (as_bytes now)
    → All IsLine (status_line msg ∷ length_line msg ∷ date_line now ∷ hs)
lines-IsLine now msg hs hl hm hn = (
  ((λ e. cc), Lacks-line (codes "HTTP/1.1 ") _ refl hm),
  (
    ((λ e. cc), Lacks-line (codes "Content-Length: ") _ refl (decimal-Lacks (length msg.response))),
    (((λ e. cc), Lacks-line (codes "Date: ") _ refl hn), hl),
  ),
)

leb-length : (a b : Bytes) → leb (length a) (length (a ++ b)) ≡ true
leb-length a b = ground (arith, length-append a b)

-- Whatever stands behind it, a client reads one response off what `encode` writes: the status line,
-- the length and the date, the headers that `header` added, and the body, whole and no more. The
-- conditions are that the headers are lines, that no carriage return is in the status message or
-- the date, and that the length of the body is a `usize`.
pub read_message-encode :
    (now : Str) (msg : Response) (hs : List Bytes) (rest : Bytes)
    → msg.header_raw ≡ rows hs
    → All IsLine hs
    → Lacks b'\r' (as_bytes (show_status msg.status_message))
    → Lacks b'\r' (as_bytes now)
    → length msg.response < 2 ^ 64
    → read_message (encode now msg [] ++ rest)
      ≡ some (status_line msg ∷ length_line msg ∷ date_line now ∷ hs, (msg.response, rest))
unfolding read_message
read_message-encode now msg hs rest h hl hm hn hb =
    let lines = status_line msg ∷ length_line msg ∷ date_line now ∷ hs in
    rw (
      encode-rows now msg hs rest h,
      scan-rows lines (msg.response ++ rest) (lines-IsLine now msg hs hl hm hn),
      content_length_of-lines msg (date_line now ∷ hs) hb,
      leb-length msg.response rest,
      take-append msg.response rest,
      drop-append msg.response rest,
    )
