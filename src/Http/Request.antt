-- ===== src/Http/Request.antt =====
-- thruster/src/core/request.rs: `Request` and `decode`. `none` is a panic. The parser `httparse`
-- and the header name of `http` are parameters.
use Prim.Native.Nat.{◌*◌, ◌^◌}
use fanta.Prelude.{
  ℕ, ◌+◌, ◌-◌, ltb, leb, ◌==◌, ◌&&◌, if◌then◌else◌, Bool, Option, none, some, List, [], ◌∷◌, ◌++◌,
  ◌>>=◌, Result,
}
use fanta.Text.{Str}
use fanta.Text.Utf8.{Bytes, from_utf8}
use fanta.Map.{HashMap, get, insert}
use fanta.Http.Slice.{Slice, index}

pub record Request : Type 0 where
  pub body : Slice
  pub method : Slice
  pub path : Slice
  pub version : ℕ
  pub headers : List (Slice × Slice)
  pub buffer : Bytes
  pub params : Option (HashMap Str)

-- `Request::new()`
abbrev pub new_request : Request
new_request = record {
  body = (0, 0);
  method = (0, 0);
  path = (0, 0);
  version = 0;
  headers = [];
  buffer = [];
  params = none;
}

unfoldable pub slice : Request → Slice → Option Bytes
slice r = index r.buffer

unfoldable pub raw_body : Request → Option Bytes
raw_body r = slice r r.body

-- `str::from_utf8(self.slice(&slice)).unwrap()`
unfoldable pub text : Request → Slice → Option Str
text r part = do bytes ← slice r part; from_utf8 bytes

abbrev pub body : Request → Option Str
body r = text r r.body

abbrev pub method : Request → Option Str
method r = text r r.method

abbrev pub path : Request → Option Str
path r = text r r.path

-- `to_lowercase` on the characters that `httparse` lets stand in a header's name.
abbrev pub lower : ℕ → ℕ
lower c = if leb b'A' c && leb c b'Z' then c + 32 else c

abbrev pub to_lowercase : Str → Str
to_lowercase [] = []
to_lowercase (c ∷ s) = lower c ∷ to_lowercase s

-- Adds a value to those of a name.
abbrev pub add_value : Str → Str → HashMap (List Str) → HashMap (List Str)
add_value k v m = elim (get k m) [
  | some val ↦ insert k (val ++ v ∷ []) m
  | none ↦ insert k (v ∷ []) m
]

-- The loop of `headers`.
unfoldable pub header_map :
    Request → List (Slice × Slice) → HashMap (List Str) → Option (HashMap (List Str))
header_map r [] m = some m
header_map r ((name, value) ∷ pairs) m = do
  k ← text r name
  v ← text r value
  header_map r pairs (add_value (to_lowercase k) v m)

unfoldable pub headers : Request → Option (HashMap (List Str))
headers r = header_map r r.headers []

-- What `httparse` found: the places in the buffer, each with its start and its length.
pub record Parsed : Type 0 where
  pub parsed_method : Option (ℕ × ℕ)
  pub parsed_path : Option (ℕ × ℕ)
  pub parsed_version : Option ℕ
  pub parsed_headers : List ((ℕ × ℕ) × (ℕ × ℕ))

-- `httparse::Status`
pub data Status : Type 0 where
  partial : Status
  complete : ℕ → Parsed → Status

-- The libraries that `decode` calls: `httparse::Request::parse`, whose error is known by its
-- `{:?}`, and the comparison of a header's name with `CONTENT_LENGTH` of `http`.
pub record Parser : Type 0 where
  pub parse : Bytes → Result Status Str
  pub is_content_length : Bytes → Bool

-- `s.parse::<usize>()` on digits: `none` is an error, also that of a number of 2^64 or more.
unfoldable pub parse_digits : ℕ → Str → Option ℕ
parse_digits acc [] = some acc
parse_digits acc (c ∷ s) =
    let next = 10 * acc + (c - 48) in
    let rest = parse_digits next s in
    if leb 48 c && leb c 57 && ltb next (2 ^ 64) then rest else none

unfoldable pub parse_usize : Str → Option ℕ
parse_usize [] = none
parse_usize (c ∷ []) = if c == b'+' then none else parse_digits 0 (c ∷ [])
parse_usize (c ∷ d ∷ s) = if c == b'+' then parse_digits 0 (d ∷ s) else parse_digits 0 (c ∷ d ∷ s)
