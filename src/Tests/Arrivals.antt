-- ===== src/Tests/Arrivals.antt =====
-- A message of the homegrown server that arrives in parts.
use mathlib.Core.Path.{subst}
use fanta.Prelude.{
  ℕ, ◌≡◌, ◌≢◌, refl, ap, [], ◌∷◌, ◌++◌, none, some, ok, err, length, length-append, arith, ltb,
  if◌then◌else◌, ◌<◌, All, IoError,
}
use fanta.Text.{codes, str_eq}
use fanta.Text.Utf8.{Bytes, from_utf8, decode_from, feed}
use fanta.App.{App, resolve, resolve_from_method_and_path}
use fanta.Http.Response.{Response, new_response}
use fanta.Basic.{BasicContext, basic_context}
use fanta.Basic.Unmatched.{new_basic}
use fanta.Server.{answer_request}
use fanta.Server.Connection.{serve_parts, serve_parts-message}
use fanta.Http.Slice.{index, take, drop}
use fanta.Http.Request.{
  Request, Parsed, partial, complete, Parser, raw_body, slice, text, parse_usize, parse_digits,
}
use fanta.Http.Decode.{decode, decode_complete, read_headers, content_length, take_request}
use fanta.Http.Framing.{Readable}
use fanta.Http.Arrival.{arrivals, Heads, decode-arrives}
use fanta.Http.Bounds.{Locates, AllInBuffer, decode-AllInBuffer, LiesIfFound, BothLie}

-- Opens what the runs below compute with.
opened : ℕ
unfolding str_eq from_utf8 decode_from feed index take drop raw_body slice parse_usize parse_digits
    decode decode_complete read_headers content_length take_request arrivals
opened = 0

-- A parser that waits for eleven bytes, and then finds one head, with "cl" for the content length.
abbrev head : Bytes
head = codes "GET / cl:2;"

abbrev found : Parsed
found = record {
  parsed_method = some (0, 3);
  parsed_path = some (4, 1);
  parsed_version = some 1;
  parsed_headers = ((6, 2), (9, 1)) ∷ [];
}

abbrev parser : Parser
parser = record {
  parse = λ buf. if ltb (length buf) 11 then ok partial else ok (complete 11 found);
  is_content_length = λ name. str_eq name (codes "cl");
}

length-ne : (s : Bytes) → s ≢ [] → 0 < length s
length-ne [] n = absurd (n refl)
length-ne (c ∷ s) n = omega arith

parser-waits : (pre rest : Bytes) → rest ≢ [] → pre ++ rest ≡ head → parser.parse pre ≡ ok partial
parser-waits pre rest n e =
    let short : length pre < 11 =
      omega (arith, ap length e, length-append pre rest, length-ne rest n) in
    ground arith

parser-reads : (t : Bytes) → Readable parser (head ++ t) 11 2
unfolding opened
parser-reads t = record {
  found = found;
  parses = ground arith;
  slices = ((6, 8), (9, 10)) ∷ [];
  reads = ground arith;
  method = (0, 3);
  has_method = refl;
  method_slice = (0, 3);
  method_lies = ground arith;
  path = (4, 1);
  has_path = refl;
  path_slice = (4, 5);
  path_lies = ground arith;
  version = 1;
  has_version = refl;
}

parser-Heads : Heads parser head 2
parser-Heads = record { waits = parser-waits; reads = parser-reads }

-- In three parts: the first ends in the head, the second in the body.
decode-arrives_example :
    (r : Request) × (arrivals parser [] (codes "GET /" ∷ codes " cl:2;h" ∷ codes "i" ∷ [])
      ≡ some (ok none ∷ ok none ∷ ok (some r) ∷ [], []))
    × (raw_body r ≡ some (codes "hi"))
    × (r.buffer ≡ head ++ codes "hi")
    × (decode parser (head ++ codes "hi") ≡ some (ok (some r), []))
decode-arrives_example =
    decode-arrives parser head (codes "hi") (codes "i") (codes "GET /" ∷ codes " cl:2;h" ∷ [])
      parser-Heads (omega arith) (λ e. cc) refl

abbrev whole : Bytes
whole = head ++ codes "hi"

abbrev request : Request
request = record {
  body = (11, 13);
  method = (0, 3);
  path = (4, 5);
  version = 1;
  headers = ((6, 8), (9, 10)) ∷ [];
  buffer = whole;
  params = none;
}

request_lem : decode parser whole ≡ some (ok (some request), [])
unfolding opened
request_lem = refl

parses-eq :
    (amt : ℕ) (r : Parsed) → parser.parse whole ≡ ok (complete amt r) → (11 ≡ amt) × (found ≡ r)
parses-eq amt r e = (cc, cc)

parser-Locates : Locates parser whole
parser-Locates = record {
  head_lies = λ amt r e. let (a, _) = parses-eq amt r e in omega arith;
  method_lies = λ amt r e.
      subst (λ (k : Parsed). LiesIfFound whole k.parsed_method) (parses-eq amt r e).1 (omega arith);
  path_lies = λ amt r e.
      subst (λ (k : Parsed). LiesIfFound whole k.parsed_path) (parses-eq amt r e).1 (omega arith);
  headers_lie = λ amt r e.
      subst (λ (k : Parsed). All (BothLie whole) k.parsed_headers) (parses-eq amt r e).1
        ((omega arith, omega arith), tt);
}

decode-AllInBuffer_example : AllInBuffer request
decode-AllInBuffer_example =
    decode-AllInBuffer parser whole request [] parser-Locates (omega arith) request_lem

-- The app without routes answers it.
abbrev app : App {0, 0, 0} Request BasicContext Unit
app = new_basic

abbrev reply : Response
reply =
    elim (resolve ⦃c = basic_context⦄ app request
      (resolve_from_method_and_path app (codes "GET") (codes "/"))) [
        | ok r ↦ r
        | err e ↦ new_response
      ]

request_answered : answer_request ⦃c = basic_context⦄ app request ≡ some (ok reply)
unfolding opened answer_request text resolve
request_answered = refl

same_request : (r : Request) → decode parser whole ≡ some (ok (some r), []) → request ≡ r
same_request r e = cc (request_lem, e)

abbrev unread : IoError
unread = record { message = codes "bytes remaining on stream" }

serve_parts-message_example :
    ((r : Request) × (raw_body r ≡ some (codes "hi"))
      × (serve_parts ⦃c = basic_context⦄ parser unread app
            (λ r. ok tt)
            (codes "GET /" ∷ codes " cl:2;h" ∷ codes "i" ∷ [])
          ≡ some (record { sent = reply ∷ []; outcome = ok tt })))
    × (serve_parts ⦃c = basic_context⦄ parser unread app
          (λ r. ok tt)
          (codes "GET /" ∷ codes " cl:2;h" ∷ codes "iG" ∷ codes "ET" ∷ [])
        ≡ some (record {
          sent = [];
          outcome = err (record { message = codes "bytes remaining on stream" });
        }))
serve_parts-message_example =
    serve_parts-message ⦃c = basic_context⦄ parser unread app (λ r. ok tt) (λ r. reply) head
      (codes "hi") (codes "i") (codes "GET /" ∷ codes " cl:2;h" ∷ []) (codes "G") (codes "ET" ∷ [])
      (λ r. refl)
      (λ r e.
        subst (λ (q : Request). answer_request ⦃c = basic_context⦄ app q ≡ some (ok reply))
          (same_request r e) request_answered)
      parser-Heads ((λ e. cc), ((λ e. cc), tt)) (λ e. cc) refl (λ e. cc) ((λ e. cc), tt)
      (omega arith)
