-- ===== src/Tests/Bodies.antt =====
-- Reading the body of a request from a hyper context.
use fanta.Prelude.{ℕ, ◌≡◌, refl, none, some, [], ◌∷◌, ok}
use fanta.Text.{Str, codes}
use fanta.Text.Utf8.{as_bytes, encode_char}
use fanta.Text.Lossy.{from_utf8_lossy, lossy_from, go_on, begin}
use fanta.Hyper.{
  Hyper, TypedHyperContext, blank, into_owned_request, new_hyper_request, http_11, Version,
}
use fanta.Hyper as Typed
use fanta.Hyper.Body as Reading
use fanta.Hyper.Body.{Stream, Whole, get_body-texts, get_body-cut, read_chunks}
use fanta.Hyper.Basic as Plain
use fanta.Hyper.Basic.{BasicHyperContext, owned}
use fanta.Hyper.Basic.Typed.{as_typed, map_some, read_typed, as_typed_lem}
use fanta.Tests.Hypers.{Headers, list_headers, list_hyper, list_stream}

abbrev ctx : TypedHyperContext Str Str Str Headers ℕ
ctx = blank (some (new_hyper_request (codes "hi"))) none 0

ctx-Whole : Whole ctx (codes "hi")
ctx-Whole = record {
  request = new_hyper_request (codes "hi");
  has_request = refl;
  not_owned = refl;
  has_body = refl;
}

abbrev read_once : TypedHyperContext Str Str Str Headers ℕ
read_once = record (into_owned_request ctx) { request_body = some [] }

one_chunk : list_stream.chunks (codes "hi") ≡ ok (as_bytes (codes "hi")) ∷ []
unfolding as_bytes encode_char
one_chunk = refl

get_body-texts_example :
    (Reading.get_body ⦃st = list_stream⦄ ctx ≡ some (ok (codes "hi", read_once)))
    × (Reading.get_body ⦃st = list_stream⦄ read_once ≡ some (ok ([], read_once)))
get_body-texts_example =
    get_body-texts ctx (codes "hi") (codes "hi" ∷ []) ctx-Whole one_chunk ((refl, (refl, tt)), tt)

abbrev plain : BasicHyperContext Str Str Str Headers
plain = record (Plain.default_context) {
  status = 200;
  hyper_request = some (new_hyper_request (codes "hi"));
}

as_typed_lem_example :
    (Reading.get_body ⦃st = list_stream⦄ (as_typed plain)
      ≡ map_some (read_typed) (Plain.get_body ⦃st = list_stream⦄ plain))
    × (Typed.set (as_typed plain) (codes "X") (codes "y")
        ≡ map_some as_typed (Plain.set plain (codes "X") (codes "y")))
    × (Typed.redirect (as_typed plain) (codes "/")
        ≡ map_some as_typed (Plain.redirect plain (codes "/")))
    × (Typed.route (as_typed plain) ≡ Plain.route plain)
    × (Typed.get_response (as_typed plain) ≡ Plain.get_response plain)
as_typed_lem_example = as_typed_lem plain (codes "X") (codes "y") (codes "/")

abbrev plain_read : BasicHyperContext Str Str Str Headers
plain_read = record plain {
  hyper_request = none;
  request_body = some [];
  request_parts = some (codes "hi");
}

plain_read_lem : Plain.get_body ⦃st = list_stream⦄ plain ≡ some (ok (codes "hi", plain_read))
unfolding Plain.get_body owned Plain.into_owned_request read_chunks from_utf8_lossy lossy_from go_on
    begin
plain_read_lem = refl
