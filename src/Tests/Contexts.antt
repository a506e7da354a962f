-- ===== src/Tests/Contexts.antt =====
-- A `TypedHyperContext` over a list of headers.
use fanta.Prelude.{ℕ, ◌≡◌, refl, Option, none, some, [], ◌∷◌}
use fanta.Text.{Str, codes, str_eq}
use fanta.Builtin.Cookies.{default_options}
use fanta.Hyper.Cookies.{cookie}
use fanta.Hyper.{Hyper, TypedHyperContext, blank, set}
use fanta.Hyper.{HyperResponse, new_hyper_request, http_11}
use fanta.Hyper.Fast.{FastHyperContext, fast_context, fast_response, build}
use fanta.Tests.Hypers.{Headers, list_headers, list_hyper}

abbrev Ctx : Type 0
Ctx = TypedHyperContext Str Str Str Headers ℕ

abbrev start : Ctx
start = blank none none 0

abbrev or_start : Option Ctx → Ctx
or_start none = start
or_start (some c) = c

abbrev one : Ctx
one = or_start (cookie start (codes "a") (codes "1") default_options)

abbrev two : Ctx
two = or_start (cookie one (codes "b") (codes "2") default_options)

one_lem : cookie start (codes "a") (codes "1") default_options ≡ some one
unfolding cookie set
one_lem = refl

two_lem : cookie one (codes "b") (codes "2") default_options ≡ some two
unfolding cookie set
two_lem = refl

-- A raw request with a header of a client, and a context for it with a body.
abbrev client_headers : Headers
client_headers = (codes "cookie", codes "secret") ∷ []

abbrev echo_hyper : Hyper Str Str Str Headers
echo_hyper = record list_hyper { request_headers = λ r. client_headers }

abbrev echo_context : FastHyperContext Str Str Str
echo_context = record (fast_context (new_hyper_request (codes "/"))) { body = some [] }

abbrev echoed : HyperResponse Str Headers
echoed = record {
  response_body = [];
  response_status = 200;
  response_headers = (codes "server", codes "thruster") ∷ client_headers;
  response_version = http_11;
}

echoed_lem : fast_response Headers ⦃hy = echo_hyper⦄ echo_context ≡ some echoed
unfolding fast_response build str_eq
echoed_lem = refl
