-- ===== src/Basic/Unmatched.antt =====
-- An app over `BasicContext`, as `App::new_basic` makes it, and requests without a route.
use fanta.Prelude.{◌≡◌, refl, ap, ◌∙◌, none, some, [], ok}
use fanta.Text.{codes}
use fanta.Text.Utf8.{as_bytes}
use fanta.Context.{ThrusterRequest}
use fanta.Tree.Node.{not_found}
use fanta.App.{App, create, commit, match_and_resolve}
use fanta.App.Serving.{request_route, IsExternal}
use fanta.App.NotFound.{unmatched-response}
use fanta.Http.Request.{Request, method, path}
use fanta.Map.{insert}
use fanta.Http.Response.{custom, header_line, status_code, header}
use fanta.Basic.{
  BasicContext, basic_context, generate_context, get_response, new_context, set, add_headers,
  or_empty,
}

-- `App::new_basic()`
unfoldable pub new_basic : App {0, 0, 0} Request BasicContext Unit
new_basic = create generate_context tt

-- `impl ThrusterRequest for Request`, where the method and the path are text, as those that
-- `httparse` finds are.
instance abbrev pub basic_request : ThrusterRequest Request
basic_request = record { method = λ r. or_empty (method r); path = λ r. or_empty (path r) }

generated-response {σ} :
    {S : Type σ} (request : Request) (state : S)
    → get_response (generate_context request state []) ≡ record {
      response = [];
      status_message = custom 200 [];
      header_raw = as_bytes (header_line (codes "Server") (codes "Thruster"));
    }
unfolding get_response generate_context new_context set insert add_headers status_code header
generated-response request state = refl

module _ {σ} {S : Type σ} where
  -- A committed app over `BasicContext` with its generator answers a request whose path is not
  -- internal, and whose walk ends at a node that was never given a value, with the status 200, an
  -- empty body and the one header "Server".
  unmatched-status :
      (app ready : App Request BasicContext S) (request : Request)
      → app.context_generator ≡ generate_context
      → commit app ≡ some ready
      → IsExternal app request
      → (request_route app request).endpoint ≡ none
      → (request_route app request).fallback ≡ not_found
      → match_and_resolve ⦃c = basic_context⦄ ready request
        ≡ ok (record {
          response = [];
          status_message = custom 200 [];
          header_raw = as_bytes (header_line (codes "Server") (codes "Thruster"));
        })
  unmatched-status app ready request g h away e d =
      unmatched-response ⦃c = basic_context⦄ app ready request h away e d
      ∙ ap (λ f. ok (get_response (f request app.state []))) g
      ∙ ap (λ p. ok p) (generated-response request app.state)
