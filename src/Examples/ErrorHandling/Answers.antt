-- ===== src/Examples/ErrorHandling/Answers.antt =====
-- What the app of thruster/examples/error_handling.rs answers.
use fanta.Prelude.{
  ℕ, ◌≡◌, refl, ap, ◌∙◌, true, false, if◌then◌else◌, some, List, [], ◌∷◌, ok, Bool-cases, inl, inr,
}
use fanta.Text.{Str, codes, str_eq, split}
use fanta.Middleware.{MiddlewareFnPointer, combine, middleware, tuple}
use fanta.Middleware.Chain.{run, finish}
use fanta.Tree.Params.{no_params}
use fanta.Tree.Node.{not_found, find_child, remove_child, push}
use fanta.Tree.Insert.{
  add_value_at_path, add_non_leaf_value_at_path, add_value_at_split_path, route_pieces, lead,
}
use fanta.Tree.Commit as TreeCommit
use fanta.Tree.Commit.{commit_inner, enumerate}
use fanta.Tree.Route.{Route, route}
use fanta.App
use fanta.App.{App, context_of, commit, match_and_resolve}
use fanta.App.Methods.{dispatched, verb_get}
use fanta.App.Serving.{IsExternal, request_pieces, respond_at, match_and_resolve-ends}
use fanta.Http.Request.{Request, method, path, parse_usize, parse_digits}
use fanta.Map.{insert}
use fanta.Text.Utf8.{as_bytes}
use fanta.Http.Response.{Response, custom, header_line, header, status_code, body_bytes_from_vec}
use fanta.Basic.{
  BasicContext, basic_context, body, set_status, get_response, generate_context, new_context, set,
  add_headers, or_empty,
}
use fanta.Basic.Unmatched.{new_basic, basic_request}
use fanta.Examples.ErrorHandling.{
  invalid_id, display, Downcast, parse_u32, json_message, in_context, json_error_handler, error,
  four_oh_four, errors_app,
}

module _ (dyn : Downcast) where
  opened : App {0, 0, 0} Request BasicContext Unit
  unfolding errors_app new_basic App.create App.use_middleware App.get App.set404 add_value_at_path
      add_non_leaf_value_at_path route_pieces add_value_at_split_path lead split str_eq find_child
      remove_child push
  opened = errors_app dyn

  -- The route of a request that ends at a handler of the app.
  abbrev ends_at : MiddlewareFnPointer BasicContext → Route BasicContext
  ends_at f = record {
    gathered = json_error_handler dyn ∷ [];
    endpoint = some (tuple f []);
    fallback = not_found;
    params = no_params;
  }

  route-error :
      (q : Str) (qs : List Str)
      → str_eq (codes "error") q ≡ true
      → route [] (errors_app dyn).get_root (q ∷ qs) ≡ ends_at (error dyn)
  unfolding opened route
  route-error q [] e = rw e refl
  route-error q (p ∷ qs) e = rw e refl

  route-other :
      (q : Str) (qs : List Str)
      → str_eq (codes "error") q ≡ false
      → route [] (errors_app dyn).get_root (q ∷ qs) ≡ ends_at four_oh_four
  unfolding opened route
  route-other q [] e = rw e refl
  route-other q (p ∷ qs) e = rw e refl

  errors_app-commits :
      (ready : App Request BasicContext Unit) × (commit (errors_app dyn) ≡ some ready)
  unfolding opened commit TreeCommit.commit commit_inner combine middleware enumerate
  errors_app-commits = (_, refl)

  error-run :
      (context : BasicContext)
      → run (json_error_handler dyn ∷ error dyn ∷ []) finish context
        ≡ ok (
            body (set_status context 400) (json_message (codes "Could not parse id: Hello, world")))
  unfolding json_error_handler error parse_u32 parse_usize parse_digits in_context display
  error-run context = rw (dyn.downcast-boxed (invalid_id (codes "Hello, world"))) refl

  four_oh_four-run :
      (context : BasicContext)
      → run (json_error_handler dyn ∷ four_oh_four ∷ []) finish context
        ≡ ok (body (set_status context 404) (codes "Whoops! That route doesn't exist!"))
  unfolding json_error_handler four_oh_four
  four_oh_four-run context = refl

-- A response with a status and a text.
abbrev pub page : ℕ → Str → Response
page status text = record {
  response = as_bytes text;
  status_message = custom status [];
  header_raw = as_bytes (header_line (codes "Server") (codes "Thruster"));
}

page-made :
    (request : Request) (status : ℕ) (text : Str)
    → get_response (body (set_status (generate_context {0} request tt []) status) text)
      ≡ page status text
unfolding get_response body set_status generate_context new_context set insert add_headers
    status_code header body_bytes_from_vec
page-made request status text = refl

-- What the app answers to a request whose path begins with a piece.
abbrev pub answer_to : Str → Response
answer_to q =
    if str_eq (codes "error") q
    then page 400 (json_message (codes "Could not parse id: Hello, world"))
    else page 404 (codes "Whoops! That route doesn't exist!")

module _ (dyn : Downcast) where
  respond-page :
      (request : Request) (r : Route BasicContext) (f : MiddlewareFnPointer BasicContext)
      (status : ℕ) (text : Str)
      → r ≡ ends_at dyn f
      → ((context : BasicContext)
          → run (json_error_handler dyn ∷ f ∷ []) finish context
            ≡ ok (body (set_status context status) text))
      → respond_at ⦃c = basic_context⦄ (errors_app dyn) request r ≡ ok (page status text)
  unfolding errors_app new_basic App.create App.use_middleware App.get App.set404
  respond-page request r f status text e h =
      ap (respond_at ⦃c = basic_context⦄ (errors_app dyn) request) e
      ∙ ap (λ m. ok (get_response (context_of m))) (h (generate_context {0} request tt []))
      ∙ ap (λ p. ok p) (page-made request status text)

  respond-answer :
      (request : Request) (q : Str) (qs : List Str)
      → respond_at ⦃c = basic_context⦄
          (errors_app dyn)
          request
          (route [] (errors_app dyn).get_root (q ∷ qs))
        ≡ ok (answer_to q)
  respond-answer request q qs = elim (Bool-cases (str_eq (codes "error") q)) [
    | inl e ↦
        rw e (respond-page request _ (error dyn) 400 _ (route-error dyn q qs e) (error-run dyn))
    | inr e ↦
        rw e (
          respond-page request _ four_oh_four 404 _ (route-other dyn q qs e) (four_oh_four-run dyn))
  ]

  -- The app can be committed, and then answers a request that is looked up in the tree for `GET`
  -- and whose path is not internal by its first piece: for "error", whatever follows, with the
  -- status 400 and the message of the error in JSON; for any other piece with the status 404 and
  -- the text of the handler for what is not found.
  pub errors_app-answers :
      (request : Request) (q : Str) (qs : List Str)
      → dispatched (or_empty (method request)) ≡ verb_get
      → IsExternal (errors_app dyn) request
      → request_pieces (or_empty (path request)) ≡ q ∷ qs
      → (ready : App {0, 0, 0} Request BasicContext Unit) × ((commit (errors_app dyn) ≡ some ready)
          × (match_and_resolve ⦃c = basic_context⦄ ready request ≡ ok (answer_to q)))
  errors_app-answers request q qs v away e =
      let (ready, h) = errors_app-commits dyn in
      (
        ready,
        (
          h,
          match_and_resolve-ends ⦃c = basic_context⦄ (errors_app dyn) ready request verb_get
                (q ∷ qs) _ h away v e refl
              ∙ respond-answer request q qs,
        ),
      )
