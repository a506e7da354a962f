-- ===== src/Examples/UsingState/Answers.antt =====
-- What the app of thruster/examples/using_state.rs answers.
use fanta.Prelude.{◌⊎◌, inl, inr, ◌≡◌, refl, ◌∙◌, some, List, [], ◌∷◌, ok}
use fanta.Text.{Str, codes, str_eq, split}
use fanta.Text.Utf8.{as_bytes}
use fanta.Middleware.{combine, middleware}
use fanta.Middleware.Chain.{run, finish}
use fanta.Tree.Node.{find_child, remove_child, push}
use fanta.Tree.Insert.{add_value_at_path, add_value_at_split_path, route_pieces, lead}
use fanta.Tree.Commit as TreeCommit
use fanta.Tree.Commit.{commit_inner, enumerate}
use fanta.Tree.Route as TreeRoute
use fanta.Tree.Route.{route}
use fanta.App
use fanta.App.{App, commit, match_and_resolve}
use fanta.App.Methods.{dispatched, verb_get}
use fanta.App.Serving.{IsExternal, request_pieces, respond, match_and_resolve-ends}
use fanta.Hyper.{HeaderMap, Hyper, HyperRequest, HyperResponse, http_11, get_response, new, set}
use fanta.Hyper.Service.{Named, hyper_thruster_request}
use fanta.Examples.UsingState.{ServerConfig, Ctx, state_context, state_printer, state_app}

-- What is answered: the path in it is empty.
abbrev pub unplaced :
    {Body Parts Raw H : Type 0} → Hyper Body Parts Raw H → H → HyperResponse Body H
unplaced hy h = record {
  response_body = hy.from_bytes (as_bytes (codes "server id: some-test-id, requested path: "));
  response_status = 200;
  response_headers = h;
  response_version = http_11;
}

module _ (Body Parts Raw H : Type 0) ⦃hm : HeaderMap H⦄ ⦃hy : Hyper Body Parts Raw H⦄ where
  opened : App {0, 0, 0} (HyperRequest Body Parts Raw) (Ctx Body Parts Raw H) ServerConfig
  unfolding state_app App.create App.get add_value_at_path route_pieces add_value_at_split_path lead
      split str_eq find_child remove_child push
  opened = state_app Body Parts Raw H

  state_app-commits :
      (ready : App {0, 0, 0} (HyperRequest Body Parts Raw) (Ctx Body Parts Raw H) ServerConfig)
      × (commit (state_app Body Parts Raw H) ≡ some ready)
  unfolding opened commit TreeCommit.commit commit_inner combine middleware enumerate
  state_app-commits = (_, refl)

  serve-a :
      (key : Str) (qs : List Str)
      → TreeRoute.serve (route [] (state_app Body Parts Raw H).get_root (codes "a" ∷ key ∷ qs))
        ≡ run (state_printer Body Parts Raw H ∷ []) finish
  unfolding opened route
  serve-a key [] = refl
  serve-a key (q ∷ qs) = refl

  serve-b :
      (key : Str) (qs : List Str)
      → TreeRoute.serve (route [] (state_app Body Parts Raw H).get_root (codes "b" ∷ key ∷ qs))
        ≡ run (state_printer Body Parts Raw H ∷ []) finish
  unfolding opened route
  serve-b key [] = refl
  serve-b key (q ∷ qs) = refl

  serve-key :
      (p key : Str) (qs : List Str)
      → (p ≡ codes "a") ⊎ (p ≡ codes "b")
      → TreeRoute.serve (route [] (state_app Body Parts Raw H).get_root (p ∷ key ∷ qs))
        ≡ run (state_printer Body Parts Raw H ∷ []) finish
  serve-key p key qs (inl e) = rw e (serve-a key qs)
  serve-key p key qs (inr e) = rw e (serve-b key qs)

  module _ ⦃named : Named Raw⦄ where
    respond-printed :
        (request : HyperRequest Body Parts Raw) (h : H)
        → hm.append hm.no_headers (codes "Server") (codes "Thruster") ≡ some h
        → respond ⦃c = state_context Body Parts Raw H⦄
            (state_app Body Parts Raw H)
            request
            (run (state_printer Body Parts Raw H ∷ []) finish)
          ≡ ok (some (unplaced hy h))
    unfolding opened state_printer new set get_response
    respond-printed request h made = rw made refl

    -- The app of examples/using_state.rs can be committed; and when `Server: Thruster` is a header
    -- that hyper takes, it answers a request that is looked up in the tree for `GET`, and whose path
    -- is not internal, by two pieces of which the first is "a" or "b", or by more, with the id of the
    -- server and with an empty path, whatever the path of the request is.
    pub state_app-unplaced :
        (request : HyperRequest Body Parts Raw) (h : H) (p key : Str) (qs : List Str)
        → hm.append hm.no_headers (codes "Server") (codes "Thruster") ≡ some h
        → (p ≡ codes "a") ⊎ (p ≡ codes "b")
        → dispatched (named.method_of request.request) ≡ verb_get
        → IsExternal (state_app Body Parts Raw H) request
        → request_pieces (named.uri_of request.request) ≡ p ∷ key ∷ qs
        → (ready : App {0, 0, 0} (HyperRequest Body Parts Raw) (Ctx Body Parts Raw H) ServerConfig)
          × ((commit (state_app Body Parts Raw H) ≡ some ready)
              × (match_and_resolve ⦃c = state_context Body Parts Raw H⦄ ready request
                  ≡ ok (some (unplaced hy h))))
    state_app-unplaced request h p key qs made ab v away e =
        let (ready, done) = state_app-commits in
        (
          ready,
          (
            done,
            match_and_resolve-ends ⦃c = state_context Body Parts Raw H⦄ (state_app Body Parts Raw H)
                  ready request verb_get (p ∷ key ∷ qs) _ done away v e (serve-key p key qs ab)
                ∙ respond-printed request h made,
          ),
        )
