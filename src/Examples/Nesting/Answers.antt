-- ===== src/Examples/Nesting/Answers.antt =====
-- What the app of thruster/examples/nesting.rs answers.
use fanta.Prelude.{
  ◌≡◌, refl, ap, ◌∙◌, true, false, if◌then◌else◌, Option, none, some, List, [], ◌∷◌, ok, Result,
  IoError, Bool-cases, inl, inr,
}
use fanta.Text.{Str, codes, str_eq, split}
use fanta.Text.Utf8.{as_bytes}
use fanta.Middleware.{MiddlewareTuple, tuple, combine, middleware}
use fanta.Tree.Params.{no_params}
use fanta.Tree.Node.{not_found, find_child, remove_child, push}
use fanta.Tree.Insert.{add_value_at_path, add_value_at_split_path, route_pieces, lead}
use fanta.Tree.Graft.{
  add_node_at_path, attach, get_node_at_split_path, write_at_split_path, modify_child,
}
use fanta.Tree.Commit as TreeCommit
use fanta.Tree.Commit.{commit_inner, enumerate}
use fanta.Tree.Route as TreeRoute
use fanta.Tree.Route.{Route, route}
use fanta.App
use fanta.App.{App, commit, use_sub_app, match_and_resolve}
use fanta.App.Methods.{dispatched, verb_get}
use fanta.App.Serving.{IsExternal, request_pieces, respond, match_and_resolve-ends}
use fanta.Hyper.{HeaderMap, Hyper, HyperRequest, HyperResponse, http_11}
use fanta.Hyper.Basic as HyperBasic
use fanta.Hyper.Service.{Named, hyper_thruster_request}
use fanta.Examples.Nesting.{
  Ctx, nesting_context, plaintext, nested_plaintext, nested_app, app, nesting_app, Nesting,
}

module _ (Body Parts Raw H : Type 0) ⦃hm : HeaderMap H⦄ ⦃hy : Hyper Body Parts Raw H⦄ where
  opened : Option (Nesting Body Parts Raw H)
  unfolding nesting_app app nested_app App.create App.get use_sub_app add_value_at_path
      add_node_at_path route_pieces add_value_at_split_path lead split str_eq find_child
      remove_child push attach get_node_at_split_path write_at_split_path modify_child
  opened = nesting_app Body Parts Raw H

  abbrev pub or_app : Option (Nesting Body Parts Raw H) → Nesting Body Parts Raw H
  or_app none = app Body Parts Raw H
  or_app (some a) = a

  -- The app of `main`.
  abbrev pub mounted : Nesting Body Parts Raw H
  mounted = or_app (nesting_app Body Parts Raw H)

  nesting_app-mounts : nesting_app Body Parts Raw H ≡ some mounted
  unfolding opened
  nesting_app-mounts = refl

  mounted-commits : (ready : Nesting Body Parts Raw H) × (commit mounted ≡ some ready)
  unfolding opened commit TreeCommit.commit commit_inner combine middleware enumerate
  mounted-commits = (_, refl)

  -- Where a request below "/nested" ends, and where any request ends.
  abbrev nested_end : List Str → Option (MiddlewareTuple (Ctx Body Parts Raw H))
  nested_end [] = none
  nested_end (q ∷ _) =
      if str_eq (codes "plaintext") q
      then some (tuple (nested_plaintext Body Parts Raw H) [])
      else none

  abbrev end_for : List Str → Option (MiddlewareTuple (Ctx Body Parts Raw H))
  end_for [] = none
  end_for (q ∷ qs) =
      if str_eq (codes "plaintext") q
      then some (tuple (plaintext Body Parts Raw H) [])
      else if str_eq (codes "nested") q
      then nested_end qs
      else none

  abbrev ends_at : Option (MiddlewareTuple (Ctx Body Parts Raw H)) → Route (Ctx Body Parts Raw H)
  ends_at endpoint = record {
    gathered = [];
    endpoint = endpoint;
    fallback = not_found;
    params = no_params;
  }

  -- A route in the tree that `main` builds.
  abbrev routed : List Str → Route (Ctx Body Parts Raw H)
  routed pieces = route [] mounted.get_root pieces

  route-plaintext :
      (q : Str) (qs : List Str)
      → str_eq (codes "plaintext") q ≡ true
      → routed (q ∷ qs) ≡ ends_at (end_for (q ∷ qs))
  unfolding opened route
  route-plaintext q [] e = rw e refl
  route-plaintext q (r ∷ rs) e = rw e refl

  route-nested_plaintext :
      (q r : Str) (rs : List Str)
      → str_eq (codes "plaintext") q ≡ false
      → str_eq (codes "nested") q ≡ true
      → str_eq (codes "plaintext") r ≡ true
      → routed (q ∷ r ∷ rs) ≡ ends_at (end_for (q ∷ r ∷ rs))
  unfolding opened route
  route-nested_plaintext q r [] e n d = rw (e, n, d) refl
  route-nested_plaintext q r (s ∷ ss) e n d = rw (e, n, d) refl

  route-nested :
      (q : Str) (qs : List Str)
      → str_eq (codes "plaintext") q ≡ false
      → str_eq (codes "nested") q ≡ true
      → routed (q ∷ qs) ≡ ends_at (end_for (q ∷ qs))
  unfolding opened route
  route-nested q [] e n = rw (e, n) refl
  route-nested q (r ∷ rs) e n = elim (Bool-cases (str_eq (codes "plaintext") r)) [
    | inl d ↦ route-nested_plaintext q r rs e n d
    | inr d ↦ rw (e, n, d) refl
  ]

  route-other :
      (q : Str) (qs : List Str)
      → str_eq (codes "plaintext") q ≡ false
      → str_eq (codes "nested") q ≡ false
      → routed (q ∷ qs) ≡ ends_at (end_for (q ∷ qs))
  unfolding opened route
  route-other q qs e n = rw (e, n) refl

  routed_lem : (pieces : List Str) → routed pieces ≡ ends_at (end_for pieces)
  unfolding opened route
  routed_lem [] = refl
  routed_lem (q ∷ qs) = elim (Bool-cases (str_eq (codes "plaintext") q)) [
    | inl e ↦ route-plaintext q qs e
    | inr e ↦ elim (Bool-cases (str_eq (codes "nested") q)) [
      | inl n ↦ route-nested q qs e n
      | inr n ↦ route-other q qs e n
    ]
  ]

-- The text of what is answered, by the pieces of the path.
abbrev pub nested_text : List Str → Option Str
nested_text [] = none
nested_text (q ∷ _) =
    if str_eq (codes "plaintext") q then some (codes "(nested) Hello, World!") else none

abbrev pub text_for : List Str → Option Str
text_for [] = none
text_for (q ∷ qs) =
    if str_eq (codes "plaintext") q
    then some (codes "Hello, World!")
    else if str_eq (codes "nested") q
    then nested_text qs
    else none

abbrev pub body_of : {Body Parts Raw H : Type 0} → Hyper Body Parts Raw H → Option Str → Body
body_of hy none = hy.empty
body_of hy (some text) = hy.from_bytes (as_bytes text)

abbrev pub page :
    {Body Parts Raw H : Type 0} → Hyper Body Parts Raw H → H → Option Str → HyperResponse Body H
page hy h text = record {
  response_body = body_of hy text;
  response_status = 200;
  response_headers = h;
  response_version = http_11;
}

module _ (Body Parts Raw H : Type 0) ⦃hm : HeaderMap H⦄ ⦃hy : Hyper Body Parts Raw H⦄
    ⦃named : Named Raw⦄ where
  -- The response of the handler at an end.
  abbrev responded :
      HyperRequest Body Parts Raw
      → Option (MiddlewareTuple (Ctx Body Parts Raw H))
      → Result (Option (HyperResponse Body H)) IoError
  responded request endpoint =
      respond ⦃c = nesting_context Body Parts Raw H⦄ (mounted Body Parts Raw H) request
        (TreeRoute.serve (ends_at Body Parts Raw H endpoint))

  module _ (request : HyperRequest Body Parts Raw) (h : H)
      (made : hm.insert hm.no_headers (codes "server") (codes "thruster") ≡ some h) where
    responded-plaintext :
        responded request (some (tuple (plaintext Body Parts Raw H) []))
        ≡ ok (some (page hy h (some (codes "Hello, World!"))))
    unfolding opened plaintext HyperBasic.new HyperBasic.get_response
    responded-plaintext = rw made refl

    responded-nested_plaintext :
        responded request (some (tuple (nested_plaintext Body Parts Raw H) []))
        ≡ ok (some (page hy h (some (codes "(nested) Hello, World!"))))
    unfolding opened nested_plaintext HyperBasic.new HyperBasic.get_response
    responded-nested_plaintext = rw made refl

    responded-none : responded request none ≡ ok (some (page hy h none))
    unfolding opened HyperBasic.new HyperBasic.get_response
    responded-none = rw made refl

    responded-nested :
        (qs : List Str)
        → responded request (nested_end Body Parts Raw H qs)
          ≡ ok (some (page hy h (nested_text qs)))
    responded-nested [] = responded-none
    responded-nested (q ∷ qs) = elim (Bool-cases (str_eq (codes "plaintext") q)) [
      | inl e ↦ rw e responded-nested_plaintext
      | inr e ↦ rw e responded-none
    ]

    responded-end :
        (pieces : List Str)
        → responded request (end_for Body Parts Raw H pieces)
          ≡ ok (some (page hy h (text_for pieces)))
    responded-end [] = responded-none
    responded-end (q ∷ qs) = elim (Bool-cases (str_eq (codes "plaintext") q)) [
      | inl e ↦ rw e responded-plaintext
      | inr e ↦ elim (Bool-cases (str_eq (codes "nested") q)) [
        | inl n ↦ rw (e, n) (responded-nested qs)
        | inr n ↦ rw (e, n) responded-none
      ]
    ]

  -- The app of examples/nesting.rs can be built and committed; and when `server: thruster` is a
  -- header that hyper takes, it answers each request that is looked up in the tree for `GET`, and
  -- whose path is not internal, with the status 200: the text of the outer app if the first piece is
  -- "plaintext", that of the mounted app if the first two are "nested" and "plaintext", whatever
  -- follows, and no text otherwise.
  pub nesting_app-answers :
      (request : HyperRequest Body Parts Raw) (h : H) (pieces : List Str)
      → hm.insert hm.no_headers (codes "server") (codes "thruster") ≡ some h
      → dispatched (named.method_of request.request) ≡ verb_get
      → IsExternal (mounted Body Parts Raw H) request
      → request_pieces (named.uri_of request.request) ≡ pieces
      → (nesting_app Body Parts Raw H ≡ some (mounted Body Parts Raw H))
        × ((ready : Nesting Body Parts Raw H) × ((commit (mounted Body Parts Raw H) ≡ some ready)
              × (match_and_resolve ⦃c = nesting_context Body Parts Raw H⦄ ready request
                  ≡ ok (some (page hy h (text_for pieces))))))
  nesting_app-answers request h pieces made v away e =
      let (ready, done) = mounted-commits Body Parts Raw H in
      (
        nesting_app-mounts Body Parts Raw H,
        (
          ready,
          (
            done,
            match_and_resolve-ends ⦃c = nesting_context Body Parts Raw H⦄ (mounted Body Parts Raw H)
                  ready request verb_get pieces _ done away v e
                  (ap TreeRoute.serve (routed_lem Body Parts Raw H pieces))
                ∙ responded-end request h made pieces,
          ),
        ),
      )
