-- ===== src/Examples/MutableState/Poisoned.antt =====
-- What the app of thruster/examples/mutable_state.rs answers. Nothing puts the parameters of a route
-- into a request, so that the setter panics, and poisons the lock that it holds.
use fanta.Prelude.{
  ◌⊎◌, Bool-cases, inl, inr, true, if◌then◌else◌, ◌≡◌, refl, ap, ◌∙◌, Option, none, some, List, [],
  ◌∷◌, ◌++◌, map, All,
}
use fanta.Text.{Str, codes, str_eq, split}
use fanta.Text.Utf8.{Bytes, as_bytes}
use fanta.Middleware.{MiddlewareFnPointer, combine, middleware}
use fanta.Middleware.Chain.{run, finish}
use fanta.Tree.Node.{find_child, remove_child, push}
use fanta.Tree.Insert.{
  add_value_at_path, add_non_leaf_value_at_path, add_value_at_split_path, route_pieces, lead,
}
use fanta.Tree.Commit as TreeCommit
use fanta.Tree.Commit.{commit_inner, enumerate}
use fanta.Tree.Route as TreeRoute
use fanta.Tree.Route.{route}
use fanta.App
use fanta.App.{App, commit, context_of}
use fanta.App.Methods.{Verb, root_of, dispatched, verb_get}
use fanta.App.Serving.{IsExternal, request_pieces, match_and_resolve-ends}
use fanta.Hyper.{HeaderMap, Hyper, HyperRequest, HyperResponse, http_11, get_response, new, set}
use fanta.Hyper.Service.{Named, hyper_thruster_request, with_ip}
use fanta.Examples.MutableState.{
  Lock, Ctx, reply, replied, lock_context, generate_context, state_setter, state_getter,
  mutable_app, original, serve, serve_all,
}

module _ (Body Parts Raw H : Type 0) ⦃hm : HeaderMap H⦄ ⦃hy : Hyper Body Parts Raw H⦄ where
  abbrev pub Ready : Type 0
  Ready = App (HyperRequest Body Parts Raw) (Ctx Body Parts Raw H) Lock

  opened : Lock → Ready
  unfolding mutable_app App.create App.get add_value_at_path add_non_leaf_value_at_path route_pieces
      add_value_at_split_path lead split str_eq find_child remove_child push
  opened lock = mutable_app Body Parts Raw H lock

  mutable_app-commits :
      (ready : Ready) × ((commit (mutable_app Body Parts Raw H original) ≡ some ready)
        × ((lock : Lock)
            → commit (mutable_app Body Parts Raw H lock) ≡ some (record ready { state = lock })))
  unfolding opened commit TreeCommit.commit commit_inner combine middleware enumerate
  mutable_app-commits = (_, (refl, λ lock. refl))

  root_of-mutable_app :
      (v : Verb) (lock : Lock)
      → root_of v (mutable_app Body Parts Raw H lock)
        ≡ root_of v (mutable_app Body Parts Raw H original)
  unfolding opened
  root_of-mutable_app verb_get lock = refl
  root_of-mutable_app _ lock = refl

  -- The handlers of the two routes.
  serve-setter :
      (v : Str) (qs : List Str)
      → TreeRoute.serve
          (route [] (mutable_app Body Parts Raw H original).get_root (codes "set-value" ∷ v ∷ qs))
        ≡ run (state_setter Body Parts Raw H ∷ []) finish
  unfolding opened route
  serve-setter v [] = refl
  serve-setter v (p ∷ qs) = refl

  serve-getter :
      (qs : List Str)
      → TreeRoute.serve
          (route [] (mutable_app Body Parts Raw H original).get_root (codes "get-value" ∷ qs))
        ≡ run (state_getter Body Parts Raw H ∷ []) finish
  unfolding opened route
  serve-getter [] = refl
  serve-getter (p ∷ qs) = refl

abbrev pub hyper_request :
    (Body Parts Raw : Type 0) → Raw → Option Bytes → HyperRequest Body Parts Raw
hyper_request Body Parts Raw req ip = with_ip req ip

-- The lock after a panic while it was held for writing.
abbrev pub poisoned : Lock → Lock
poisoned lock = record lock { poisoned = true }

-- What is answered to a getter.
abbrev pub shows :
    {Body Parts Raw H : Type 0} → Hyper Body Parts Raw H → H → Str → HyperResponse Body H
shows hy h value = record {
  response_body = hy.from_bytes (as_bytes (codes "current value: " ++ value));
  response_status = 200;
  response_headers = h;
  response_version = http_11;
}

module _ (Body Parts Raw H : Type 0) ⦃hm : HeaderMap H⦄ ⦃hy : Hyper Body Parts Raw H⦄
    ⦃named : Named Raw⦄ where
  -- The request is looked up in the tree for `GET`, by these pieces.
  abbrev pub IsAsking : List Str → Raw × Option Bytes → Type 0
  IsAsking pieces (req, ip) =
      (dispatched (named.method_of req) ≡ verb_get)
      × (IsExternal (mutable_app Body Parts Raw H original) (hyper_request Body Parts Raw req ip)
          × (request_pieces (named.uri_of req) ≡ pieces))

  abbrev pub IsSetter : Raw × Option Bytes → Type 0
  IsSetter a = (v : Str) × ((qs : List Str) × IsAsking (codes "set-value" ∷ v ∷ qs) a)

  abbrev pub IsGetter : Raw × Option Bytes → Type 0
  IsGetter a = (qs : List Str) × IsAsking (codes "get-value" ∷ qs) a

  -- The app that serves is the committed one.
  abbrev pub IsReady : Ready Body Parts Raw H → Type 0
  IsReady ready =
      (lock : Lock)
      → commit (mutable_app Body Parts Raw H lock) ≡ some (record ready { state = lock })

  away-at :
      (lock : Lock) (request : HyperRequest Body Parts Raw)
      → IsExternal (mutable_app Body Parts Raw H original) request
      → IsExternal (mutable_app Body Parts Raw H lock) request
  away-at lock request h =
      rw (root_of-mutable_app Body Parts Raw H (dispatched (named.method_of request.request)) lock)
        h

  -- A request that ends at a route is answered by its handler.
  serve-route :
      (ready : Ready Body Parts Raw H) (lock : Lock) (req : Raw) (ip : Option Bytes)
      (pieces : List Str) (f : MiddlewareFnPointer (Ctx Body Parts Raw H))
      → IsReady ready
      → IsAsking pieces (req, ip)
      → TreeRoute.serve (route [] (mutable_app Body Parts Raw H original).get_root pieces)
        ≡ run (f ∷ []) finish
      → serve Body Parts Raw H ready lock (req, ip)
        ≡ reply Body Parts Raw H (
            context_of (
              f
                (generate_context Body Parts Raw H (hyper_request Body Parts Raw req ip) lock [])
                finish))
  unfolding serve opened
  serve-route ready lock req ip pieces f hr (v, (away, e)) h = ap (replied Body Parts Raw H lock) (
      match_and_resolve-ends ⦃c = lock_context Body Parts Raw H⦄ (mutable_app Body Parts Raw H lock)
        (record ready { state = lock }) (hyper_request Body Parts Raw req ip) verb_get pieces
        (run (f ∷ []) finish) (hr lock) (away-at lock (hyper_request Body Parts Raw req ip) away) v
        e h)

  serve-set :
      (ready : Ready Body Parts Raw H) (lock : Lock) (a : Raw × Option Bytes) (h : H)
      → hm.append hm.no_headers (codes "Server") (codes "Thruster") ≡ some h
      → IsReady ready
      → IsSetter a
      → serve Body Parts Raw H ready lock a ≡ (none, poisoned lock)
  unfolding state_setter new set
  serve-set ready lock (req, ip) h made hr (v, (qs, a)) =
      serve-route ready lock req ip (codes "set-value" ∷ v ∷ qs) (state_setter Body Parts Raw H) hr
        a (serve-setter Body Parts Raw H v qs)
      ∙ elim (Bool-cases lock.poisoned) [ inl e ↦ rw (made, e) refl | inr e ↦ rw (made, e) refl ]

  serve-get :
      (ready : Ready Body Parts Raw H) (lock : Lock) (a : Raw × Option Bytes) (h : H)
      → hm.append hm.no_headers (codes "Server") (codes "Thruster") ≡ some h
      → IsReady ready
      → IsGetter a
      → serve Body Parts Raw H ready lock a
        ≡ (if lock.poisoned then none else some (shows hy h lock.value), lock)
  unfolding state_getter new set get_response
  serve-get ready lock (req, ip) h made hr (qs, a) =
      serve-route ready lock req ip (codes "get-value" ∷ qs) (state_getter Body Parts Raw H) hr a
        (serve-getter Body Parts Raw H qs)
      ∙ elim (Bool-cases lock.poisoned) [ inl e ↦ rw (made, e) refl | inr e ↦ rw (made, e) refl ]

  module _ (ready : Ready Body Parts Raw H) (hr : IsReady ready) (h : H)
      (made : hm.append hm.no_headers (codes "Server") (codes "Thruster") ≡ some h) where
    serve_all-gets :
        (before rest : List (Raw × Option Bytes))
        → All IsGetter before
        → serve_all Body Parts Raw H ready original (before ++ rest) ≡ (
          map (λ _. some (shows hy h (codes "original"))) before
              ++ (serve_all Body Parts Raw H ready original rest).0,
          (serve_all Body Parts Raw H ready original rest).1,
        )
    unfolding serve_all
    serve_all-gets [] rest _ = refl
    serve_all-gets (a ∷ before) rest (get, gets) =
        rw (serve-get ready original a h made hr get, serve_all-gets before rest gets) refl

    serve-poisoned :
        (lock : Lock) (a : Raw × Option Bytes)
        → IsSetter a ⊎ IsGetter a
        → serve Body Parts Raw H ready (poisoned lock) a ≡ (none, poisoned lock)
    serve-poisoned lock a (inl set) = serve-set ready (poisoned lock) a h made hr set
    serve-poisoned lock a (inr get) = serve-get ready (poisoned lock) a h made hr get

    serve_all-poisoned :
        (lock : Lock) (after : List (Raw × Option Bytes))
        → All (λ a. IsSetter a ⊎ IsGetter a) after
        → serve_all Body Parts Raw H ready (poisoned lock) after
          ≡ (map (λ _. none) after, poisoned lock)
    unfolding serve_all
    serve_all-poisoned lock [] _ = refl
    serve_all-poisoned lock (a ∷ after) (asks, all) =
        rw (serve-poisoned lock a asks, serve_all-poisoned lock after all) refl

  -- The app of examples/mutable_state.rs can be committed; and when `Server: Thruster` is a header
  -- that hyper takes, it answers the original text to any getters, one after the other, and the
  -- first setter panics and poisons the lock: neither it nor any setter or getter after it is
  -- answered. The requests are looked up in the tree for `GET`, and their paths are not internal.
  pub serve_all-set :
      (h : H) (before after : List (Raw × Option Bytes)) (a : Raw × Option Bytes)
      → hm.append hm.no_headers (codes "Server") (codes "Thruster") ≡ some h
      → All IsGetter before
      → IsSetter a
      → All (λ b. IsSetter b ⊎ IsGetter b) after
      → (ready : Ready Body Parts Raw H) × ((commit (mutable_app Body Parts Raw H original)
            ≡ some ready)
          × (serve_all Body Parts Raw H ready original (before ++ a ∷ after) ≡ (
            map (λ _. some (shows hy h (codes "original"))) before ++ none ∷ map (λ _. none) after,
            poisoned original,
          )))
  unfolding serve_all
  serve_all-set h before after a made gets sets all =
      let (ready, (e, hr)) = mutable_app-commits Body Parts Raw H in
      (
        ready,
        (
          e,
          rw
              (
                serve_all-gets ready hr h made before (a ∷ after) gets,
                serve-set ready original a h made hr sets,
                serve_all-poisoned ready hr h made original after all,
              )
              refl,
        ),
      )
