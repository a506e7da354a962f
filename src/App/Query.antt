-- ===== src/App/Query.antt =====
-- Requests with a query string: the path that a server hands to the app still has it.
use fanta.Prelude.{ℕ, ◌≡◌, refl, ap, ◌∙◌, ◌≢◌, some, List, [], ◌∷◌, ◌++◌, arith}
use fanta.Text.{Str, split}
use fanta.Text.Split.{Lacks, split-ne-nil, split_of_Lacks}
use fanta.Context.{Context, ThrusterRequest}
use fanta.Middleware.{Handler, MiddlewareTuple}
use fanta.Tree.Node.{Node, node}
use fanta.Tree.Children.{IsWellFormed}
use fanta.Tree.Insert.{lead, literal, add_value_at_path, strip, route_pieces}
use fanta.Tree.Insert.Frame.{Diverges, apart, route-add_other}
use fanta.Tree.Route.{route, serve}
use fanta.App.{App, commit, match_and_resolve}
use fanta.App
use fanta.App.Methods.{
  Verb, verb_get, verb_options, verb_post, verb_put, verb_delete, verb_patch, dispatched, root_of,
  register, root_of-register,
}
use fanta.App.Serving.{
  respond, respond_at, request_route, request_pieces, IsExternal, match_and_resolve-route,
}

first_piece : (sep : ℕ) (s : Str) → (p : Str) × (rest : List Str) × (split sep s ≡ p ∷ rest)
first_piece sep s = pieces (split sep s) (split-ne-nil sep s) refl
  where
    pieces :
        (l : List Str)
        → l ≢ []
        → split sep s ≡ l
        → (p : Str) × (rest : List Str) × (split sep s ≡ p ∷ rest)
    pieces [] n e = absurd (n refl)
    pieces (p ∷ rest) n e = (p, rest, e)

-- What has no separator stays in front of the first piece.
split-prefix :
    (sep : ℕ) (x t p : Str) (rest : List Str)
    → Lacks sep x
    → split sep t ≡ p ∷ rest
    → split sep (x ++ t) ≡ (x ++ p) ∷ rest
unfolding split
split-prefix sep [] t p rest h e = e
split-prefix sep (c ∷ x) t p rest (n, h) e = ground (arith, split-prefix sep x t p rest h e)

longer-ne : (x p : Str) (c : ℕ) → x ++ c ∷ p ≢ x
longer-ne [] p c e = cc
longer-ne (a ∷ x) p c e = longer-ne x p c cc

-- The pieces of a request for `/x?q`.
query_pieces :
    (x q : Str)
    → Lacks b'/' x
    → (p : Str) × (rest : List Str) × (request_pieces (b'/' ∷ x ++ b'?' ∷ q)
        ≡ (x ++ b'?' ∷ p) ∷ rest)
unfolding split
query_pieces x q h =
    let (p, rest, e) = first_piece b'/' q in
    (p, rest, split-prefix b'/' x (b'?' ∷ q) (b'?' ∷ p) rest h (ground (arith, e)))

split_slash : (t : Str) → split b'/' (b'/' ∷ t) ≡ [] ∷ split b'/' t
unfolding split
split_slash t = refl

literal_pieces : (c : ℕ) (s : Str) → Lacks b'/' (c ∷ s) → route_pieces (b'/' ∷ c ∷ s) ≡ (c ∷ s) ∷ []
unfolding route_pieces strip
literal_pieces c s h =
    ap (strip (b'/' ∷ c ∷ s))
      (split_slash (c ∷ s) ∙ ap (λ l. [] ∷ l) (split_of_Lacks b'/' (c ∷ s) h))
    ∙ ground (arith, h.0)

module _ {ℓ} {T : Type ℓ} where
  -- A request for a literal piece with a query does not follow the piece.
  query-Diverges :
      (n : Node T) (x p : Str) (rest : List Str)
      → lead x ≡ literal
      → Diverges n (x ∷ []) ((x ++ b'?' ∷ p) ∷ rest)
  query-Diverges (node f w cs) x p rest e = apart e (longer-ne x p b'?')

  serve-add_query :
      (m : MiddlewareTuple T) (n : Node T) (c : ℕ) (s q : Str)
      → IsWellFormed n
      → lead (c ∷ s) ≡ literal
      → Lacks b'/' (c ∷ s)
      → let pieces = request_pieces (b'/' ∷ (c ∷ s) ++ b'?' ∷ q) in
        serve (route [] (add_value_at_path n (b'/' ∷ c ∷ s) m) pieces) ≡ serve (route [] n pieces)
  unfolding add_value_at_path
  serve-add_query m n c s q wf e h =
      let (p, rest, d) = query_pieces (c ∷ s) q h in
      rw (literal_pieces c s h, d)
        (ap serve (route-add_other m [] wf (query-Diverges n (c ∷ s) p rest e)))

module _ {ρ ℓ σ κ} {R : Type ρ} {T : Type ℓ} {S : Type σ} {Response : Type κ}
    ⦃k : Context T Response⦄ ⦃r : ThrusterRequest R⦄ where
  -- A registration changes neither the generator nor the state.
  respond-register :
      (v : Verb) (app : App R T S) (path : Str) (m : MiddlewareTuple T) (request : R)
      (handler : Handler T)
      → respond ⦃c = k⦄ (register v app path m) request handler
        ≡ respond ⦃c = k⦄ app request handler
  unfolding App.get App.options App.post App.put App.delete App.patch
  respond-register verb_get app path m request handler = refl
  respond-register verb_options app path m request handler = refl
  respond-register verb_post app path m request handler = refl
  respond-register verb_put app path m request handler = refl
  respond-register verb_delete app path m request handler = refl
  respond-register verb_patch app path m request handler = refl

  -- After a route of one literal piece was registered in a well-formed tree and the app committed, a
  -- request of that method for the same path with a query string behind it is answered as if the
  -- route was not registered.
  pub match_and_resolve-query :
      (app ready : App R T S) (c : ℕ) (s q : Str) (m : MiddlewareTuple T) (request : R)
      → IsWellFormed (root_of (dispatched (r.method request)) app)
      → lead (c ∷ s) ≡ literal
      → Lacks b'/' (c ∷ s)
      → r.path request ≡ b'/' ∷ (c ∷ s) ++ b'?' ∷ q
      → commit (register (dispatched (r.method request)) app (b'/' ∷ c ∷ s) m) ≡ some ready
      → IsExternal (register (dispatched (r.method request)) app (b'/' ∷ c ∷ s) m) request
      → match_and_resolve ⦃c = k⦄ ready request
        ≡ respond_at ⦃c = k⦄ app request (request_route app request)
  match_and_resolve-query app ready c s q m request wf e h path done away =
      let v = dispatched (r.method request) in
      let app' = register v app (b'/' ∷ c ∷ s) m in
      match_and_resolve-route ⦃c = k⦄ app' ready request done away
      ∙ ap (λ n. respond_at ⦃c = k⦄ app' request (route [] n (request_pieces (r.path request))))
          (root_of-register v app (b'/' ∷ c ∷ s) m)
      ∙ rw path (ap (respond ⦃c = k⦄ app' request) (serve-add_query m (root_of v app) c s q wf e h))
      ∙ respond-register v app (b'/' ∷ c ∷ s) m request (serve (request_route app request))
