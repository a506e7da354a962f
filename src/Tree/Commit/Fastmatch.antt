-- ===== src/Tree/Commit/Fastmatch.antt =====
-- The map for fast matches of a committed tree: all of its keys are below the root's own piece.
use mathlib.Core.List.{tail}
use mathlib.Core.Path.{subst}
use mathlib.Core.Option.{some-injective}
use fanta.Prelude.{
  ◌≡◌, refl, sym, ◌∙◌, Option, none, some, List, [], ◌∷◌, ◌++◌, append_assoc, append-nil, arith,
  All, All-append, >>=-eq-some,
}
use fanta.Text.{Str, split}
use fanta.Text.Split.{str_eq_iff}
use fanta.Map
use fanta.Map.{HashMap, get-insert}
use fanta.Middleware.{Handler, MiddlewareTuple, middleware}
use fanta.Tree.Node.{Node, node, Children, nil, cons, piece_of}
use fanta.Tree.Match.{get_value_at_split_path, get_value_at_path}
use fanta.Tree.Commit.{
  Enumeration, below, enumerate, enumerate_children, fill, set_fastmatch, commit, commit_inner,
}
use fanta.Tree.Route.{route, answer}
use fanta.Tree.Route.Refines.{commit-route, piece_of-commit_inner}

-- `s` begins with `p`.
abbrev pub StartsWith : Str → Str → Type 0
StartsWith p s = (t : Str) × (s ≡ p ++ t)

StartsWith-append : (p q s : Str) → StartsWith (p ++ q) s → StartsWith p s
StartsWith-append p q s (t, e) = (q ++ t, e ∙ append_assoc p q t)

module _ {ℓ} {T : Type ℓ} where
  abbrev Below : Str → Enumeration T → Type 0
  Below p es =
      All (λ (e : Str × Option (MiddlewareTuple T) × Option (MiddlewareTuple T)). StartsWith p e.0)
        es

  Below-append : (p q : Str) (es : Enumeration T) → Below (p ++ q) es → Below p es
  Below-append p q [] h = tt
  Below-append p q (e ∷ es) (s, h) = (StartsWith-append p q e.0 s, Below-append p q es h)

mutual
  unfolding enumerate

  enumerate-Below {ℓ} :
      {T : Type ℓ} (n : Node T) (path : Str) → Below (below path (piece_of n)) (enumerate n path)
  enumerate-Below (node f w cs) path =
      (([], sym (append-nil _)), enumerate_children-Below cs (below path f.path_piece))

  enumerate_children-Below {ℓ} :
      {T : Type ℓ} (cs : Children T) (path : Str) → Below path (enumerate_children cs path)
  enumerate_children-Below nil path = tt
  enumerate_children-Below (cons c cs) path =
      All-append _ (enumerate c path) (enumerate_children cs path)
        (Below-append path (b'/' ∷ piece_of c) (enumerate c path) (enumerate-Below c path))
        (enumerate_children-Below cs path)

module _ {ℓ} {T : Type ℓ} where
  -- A key that begins otherwise than all entries is not touched.
  get-fill_other :
      (p key : Str) (es : Enumeration T) (m : HashMap (Handler T))
      → Below p es
      → ¬ (StartsWith p key)
      → Map.get key (fill es m) ≡ Map.get key m
  unfolding fill
  get-fill_other p key [] m h n = refl
  get-fill_other p key ((path, none, v) ∷ es) m (s, h) n = get-fill_other p key es m h n
  get-fill_other p key ((path, some c, v) ∷ es) m (s, h) n =
      get-fill_other p key es (Map.insert path (middleware c) m) h n
      ∙ (get-insert path key (middleware c) m
          ∙ ground (arith, str_eq_iff path key, λ (e : path ≡ key). n (subst (StartsWith p) e s)))

  fill-miss :
      (p key : Str) (es : Enumeration T)
      → Below p es
      → ¬ (StartsWith p key)
      → Map.get key (fill es []) ≡ none
  unfolding Map.get
  fill-miss p key es h n = get-fill_other p key es [] h n

  pub get-set_fastmatch :
      (n : Node T) (m : HashMap (Handler T)) (path : List Str)
      → get_value_at_split_path (set_fastmatch n m) path ≡ get_value_at_split_path n path
  unfolding get_value_at_split_path
  get-set_fastmatch (node f w cs) m [] = refl
  get-set_fastmatch (node f w cs) m (p ∷ path) = refl

  get_value_at_path-miss :
      (n : Node T) (m : HashMap (Handler T)) (key : Str)
      → Map.get key m ≡ none
      → get_value_at_path (set_fastmatch n m) key
        ≡ get_value_at_split_path n (tail (split b'/' key))
  unfolding get_value_at_path
  get_value_at_path-miss (node f w cs) m key e =
      rw (e, get_value_at_path) (get-set_fastmatch (node f w cs) m (tail (split b'/' key)))

  -- A request path that does not begin with a slash and the root's own piece is resolved in the
  -- committed tree as in the tree that was built.
  pub get_value_at_path-commit :
      (n m : Node T) (path : Str)
      → commit n ≡ some m
      → ¬ (StartsWith (below [] (piece_of n)) path)
      → get_value_at_path m path ≡ answer (route [] n (tail (split b'/' path)))
  unfolding commit
  get_value_at_path-commit n m path h away =
      let (k, e, d) = >>=-eq-some (commit_inner n none) _ h in
      let es = enumerate k [] in
      let inside = rw (piece_of-commit_inner n k none e) at (enumerate-Below k []) in
      rw (← some-injective _ _ d) (
        get_value_at_path-miss k (fill es []) path
          (fill-miss (below [] (piece_of n)) path es inside away)
        ∙ commit-route (tail (split b'/' path)) n k none e)
