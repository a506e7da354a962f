-- ===== src/Tree/Commit/Capacity.antt =====
-- When `commit` panics: the middleware that it collects on the way to a node, and what it makes of it
-- and of the value of the node, hold at most sixteen functions.
use mathlib.Core.Option.{some-injective}
use fanta.Prelude.{
  ℕ, ◌+◌, ◌≤◌, ◌≡◌, refl, ap, ◌∙◌, ◌↔◌, Option, none, some, [], length, length-append, arith,
  >>=-eq-some,
}
use fanta.Middleware.{Handler, MiddlewareTuple, max_arity, funcs, arity, combine, middleware}
use fanta.Middleware.Chain.{combine_fits, combine-eq-some, combine-le}
use fanta.Tree.Node.{Node, node, Slot, vacant, boxed, Children, nil, cons}
use fanta.Tree.Commit.{
  collect, commit_value, committed_fields, commit_inner, commit_slot, commit_children, commit,
  set_fastmatch, fill, enumerate,
}

-- The number of functions of a tuple that may be missing.
abbrev pub count {ℓ} : {T : Type ℓ} → Option (MiddlewareTuple T) → ℕ
count none = 0
count (some t) = arity t

abbrev mutual
  -- Below `k` functions collected above, the middleware collected at each node, with the value of
  -- the node or, where it has none, alone, does not exceed the largest tuple.
  pub Fits {ℓ} : {T : Type ℓ} → ℕ → Node T → Type 0
  Fits k (node f w cs) =
      (k + count f.non_leaf_value + count f.value ≤ max_arity)
      × SlotFits (k + count f.non_leaf_value) w
      × ChildrenFit (k + count f.non_leaf_value) cs

  pub SlotFits {ℓ} : {T : Type ℓ} → ℕ → Slot T → Type 0
  SlotFits k vacant = Unit
  SlotFits k (boxed n) = Fits k n

  pub ChildrenFit {ℓ} : {T : Type ℓ} → ℕ → Children T → Type 0
  ChildrenFit k nil = Unit
  ChildrenFit k (cons c cs) = Fits k c × ChildrenFit k cs

module _ {ℓ} {T : Type ℓ} where
  collect_fits :
      (c v : Option (MiddlewareTuple T))
      → count c + count v ≤ max_arity
      → (u : Option (MiddlewareTuple T)) × (collect c v ≡ some u) × (count u ≡ count c + count v)
  collect_fits c none h = (c, refl, omega arith)
  collect_fits none (some v) h = (some v, refl, omega arith)
  collect_fits (some c) (some v) h =
      let (t, e, k) = combine_fits c v h in
      (some t, rw e, ap length k ∙ length-append (funcs c) (funcs v))

  commit_value_fits :
      (old : Handler T) (v u : Option (MiddlewareTuple T))
      → count u + count v ≤ max_arity
      → (p : Handler T × Option (MiddlewareTuple T)) × (commit_value old v u ≡ some p)
  commit_value_fits old none u h = ((old, none), refl)
  commit_value_fits old (some v) none h = ((middleware v, some v), refl)
  commit_value_fits old (some v) (some c) h =
      let (t, e, k) = combine_fits c v h in ((middleware t, some t), rw e)

mutual
  unfolding commit_inner

  pub commit_inner-Fits {ℓ} :
      {T : Type ℓ} (n : Node T) (c : Option (MiddlewareTuple T))
      → Fits (count c) n
      → (m : Node T) × (commit_inner n c ≡ some m)
  commit_inner-Fits (node f w cs) c (h, hw, hs) =
      let (u, eu, ku) = collect_fits c f.non_leaf_value (omega arith) in
      let (ds, es) = commit_children_fit cs u (rw ku hs) in
      let (p, ep) = commit_value_fits f.committed_middleware f.value u (rw ku h) in
      let (v, ew) = commit_slot_fits w u (rw ku hw) in
      (node (committed_fields f p) v ds, rw (eu, es, ep, ew))

  commit_slot_fits {ℓ} :
      {T : Type ℓ} (w : Slot T) (c : Option (MiddlewareTuple T))
      → SlotFits (count c) w
      → (v : Slot T) × (commit_slot w c ≡ some v)
  commit_slot_fits vacant c h = (vacant, refl)
  commit_slot_fits (boxed n) c h = let (m, e) = commit_inner-Fits n c h in (boxed m, rw e)

  commit_children_fit {ℓ} :
      {T : Type ℓ} (cs : Children T) (c : Option (MiddlewareTuple T))
      → ChildrenFit (count c) cs
      → (ds : Children T) × (commit_children cs c ≡ some ds)
  commit_children_fit nil c h = (nil, refl)
  commit_children_fit (cons d cs) c (h, hs) =
      let (m, e) = commit_inner-Fits d c h in
      let (ms, es) = commit_children_fit cs c hs in (cons m ms, rw (e, es))

abbrev mutual
  -- Every tuple of the tree is of a size that its type has.
  pub HasArities {ℓ} : {T : Type ℓ} → Node T → Type 0
  HasArities (node f w cs) =
      (count f.non_leaf_value ≤ max_arity)
      × (count f.value ≤ max_arity)
      × SlotHasArities w
      × ChildrenHaveArities cs

  pub SlotHasArities {ℓ} : {T : Type ℓ} → Slot T → Type 0
  SlotHasArities vacant = Unit
  SlotHasArities (boxed n) = HasArities n

  pub ChildrenHaveArities {ℓ} : {T : Type ℓ} → Children T → Type 0
  ChildrenHaveArities nil = Unit
  ChildrenHaveArities (cons c cs) = HasArities c × ChildrenHaveArities cs

module _ {ℓ} {T : Type ℓ} where
  count-collect :
      (c v u : Option (MiddlewareTuple T))
      → collect c v ≡ some u
      → count c ≤ max_arity
      → count v ≤ max_arity
      → (count u ≡ count c + count v) × (count u ≤ max_arity)
  count-collect c none u h k j = let e = some-injective _ _ h in rw (← e) (omega arith, k)
  count-collect none (some v) u h k j = let e = some-injective _ _ h in rw (← e) (omega arith, j)
  count-collect (some c) (some v) u h k j =
      let (t, e, d) = >>=-eq-some (combine c v) _ h in
      let same = ap length (combine-eq-some c v t e) ∙ length-append (funcs c) (funcs v) in
      rw (← some-injective _ _ d) (same, rw same (combine-le c v t e))

  commit_value-le :
      (old : Handler T) (v u : Option (MiddlewareTuple T))
      (p : Handler T × Option (MiddlewareTuple T))
      → commit_value old v u ≡ some p
      → count u ≤ max_arity
      → count v ≤ max_arity
      → count u + count v ≤ max_arity
  commit_value-le old none u p h k j = omega arith
  commit_value-le old (some v) none p h k j = omega arith
  commit_value-le old (some v) (some c) p h k j =
      let (t, e, d) = >>=-eq-some (combine c v) _ h in combine-le c v t e

mutual
  unfolding commit_inner

  Fits-commit_inner {ℓ} :
      {T : Type ℓ} (n : Node T) (c : Option (MiddlewareTuple T)) (m : Node T)
      → HasArities n
      → count c ≤ max_arity
      → commit_inner n c ≡ some m
      → Fits (count c) n
  Fits-commit_inner (node f w cs) c m (a, b, aw, ah) k h =
      let (u, hu, h1) = >>=-eq-some (collect c f.non_leaf_value) _ h in
      let (ds, hds, h2) = >>=-eq-some (commit_children cs u) _ h1 in
      let (p, hp, h3) = >>=-eq-some (commit_value f.committed_middleware f.value u) _ h2 in
      let (v, hv, h4) = >>=-eq-some (commit_slot w u) _ h3 in
      let (same, le) = count-collect c f.non_leaf_value u hu k a in
      (
        rw (← same) (commit_value-le f.committed_middleware f.value u p hp le b),
        rw (← same) (SlotFits-commit_slot w u v aw le hv),
        rw (← same) (ChildrenFit-commit_children cs u ds ah le hds),
      )

  SlotFits-commit_slot {ℓ} :
      {T : Type ℓ} (w : Slot T) (c : Option (MiddlewareTuple T)) (v : Slot T)
      → SlotHasArities w
      → count c ≤ max_arity
      → commit_slot w c ≡ some v
      → SlotFits (count c) w
  SlotFits-commit_slot vacant c v a k h = tt
  SlotFits-commit_slot (boxed n) c v a k h =
      let (m, e, _) = >>=-eq-some (commit_inner n c) _ h in Fits-commit_inner n c m a k e

  ChildrenFit-commit_children {ℓ} :
      {T : Type ℓ} (cs : Children T) (c : Option (MiddlewareTuple T)) (ds : Children T)
      → ChildrenHaveArities cs
      → count c ≤ max_arity
      → commit_children cs c ≡ some ds
      → ChildrenFit (count c) cs
  ChildrenFit-commit_children nil c ds a k h = tt
  ChildrenFit-commit_children (cons d cs) c ds (a, ah) k h =
      let (m, e, h1) = >>=-eq-some (commit_inner d c) _ h in
      let (ms, es, _) = >>=-eq-some (commit_children cs c) _ h1 in
      (Fits-commit_inner d c m a k e, ChildrenFit-commit_children cs c ms ah k es)

-- `commit` of a tree whose tuples have their arities returns exactly when no collected row of
-- middleware, with the value of its node or without, has more than sixteen functions.
pub commit-returns_iff {ℓ} :
    {T : Type ℓ} (n : Node T) → HasArities n → ((m : Node T) × (commit n ≡ some m)) ↔ Fits 0 n
unfolding commit
commit-returns_iff n a = (
  λ r.
      let (m, e, _) = >>=-eq-some (commit_inner n none) _ r.1 in
      Fits-commit_inner n none m a (omega arith) e,
  λ h.
      let (m, e) = commit_inner-Fits n none h in (set_fastmatch m (fill (enumerate m []) []), rw e),
)
