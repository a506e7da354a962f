-- ===== src/Builtin/Query.antt =====
-- thruster/src/middleware/query_params.rs
use fanta.Prelude.{ℕ, ◌≡◌, refl, sym, ◌≢◌, List, [], ◌∷◌, ◌++◌, map, All, All-append}
use fanta.Text.{Str, codes, split, join}
use fanta.Text.Split.{Lacks, split-join, split-append, split_of_Lacks}
use fanta.Map.{HashMap, insert}
use fanta.Middleware.{MiddlewareFnPointer}
use fanta.Context.{Context}

-- `trait HasQueryParams`
pub record HasQueryParams {ℓ} (T : Type ℓ) : Type ℓ where
  pub set_query_params : T → HashMap Str → T

-- The key and the value of a piece, by the first two pieces around `=`; with one piece only the
-- value is "true". `split` yields at least one.
abbrev pub key_value : List Str → Str × Str
key_value [] = ([], codes "true")
key_value (key ∷ []) = (key, codes "true")
key_value (key ∷ val ∷ _) = (key, val)

-- The loop over the pieces of the query string.
unfoldable pub insert_pieces : List Str → HashMap Str → HashMap Str
insert_pieces [] m = m
insert_pieces (piece ∷ pieces) m =
    let pair = key_value (split b'=' piece) in insert_pieces pieces (insert (pair.0) (pair.1) m)

-- The query string is the second piece around `?`.
abbrev pub query_of : List Str → HashMap Str
query_of [] = []
query_of (_ ∷ []) = []
query_of (_ ∷ query_string ∷ _) = insert_pieces (split b'&' query_string) []

unfoldable pub parse_query : Str → HashMap Str
parse_query route = query_of (split b'?' route)

module _ {ℓ κ} {T : Type ℓ} (Response : Type κ) ⦃c : Context T Response⦄
    ⦃h : HasQueryParams T⦄ where
  unfoldable pub query_params : MiddlewareFnPointer T
  query_params context next = next (h.set_query_params context (parse_query (c.route context)))

-- `key=val`
abbrev pub render_pair : Str × Str → Str
render_pair (key, val) = key ++ b'=' ∷ val

-- `path?key=val&key=val`
abbrev pub render_route : Str → List (Str × Str) → Str
render_route path pairs = path ++ b'?' ∷ join (b'&' ∷ []) (map render_pair pairs)

-- The pairs inserted in order, so that the last value of a key stays.
abbrev pub insert_all : List (Str × Str) → HashMap Str → HashMap Str
insert_all [] m = m
insert_all ((key, val) ∷ pairs) m = insert_all pairs (insert key val m)

-- A text without the characters that separate.
abbrev pub IsPlain : Str → Type 0
IsPlain s = Lacks b'?' s × Lacks b'&' s × Lacks b'=' s

abbrev pub PairIsPlain : Str × Str → Type 0
PairIsPlain (key, val) = IsPlain key × IsPlain val

-- What `c` is missing from two texts is missing from the pair, when it is not the `=` between them.
Lacks-render_pair :
    (c : ℕ) (key val : Str)
    → c ≢ b'='
    → Lacks c key
    → Lacks c val
    → Lacks c (render_pair (key, val))
Lacks-render_pair c key val n h k = All-append _ key (b'=' ∷ val) h (λ e. n (sym e), k)

insert_pieces-render :
    (pairs : List (Str × Str)) (m : HashMap Str)
    → All PairIsPlain pairs
    → insert_pieces (map render_pair pairs) m ≡ insert_all pairs m
unfolding insert_pieces
insert_pieces-render [] m _ = refl
insert_pieces-render ((key, val) ∷ pairs) m (((_, _, k), (_, _, v)), hs) =
    rw (split-append b'=' key val k, split_of_Lacks b'=' val v, insert_pieces)
      (insert_pieces-render pairs (insert key val m) hs)

Lacks-pieces :
    (c : ℕ) (pairs : List (Str × Str))
    → c ≢ b'='
    → All (λ p. Lacks c p.0 × Lacks c p.1) pairs
    → All (Lacks c) (map render_pair pairs)
Lacks-pieces c [] n _ = tt
Lacks-pieces c ((key, val) ∷ pairs) n ((k, v), hs) =
    (Lacks-render_pair c key val n k v, Lacks-pieces c pairs n hs)

Lacks-join :
    (c sep : ℕ) (pieces : List Str)
    → c ≢ sep
    → All (Lacks c) pieces
    → Lacks c (join (sep ∷ []) pieces)
unfolding join
Lacks-join c sep [] n _ = tt
Lacks-join c sep (p ∷ []) n (h, _) = h
Lacks-join c sep (p ∷ q ∷ ps) n (h, k) =
    All-append _ p (sep ∷ join (sep ∷ []) (q ∷ ps)) h
      (λ e. n (sym e), Lacks-join c sep (q ∷ ps) n k)

All-map {ℓ κ η} :
    {A : Type ℓ} {P : A → Type κ} {Q : A → Type η} (f : (a : A) → P a → Q a) (xs : List A)
    → All P xs
    → All Q xs
All-map f [] _ = tt
All-map f (x ∷ xs) (p, h) = (f x p, All-map f xs h)

-- A route made of a path and of at least one pair, whose texts have none of the characters that
-- separate, is parsed to its pairs, inserted in order.
pub parse_query-render :
    (path : Str) (p : Str × Str) (pairs : List (Str × Str))
    → Lacks b'?' path
    → All PairIsPlain (p ∷ pairs)
    → parse_query (render_route path (p ∷ pairs)) ≡ insert_all (p ∷ pairs) []
unfolding parse_query
parse_query-render path p pairs away hs =
    let query = join (b'&' ∷ []) (map render_pair (p ∷ pairs)) in
    let no_mark =
      Lacks-join b'?' b'&' (map render_pair (p ∷ pairs)) (λ e. cc)
        (Lacks-pieces b'?' (p ∷ pairs) (λ e. cc)
          (All-map (λ q h. (h.0.0, h.1.0)) (p ∷ pairs) hs)) in
    let no_and =
      Lacks-pieces b'&' (p ∷ pairs) (λ e. cc) (All-map (λ q h. (h.0.1, h.1.1)) (p ∷ pairs) hs) in
    rw
      (
        split-append b'?' path query away,
        split_of_Lacks b'?' query no_mark,
        split-join b'&' (render_pair p) (map render_pair pairs) no_and,
      )
      (insert_pieces-render (p ∷ pairs) [] hs)
