-- ===== src/Hyper/Twice.antt =====
-- Two cookies on one response of a `TypedHyperContext`.
use fanta.Prelude.{◌≡◌, ap, ◌∙◌, some, [], ◌∷◌, ◌++◌, >>=-eq-some}
use mathlib.Core.Option.{some-injective}
use fanta.Text.{Str, codes}
use fanta.Builtin.Cookies.{CookieOptions}
use fanta.Basic.{after_cookies}
use fanta.Hyper.{HeaderMap, Hyper, TypedHyperContext, set}
use fanta.Hyper.Cookies.{cookify_options, cookie, first}

module _ {σ} {Body Parts Raw H : Type 0} {S : Type σ} ⦃hm : HeaderMap H⦄
    ⦃hy : Hyper Body Parts Raw H⦄ where
  -- A header that is set is there after the values that it had.
  get_all-set :
      (ctx a : TypedHyperContext Body Parts Raw H S) (key value : Str)
      → set ctx key value ≡ some a
      → hm.get_all a.headers key ≡ hm.get_all ctx.headers key ++ value ∷ []
  unfolding set
  get_all-set ctx a key value h =
      let (h', e, d) = >>=-eq-some (hm.append ctx.headers key value) _ h in
      rw (← some-injective _ _ d) (hm.get_all-append ctx.headers h' key value e)

  -- When two cookies are set on a context that had none, and no header is refused, the response has
  -- two headers: the first cookie, and the first cookie joined to the second by a comma.
  pub cookie-twice :
      (ctx a b : TypedHyperContext Body Parts Raw H S) (n v : Str) (o : CookieOptions) (n' v' : Str)
      (o' : CookieOptions)
      → hm.get_all ctx.headers (codes "Set-Cookie") ≡ []
      → cookie ctx n v o ≡ some a
      → cookie a n' v' o' ≡ some b
      → hm.get_all b.headers (codes "Set-Cookie")
        ≡ cookify_options n v o
          ∷ (cookify_options n v o ++ (codes ", " ++ cookify_options n' v' o'))
          ∷ []
  unfolding cookie
  cookie-twice ctx a b n v o n' v' o' none_yet h k =
      let key = codes "Set-Cookie" in
      let one : hm.get_all a.headers key ≡ cookify_options n v o ∷ [] =
        get_all-set ctx a key _ h
        ∙ ap (λ l. l ++ after_cookies (first l) (cookify_options n v o) ∷ []) none_yet in
      get_all-set a b key _ k
      ∙ ap (λ l. l ++ after_cookies (first l) (cookify_options n' v' o') ∷ []) one
