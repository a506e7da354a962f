-- ===== src/Hyper/Cookies.antt =====
-- The cookies of thruster/src/context/typed_hyper_context.rs.
use fanta.Prelude.{Option, none, some, List, [], ◌∷◌}
use fanta.Text.{Str, codes}
use fanta.Map.{HashMap, insert}
use fanta.Builtin.Cookies.{Cookie, CookieOptions}
use fanta.Basic
use fanta.Basic.{after_cookies}
use fanta.Hyper.{HeaderMap, Hyper, TypedHyperContext, set}

-- `headers.get(name)`: the first value.
abbrev pub first : List Str → Option Str
first [] = none
first (v ∷ _) = some v

abbrev pub insert_cookies : List Cookie → HashMap Cookie → HashMap Cookie
insert_cookies [] m = m
insert_cookies (cookie ∷ cookies) m = insert_cookies cookies (insert cookie.key cookie m)

-- The method of this context, which does what that of `BasicContext` does.
abbrev pub cookify_options : Str → Str → CookieOptions → Str
cookify_options = Basic.cookify_options

module _ {σ} {Body Parts Raw H : Type 0} {S : Type σ} ⦃hm : HeaderMap H⦄
    ⦃hy : Hyper Body Parts Raw H⦄ where
  unfoldable pub cookie :
      TypedHyperContext Body Parts Raw H S
      → Str
      → Str
      → CookieOptions
      → Option (TypedHyperContext Body Parts Raw H S)
  cookie ctx name value options = set ctx (codes "Set-Cookie") (
      after_cookies (first (hm.get_all ctx.headers (codes "Set-Cookie")))
        (cookify_options name value options))

  unfoldable pub set_cookies :
      TypedHyperContext Body Parts Raw H S → List Cookie → TypedHyperContext Body Parts Raw H S
  set_cookies ctx cookies = record ctx { cookies = insert_cookies cookies [] }

  -- The values of the response's own headers.
  unfoldable pub get_cookies : TypedHyperContext Body Parts Raw H S → List Str
  get_cookies ctx = hm.get_all ctx.headers (codes "cookie")
