-- ===== src/Builtin/Cookies.antt =====
-- thruster/src/middleware/cookies.rs
use fanta.Prelude.{
  ℕ, ◌≡◌, refl, ap, ◌∙◌, ◌≢◌, Option, none, List, [], ◌∷◌, ◌++◌, map, false, Bool, All, All-append,
}
use fanta.Text.{Str, codes, split, join, onto_first}
use fanta.Text.Split.{Lacks, split-append, split_of_Lacks}
use fanta.Text.Trim.{trim, IsTight, trim-space}
use fanta.Middleware.{MiddlewareFnPointer}

pub data SameSite : Type 0 where
  strict lax : SameSite

pub record CookieOptions : Type 0 where
  pub domain : Str
  pub path : Str
  pub expires : ℕ
  pub http_only : Bool
  pub max_age : ℕ
  pub secure : Bool
  pub signed : Bool
  pub same_site : Option SameSite

-- `CookieOptions::default()`
abbrev pub default_options : CookieOptions
default_options = record {
  domain = [];
  path = codes "/";
  expires = 0;
  http_only = false;
  max_age = 0;
  secure = false;
  signed = false;
  same_site = none;
}

pub record Cookie : Type 0 where
  pub key : Str
  pub value : Str
  pub options : CookieOptions

-- `trait HasCookies`
pub record HasCookies {ℓ} (T : Type ℓ) : Type ℓ where
  pub set_cookies : T → List Cookie → T
  pub get_cookies : T → List Str
  pub get_header : T → Str → List Str

abbrev pub cookie_with : Str → Str → Cookie
cookie_with key value = record { key = key; value = value; options = default_options }

-- The first two pieces around `=`, trimmed; a missing one is empty.
abbrev pub cookie_of : List Str → Cookie
cookie_of [] = cookie_with (trim []) (trim [])
cookie_of (key ∷ []) = cookie_with (trim key) (trim [])
cookie_of (key ∷ value ∷ _) = cookie_with (trim key) (trim value)

unfoldable pub parse_string : Str → List Cookie
parse_string string = map (λ pair. cookie_of (split b'=' pair)) (split b';' string)

-- The loop over the values of the header.
unfoldable pub parse_all : List Str → List Cookie
parse_all [] = []
parse_all (string ∷ strings) = parse_string string ++ parse_all strings

module _ {ℓ} {T : Type ℓ} ⦃h : HasCookies T⦄ where
  unfoldable pub cookies : MiddlewareFnPointer T
  cookies context next =
      next (h.set_cookies context (parse_all (h.get_header context (codes "cookie"))))

-- `key=value`
abbrev pub render_cookie : Str × Str → Str
render_cookie (key, val) = key ++ b'=' ∷ val

-- `key=value; key=value`, as a client sends it.
abbrev pub render_header : List (Str × Str) → Str
render_header pairs = join (b';' ∷ b' ' ∷ []) (map render_cookie pairs)

-- A key and a value that a header can carry.
abbrev pub IsCarried : Str × Str → Type 0
IsCarried (key, val) =
    (Lacks b';' key × Lacks b'=' key × IsTight key)
    × (Lacks b';' val × Lacks b'=' val × IsTight val)

split-space : (s : Str) → split b';' (b' ' ∷ s) ≡ onto_first b' ' (split b';' s)
unfolding split
split-space s = refl

split-header :
    (p : Str) (ps : List Str)
    → All (Lacks b';') (p ∷ ps)
    → split b';' (join (b';' ∷ b' ' ∷ []) (p ∷ ps)) ≡ p ∷ map (λ q. b' ' ∷ q) ps
unfolding join
split-header p [] (h, _) = split_of_Lacks b';' p h
split-header p (q ∷ ps) (h, k) =
    let rest = join (b';' ∷ b' ' ∷ []) (q ∷ ps) in
    split-append b';' p (b' ' ∷ rest) h
    ∙ ap (λ r. p ∷ r) (split-space rest ∙ ap (onto_first b' ') (split-header q ps k))

-- A pair is split into its key and its value.
split-pair :
    (key val : Str)
    → Lacks b'=' key
    → Lacks b'=' val
    → split b'=' (key ++ b'=' ∷ val) ≡ key ∷ val ∷ []
split-pair key val k v = split-append b'=' key val k ∙ ap (λ r. key ∷ r) (split_of_Lacks b'=' val v)

cookie_of-trim :
    (k v key val : Str) → trim k ≡ key → trim v ≡ val → cookie_of (k ∷ v ∷ []) ≡ cookie_with key val
cookie_of-trim k v key val e d = rw (e, d) refl

cookie_of-render :
    (p : Str × Str)
    → IsCarried p
    → cookie_of (split b'=' (render_cookie p)) ≡ cookie_with (p.0) (p.1)
cookie_of-render (key, val) ((_, k, tk), (_, v, tv)) =
    ap cookie_of (split-pair key val k v) ∙ cookie_of-trim key val key val tk tv

space-ne : ◌≢◌ {A = ℕ} b' ' b'='
space-ne e = cc

cookie_of-render_space :
    (p : Str × Str)
    → IsCarried p
    → cookie_of (split b'=' (b' ' ∷ render_cookie p)) ≡ cookie_with (p.0) (p.1)
cookie_of-render_space (key, val) ((_, k, tk), (_, v, tv)) =
    ap cookie_of (split-pair (b' ' ∷ key) val (space-ne, k) v)
    ∙ cookie_of-trim (b' ' ∷ key) val key val (trim-space key ∙ tk) tv

cookies-rest :
    (ps : List (Str × Str))
    → All IsCarried ps
    → map (λ pair. cookie_of (split b'=' pair)) (map (λ q. b' ' ∷ q) (map render_cookie ps))
      ≡ map (λ p. cookie_with (p.0) (p.1)) ps
cookies-rest [] _ = refl
cookies-rest (p ∷ ps) (h, hs) = rw (cookie_of-render_space p h, cookies-rest ps hs) refl

cookies-first :
    (p : Str × Str) (ps : List (Str × Str))
    → IsCarried p
    → All IsCarried ps
    → map
        (λ pair. cookie_of (split b'=' pair))
        (render_cookie p ∷ map (λ q. b' ' ∷ q) (map render_cookie ps))
      ≡ map (λ q. cookie_with (q.0) (q.1)) (p ∷ ps)
cookies-first p ps h hs = rw (cookie_of-render p h, cookies-rest ps hs) refl

equals-ne : ◌≢◌ {A = ℕ} b'=' b';'
equals-ne e = cc

Lacks-cookies : (ps : List (Str × Str)) → All IsCarried ps → All (Lacks b';') (map render_cookie ps)
Lacks-cookies [] _ = tt
Lacks-cookies ((key, val) ∷ ps) (((k, _, _), (v, _, _)), hs) =
    (All-append _ key (b'=' ∷ val) k (equals-ne, v), Lacks-cookies ps hs)

-- A header made of at least one pair, whose texts have neither `;` nor `=` nor white space around
-- them, is parsed to one cookie for each pair, in order, with the default options.
pub parse_string-render :
    (p : Str × Str) (ps : List (Str × Str))
    → All IsCarried (p ∷ ps)
    → parse_string (render_header (p ∷ ps)) ≡ map (λ q. cookie_with (q.0) (q.1)) (p ∷ ps)
unfolding parse_string
parse_string-render p ps (h, hs) =
    ap (map (λ pair. cookie_of (split b'=' pair)))
      (split-header (render_cookie p) (map render_cookie ps) (Lacks-cookies (p ∷ ps) (h, hs)))
    ∙ cookies-first p ps h hs
