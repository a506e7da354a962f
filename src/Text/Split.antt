-- ===== src/Text/Split.antt =====
-- Equality of texts is decided, and what `split` yields.
use fanta.Prelude.{
  ℕ, ◌≡◌, refl, ap, ◌∙◌, ◌≢◌, ◌↔◌, Bool, true, false, not, ◌&&◌, ◌==◌, List, [], ◌∷◌, ◌++◌, arith,
  All,
}
use fanta.Text.{Str, str_eq, onto_first, split, join}

pub str_eq_sound : (s t : Str) → str_eq s t ≡ true → s ≡ t
unfolding str_eq
str_eq_sound [] [] h = refl
str_eq_sound (a ∷ s) (b ∷ t) h = ground (arith, str_eq_sound s t)
str_eq_sound [] (b ∷ t) h = cc
str_eq_sound (a ∷ s) [] h = cc

pub str_eq_refl : (s : Str) → str_eq s s ≡ true
unfolding str_eq
str_eq_refl [] = refl
str_eq_refl (a ∷ s) = ground (arith, str_eq_refl s)

pub str_eq_iff : (s t : Str) → (str_eq s t ≡ true) ↔ (s ≡ t)
str_eq_iff s t = (str_eq_sound s t, λ e. rw e (str_eq_refl t))

pub ne_of_str_eq : (s t : Str) → str_eq s t ≡ false → s ≢ t
ne_of_str_eq s t h e = cc (h, (str_eq_iff s t).1 e)

-- `c` does not occur.
abbrev pub Lacks : ℕ → Str → Type 0
Lacks c s = All (λ x. x ≢ c) s

abbrev pub lacks : ℕ → Str → Bool
lacks c [] = true
lacks c (x ∷ s) = not (x == c) && lacks c s

-- To decide it at a concrete text.
pub Lacks_of_lacks : (c : ℕ) (s : Str) → lacks c s ≡ true → Lacks c s
Lacks_of_lacks c [] h = tt
Lacks_of_lacks c (x ∷ s) h = ground (arith, Lacks_of_lacks c s)

pub split-ne-nil : (sep : ℕ) (s : Str) → split sep s ≢ []
unfolding split
split-ne-nil sep [] h = cc
split-ne-nil sep (c ∷ s) h = ground (arith, split-ne-nil sep s)

pub split-Lacks : (sep : ℕ) (s : Str) → All (Lacks sep) (split sep s)
unfolding split
split-Lacks sep [] = (tt, tt)
split-Lacks sep (c ∷ s) = ground (arith, split-Lacks sep s)

onto_first-join :
    (sep : ℕ) (c : ℕ) (l : List Str)
    → l ≢ []
    → join (sep ∷ []) (onto_first c l) ≡ c ∷ join (sep ∷ []) l
unfolding join
onto_first-join sep c [] h = absurd (h refl)
onto_first-join sep c (p ∷ []) h = refl
onto_first-join sep c (p ∷ q ∷ l) h = refl

nil-join : (sep : ℕ) (l : List Str) → l ≢ [] → join (sep ∷ []) ([] ∷ l) ≡ sep ∷ join (sep ∷ []) l
unfolding join
nil-join sep [] h = absurd (h refl)
nil-join sep (p ∷ l) h = refl

-- Joining the pieces gives the text back.
pub join-split : (sep : ℕ) (s : Str) → join (sep ∷ []) (split sep s) ≡ s
unfolding split
join-split sep [] = unfold join in refl
join-split sep (c ∷ s) = ground (
  arith,
  join-split sep s,
  nil-join sep (split sep s) (split-ne-nil sep s),
  onto_first-join sep c (split sep s) (split-ne-nil sep s),
)

pub split_of_Lacks : (sep : ℕ) (p : Str) → Lacks sep p → split sep p ≡ p ∷ []
unfolding split
split_of_Lacks sep [] h = refl
split_of_Lacks sep (c ∷ p) (n, h) = ground (arith, split_of_Lacks sep p h)

-- A piece without the separator, then the separator, then the rest.
pub split-append : (sep : ℕ) (p t : Str) → Lacks sep p → split sep (p ++ sep ∷ t) ≡ p ∷ split sep t
unfolding split
split-append sep [] t h = ground arith
split-append sep (c ∷ p) t (n, h) = ground (arith, split-append sep p t h)

-- Splitting what was joined from pieces without the separator gives the pieces back.
pub split-join :
    (sep : ℕ) (p : Str) (l : List Str)
    → All (Lacks sep) (p ∷ l)
    → split sep (join (sep ∷ []) (p ∷ l)) ≡ p ∷ l
unfolding join
split-join sep p [] (h, _) = split_of_Lacks sep p h
split-join sep p (q ∷ l) (h, k) =
    split-append sep p (join (sep ∷ []) (q ∷ l)) h ∙ ap (λ r. p ∷ r) (split-join sep q l k)
