-- ===== src/Tests/Macros.antt =====
-- What the macros write.
use fanta.Prelude.{ℕ, ◌+◌, length, List, ◌≡◌, refl, [], ◌∷◌, some, none, arith}
use fanta.Text.{Str, codes, str_eq}
use fanta.Text.Split.{ne_of_str_eq}
use fanta.Middleware.{combine, middleware}
use fanta.Middleware.Generated.{
  generated_combine, vec_collection, variant_size, output_variant, nth,
}
use fanta.Middleware.Expansion.{parameters, variant_of, combined, generated_combine-combine}
use fanta.Middleware.Impls.{Impl, expand_combine, generated_middleware}
use fanta.Middleware.Impls.Resolve.{parameters_down, generated_middleware-middleware}
use fanta.Middleware.Attribute.{captured, ItemFn, Item, function, other, Written, file, called}
use fanta.Middleware.Attribute.Keeps.{IsFirst, here, there, called-file}
use fanta.Tests.Sample.{answer_with, around_with}

-- The sixteen letters, and the variants that hold one and three functions.
three_letters :
    vec_collection [] (codes "A" ∷ codes "B" ∷ [])
    ≡ (codes "A" ∷ []) ∷ (codes "A" ∷ codes "B" ∷ []) ∷ []
unfolding vec_collection
three_letters = refl

makes_c : output_variant 16 0 1 ≡ some (codes "C")
unfolding output_variant nth
makes_c = refl

panics : output_variant 16 8 7 ≡ none
unfolding output_variant nth
panics = refl

generated_combine-combine_example :
    (generated_combine parameters (variant_of (around_with 2)) (variant_of (answer_with 1))
      ≡ combined (combine (around_with 2) (answer_with 1)))
    × (variant_size (variant_of (around_with 2)).name (vec_collection [] parameters) ≡ some 1)
generated_combine-combine_example =
    generated_combine-combine (around_with 2) (answer_with 1) (omega arith) (omega arith)

generated_middleware-middleware_example :
    (impls : List Impl) × ((expand_combine parameters_down ≡ some impls)
      × (generated_middleware impls (around_with 2) ≡ some (middleware (around_with 2))))
generated_middleware-middleware_example =
    generated_middleware-middleware (around_with 2) (omega arith)

-- A function over a number that has the attribute.
abbrev noted : Str → ItemFn ℕ
noted name = record {
  ident = name;
  vis = codes "pub";
  generics = [];
  inputs = captured (codes "Ctx") ∷ captured (codes "MiddlewareNext<Ctx>") ∷ [];
  body = λ a next. next (a + length name);
}

abbrev items : List (Str × Item ℕ)
items =
    (codes "_internal", function (noted (codes "cors")))
    ∷ ([], other)
    ∷ ([], function (noted (codes "json")))
    ∷ []

json-IsFirst : IsFirst (noted (codes "json")) items
unfolding str_eq
json-IsFirst = there _ _ (ne_of_str_eq _ _ refl, ne_of_str_eq _ _ refl) (there _ _ tt (here [] []))

called-file_example :
    (ws : List (Written ℕ)) × ((file items ≡ some ws)
      × (called ws ws (codes "json") ≡ some (noted (codes "json")).body))
called-file_example =
    called-file (noted (codes "json")) items ((codes "Ctx", refl), (tt, ((codes "Ctx", refl), tt)))
      json-IsFirst
