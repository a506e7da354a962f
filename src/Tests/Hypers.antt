-- ===== src/Tests/Hypers.antt =====
-- The parameters of the hyper contexts, on lists.
use fanta.Prelude.{◌≡◌, refl, some, List, [], ◌∷◌, ◌++◌, if◌then◌else◌, arith, ◌≢◌, ap, ok}
use mathlib.Core.Option.{some-injective}
use fanta.Text.{Str, str_eq}
use fanta.Text.Split.{str_eq_refl, str_eq_iff}
use fanta.Http.Request.{to_lowercase}
use fanta.Hyper.{HeaderMap, Hyper}
use fanta.Hyper.Body.{Stream}

abbrev pub Headers : Type 0
Headers = List (Str × Str)

abbrev pub values : Str → Headers → List Str
values k [] = []
values k ((j, v) ∷ h) = if str_eq j k then v ∷ values k h else values k h

abbrev pub without : Str → Headers → Headers
without k [] = []
without k ((j, v) ∷ h) = if str_eq j k then without k h else (j, v) ∷ without k h

pub values-snoc : (h : Headers) (k v : Str) → values k (h ++ (k, v) ∷ []) ≡ values k h ++ v ∷ []
values-snoc [] k v = rw (str_eq_refl k) refl
values-snoc ((j, w) ∷ h) k v = ground (arith, values-snoc h k v)

values-without : (h : Headers) (k j : Str) → j ≢ k → values j (without k h) ≡ values j h
values-without [] k j n = refl
values-without ((i, w) ∷ h) k j n =
    ground (arith, str_eq_iff i k, str_eq_iff i j, values-without h k j n, n)

pub values-insert :
    (h : Headers) (k v j : Str) → j ≢ k → values j ((k, v) ∷ without k h) ≡ values j h
values-insert h k v j n = ground (arith, str_eq_iff k j, values-without h k j n, n)

instance abbrev pub list_headers : HeaderMap Headers
list_headers = record {
  no_headers = [];
  append = λ h k v. some (h ++ (k, v) ∷ []);
  insert = λ h k v. some ((k, v) ∷ without k h);
  remove = λ h k. without k h;
  get_all = λ h k. values k h;
  get_all-no_headers = λ k. refl;
  get_all-append = λ h h' k v e. rw (← some-injective _ _ e) (values-snoc h k v);
  get_all-insert_ne = λ h h' k v j e n.
      rw (← some-injective _ _ e) (values-insert h k v j (λ d. n (ap to_lowercase d)));
}

-- Bodies are bytes, and a raw request is its path and its body.
instance abbrev pub list_hyper : Hyper Str Str Str Headers
list_hyper = record {
  empty = [];
  from_bytes = λ b. b;
  into_parts = λ r. (r, r);
  path_and_query = λ r. some r;
  uri_path = λ r. r;
  request_headers = λ r. [];
  with_headers = λ r h. r;
}

-- A body is one chunk, or none where it is empty.
instance abbrev pub list_stream : Stream Str Str Str Str Headers list_hyper
list_stream = record {
  chunks = λ b. elim b [ [] ↦ [] | c ∷ cs ↦ ok (c ∷ cs) ∷ [] ];
  chunks-empty = refl;
}
