-- ===== src/Tests/Sample.antt =====
-- Middleware on a number as the context, a few trees and an app over them, as the tests of
-- thruster/src/parser/tree.rs have them.
use fanta.Prelude.{ℕ, ◌+◌, [], ok, err}
use fanta.Text.{Str, codes}
use fanta.Context.{Context, ThrusterRequest}
use fanta.Middleware.{MiddlewareTuple, tuple}
use fanta.Tree.Node.{Node, default}
use fanta.Tree.Insert.{add_value_at_path, add_non_leaf_value_at_path}
use fanta.App
use fanta.App.{App}

-- `Ok(a + n)`
abbrev pub answer_with : ℕ → MiddlewareTuple ℕ
answer_with n = tuple (λ a next. ok (a + n)) []

-- `Ok(b(a).await? + n)`
abbrev pub around_with : ℕ → MiddlewareTuple ℕ
around_with n = tuple (λ a next. elim (next a) [ ok b ↦ ok (b + n) | err e ↦ err e ]) []

abbrev pub tree_b : Node ℕ
tree_b = add_value_at_path default (codes "/a/b") (answer_with 1)

abbrev pub tree : Node ℕ
tree = add_non_leaf_value_at_path tree_b (codes "/") (around_with 2)

-- A request is its method and its path.
abbrev pub Call : Type 0
Call = Str × Str

instance abbrev pub call_request : ThrusterRequest Call
call_request = record { method = λ r. r.0; path = λ r. r.1 }

-- The response is the context itself.
instance abbrev pub number_context : Context ℕ ℕ
number_context = record {
  get_response = λ c. c;
  set_body = λ c body. c;
  set_body_bytes = λ c bytes. c;
  route = λ c. [];
  set = λ c k v. c;
  remove = λ c k. c;
}

abbrev pub empty_app : App Call ℕ ℕ
empty_app = App.create (λ request state path. state) 0
