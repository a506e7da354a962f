-- ===== src/Context.antt =====
-- thruster/src/core/context.rs and the request trait of thruster/src/core/request.rs: the traits
-- as records of functions.
use fanta.Prelude.{ℕ, List}
use fanta.Text.{Str}

-- `trait Context` with its associated type `Response`. A method on `&mut self` returns the new
-- context; `Vec<u8>` and `Bytes` are lists of bytes.
pub record Context {ℓ κ} (T : Type ℓ) (Response : Type κ) : Type (ℓ ⊔ κ) where
  pub get_response : T → Response
  pub set_body : T → List ℕ → T
  pub set_body_bytes : T → List ℕ → T
  pub route : T → Str
  pub set : T → Str → Str → T
  pub remove : T → Str → T

-- `trait ThrusterRequest`
pub record ThrusterRequest {ℓ} (R : Type ℓ) : Type ℓ where
  pub method : R → Str
  pub path : R → Str
