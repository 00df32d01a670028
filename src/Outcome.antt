-- ===== src/Outcome.antt =====
-- The error type of agentcreds-core/src/error.rs and the `Result` of agentcreds-core/src/lib.rs.
-- A reason is kept without the values that `format!` interpolates into it.
use agentcreds.Prelude.{
  ℕ, String, ◌≡◌, ◌⊎◌, inl, inr, refl, Bool, true, false, Option, none, some, List,
}
use agentcreds.Prelude.Int.{ℤ}

pub data AgentCredsError : Type 0 where
  unsupported_did_method : List ℕ → AgentCredsError
  resolver_required : List ℕ → AgentCredsError
  invalid_did_signature : String → AgentCredsError
  did_resolution_failed : List ℕ → String → AgentCredsError
  invalid_key_material : String → AgentCredsError
  invalid_vc_proof : String → AgentCredsError
  credential_expired : ℕ → AgentCredsError
  credential_revoked : List ℕ → AgentCredsError
  issuer_mismatch : List ℕ → List ℕ → AgentCredsError
  malformed_claims : String → AgentCredsError
  scope_widening_attempt : List ℕ → AgentCredsError
  delegation_depth_exceeded : ℕ → ℕ → AgentCredsError
  token_expired : ℕ → AgentCredsError
  invalid_biscuit_signature : String → AgentCredsError
  action_denied : List ℕ → String → AgentCredsError
  root_key_mismatch : AgentCredsError
  proof_of_possession_failed : String → AgentCredsError
  svid_validation_failed : String → AgentCredsError
  oidc_validation_failed : String → AgentCredsError
  principal_mismatch : List ℕ → List ℕ → AgentCredsError
  acting_for_mismatch : List ℕ → Option (List ℕ) → AgentCredsError
  consent_violation : List ℕ → AgentCredsError
  revocation_index_out_of_bounds : ℕ → ℕ → AgentCredsError
  invalid_revocation_list_signature : AgentCredsError
  revocation_list_stale : ℕ → ℕ → ℤ → AgentCredsError
  json : AgentCredsError
  cbor : String → AgentCredsError
  base64 : AgentCredsError
  crypto_error : String → AgentCredsError
  entropy_error : AgentCredsError
  missing_field : String → AgentCredsError
  out_of_bounds : String → AgentCredsError

-- The crate's `Result<T>`.
pub data Result {ℓ} (T : Type ℓ) : Type ℓ where
  err : AgentCredsError → Result T
  ok : T → Result T

infixl 5 ◌>>=◌ ◌>>◌
-- The operator `?`: an error ends the function with it.
abbrev pub ◌>>=◌ {ℓ₁ ℓ₂} : {T : Type ℓ₁} {U : Type ℓ₂} → Result T → (T → Result U) → Result U
err reason >>= rest = err reason
ok value >>= rest = rest value

-- `if !test { return Err(e) }`.
abbrev pub guard : Bool → AgentCredsError → Result (Unit {0})
guard false reason = err reason
guard true reason = ok tt

abbrev pub ◌>>◌ {ℓ₂} : {U : Type ℓ₂} → Result (Unit {0}) → Result U → Result U
checked >> rest = checked >>= λ _. rest

-- `Option::ok_or`.
abbrev pub ok_or {ℓ} : {A : Type ℓ} → Option A → AgentCredsError → Result A
ok_or none e = err e
ok_or (some a) e = ok a

-- `Result::map_err` with a constant error.
abbrev pub map_err {ℓ} : {A : Type ℓ} → Result A → AgentCredsError → Result A
map_err (ok a) e = ok a
map_err (err _) e = err e

-- `Result::is_ok`.
abbrev pub is_ok {ℓ} : {A : Type ℓ} → Result A → Bool
is_ok (ok a) = true
is_ok (err e) = false

-- A sequence that succeeds: both of its parts do. Then the same for the ways to fail.
pub >>=-eq-ok {ℓ₁ ℓ₂} :
    {T : Type ℓ₁} {U : Type ℓ₂} (first : Result T) (rest : T → Result U) {final : U}
    → (first >>= rest) ≡ ok final
    → (value : T) × (first ≡ ok value) × (rest value ≡ ok final)
>>=-eq-ok (err reason) rest h = cc
>>=-eq-ok (ok value) rest h = (value, refl, h)

pub guard-eq-ok {ℓ} :
    {B : Type ℓ} (t : Bool) (e : AgentCredsError) (k : Result B) {b : B}
    → (guard t e >> k) ≡ ok b
    → (t ≡ true) × (k ≡ ok b)
guard-eq-ok true e k h = (refl, h)
guard-eq-ok false e k h = cc

pub ok_or-eq-ok {ℓ} :
    {A : Type ℓ} (o : Option A) (e : AgentCredsError) {a : A} → ok_or o e ≡ ok a → o ≡ some a
ok_or-eq-ok none e h = cc
ok_or-eq-ok (some a) e h = cc

pub map_err-eq-ok {ℓ} :
    {A : Type ℓ} (m : Result A) (e : AgentCredsError) {a : A} → map_err m e ≡ ok a → m ≡ ok a
map_err-eq-ok (err reason) e h = cc
map_err-eq-ok (ok a) e h = h

pub is_ok-eq-true : (m : Result (Unit {0})) → is_ok m ≡ true → m ≡ ok tt
is_ok-eq-true (err reason) h = cc
is_ok-eq-true (ok tt) h = refl

-- A result is an error or a value.
pub Result-cases {ℓ} :
    {T : Type ℓ} (r : Result T)
    → ((e : AgentCredsError) × (r ≡ err e)) ⊎ ((value : T) × (r ≡ ok value))
Result-cases (err e) = inl (e, refl)
Result-cases (ok value) = inr (value, refl)
