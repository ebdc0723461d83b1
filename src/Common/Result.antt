-- ===== src/Common/Result.antt =====
-- openwork-core's errors, and Rust's `Result` over them. `message` is the text that the call of
-- `OpenWorkError::new` names; no remediation is ever attached in the modelled code.
use Prim.Native.String.{String}
use mathlib.Core.Path.{◌≡◌, refl}
use mathlib.Core.Bool.{Bool, true, false}
use mathlib.Core.Option.{Option, none, some}

pub data ErrorCode : Type 0 where
  invalid_arguments unsupported_platform preflight_failed runtime_not_found : ErrorCode
  runtime_unhealthy install_failed config_invalid invalid_state_transition policy_denied : ErrorCode
  approval_required approval_invalid sandbox_unavailable execution_failed run_timed_out : ErrorCode
  run_cancelled artifact_invalid io internal : ErrorCode

pub record OpenWorkError : Type 0 where
  pub code : ErrorCode
  pub message : String

pub data Result {ℓ} (A : Type ℓ) : Type ℓ where
  ok : A → Result A
  err : OpenWorkError → Result A

infixl 10 ◌>>=◌ ◌>>◌
abbrev pub ◌>>=◌ {ℓ κ} : {A : Type ℓ} {B : Type κ} → Result A → (A → Result B) → Result B
ok a >>= f = f a
err e >>= f = err e

abbrev pub ◌>>◌ {κ} : {B : Type κ} → Result (Unit {0}) → Result B → Result B
m >> k = m >>= λ _. k

-- `if cond { return Err(e) }`
abbrev pub fail_if : Bool → OpenWorkError → Result (Unit {0})
fail_if true e = err e
fail_if false e = ok tt

abbrev pub is_ok {ℓ} : {A : Type ℓ} → Result A → Bool
is_ok (ok a) = true
is_ok (err e) = false

-- `Option::ok_or_else`
abbrev pub ok_or_else {ℓ} : {A : Type ℓ} → Option A → OpenWorkError → Result A
ok_or_else none e = err e
ok_or_else (some a) e = ok a

abbrev pub invalid_contract : String → OpenWorkError
invalid_contract m = record { code = invalid_arguments; message = m }

abbrev pub state_error : String → OpenWorkError
state_error m = record { code = invalid_state_transition; message = m }

abbrev pub approval_error : String → OpenWorkError
approval_error m = record { code = approval_invalid; message = m }

abbrev pub artifact_error : String → OpenWorkError
artifact_error m = record { code = artifact_invalid; message = m }

abbrev pub internal_error : String → OpenWorkError
internal_error m = record { code = internal; message = m }

pub ok-injective {ℓ} : {A : Type ℓ} (a b : A) → ok a ≡ ok b → a ≡ b
ok-injective a b h = cc

-- A chain that succeeds has succeeded in its first link, and from the value of that in the rest.
pub >>=-eq-ok {ℓ κ} :
    {A : Type ℓ} {B : Type κ} (first : Result A) (rest : A → Result B) {b : B}
    → (first >>= rest) ≡ ok b
    → (value : A) × (first ≡ ok value) × (rest value ≡ ok b)
>>=-eq-ok (err e) rest done = cc
>>=-eq-ok (ok value) rest done = (value, refl, done)

pub fail_if-eq-ok : (b : Bool) (e : OpenWorkError) {u : Unit {0}} → fail_if b e ≡ ok u → b ≡ false
fail_if-eq-ok true e h = cc
fail_if-eq-ok false e h = refl
