-- ===== src/Status.antt =====
-- include/kv_index/status.h: error values. A C++ function that returns `Status` returns a
-- `Status` here, and one that returns `StatusOr<T>` a `StatusOr T`; `check` and `>>=` stand for
-- the early returns `if (!status.ok()) return status;`.
mod Code
pub use Code.{StatusCode}
use text.Mathlib.Text.{◌==◌}
use kv_index.Prelude.{
  String, ◌≡◌, refl, ◌⊎◌, inl, inr, Bool, true, false, not, ◌&&◌, Option, none, some, arith,
  if◌then◌else◌, ap, sym, ◌∙◌, Bool-cases,
}

pub record Status : Type 0 where
  pub code : StatusCode
  pub message : String

abbrev pub is_ok_code : StatusCode → Bool
is_ok_code StatusCode.ok = true
is_ok_code _ = false

-- The constructor `Status(code, message)`: an OK status has no message.
abbrev pub make : StatusCode → String → Status
make code message = record {
  code = if is_ok_code code && not (message == "") then StatusCode.unknown else code;
  message = message;
}

abbrev pub ok_status : Status
ok_status = record { code = StatusCode.ok; message = "" }

abbrev pub cancelled : String → Status
cancelled = make StatusCode.cancelled

abbrev pub invalid_argument : String → Status
invalid_argument = make StatusCode.invalid_argument

abbrev pub not_found : String → Status
not_found = make StatusCode.not_found

abbrev pub failed_precondition : String → Status
failed_precondition = make StatusCode.failed_precondition

abbrev pub internal : String → Status
internal = make StatusCode.internal

abbrev pub unavailable : String → Status
unavailable = make StatusCode.unavailable

abbrev pub unknown : String → Status
unknown = make StatusCode.unknown

abbrev pub is_ok : Status → Bool
is_ok s = is_ok_code s.code

-- `std::variant<Status, T>`.
pub data StatusOr {ℓ} (A : Type ℓ) : Type ℓ where
  ok : A → StatusOr A
  error : Status → StatusOr A

-- `NormalizeStatus`, which the constructors from a `Status` call.
abbrev pub normalize_status : Status → Status
normalize_status s =
    if is_ok s then internal "StatusOr constructed from OK status without a value" else s

abbrev pub fail {ℓ} : {A : Type ℓ} → Status → StatusOr A
fail s = error (normalize_status s)

-- `status()`.
abbrev pub status_of {ℓ} : {A : Type ℓ} → StatusOr A → Status
status_of (ok a) = ok_status
status_of (error s) = s

infixl 5 ◌>>=◌ ◌>>◌
abbrev pub ◌>>=◌ {ℓ κ} : {A : Type ℓ} {B : Type κ} → StatusOr A → (A → StatusOr B) → StatusOr B
ok a >>= f = f a
error s >>= f = fail s

-- `if (!status.ok()) return status;` in a function that returns a `StatusOr`.
abbrev pub ◌>>◌ {ℓ} : {A : Type ℓ} → Status → StatusOr A → StatusOr A
s >> k = if is_ok s then k else fail s

-- The same in a function that returns a `Status`.
abbrev pub check : Status → Status → Status
check s k = if is_ok s then k else s

-- A guard with its error.
abbrev pub require : Bool → Status → Status
require b s = if b then ok_status else s

-- No `StatusOr` made from a `Status` reports success: `fail` never yields an OK status, and a
-- status with a message is never OK.
pub normalize_status_lem : (s : Status) → is_ok (normalize_status s) ≡ false
normalize_status_lem s = ground arith

pub make-ok :
    (code : StatusCode) (message : String)
    → is_ok (make code message) ≡ true
    → (message == "") ≡ true
make-ok code message h = ground arith

-- The two outcomes of a call.
pub StatusOr-cases {ℓ} :
    {A : Type ℓ} (r : StatusOr A) → ((a : A) × (r ≡ ok a)) ⊎ ((s : Status) × (r ≡ error s))
StatusOr-cases (ok a) = inl (a, refl)
StatusOr-cases (error s) = inr (s, refl)

-- The first step of a chain, and the rest of it, which takes the value of the first.
module _ {ℓ κ} {A : Type ℓ} {B : Type κ} (first : StatusOr A) (rest : A → StatusOr B) where
  -- A chain that returns a value has passed its first step.
  pub >>=-eq-ok :
      {value : B} → (first >>= rest) ≡ ok value → (a : A) × (first ≡ ok a) × (rest a ≡ ok value)
  >>=-eq-ok {value} h = elim (StatusOr-cases first) [
    | inl (a, passed) ↦ (a, passed, sym (ap (λ t. t >>= rest) passed) ∙ h)
    | inr (s, stopped) ↦
        let failed : fail {A = B} s ≡ ok value = sym (ap (λ t. t >>= rest) stopped) ∙ h in absurd cc
  ]

  -- A chain that fails does so with a status that is not OK, if its last step does.
  pub >>=-eq-error :
      {s : Status}
      → (first >>= rest) ≡ error s
      → ((a : A) → first ≡ ok a → rest a ≡ error s → is_ok s ≡ false)
      → is_ok s ≡ false
  >>=-eq-error {s} h last = elim (StatusOr-cases first) [
    | inl (a, passed) ↦ last a passed (sym (ap (λ t. t >>= rest) passed) ∙ h)
    | inr (t, stopped) ↦
        let failed : fail {A = B} t ≡ error s = sym (ap (λ t. t >>= rest) stopped) ∙ h in
        let same : normalize_status t ≡ s = cc in ap is_ok (sym same) ∙ normalize_status_lem t
  ]

pub >>-eq-ok {ℓ} :
    {A : Type ℓ} (s : Status) (k : StatusOr A) {a : A}
    → (s >> k) ≡ ok a
    → (is_ok s ≡ true) × (k ≡ ok a)
>>-eq-ok s k h = ground arith

pub else-eq-ok {ℓ} :
    {A : Type ℓ} (c : Bool) (s : Status) (k : StatusOr A) {a : A}
    → (if c then error s else k) ≡ ok a
    → (c ≡ false) × (k ≡ ok a)
else-eq-ok c s k h = ground arith

pub >>-eq-error {ℓ} :
    {A : Type ℓ} (t : Status) (k : StatusOr A) {s : Status}
    → (t >> k) ≡ error s
    → (k ≡ error s → is_ok s ≡ false)
    → is_ok s ≡ false
>>-eq-error t k h last = elim (Bool-cases (is_ok t)) [
  | inl passed ↦ last (ground (arith, passed, h))
  | inr stopped ↦ ground (arith, stopped, h)
]
