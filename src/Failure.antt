-- ===== src/Failure.antt =====
-- The values that operations throw, and their normalisation (src/error.ts, and the error codes of
-- src/schema.ts). A thrown value is a package error of this realm, or another JavaScript value
-- with the properties that `toFileSystemError` reads from it. Messages are not modelled. A value
-- used as a cause is a number that stands for its identity.
use text.Mathlib.Text.{◌==◌ as str_eq}
use opfs.Prelude.{
  ℕ, ◌≡◌, refl, ◌⊎◌, inl, inr, Option, none, some, String, Text, Bool, true, false, ◌||◌, List, [],
  ◌∷◌, if◌then◌else◌,
}
pub mod Laws
pub mod Tests

pub data ErrorCode : Type 0 where
  unavailable not_found already_exists type_mismatch invalid_path invalid_operation : ErrorCode
  not_supported locked quota_exceeded permission_denied aborted too_large unknown : ErrorCode

pub record FileSystemError : Type 0 where
  pub code : ErrorCode
  pub operation : String
  pub path : Option Text
  pub cause : Option ℕ

-- A property that is missing, a string, or of another type.
pub data Property (A : Type 0) : Type 0 where
  absent : Property A
  string : A → Property A
  other : Property A

-- Any other thrown value. Of one that is no object no property is read.
pub record ForeignValue : Type 0 where
  pub identity : ℕ
  pub is_object : Bool
  pub name : Property String
  pub code : Property String
  pub operation : Property String
  pub path : Property Text
  pub cause : Option ℕ

pub data Thrown : Type 0 where
  package_error : FileSystemError → Thrown
  foreign : ForeignValue → Thrown

-- What a method returns: a value, or what it threw.
pub data Result {ℓ} (A : Type ℓ) : Type ℓ where
  throw : Thrown → Result A
  ok : A → Result A

module _ {ℓ} {A : Type ℓ} where
  pub ok-injective : {x y : A} → ok x ≡ ok y → x ≡ y
  ok-injective same_result = cc

  pub Result-cases :
      (outcome : Result A)
      → ((value : A) × (outcome ≡ ok value)) ⊎ ((error : Thrown) × (outcome ≡ throw error))
  Result-cases (throw error) = inr (error, refl)
  Result-cases (ok value) = inl (value, refl)

module _ {ℓ κ} {A : Type ℓ} {B : Type κ} where
  infixl 5 ◌>>=◌
  -- A call, and what is done with the value that it returned.
  abbrev pub ◌>>=◌ : Result A → (A → Result B) → Result B
  throw error >>= next = throw error
  ok value >>= next = next value

  -- Both steps of a call that returned.
  pub >>=-eq-ok :
      (first : Result A) (next : A → Result B) {final : B}
      → (first >>= next) ≡ ok final
      → (value : A) × (first ≡ ok value) × (next value ≡ ok final)
  >>=-eq-ok (throw error) next returned = cc
  >>=-eq-ok (ok value) next returned = (value, refl, returned)

infixl 5 ◌>>◌
abbrev pub ◌>>◌ {κ} : {B : Type κ} → Result (Unit {0}) → Result B → Result B
first >> second = first >>= λ done. second

-- `throw new FileSystemError(code, operation, path, message)`.
abbrev pub fail {ℓ} : {A : Type ℓ} → ErrorCode → String → Option Text → Result A
fail c op p = throw (package_error (record { code = c; operation = op; path = p; cause = none }))

-- A `TypeError` or `RangeError` of the language.
abbrev pub language_error : String → Thrown
language_error n = foreign (record {
  identity = 0;
  is_object = true;
  name = string n;
  code = absent;
  operation = absent;
  path = absent;
  cause = none;
})

abbrev pub type_error : Thrown
type_error = language_error "TypeError"

abbrev pub range_error : Thrown
range_error = language_error "RangeError"

-- The values of `ErrorCodeSchema`.
unfoldable pub code_text : ErrorCode → String
code_text unavailable = "unavailable"
code_text not_found = "not-found"
code_text already_exists = "already-exists"
code_text type_mismatch = "type-mismatch"
code_text invalid_path = "invalid-path"
code_text invalid_operation = "invalid-operation"
code_text not_supported = "not-supported"
code_text locked = "locked"
code_text quota_exceeded = "quota-exceeded"
code_text permission_denied = "permission-denied"
code_text aborted = "aborted"
code_text too_large = "too-large"
code_text unknown = "unknown"

all_codes : List ErrorCode
all_codes =
    unavailable ∷ not_found ∷ already_exists ∷ type_mismatch ∷ invalid_path ∷ invalid_operation
    ∷ not_supported ∷ locked ∷ quota_exceeded ∷ permission_denied ∷ aborted ∷ too_large ∷ unknown
    ∷ []

parse_among : List ErrorCode → String → Option ErrorCode
parse_among [] s = none
parse_among (c ∷ cs) s = if str_eq s (code_text c) then some c else parse_among cs s

-- `ErrorCodeSchema.safeParse` on a string.
pub parse_code : String → Option ErrorCode
unfolding parse_among all_codes code_text
parse_code s = parse_among all_codes s

-- `getErrorName`, on a value that is no package error.
pub get_error_name : ForeignValue → String
get_error_name v = if v.is_object then elim v.name [ string n ↦ n | _ ↦ "Error" ] else "Error"

get_runtime_error_code : ForeignValue → Option String
get_runtime_error_code v =
    if v.is_object then elim v.code [ string c ↦ some c | _ ↦ none ] else none

-- `cause === undefined ? error : cause`.
abbrev or_self : Option ℕ → ℕ → Option ℕ
or_self none self = some self
or_self (some c) self = some c

parsed_code : Property String → Option ErrorCode
parsed_code (string c) = parse_code c
parsed_code _ = none

foreign_error :
    ForeignValue → Option ErrorCode → Property String → Property Text → Option FileSystemError
foreign_error v (some c) (string op) absent =
    some (record { code = c; operation = op; path = none; cause = or_self v.cause v.identity })
foreign_error v (some c) (string op) (string p) =
    some (record { code = c; operation = op; path = some p; cause = or_self v.cause v.identity })
foreign_error v _ _ _ = none

from_foreign_file_system_error : ForeignValue → Option FileSystemError
unfolding get_error_name parsed_code foreign_error
from_foreign_file_system_error v =
    if v.is_object
    then (if str_eq (get_error_name v) "FileSystemError"
        then foreign_error v (parsed_code v.code) v.operation v.path
        else none)
    else none

-- The `switch` on `runtimeCode ?? name`.
classify : String → String → ErrorCode
classify key operation =
    if str_eq key "AbortError"
    then aborted
    else if str_eq key "NotFoundError" || str_eq key "ENOENT"
    then not_found
    else if str_eq key "AlreadyExists" || str_eq key "EEXIST"
    then already_exists
    else if str_eq key "TypeMismatchError" || str_eq key "ENOTDIR" || str_eq key "EISDIR"
    then type_mismatch
    else if str_eq key "NoModificationAllowedError" || str_eq key "EBUSY"
    then locked
    else if str_eq key "QuotaExceededError" || str_eq key "ENOSPC"
    then quota_exceeded
    else if str_eq key "NotAllowedError"
        || str_eq key "SecurityError"
        || str_eq key "EACCES"
        || str_eq key "EPERM"
    then permission_denied
    else if str_eq key "NotSupportedError" || str_eq key "ENOTSUP"
    then not_supported
    else if str_eq key "InvalidModificationError" || str_eq key "InvalidStateError"
    then invalid_operation
    else if str_eq key "UnknownError"
    then (if str_eq operation "open" then unavailable else unknown)
    else unknown

switch_key : ForeignValue → String
unfolding get_error_name get_runtime_error_code
switch_key v = elim (get_runtime_error_code v) [ some c ↦ c | none ↦ get_error_name v ]

unfoldable pub to_file_system_error : Thrown → String → Option Text → FileSystemError
unfolding from_foreign_file_system_error classify switch_key
to_file_system_error (package_error e) operation path = e
to_file_system_error (foreign v) operation path = elim (from_foreign_file_system_error v) [
  | some e ↦ e
  | none ↦ record {
    code = classify (switch_key v) operation;
    operation = operation;
    path = path;
    cause = some v.identity;
  }
]

-- `catch (error) { throw toFileSystemError(error, operation, path); }` around a result.
abbrev pub normalized {ℓ} : {A : Type ℓ} → String → Option Text → Result A → Result A
normalized operation path (ok a) = ok a
normalized operation path (throw e) = throw (package_error (to_file_system_error e operation path))

-- An `AbortSignal`: whether it is aborted, and the identity of its reason.
pub record AbortSignal : Type 0 where
  pub is_aborted : Bool
  pub reason : ℕ

unfoldable pub throw_if_aborted : Option AbortSignal → String → Option Text → Result (Unit {0})
throw_if_aborted none operation path = ok tt
throw_if_aborted (some signal) operation path =
    if signal.is_aborted
    then throw (
        package_error (record {
          code = aborted;
          operation = operation;
          path = path;
          cause = some signal.reason;
        }))
    else ok tt
