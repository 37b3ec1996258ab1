-- ===== src/Errors/Calls.antt =====
-- The calls of src/runtime/runtime_error.c that record a failure, before and after the first one.
use gargantua.Common.{
  ℕ, true, false, Option, some, List, [], ◌∷◌, Bytes, codes, str_eq, ◌==◌, ==_iff, Bool-cases, ◌≡◌,
  ◌≢◌, ◌⊎◌, inl, inr, ap, ◌∙◌, arith,
}
use gargantua.Errors.{
  Errors, code_size, fixed, kept_message, kept_error, request_fail, request_failed,
  request_fail_code, error_stored, field_error_add,
}

-- The calls that a handler makes.
pub data Call : Type 0 where
  fail : (status : ℕ) → (message : Option Bytes) → Call
  fail_code : (status : ℕ) → (code : Bytes) → (message : Option Bytes) → Call
  field_error : (field code message : Bytes) → Call

abbrev pub call : Errors → Call → Errors
call e (fail status message) = request_fail e status message
call e (fail_code status code message) = request_fail_code e status code message
call e (field_error field code message) = field_error_add e field code message

abbrev pub calls_made : Errors → List Call → Errors
calls_made e [] = e
calls_made e (c ∷ calls) = calls_made (call e c) calls

-- The request's first failure.
unfoldable pub begun : Errors → ℕ → Bytes → Bytes → Errors
begun e status code message = record e { code = code; status = status; message = message }

pub is_failed : (e : Errors) → (e.status ≡ 0) ⊎ ((e.status ≢ 0) × (request_failed e ≡ true))
is_failed e = elim (Bool-cases (e.status == 0)) [
  | inl new ↦ inl ((==_iff e.status 0).0 new)
  | inr failed ↦ inr (λ z. ground (arith, failed, z), ground (arith, failed))
]

pub request_fail-new :
    (e : Errors) (status : ℕ) (message : Option Bytes)
    → e.status ≡ 0
    → request_fail e status message ≡ record e { status = status; message = kept_message message }
unfolding request_fail
request_fail-new e status message new =
    let test : (e.status == 0) ≡ true = ground (arith, new) in simp test

pub request_fail-failed :
    (e : Errors) (status : ℕ) (message : Option Bytes)
    → request_failed e ≡ true
    → request_fail e status message ≡ e
unfolding request_fail
request_fail-failed e status message failed = simp failed

pub request_fail_code-new :
    (e : Errors) (status : ℕ) (code : Bytes) (message : Option Bytes)
    → e.status ≡ 0
    → request_fail_code e status code message
      ≡ begun e status (fixed code_size code) (kept_message message)
unfolding request_fail_code begun
request_fail_code-new e status code message new =
    let test : (e.status == 0) ≡ true = ground (arith, new) in
    let set = request_fail-new e status message new in
    let made : request_fail_code e status code message
        ≡ record (request_fail e status message) { code = fixed code_size code } =
      simp test in
    let with_code : Errors → Errors = λ e'. record e' { code = fixed code_size code } in
    made ∙ ap with_code set

pub request_fail_code-failed :
    (e : Errors) (status : ℕ) (code : Bytes) (message : Option Bytes)
    → request_failed e ≡ true
    → request_fail_code e status code message ≡ e
unfolding request_fail_code
request_fail_code-failed e status code message failed = simp failed

-- The three cases of a field's error.
pub field_error_add-new :
    (e : Errors) (field code message : Bytes)
    → e.status ≡ 0
    → field_error_add e field code message
      ≡ error_stored
          (begun e 400 (codes "validation_failed") (codes "request validation failed"))
          (kept_error field code message)
unfolding field_error_add
field_error_add-new e field code message new =
    let test : (e.status == 0) ≡ true = ground (arith, new) in
    let set =
      request_fail_code-new e 400 (codes "validation_failed")
        (some (codes "request validation failed")) new in
    let made : field_error_add e field code message
        ≡ error_stored
            (request_fail_code e 400 (codes "validation_failed")
              (some (codes "request validation failed")))
            (kept_error field code message) =
      simp test in
    made ∙ ap (λ e'. error_stored e' (kept_error field code message)) set

pub field_error_add-other :
    (e : Errors) (field code message : Bytes)
    → request_failed e ≡ true
    → str_eq e.code (codes "validation_failed") ≡ false
    → field_error_add e field code message ≡ e
unfolding field_error_add
field_error_add-other e field code message failed other = simp (failed, other)

pub field_error_add-more :
    (e : Errors) (field code message : Bytes)
    → request_failed e ≡ true
    → str_eq e.code (codes "validation_failed") ≡ true
    → field_error_add e field code message ≡ error_stored e (kept_error field code message)
unfolding field_error_add
field_error_add-more e field code message failed same =
    let set =
      request_fail_code-failed e 400 (codes "validation_failed")
        (some (codes "request validation failed")) failed in
    let made : field_error_add e field code message
        ≡ error_stored
            (request_fail_code e 400 (codes "validation_failed")
              (some (codes "request validation failed")))
            (kept_error field code message) =
      simp (failed, same) in
    made ∙ ap (λ e'. error_stored e' (kept_error field code message)) set
