-- ===== src/Errors/Valid.antt =====
-- The invariant of the failure's variables in src/runtime/runtime_error.c.
use mathlib.Core.Path.{subst}
use gargantua.Common.{
  ℕ, zero, suc, ◌-◌, ◌≤◌, ◌<◌, true, false, Option, none, some, List, [], ◌∷◌, ◌++◌, Bytes, codes,
  str_eq, str_eq_iff, All, length, length-append, take, leb, Bool-cases, leb→le, lt_of_leb-false,
  ◌≡◌, ◌≢◌, inl, inr, refl, sym, ap, arith,
}
use gargantua.Errors.{
  FieldError, Errors, max_error_fields, max_fail_message, field_size, code_size, message_size,
  fixed, kept_message, kept_error, request_fail_reset, error_stored, field_error_add,
}
use gargantua.Errors.Calls.{
  Call, fail, fail_code, field_error, call, calls_made, begun, is_failed, request_fail-new,
  request_fail-failed, request_fail_code-new, request_fail_code-failed, field_error_add-new,
  field_error_add-other, field_error_add-more,
}

-- The statuses that the functions assert.
abbrev pub IsProper : Call → Type 0
IsProper (fail status message) = 100 ≤ status
IsProper (fail_code status code message) = 100 ≤ status
IsProper (field_error field code message) = Unit

-- What fits the arrays.
abbrev pub Fits : FieldError → Type 0
Fits error =
    (length error.field < field_size)
    × (length error.code < code_size)
    × (length error.message < message_size)

pub record IsValid (e : Errors) : Type 0 where
  pub few : length e.errors ≤ max_error_fields
  pub full : e.truncated ≡ true → length e.errors ≡ max_error_fields
  pub fit : All Fits e.errors
  pub short : (length e.message < max_fail_message) × (length e.code < code_size)
  pub quiet :
      e.status ≡ 0 → (e.errors ≡ []) × (e.truncated ≡ false) × (e.code ≡ []) × (e.message ≡ [])
  pub listed : 0 < length e.errors → (e.status ≢ 0) × (e.code ≡ codes "validation_failed")

length-fixed : (size : ℕ) (text : Bytes) → 0 < size → length (fixed size text) < size
length-fixed size text h = omega (arith, length-take (size - 1) text, h)
  where
    length-take : (n : ℕ) (xs : Bytes) → length (take n xs) ≤ n
    length-take zero xs = omega arith
    length-take (suc n) [] = omega arith
    length-take (suc n) (x ∷ xs) = omega (arith, length-take n xs)

length-kept_message : (message : Option Bytes) → length (kept_message message) < max_fail_message
length-kept_message none = omega arith
length-kept_message (some m) = length-fixed max_fail_message m (omega arith)

pub All-snoc {ℓ κ} :
    {A : Type ℓ} (P : A → Type κ) (xs : List A) (x : A) → All P xs → P x → All P (xs ++ (x ∷ []))
All-snoc P [] x all here = (here, tt)
All-snoc P (y ∷ xs) x (first, all) here = (first, All-snoc P xs x all here)

begun-IsValid :
    (e : Errors) (status : ℕ) (code message : Bytes)
    → IsValid e
    → e.status ≡ 0
    → 100 ≤ status
    → length code < code_size
    → length message < max_fail_message
    → IsValid (begun e status code message)
unfolding begun
begun-IsValid e status code message valid new proper short_code short_message = record {
  few = valid.few;
  full = valid.full;
  fit = valid.fit;
  short = (short_message, short_code);
  quiet = λ z. absurd (omega (arith, z, proper));
  listed = λ some_error. absurd (omega (arith, some_error, ap length (valid.quiet new).0));
}

error_stored-IsValid :
    (e : Errors) (error : FieldError)
    → IsValid e
    → e.status ≢ 0
    → e.code ≡ codes "validation_failed"
    → Fits error
    → IsValid (error_stored e error)
unfolding error_stored
error_stored-IsValid e error valid failed code fit =
    elim (Bool-cases (leb max_error_fields (length e.errors))) [
      | inl full ↦
          let made : error_stored e error ≡ record e { truncated = true } = simp full in
          subst IsValid (sym made) (record {
            few = valid.few;
            full = λ z. omega (arith, valid.few, leb→le _ _ full);
            fit = valid.fit;
            short = valid.short;
            quiet = λ z. absurd (failed z);
            listed = valid.listed;
          })
      | inr room ↦
          let size = length-append e.errors (error ∷ []) in
          let below = lt_of_leb-false _ _ room in
          let made : error_stored e error ≡ record e { errors = e.errors ++ (error ∷ []) } =
            simp room in
          subst IsValid (sym made) (record {
            few = omega (arith, size, below);
            full = λ z. absurd (omega (arith, valid.full z, below));
            fit = All-snoc Fits e.errors error valid.fit fit;
            short = valid.short;
            quiet = λ z. absurd (failed z);
            listed = λ some_error. (failed, code);
          })
    ]

kept_error-Fits : (field code message : Bytes) → Fits (kept_error field code message)
kept_error-Fits field code message = (
  length-fixed field_size field (omega arith),
  length-fixed code_size code (omega arith),
  length-fixed message_size message (omega arith),
)

field_error_add-IsValid :
    (e : Errors) (field code message : Bytes)
    → IsValid e
    → IsValid (field_error_add e field code message)
unfolding begun
field_error_add-IsValid e field code message valid = elim (is_failed e) [
  | inl new ↦ subst IsValid (sym (field_error_add-new e field code message new)) (
      error_stored-IsValid
        (begun e 400 (codes "validation_failed") (codes "request validation failed"))
        (kept_error field code message)
        (begun-IsValid e 400 (codes "validation_failed") (codes "request validation failed") valid
          new (omega arith) (omega arith) (omega arith))
        (λ z. omega (arith, z)) refl (kept_error-Fits field code message))
  | inr (failed, test) ↦ elim (Bool-cases (str_eq e.code (codes "validation_failed"))) [
    | inl same ↦ subst IsValid (sym (field_error_add-more e field code message test same)) (
        error_stored-IsValid e (kept_error field code message) valid failed
          ((str_eq_iff e.code (codes "validation_failed")).0 same)
          (kept_error-Fits field code message))
    | inr other ↦ subst IsValid (sym (field_error_add-other e field code message test other)) valid
  ]
]

call-IsValid : (e : Errors) (c : Call) → IsProper c → IsValid e → IsValid (call e c)
unfolding begun
call-IsValid e (fail status message) proper valid = elim (is_failed e) [
  | inl new ↦ subst IsValid (sym (request_fail-new e status message new)) (
      begun-IsValid e status e.code (kept_message message) valid new proper valid.short.1
        (length-kept_message message))
  | inr (failed, test) ↦ subst IsValid (sym (request_fail-failed e status message test)) valid
]
call-IsValid e (fail_code status code message) proper valid = elim (is_failed e) [
  | inl new ↦ subst IsValid (sym (request_fail_code-new e status code message new)) (
      begun-IsValid e status (fixed code_size code) (kept_message message) valid new proper
        (length-fixed code_size code (omega arith)) (length-kept_message message))
  | inr (failed, test) ↦
      subst IsValid (sym (request_fail_code-failed e status code message test)) valid
]
call-IsValid e (field_error field code message) proper valid =
    field_error_add-IsValid e field code message valid

-- Whatever a request's handler calls after a reset, with statuses of at least 100: at most 16 errors of fields are
-- kept, 16 where some were left out; every text fits its array with its NUL; without a failure nothing is left
-- from before; and errors of fields stand only in a failure with the code of a failed validation.
pub calls_made-IsValid :
    (before : Errors) (calls : List Call)
    → All IsProper calls
    → IsValid (calls_made (request_fail_reset before) calls)
calls_made-IsValid before calls proper =
    all_calls (request_fail_reset before) calls proper (record {
      few = omega arith;
      full = λ z. absurd (ground (arith, z));
      fit = tt;
      short = (omega arith, omega arith);
      quiet = λ z. (refl, refl, refl, refl);
      listed = λ some_error. absurd (omega (arith, some_error));
    })
  where
    all_calls :
        (e : Errors) (calls : List Call)
        → All IsProper calls
        → IsValid e
        → IsValid (calls_made e calls)
    all_calls e [] proper valid = valid
    all_calls e (c ∷ calls) (first, proper) valid =
        all_calls (call e c) calls proper (call-IsValid e c first valid)
