-- ===== src/Errors/Collect.antt =====
-- The errors that src/runtime/runtime_error.c collects.
use mathlib.Core.Path.{subst}
use gargantua.Common.{
  suc, ◌+◌, ◌≤◌, ◌<◌, Bool, true, false, not, List, [], ◌∷◌, ◌++◌, append-nil, append_assoc, codes,
  str_eq, length, length-append, take, take-length, ltb, leb, ◌==◌, Bool-cases, lt→ltb,
  le→ltb-false, leb→le, le→leb, lt→leb-false, lt_of_leb-false, ◌≡◌, inl, inr, refl, sym, ap, ◌∙◌,
  arith,
}
use gargantua.Sink.RoundTrip.{take-all}
use gargantua.Errors.{
  FieldError, Errors, max_error_fields, kept_error, request_failed, request_fail_reset,
  error_stored, field_error_add,
}
use gargantua.Errors.Calls.{
  Call, fail, fail_code, field_error, call, calls_made, begun, request_fail-failed,
  request_fail_code-failed, field_error_add-new, field_error_add-other, field_error_add-more,
}

-- The validation's failure with the errors so far.
abbrev pub rejected : List FieldError → Bool → Errors
rejected errors cut = record {
  errors = errors;
  truncated = cut;
  code = codes "validation_failed";
  status = 400;
  message = codes "request validation failed";
}

-- An error with each text cut to its array: 8 * 65, 32 and 128 bytes with the NUL.
abbrev pub kept : FieldError → FieldError
kept error = record {
  field = take 519 error.field;
  code = take 31 error.code;
  message = take 127 error.message;
}

abbrev pub reports : List FieldError → List Call
reports [] = []
reports (error ∷ errors) = field_error error.field error.code error.message ∷ reports errors

abbrev pub all_kept : List FieldError → List FieldError
all_kept [] = []
all_kept (error ∷ errors) = kept error ∷ all_kept errors

field_error_add-rejected :
    (errors : List FieldError) (cut : Bool) (error : FieldError)
    → field_error_add (rejected errors cut) error.field error.code error.message
      ≡ error_stored (rejected errors cut) (kept error)
unfolding str_eq
field_error_add-rejected errors cut error =
    field_error_add-more (rejected errors cut) error.field error.code error.message refl refl

error_stored-full :
    (errors : List FieldError) (cut : Bool) (error : FieldError)
    → max_error_fields ≤ length errors
    → error_stored (rejected errors cut) error ≡ rejected errors true
unfolding error_stored
error_stored-full errors cut error full =
    let test : leb max_error_fields (length errors) ≡ true = le→leb _ _ full in rw test refl

error_stored-room :
    (errors : List FieldError) (cut : Bool) (error : FieldError)
    → length errors < max_error_fields
    → error_stored (rejected errors cut) error ≡ rejected (errors ++ (error ∷ [])) cut
unfolding error_stored
error_stored-room errors cut error room =
    let test : leb max_error_fields (length errors) ≡ false = lt→leb-false _ _ room in rw test refl

-- With all places taken, nothing changes but the mark.
reports-full :
    (errors more : List FieldError)
    → max_error_fields ≤ length errors
    → calls_made (rejected errors true) (reports more) ≡ rejected errors true
reports-full errors [] full = refl
reports-full errors (error ∷ more) full =
    ap (λ e. calls_made e (reports more))
      (field_error_add-rejected errors true error ∙ error_stored-full errors true (kept error) full)
    ∙ reports-full errors more full

reports-collected :
    (errors more : List FieldError)
    → length errors ≤ max_error_fields
    → calls_made (rejected errors false) (reports more)
      ≡ rejected
          (take max_error_fields (errors ++ all_kept more))
          (ltb max_error_fields (length errors + length more))
reports-collected errors [] few =
    let none_left : ltb max_error_fields (length errors + 0) ≡ false =
      le→ltb-false _ _ (omega (arith, few)) in
    rw (append-nil errors, none_left, take-all max_error_fields errors few) refl
reports-collected errors (error ∷ more) few =
    elim (Bool-cases (leb max_error_fields (length errors))) [
      | inl full ↦
          let size : max_error_fields ≡ length errors = omega (arith, few, leb→le _ _ full) in
          let cut : ltb max_error_fields (length errors + suc (length more)) ≡ true =
            lt→ltb _ _ (omega (arith, size)) in
          let stored =
            field_error_add-rejected errors false error
            ∙ error_stored-full errors false (kept error) (leb→le _ _ full) in
          let same : take max_error_fields (errors ++ (kept error ∷ all_kept more)) ≡ errors =
            ap (λ n. take n (errors ++ (kept error ∷ all_kept more))) size
            ∙ take-length errors (kept error ∷ all_kept more) in
          rw (cut, same)
            (ap (λ e. calls_made e (reports more)) stored
              ∙ reports-full errors more (leb→le _ _ full))
      | inr room ↦
          let below = lt_of_leb-false _ _ room in
          let stored =
            field_error_add-rejected errors false error
            ∙ error_stored-room errors false (kept error) below in
          let size = length-append errors (kept error ∷ []) in
          let ih =
            reports-collected (errors ++ (kept error ∷ [])) more (omega (arith, size, below)) in
          let count : length (errors ++ (kept error ∷ [])) + length more
              ≡ length errors + suc (length more) =
            omega (arith, size) in
          ap (λ e. calls_made e (reports more)) stored
          ∙ (rw (append_assoc errors (kept error ∷ []) (all_kept more), count) at ih)
    ]

-- A request whose handler reports errors of fields, and nothing else, fails with 400, the code of a failed
-- validation and its message; the errors kept are the first 16, in their order, each text cut to its array, and
-- the mark is set exactly where there were more.
pub calls_made-reports :
    (before : Errors) (error : FieldError) (more : List FieldError)
    → calls_made (request_fail_reset before) (reports (error ∷ more))
      ≡ rejected
          (take max_error_fields (all_kept (error ∷ more)))
          (ltb max_error_fields (length (error ∷ more)))
unfolding begun
calls_made-reports before error more =
    let first =
      field_error_add-new (request_fail_reset before) error.field error.code error.message refl
      ∙ error_stored-room [] false (kept error) (omega arith) in
    let rest = reports-collected (kept error ∷ []) more (omega arith) in
    let count : 1 + length more ≡ suc (length more) = omega arith in
    ap (λ e. calls_made e (reports more)) first ∙ (rw count at rest)

abbrev Same : Errors → Errors → Type 0
Same e e' = (e'.status ≡ e.status) × (e'.code ≡ e.code) × (e'.message ≡ e.message)

error_stored-Same : (e : Errors) (error : FieldError) → Same e (error_stored e error)
unfolding error_stored
error_stored-Same e error = elim (Bool-cases (leb max_error_fields (length e.errors))) [
  | inl full ↦
      let made : error_stored e error ≡ record e { truncated = true } = simp full in
      subst (Same e) (sym made) (refl, refl, refl)
  | inr room ↦
      let made : error_stored e error ≡ record e { errors = e.errors ++ (error ∷ []) } =
        simp room in
      subst (Same e) (sym made) (refl, refl, refl)
]

call-Same : (e : Errors) (c : Call) → request_failed e ≡ true → Same e (call e c)
call-Same e (fail status message) failed =
    subst (Same e) (sym (request_fail-failed e status message failed)) (refl, refl, refl)
call-Same e (fail_code status code message) failed =
    subst (Same e) (sym (request_fail_code-failed e status code message failed)) (refl, refl, refl)
call-Same e (field_error field code message) failed =
    elim (Bool-cases (str_eq e.code (codes "validation_failed"))) [
      | inl same ↦
          subst (Same e) (sym (field_error_add-more e field code message failed same))
            (error_stored-Same e (kept_error field code message))
      | inr other ↦
          subst (Same e) (sym (field_error_add-other e field code message failed other))
            (refl, refl, refl)
    ]

-- The first failure of a request stays: whatever is called after it, until the next reset, its status, its code and
-- its message do not change.
pub calls_made-first :
    (e : Errors) (calls : List Call)
    → request_failed e ≡ true
    → ((calls_made e calls).status ≡ e.status)
      × ((calls_made e calls).code ≡ e.code)
      × ((calls_made e calls).message ≡ e.message)
calls_made-first e [] failed = (refl, refl, refl)
calls_made-first e (c ∷ calls) failed =
    let (status, code, message) = call-Same e c failed in
    let (s, c', m) = calls_made-first (call e c) calls (ap (λ n. not (n == 0)) status ∙ failed) in
    (s ∙ status, c' ∙ code, m ∙ message)
