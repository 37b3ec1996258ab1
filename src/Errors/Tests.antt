-- ===== src/Errors/Tests.antt =====
-- Failures and their documents.
use gargantua.Common.{
  ◌≡◌, refl, some, none, false, [], ◌∷◌, codes, length, ltb, if◌then◌else◌, take, arith,
}
use gargantua.Sink.{
  sink_init, sink_add_escaped, escaped_loop, flush, sink_escape, sink_add_bytes, sink_put, is_plain,
}
use gargantua.Errors.{
  FieldError, Errors, max_error_fields, request_fail_reset, error_json_write, document_written,
  decimal, sink_quoted, fields_loop, add_field, code_shown, message_shown, errors_shown, last_text,
  error_code_for_status,
}
use gargantua.Errors.Calls.{fail, field_error, calls_made}
use gargantua.Errors.Document.{error_document, error_json_write-error_document}
use gargantua.Errors.Valid.{IsValid, calls_made-IsValid}
use gargantua.Errors.Collect.{rejected, all_kept, reports, calls_made-reports, calls_made-first}

abbrev no_failure : Errors
no_failure = record { errors = []; truncated = false; code = []; status = 0; message = [] }

error_json_write-not_found :
    error_json_write no_failure 404 none 200
    ≡ some (
        codes
          "{\"status\":404,\"code\":\"not_found\",\"error\":\"request failed\",\"fields\":[],\"truncated\":false}")
unfolding error_json_write document_written decimal sink_quoted fields_loop add_field code_shown
    message_shown errors_shown last_text error_code_for_status sink_add_escaped sink_init
    escaped_loop flush sink_escape sink_add_bytes sink_put is_plain
error_json_write-not_found = refl

error_json_write-error_document_example : error_json_write no_failure 404 none 200 ≡ (
    if ltb (length (error_document no_failure 404 none)) 200
    then some (error_document no_failure 404 none)
    else none)
error_json_write-error_document_example =
    error_json_write-error_document no_failure 404 none 200 (omega arith)

abbrev missing_name : FieldError
missing_name = record {
  field = codes "name";
  code = codes "required";
  message = codes "is required";
}

calls_made-IsValid_example : IsValid (
    calls_made
      (request_fail_reset no_failure)
      (field_error (codes "name") (codes "required") (codes "is required") ∷ fail 500 none ∷ []))
calls_made-IsValid_example =
    calls_made-IsValid no_failure
      (field_error (codes "name") (codes "required") (codes "is required") ∷ fail 500 none ∷ [])
      (tt, (omega arith, tt))

calls_made-reports_example :
    calls_made (request_fail_reset no_failure) (reports (missing_name ∷ missing_name ∷ []))
    ≡ rejected
        (take max_error_fields (all_kept (missing_name ∷ missing_name ∷ [])))
        (ltb max_error_fields (length (missing_name ∷ missing_name ∷ [])))
calls_made-reports_example = calls_made-reports no_failure missing_name (missing_name ∷ [])

abbrev not_allowed : Errors
not_allowed = record no_failure { status = 405 }

calls_made-first_example :
    ((calls_made not_allowed (fail 500 none ∷ [])).status ≡ 405)
    × ((calls_made not_allowed (fail 500 none ∷ [])).code ≡ [])
    × ((calls_made not_allowed (fail 500 none ∷ [])).message ≡ [])
calls_made-first_example = calls_made-first not_allowed (fail 500 none ∷ []) refl
