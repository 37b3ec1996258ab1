-- ===== src/Errors.antt =====
-- A request's failure and the error document: src/runtime/runtime_error.c with include/detail/runtime.h.
-- The thread's variables are the record `Errors`. A C string is the bytes in front of its NUL; a NULL
-- pointer is `none`.
pub mod Document
pub mod Calls
pub mod Valid
pub mod Collect
mod Tests
use gargantua.Common.{
  ℕ, zero, suc, ◌+◌, ◌-◌, ◌*◌, ◌/◌, ◌%◌, Bool, true, false, not, ◌&&◌, Option, none, some, List, [],
  ◌∷◌, ◌++◌, Bytes, codes, str_eq, length, take, ltb, leb, ◌==◌, if◌then◌else◌,
}
use gargantua.Sink.{Sink, sink_init, sink_add_bytes, sink_put, sink_add_escaped}

abbrev pub max_error_fields : ℕ
max_error_fields = 16

abbrev pub max_fail_message : ℕ
max_fail_message = 128

-- The arrays of a `FieldError`.
abbrev pub field_size : ℕ
field_size = 8 * 65

abbrev pub code_size : ℕ
code_size = 32

abbrev pub message_size : ℕ
message_size = 128

pub record FieldError : Type 0 where
  pub field : Bytes
  pub code : Bytes
  pub message : Bytes

pub record Errors : Type 0 where
  pub errors : List FieldError
  pub truncated : Bool
  pub code : Bytes
  pub status : ℕ
  pub message : Bytes

-- What an array of `size` bytes keeps of a text.
abbrev pub fixed : ℕ → Bytes → Bytes
fixed size text = take (size - 1) text

abbrev pub kept_message : Option Bytes → Bytes
kept_message none = []
kept_message (some m) = fixed max_fail_message m

pub request_fail : Errors → ℕ → Option Bytes → Errors
request_fail e status message =
    if not (e.status == 0) then e else record e { status = status; message = kept_message message }

abbrev pub request_failed : Errors → Bool
request_failed e = not (e.status == 0)

-- The body's state, which is reset too, is another component's.
abbrev pub request_fail_reset : Errors → Errors
request_fail_reset e = record {
  errors = [];
  truncated = false;
  code = [];
  status = 0;
  message = [];
}

pub request_fail_code : Errors → ℕ → Bytes → Option Bytes → Errors
request_fail_code e status code message =
    if request_failed e
    then e
    else record (request_fail e status message) { code = fixed code_size code }

abbrev pub kept_error : Bytes → Bytes → Bytes → FieldError
kept_error field code message = record {
  field = fixed field_size field;
  code = fixed code_size code;
  message = fixed message_size message;
}

-- A field's error in a request that has failed validation.
pub error_stored : Errors → FieldError → Errors
error_stored e error =
    if leb max_error_fields (length e.errors)
    then record e { truncated = true }
    else record e { errors = e.errors ++ (error ∷ []) }

pub field_error_add : Errors → Bytes → Bytes → Bytes → Errors
field_error_add e field code message =
    if request_failed e && not (str_eq e.code (codes "validation_failed"))
    then e
    else error_stored
        (request_fail_code e 400 (codes "validation_failed")
          (some (codes "request validation failed")))
        (kept_error field code message)

pub error_code_for_status : ℕ → Bytes
error_code_for_status status =
    if status == 400
    then codes "bad_request"
    else if status == 401
    then codes "unauthorized"
    else if status == 403
    then codes "forbidden"
    else if status == 404
    then codes "not_found"
    else if status == 405
    then codes "method_not_allowed"
    else if status == 409
    then codes "conflict"
    else if status == 413
    then codes "payload_too_large"
    else if status == 415
    then codes "unsupported_media_type"
    else if status == 417
    then codes "expectation_failed"
    else if status == 422
    then codes "unprocessable_content"
    else if status == 429
    then codes "rate_limited"
    else if status == 503
    then codes "unavailable"
    else if leb 500 status
    then codes "internal_error"
    else codes "request_failed"

-- The digits that `%d` prints of a status, three at most.
unfoldable pub decimal : ℕ → ℕ → Bytes
decimal zero n = []
decimal (suc rounds) n =
    let front = decimal rounds (n / 10) in
    if ltb n 10 then (b'0' + n) ∷ [] else front ++ ((b'0' + n % 10) ∷ [])

pub sink_quoted : Sink → Bytes → Sink
sink_quoted s text = sink_put (sink_add_escaped (sink_put s b'"') text) b'"'

pub add_field : Sink → FieldError → Sink
add_field s error =
    let a = sink_quoted (sink_add_bytes s (codes "{\"field\":")) error.field in
    let b = sink_quoted (sink_add_bytes a (codes ",\"code\":")) error.code in
    let c = sink_quoted (sink_add_bytes b (codes ",\"message\":")) error.message in
    sink_add_bytes c (codes "}")

-- `first` is `i == 0`.
pub fields_loop : Bool → Sink → List FieldError → Sink
fields_loop first s [] = s
fields_loop first s (error ∷ errors) =
    fields_loop false (add_field (if first then s else sink_add_bytes s (codes ",")) error) errors

abbrev pub is_active : Errors → ℕ → Bool
is_active e status = e.status == status

pub code_shown : Errors → ℕ → Bytes
code_shown e status =
    if is_active e status && not (length e.code == 0) then e.code else error_code_for_status status

abbrev pub message_or_default : Option Bytes → Bytes
message_or_default none = codes "request failed"
message_or_default (some m) = m

pub message_shown : Errors → ℕ → Option Bytes → Bytes
message_shown e status message =
    if is_active e status then e.message else message_or_default message

pub errors_shown : Errors → ℕ → List FieldError
errors_shown e status = if is_active e status then e.errors else []

pub last_text : Errors → ℕ → Bytes
last_text e status =
    if is_active e status && e.truncated
    then codes "],\"truncated\":true}"
    else codes "],\"truncated\":false}"

pub document_written : Sink → Errors → ℕ → Option Bytes → Sink
document_written s e status message =
    let number = fixed 32 (codes "{\"status\":" ++ decimal 10 status ++ codes ",\"code\":") in
    let a = sink_quoted (sink_add_bytes s number) (code_shown e status) in
    let b = sink_quoted (sink_add_bytes a (codes ",\"error\":")) (message_shown e status message) in
    let c = fields_loop true (sink_add_bytes b (codes ",\"fields\":[")) (errors_shown e status) in
    sink_add_bytes c (last_text e status)

-- The document in `out`, where the result is 0.
pub error_json_write : Errors → ℕ → Option Bytes → ℕ → Option Bytes
error_json_write e status message cap =
    if cap == 0
    then none
    else (let s = document_written (sink_init cap) e status message in
        if s.overflow then none else some s.text)
