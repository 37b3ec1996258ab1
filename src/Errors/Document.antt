-- ===== src/Errors/Document.antt =====
-- What `error_json_write` of src/runtime/runtime_error.c writes.
use mathlib.Core.Path.{subst}
use gargantua.Common.{
  Bool, not, ◌&&◌, Bool-cases, ℕ, zero, suc, ◌<◌, true, false, Option, none, some, List, [], ◌∷◌,
  ◌++◌, Bytes, codes, length, length-append, take, ltb, leb, ◌==◌, if◌then◌else◌, lt→ltb,
  le→ltb-false, all_below, all_below-true, leb→le, ◌≡◌, inl, inr, refl, ap, arith,
}
use gargantua.Paths.{max_text}
use gargantua.Sink.{Sink, sink_init, sink_add_bytes}
use gargantua.Sink.Escape.{
  escape, Added, Added-trans, Added-nothing, sink_add_bytes-Added, sink_put-Added,
  sink_add_escaped-Added,
}
use gargantua.Sink.RoundTrip.{take-all}
use gargantua.Errors.{
  FieldError, Errors, error_code_for_status, decimal, sink_quoted, add_field, fields_loop,
  code_shown, message_shown, errors_shown, last_text, document_written, error_json_write,
}

-- A string of the document; of a text longer than `max_text` bytes the rest is left out.
pub quote : Bytes → Bytes
quote text = b'"' ∷ escape (take max_text text) ++ codes "\""

abbrev pub field_document : FieldError → Bytes
field_document error =
    codes "{\"field\":"
    ++ quote error.field
    ++ codes ",\"code\":"
    ++ quote error.code
    ++ codes ",\"message\":"
    ++ quote error.message
    ++ codes "}"

abbrev pub more_fields : List FieldError → Bytes
more_fields [] = []
more_fields (error ∷ errors) = codes "," ++ field_document error ++ more_fields errors

-- With commas between.
abbrev pub fields_document : List FieldError → Bytes
fields_document [] = []
fields_document (error ∷ errors) = field_document error ++ more_fields errors

-- The code of a status, by the table of statuses.
abbrev pub named : List (ℕ × Bytes) → ℕ → Bytes
named [] status = if leb 500 status then codes "internal_error" else codes "request_failed"
named ((s, code) ∷ table) status = if status == s then code else named table status

abbrev pub status_codes : List (ℕ × Bytes)
status_codes =
    (400, codes "bad_request")
    ∷ (401, codes "unauthorized")
    ∷ (403, codes "forbidden")
    ∷ (404, codes "not_found")
    ∷ (405, codes "method_not_allowed")
    ∷ (409, codes "conflict")
    ∷ (413, codes "payload_too_large")
    ∷ (415, codes "unsupported_media_type")
    ∷ (417, codes "expectation_failed")
    ∷ (422, codes "unprocessable_content")
    ∷ (429, codes "rate_limited")
    ∷ (503, codes "unavailable")
    ∷ []

-- The document of a code, a message and errors of fields.
abbrev pub document_of : ℕ → Bytes → Bytes → List FieldError → Bool → Bytes
document_of status code message errors truncated =
    codes "{\"status\":"
    ++ decimal 10 status
    ++ codes ",\"code\":"
    ++ quote code
    ++ codes ",\"error\":"
    ++ quote message
    ++ codes ",\"fields\":["
    ++ fields_document errors
    ++ (if truncated then codes "],\"truncated\":true}" else codes "],\"truncated\":false}")

abbrev pub or_named : Bytes → ℕ → Bytes
or_named [] status = named status_codes status
or_named (c ∷ code) status = c ∷ code

abbrev pub or_default : Option Bytes → Bytes
or_default none = codes "request failed"
or_default (some message) = message

-- Of the failure that was recorded, where it has this status, and otherwise of the status alone.
pub error_document : Errors → ℕ → Option Bytes → Bytes
error_document e status message =
    if e.status == status
    then document_of status (or_named e.code status) e.message e.errors e.truncated
    else document_of status (named status_codes status) (or_default message) [] false

shown_document : Errors → ℕ → Option Bytes → Bytes
shown_document e status message =
    codes "{\"status\":"
    ++ decimal 10 status
    ++ codes ",\"code\":"
    ++ quote (code_shown e status)
    ++ codes ",\"error\":"
    ++ quote (message_shown e status message)
    ++ codes ",\"fields\":["
    ++ fields_document (errors_shown e status)
    ++ last_text e status

length-some : (c : ℕ) (s : Bytes) → (length (c ∷ s) == 0) ≡ false
length-some c s = ground arith

module _ (e : Errors) (status : ℕ) where
  message_shown-active :
      (message : Option Bytes)
      → (e.status == status) ≡ true
      → message_shown e status message ≡ e.message
  unfolding message_shown
  message_shown-active message active = rw active refl

  message_shown-other :
      (message : Option Bytes)
      → (e.status == status) ≡ false
      → message_shown e status message ≡ or_default message
  unfolding message_shown
  message_shown-other none other = rw other refl
  message_shown-other (some m) other = rw other refl

  errors_shown-active : (e.status == status) ≡ true → errors_shown e status ≡ e.errors
  unfolding errors_shown
  errors_shown-active active = rw active refl

  errors_shown-other : (e.status == status) ≡ false → errors_shown e status ≡ []
  unfolding errors_shown
  errors_shown-other other = rw other refl

  last_text-active :
      (e.status == status) ≡ true
      → last_text e status
        ≡ (if e.truncated then codes "],\"truncated\":true}" else codes "],\"truncated\":false}")
  unfolding last_text
  last_text-active active = rw active refl

  last_text-other :
      (e.status == status) ≡ false → last_text e status ≡ codes "],\"truncated\":false}"
  unfolding last_text
  last_text-other other = rw other refl

error_code_for_status-named :
    (status : ℕ) → error_code_for_status status ≡ named status_codes status
unfolding error_code_for_status
error_code_for_status-named status = refl

code_shown-or_named :
    (e : Errors) (status : ℕ)
    → (e.status == status) ≡ true
    → code_shown e status ≡ or_named e.code status
unfolding code_shown
code_shown-or_named e status active = rw active (from_code e.code)
  where
    from_code :
        (code : Bytes)
        → (if true && not (length code == 0) then code else error_code_for_status status)
          ≡ or_named code status
    from_code [] = error_code_for_status-named status
    from_code (c ∷ code) = rw (length-some c code) refl

code_shown-named :
    (e : Errors) (status : ℕ)
    → (e.status == status) ≡ false
    → code_shown e status ≡ named status_codes status
unfolding code_shown
code_shown-named e status other = rw other (error_code_for_status-named status)

shown_document-error_document :
    (e : Errors) (status : ℕ) (message : Option Bytes)
    → shown_document e status message ≡ error_document e status message
unfolding shown_document error_document
shown_document-error_document e status message = elim (Bool-cases (e.status == status)) [
  | inl active ↦
      rw
        (
          active,
          code_shown-or_named e status active,
          message_shown-active e status message active,
          errors_shown-active e status active,
          last_text-active e status active,
        )
        refl
  | inr other ↦
      rw
        (
          other,
          code_shown-named e status other,
          message_shown-other e status message other,
          errors_shown-other e status other,
          last_text-other e status other,
        )
        refl
]

-- In a sink with room.
abbrev HasRoom : Sink → Type 0
HasRoom s = length s.text < s.cap

sink_quoted-Added :
    (s : Sink) (text : Bytes) → HasRoom s → Added s (quote text) (sink_quoted s text)
unfolding sink_quoted quote
sink_quoted-Added s text fits =
    let a = sink_put-Added s b'"' fits in
    let b = sink_add_escaped-Added _ text a.fits in
    let c = sink_put-Added _ b'"' b.fits in
    Added-trans s _ _ (b'"' ∷ []) (escape (take max_text text) ++ codes "\"") a
      (Added-trans _ _ _ (escape (take max_text text)) (codes "\"") b c)

-- One more piece.
then_text :
    {s s' : Sink} {a : Bytes}
    → Added s a s'
    → (text : Bytes) → Added s (a ++ text) (sink_add_bytes s' text)
then_text {s} {s'} {a} x text = Added-trans s s' _ a text x (sink_add_bytes-Added s' text x.fits)

then_quoted :
    {s s' : Sink} {a : Bytes}
    → Added s a s'
    → (text : Bytes) → Added s (a ++ quote text) (sink_quoted s' text)
then_quoted {s} {s'} {a} x text =
    Added-trans s s' _ a (quote text) x (sink_quoted-Added s' text x.fits)

add_field-Added :
    (s : Sink) (error : FieldError) → HasRoom s → Added s (field_document error) (add_field s error)
unfolding add_field
add_field-Added s error fits =
    let a = then_quoted (sink_add_bytes-Added s (codes "{\"field\":") fits) error.field in
    let b = then_quoted (then_text a (codes ",\"code\":")) error.code in
    let c = then_quoted (then_text b (codes ",\"message\":")) error.message in
    then_text c (codes "}")

more_fields-Added :
    (errors : List FieldError) (s : Sink)
    → HasRoom s
    → Added s (more_fields errors) (fields_loop false s errors)
unfolding fields_loop
more_fields-Added [] s fits = Added-nothing s fits
more_fields-Added (error ∷ errors) s fits =
    let a = sink_add_bytes-Added s (codes ",") fits in
    let s' = sink_add_bytes s (codes ",") in
    let b =
      Added-trans s s' (add_field s' error) (codes ",") (field_document error) a
        (add_field-Added s' error a.fits) in
    Added-trans s (add_field s' error) _ (codes "," ++ field_document error) (more_fields errors) b
      (more_fields-Added errors (add_field s' error) b.fits)

fields_loop-Added :
    (errors : List FieldError) (s : Sink)
    → HasRoom s
    → Added s (fields_document errors) (fields_loop true s errors)
unfolding fields_loop
fields_loop-Added [] s fits = Added-nothing s fits
fields_loop-Added (error ∷ errors) s fits =
    let a = add_field-Added s error fits in
    Added-trans s (add_field s error) _ (field_document error) (more_fields errors) a
      (more_fields-Added errors (add_field s error) a.fits)

-- The array for the head of the document is large enough for a status of three digits.
three_digits : all_below 1000 (λ n. leb (length (decimal 10 n)) 3) ≡ true
unfolding decimal
three_digits = refl

number_whole :
    (status : ℕ)
    → status < 1000
    → take 31 (codes "{\"status\":" ++ decimal 10 status ++ codes ",\"code\":")
      ≡ codes "{\"status\":" ++ decimal 10 status ++ codes ",\"code\":"
number_whole status small =
    let short =
      leb→le _ _
        (all_below-true 1000 (λ n. leb (length (decimal 10 n)) 3) status three_digits small) in
    take-all 31 (codes "{\"status\":" ++ decimal 10 status ++ codes ",\"code\":") (
      omega (
        arith,
        length-append (codes "{\"status\":") (decimal 10 status ++ codes ",\"code\":"),
        length-append (decimal 10 status) (codes ",\"code\":"),
        short,
      ))

document_written-Shown :
    (s : Sink) (e : Errors) (status : ℕ) (message : Option Bytes)
    → status < 1000
    → HasRoom s
    → Added s (shown_document e status message) (document_written s e status message)
unfolding document_written shown_document
document_written-Shown s e status message small fits = rw (number_whole status small) (
    let number = codes "{\"status\":" ++ decimal 10 status ++ codes ",\"code\":" in
    let a = then_quoted (sink_add_bytes-Added s number fits) (code_shown e status) in
    let b = then_quoted (then_text a (codes ",\"error\":")) (message_shown e status message) in
    let c = then_text b (codes ",\"fields\":[") in
    let d =
      Added-trans s _ _ _ (fields_document (errors_shown e status)) c
        (fields_loop-Added (errors_shown e status) _ c.fits) in
    then_text d (last_text e status))

document_written-Added :
    (s : Sink) (e : Errors) (status : ℕ) (message : Option Bytes)
    → status < 1000
    → HasRoom s
    → Added s (error_document e status message) (document_written s e status message)
document_written-Added s e status message small fits =
    subst (λ text. Added s text (document_written s e status message))
      (shown_document-error_document e status message)
      (document_written-Shown s e status message small fits)

-- For a status of at most three digits, `error_json_write` returns the whole document where it is shorter than the
-- array, and -1 where it is not. The document has the code, the message and the fields' errors of the recorded
-- failure where that has this status (with the status's own code where none was recorded), and otherwise the
-- status's own code, the message given or the default, and no fields. Each text stands escaped between quotes; of
-- a text longer than 1 MiB the document has the first MiB.
pub error_json_write-error_document :
    (e : Errors) (status : ℕ) (message : Option Bytes) (room : ℕ)
    → status < 1000
    → error_json_write e status message room ≡ (
        if ltb (length (error_document e status message)) room
        then some (error_document e status message)
        else none)
unfolding error_json_write sink_init
error_json_write-error_document e status message zero small =
    rw (le→ltb-false (length (error_document e status message)) 0 (omega arith)) refl
error_json_write-error_document e status message (suc room) small =
    let some_room : (suc room == 0) ≡ false = ground arith in
    let added =
      document_written-Added (sink_init (suc room)) e status message small (omega arith) in
    elim added.how [
      | inl (fine, o, same) ↦
          let whole : ltb (length (error_document e status message)) (suc room) ≡ true =
            lt→ltb _ _ (omega (arith, added.fits, ap length same, added.same_cap)) in
          rw (some_room, whole, fine, same) refl
      | inr (over, inl o) ↦ absurd (ground (arith, o))
      | inr (over, inr full) ↦
          let cut : ltb (length (error_document e status message)) (suc room) ≡ false =
            le→ltb-false _ _ (omega (arith, full)) in
          rw (some_room, cut, over) refl
    ]
