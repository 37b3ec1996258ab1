-- ===== src/Cors.antt =====
-- The origin that a response allows: `header_single_value`, `list_contains` and `cors_prepare` of
-- src/server/server_http.c.
pub mod Allowed
pub mod Origin
mod Tests
use gargantua.Common.{
  ℕ, zero, suc, Bool, true, false, not, ◌&&◌, ◌||◌, Option, none, some, List, [], ◌∷◌, Bytes, codes,
  str_eq, strcase_eq, length, take, leb, ◌==◌, if◌then◌else◌,
}
use gargantua.Http.{HttpHeader, max_headers, header_name_is, skip_blanks, trim_end}
use gargantua.Response.{response_value, value_cap}

abbrev pub is_found : Option Bytes → Bool
is_found none = false
is_found (some value) = true

-- `value` is what was found so far; the results are -1, 0 and 1 with the value.
pub single_loop : Bytes → ℕ → Option Bytes → List HttpHeader → Option (Option Bytes)
single_loop name limit value [] = some value
single_loop name limit value (h ∷ hs) =
    let skipped = single_loop name limit value hs in
    let taken = single_loop name limit (some h.value) hs in
    if not (header_name_is h name)
    then skipped
    else if is_found value || leb limit (length h.value)
    then none
    else if response_value h.value
    then taken
    else none

pub header_single_value : List HttpHeader → Bytes → ℕ → Option (Option Bytes)
header_single_value headers name limit = single_loop name limit none (take max_headers headers)

-- The text up to the next comma, and what is behind the comma.
pub next_item : Bytes → Bytes × Option Bytes
next_item [] = ([], none)
next_item (c ∷ s) =
    if c == b',' then ([], some s) else (let (item, rest) = next_item s in (c ∷ item, rest))

abbrev pub same_item : Bool → Bytes → Bytes → Bool
same_item true item value = str_eq item value
same_item false item value = strcase_eq item value

abbrev pub after_item : (Bytes → Bool) → Bool → Option Bytes → Bool
after_item next true rest = true
after_item next false none = false
after_item next false (some rest) = next rest

pub list_loop : ℕ → Bytes → Bool → Bytes → Bool
list_loop zero value exact list = false
list_loop (suc rounds) value exact [] = false
list_loop (suc rounds) value exact (c ∷ list) =
    let (item, rest) = next_item (skip_blanks (c ∷ list)) in
    after_item (list_loop rounds value exact)
      (not (length value == 0) && same_item exact (trim_end item) value) rest

-- Each round takes a byte at least.
pub list_contains : Bytes → Bytes → Bool → Bool
list_contains list value exact = list_loop (suc (length list)) value exact list

pub origin_allowed : Bytes → Bytes → Option (Option Bytes) → Bytes
origin_allowed origins before none = before
origin_allowed origins before (some none) = before
origin_allowed origins before (some (some origin)) =
    if not (str_eq origin (codes "*")) && list_contains origins origin true then origin else before

-- `origins` is the setting; `response_cors` and `response_origin` afterwards.
pub cors_prepare : Bytes → List HttpHeader → Bytes → Bool × Bytes
cors_prepare origins headers before = if length origins == 0 then (false, before) else (
  true,
  origin_allowed origins before (header_single_value headers (codes "Origin") value_cap),
)
