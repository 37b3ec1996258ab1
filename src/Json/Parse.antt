-- ===== src/Json/Parse.antt =====
-- The parser of src/http/json.c: `json_parse` and what it calls.
pub mod Moves
pub mod RoundMoves
pub mod Ends
pub mod Tokens
pub mod Leave
pub mod Nested
pub mod Completes
pub mod Rounds
pub mod Accepted
mod Tests
use gargantua.Common.{
  ℕ, zero, suc, ◌+◌, ◌-◌, ◌*◌, ◌%◌, ◌^◌, Bool, true, false, not, ◌&&◌, ◌||◌, Option, none, some,
  List, [], ◌∷◌, ◌++◌, Bytes, codes, str_eq, length, get_elem?, take, drop, ltb, leb, ◌==◌,
  if◌then◌else◌, ◌>>=◌, ◌>>◌, guard,
}
use gargantua.Json.{
  JsonType, undef, obj, arr, str, prim, JsonToken, max_depth, max_object_keys, max_key_bytes,
  is_space, string_length, primitive_length,
}
use gargantua.Json.Copy.{is_string, copied_string}

pub data FrameState : Type 0 where
  obj_key_or_end obj_key obj_colon obj_value obj_next arr_value_or_end arr_value arr_next :
      FrameState

pub record Frame : Type 0 where
  pub token : ℕ
  pub type : JsonType
  pub state : FrameState
  pub members : ℕ

-- The variables of `json_parse`: `toks` up to `count`, `stack` up to `depth` with its top first.
pub record Scan : Type 0 where
  pub i : ℕ
  pub toks : List JsonToken
  pub stack : List Frame
  pub done : Bool

unfoldable pub token_alloc : List JsonToken → ℕ → JsonType → ℕ → Option ℕ → Option (List JsonToken)
token_alloc toks max type start parent =
    if leb max (length toks)
    then none
    else some (toks ++ (record { type = type; start = start; end = none; parent = parent } ∷ []))

-- `toks[t].end = end`
pub set_end : List JsonToken → ℕ → ℕ → List JsonToken
set_end [] t end = []
set_end (x ∷ xs) zero end = record x { end = some end } ∷ xs
set_end (x ∷ xs) (suc t) end = x ∷ set_end xs t end

-- The token is the last one.
unfoldable pub token_string : Bytes → ℕ → Option ℕ → Scan → Option Scan
token_string js max parent st = do
  toks ← token_alloc st.toks max str (st.i + 1) parent
  n ← string_length (suc (length js)) (drop (st.i + 1) js)
  some (record st { i = st.i + 1 + n + 1; toks = set_end toks (length st.toks) (st.i + 1 + n) })

pub token_primitive : Bytes → ℕ → Option ℕ → Scan → Option Scan
token_primitive js max parent st = do
  n ← primitive_length (drop st.i js)
  toks ← token_alloc st.toks max prim st.i parent
  some (record st { i = st.i + n; toks = set_end toks (length st.toks) (st.i + n) })

-- A `{` or `[`.
pub open_container : ℕ → Option ℕ → JsonType → FrameState → Scan → Option Scan
open_container max parent type state st = do
  guard (not (leb max_depth (length st.stack)))
  toks ← token_alloc st.toks max type st.i parent
  some (record st {
    i = st.i + 1;
    toks = toks;
    stack = record { token = length st.toks; type = type; state = state; members = 0 } ∷ st.stack;
  })

pub scan_value_at : Bytes → ℕ → Option ℕ → Scan → Bytes → Option Scan
scan_value_at js max parent st [] = none
scan_value_at js max parent st (c ∷ s) =
    if c == b'"'
    then token_string js max parent st
    else if c == b'{'
    then open_container max parent obj obj_key_or_end st
    else if c == b'['
    then open_container max parent arr arr_value_or_end st
    else token_primitive js max parent st

pub scan_value : Bytes → ℕ → Option ℕ → Scan → Option Scan
scan_value js max parent st = scan_value_at js max parent st (drop st.i js)

-- The top frame `f` is closed; `below` is left.
pub close_container : Frame → List Frame → Scan → Scan
close_container f below st = record {
  i = st.i + 1;
  toks = set_end st.toks f.token (st.i + 1);
  stack = below;
  done = st.done || length below == 0;
}

abbrev pub is_child : ℕ → Option ℕ → Bool
is_child parent none = false
is_child parent (some p) = p == parent

-- `toks[key]` against the tokens from `prior` on, `direct` children of `parent` having been seen.
-- The list ends at the key.
pub duplicate_loop : Bytes → ℕ → Bytes → ℕ → List JsonToken → Bool
duplicate_loop js parent key direct [] = false
duplicate_loop js parent key direct (t ∷ toks) =
    let same =
      direct % 2 == 0 && is_string t.type && str_eq (copied_string js t max_key_bytes) key in
    let skipped = duplicate_loop js parent key direct toks in
    let next = duplicate_loop js parent key (direct + 1) toks in
    if not (is_child parent t.parent) then skipped else if same then true else next

pub duplicate_key : Bytes → List JsonToken → ℕ → JsonToken → Bool
duplicate_key js before parent key =
    duplicate_loop js parent (copied_string js key max_key_bytes) 0 (drop (parent + 1) before)

-- The key that was scanned last, `before` it the tokens in front.
pub key_fits : Bytes → List JsonToken → Frame → Option JsonToken → Bool
key_fits js before f none = false
key_fits js before f (some key) = elim key.end [
  | none ↦ false
  | some end ↦
      not (leb max_object_keys f.members)
      && not (leb max_key_bytes (end - key.start))
      && not (duplicate_key js before f.token key)
]

-- Behind a comma a container may not end.
abbrev pub is_obj_key : FrameState → Bool
is_obj_key obj_key = true
is_obj_key _ = false

abbrev pub is_arr_value : FrameState → Bool
is_arr_value arr_value = true
is_arr_value _ = false

pub scan_object_key : Bytes → ℕ → ℕ → Frame → List Frame → Scan → Option Scan
scan_object_key js max c f below st =
    if c == b'}' then guard (not (is_obj_key f.state)) >> some (close_container f below st) else (do
      guard (c == b'"')
      st' ← token_string js max (some f.token) st
      guard (key_fits js st.toks f (get_elem? st'.toks (length st.toks)))
      some (record st' { stack = record f { members = f.members + 1; state = obj_colon } ∷ below }))

pub scan_array_element : Bytes → ℕ → ℕ → Frame → List Frame → Scan → Option Scan
scan_array_element js max c f below st =
    if c == b']'
    then guard (not (is_arr_value f.state)) >> some (close_container f below st)
    else scan_value js max (some f.token)
        (record st { stack = record f { state = arr_next } ∷ below })

pub scan_separator : ℕ → Frame → List Frame → Scan → ℕ → FrameState → Option Scan
scan_separator c f below st closer next =
    if c == b','
    then some (record st { i = st.i + 1; stack = record f { state = next } ∷ below })
    else if c == closer
    then some (close_container f below st)
    else none

-- The `switch` on the top frame's state. The byte `c` stands at `i`.
pub scan_state : Bytes → ℕ → ℕ → Frame → List Frame → Scan → FrameState → Option Scan
scan_state js max c f below st obj_key_or_end = scan_object_key js max c f below st
scan_state js max c f below st obj_key = scan_object_key js max c f below st
scan_state js max c f below st obj_colon =
    guard (c == b':')
    >> some (record st { i = st.i + 1; stack = record f { state = obj_value } ∷ below })
scan_state js max c f below st obj_value =
    scan_value js max (some f.token) (record st { stack = record f { state = obj_next } ∷ below })
scan_state js max c f below st obj_next = scan_separator c f below st b'}' obj_key
scan_state js max c f below st arr_value_or_end = scan_array_element js max c f below st
scan_state js max c f below st arr_value = scan_array_element js max c f below st
scan_state js max c f below st arr_next = scan_separator c f below st b']' arr_value

pub scan_frame : Bytes → ℕ → ℕ → Frame → List Frame → Scan → Option Scan
scan_frame js max c f below st = scan_state js max c f below st f.state

pub spaces_length : Bytes → ℕ
spaces_length [] = 0
spaces_length (c ∷ s) = if is_space c then 1 + spaces_length s else 0

-- The root value: `done` where it is not a container.
pub finish_value : Scan → Scan
finish_value st = record st { done = st.done || length st.stack == 0 }

pub scan_root : Bytes → ℕ → Bool → Scan → Option Scan
scan_root js max seen st = do
  guard (not (seen || st.done))
  st' ← scan_value js max none st
  some (finish_value st')

-- One round at the byte `c` at `i`, with the stack given.
pub scan_round : Bytes → ℕ → Bool → ℕ → List Frame → Scan → Option Scan
scan_round js max seen c [] st = scan_root js max seen st
scan_round js max seen c (f ∷ below) st = scan_frame js max c f below st

-- What a parse ends with: the tokens, or -1. `exhausted` would be a loop that runs on.
pub data Result : Type 0 where
  accepted : List JsonToken → Result
  refused : Result
  exhausted : Result

pub parse_answer : Bool → Scan → Result
parse_answer seen st = if seen && st.done && length st.stack == 0 then accepted st.toks else refused

-- What follows a round: `next` is the loop's rest.
pub after_round : (Scan → Result) → Option Scan → Result
after_round next none = refused
after_round next (some st) = next st

-- One round, where `s` stands at `at`, behind the blanks.
pub parse_at : (Scan → Result) → Bytes → ℕ → Bool → Scan → ℕ → Bytes → Result
parse_at next js max seen st at [] = parse_answer seen st
parse_at next js max seen st at (c ∷ s) =
    after_round next (scan_round js max seen c st.stack (record st { i = at }))

pub parse_loop : ℕ → Bytes → ℕ → Bool → Scan → Result
parse_loop zero js max seen st = exhausted
parse_loop (suc rounds) js max seen st =
    let at = st.i + spaces_length (drop st.i js) in
    parse_at (parse_loop rounds js max true) js max seen st at (drop at js)

abbrev pub int_max : ℕ
int_max = 2 ^ 31 - 1

abbrev pub empty_scan : Scan
empty_scan = record { i = 0; toks = []; stack = []; done = false }

-- Each round takes a byte at least, so that the rounds suffice.
pub json_parse : Bytes → ℕ → Result
json_parse js max =
    if max == 0 || length js == 0 || ltb int_max (length js)
    then refused
    else parse_loop (suc (length js)) js max false empty_scan
