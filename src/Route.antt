-- ===== src/Route.antt =====
-- The router of src/http/route.c, with `Route` of include/route.h and `RequestParams` of
-- include/detail/runtime.h. Texts are C strings: bytes without the NUL. The routing table that the
-- generator writes is the parameter `table`; a handler is code of the application, of any type.
pub mod Allow
pub mod Choice
pub mod Segments
pub mod TooLong
mod Tests
use gargantua.Common.{
  ℕ, zero, suc, ◌+◌, ◌-◌, ◌^◌, Bool, true, false, not, ◌&&◌, ◌||◌, Option, none, some, List, [],
  ◌∷◌, ◌++◌, Bytes, codes, str_eq, ltb, leb, ◌==◌, if◌then◌else◌, length,
}

abbrev pub max_segments : ℕ
max_segments = 66

abbrev pub max_url : ℕ
max_url = 128

abbrev pub max_path_params : ℕ
max_path_params = 8

abbrev pub param_value_len : ℕ
param_value_len = 64

abbrev pub int_max : ℕ
int_max = 2 ^ 31 - 1

-- The counts of `RequestParams` are the lists' lengths.
pub record RequestParams : Type 0 where
  pub path_value : List Bytes
  pub query : List (Bytes × Bytes)
  pub invalid : Bool

pub record Route (Handler : Type 0) : Type 0 where
  pub method : Bytes
  pub url : Bytes
  pub content_type : Bytes
  pub status : ℕ
  pub handler : Option Handler

abbrev pub params_reset : RequestParams
params_reset = record { path_value = []; query = []; invalid = false }

-- 1 with the values, 0, or -1.
pub data Match : Type 0 where
  matched : List Bytes → Match
  no_match : Match
  invalid : Match

-- The segment at the front, and what stands behind its slash.
unfoldable pub next_segment : Bytes → Bytes × Bytes
next_segment [] = ([], [])
next_segment (c ∷ s) =
    let (segment, rest) = next_segment s in if c == b'/' then ([], s) else (c ∷ segment, rest)

abbrev pub last_is : ℕ → Bytes → Bool
last_is b [] = false
last_is b (c ∷ []) = c == b
last_is b (_ ∷ c ∷ s) = last_is b (c ∷ s)

-- A segment of at least two bytes in braces.
unfoldable pub is_dynamic : Bytes → Bool
is_dynamic [] = false
is_dynamic (a ∷ []) = false
is_dynamic (a ∷ b ∷ s) = a == b'{' && last_is b'}' (b ∷ s)

abbrev pub is_empty : Bytes → Bool
is_empty [] = true
is_empty (_ ∷ _) = false

-- The rounds of `path_matches`, of which `guard` are left, with the values written so far.
unfoldable pub matches_loop : ℕ → Bytes → Bytes → List Bytes → Match
matches_loop zero pattern url out = no_match
matches_loop (suc guard) pattern url out =
    let (p, pattern') = next_segment pattern in
    let (u, url') = next_segment url in
    let rest = matches_loop guard pattern' url' out in
    let rest_with = matches_loop guard pattern' url' (out ++ (u ∷ [])) in
    if is_empty pattern && is_empty url
    then matched out
    else if is_empty pattern || is_empty url
    then no_match
    else if is_dynamic p
    then (if leb max_path_params (length out)
        then no_match
        else if length u == 0
        then no_match
        else if leb param_value_len (length u)
        then invalid
        else rest_with)
    else if not (length p == length u)
    then no_match
    else if not (str_eq p u)
    then no_match
    else rest

unfoldable pub path_matches : Bytes → Bytes → Match
path_matches pattern url = matches_loop max_segments pattern url []

-- `n` bytes are left to look at.
unfoldable pub dynamic_count_loop : ℕ → Bytes → ℕ
dynamic_count_loop zero s = 0
dynamic_count_loop (suc n) [] = 0
dynamic_count_loop (suc n) (c ∷ s) = (if c == b'{' then 1 else 0) + dynamic_count_loop n s

unfoldable pub dynamic_segment_count : Bytes → ℕ
dynamic_segment_count pattern = dynamic_count_loop max_url pattern

-- The variables of `route_find_exact`.
pub record Search (Handler : Type 0) : Type 0 where
  pub saw_invalid : Bool
  pub ambiguous : Bool
  pub best_dynamic : ℕ
  pub best : Option (Route Handler)
  pub best_params : RequestParams

module _ {Handler : Type 0} where
  abbrev pub has_handler : Route Handler → Bool
  has_handler r = elim r.handler [ none ↦ false | some _ ↦ true ]

  -- A route that matches, with its values.
  unfoldable pub consider : Search Handler → Route Handler → List Bytes → Search Handler
  consider s r values =
      let dynamic = dynamic_segment_count r.url in
      if ltb dynamic s.best_dynamic
      then record s {
        best = some r;
        best_params = record params_reset { path_value = values };
        best_dynamic = dynamic;
        ambiguous = false;
      }
      else if dynamic == s.best_dynamic
      then record s { ambiguous = true }
      else s

  unfoldable pub search_match : Search Handler → Route Handler → Match → Search Handler
  search_match s r (matched values) = consider s r values
  search_match s r no_match = s
  search_match s r invalid = record s { saw_invalid = true }

  -- One round of the loop over the table.
  unfoldable pub search_step : Bytes → Bytes → Search Handler → Route Handler → Search Handler
  search_step method url s r =
      if not (has_handler r)
      then s
      else if not (str_eq r.method method)
      then s
      else search_match s r (path_matches r.url url)

  unfoldable pub search_loop :
      Bytes → Bytes → Search Handler → List (Route Handler) → Search Handler
  search_loop method url s [] = s
  search_loop method url s (r ∷ table) = search_loop method url (search_step method url s r) table

  abbrev pub start : Search Handler
  start = record {
    saw_invalid = false;
    ambiguous = false;
    best_dynamic = int_max;
    best = none;
    best_params = params_reset;
  }

  -- What follows the loop: the route, and `*out`.
  unfoldable pub conclude : Search Handler → Option (Route Handler) × RequestParams
  conclude s =
      let refused = record params_reset { invalid = s.saw_invalid || s.ambiguous } in
      elim s.best [
        | none ↦ (none, refused)
        | some r ↦ if not s.ambiguous then (some r, s.best_params) else (none, refused)
      ]

  unfoldable pub route_find_exact :
      List (Route Handler) → Bytes → Bytes → Option (Route Handler) × RequestParams
  route_find_exact table method url = conclude (search_loop method url start table)

  unfoldable pub route_find :
      List (Route Handler) → Bytes → Bytes → Option (Route Handler) × RequestParams
  route_find table method url =
      let (route, out) = route_find_exact table method url in
      elim route [
        | some r ↦ (some r, out)
        | none ↦
            if not out.invalid && str_eq method (codes "HEAD")
            then route_find_exact table (codes "GET") url
            else (none, out)
      ]
