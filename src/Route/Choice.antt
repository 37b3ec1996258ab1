-- ===== src/Route/Choice.antt =====
-- Which route `route_find_exact` of src/http/route.c takes among those that match.
use gargantua.Common.{
  ℕ, zero, suc, ◌+◌, ◌≤◌, ◌<◌, Bool, true, false, ◌&&◌, ◌||◌, Option, none, some, List, [], ◌∷◌,
  Bytes, str_eq, str_eq_iff, length, take, length-take, ltb, ◌==◌, if◌then◌else◌, ◌≡◌, ◌↔◌, inl,
  inr, refl, ap, ◌∙◌, arith, Bool-cases, lt→ltb,
}
use gargantua.Route.TooLong.{IsTooLong, path_matches-IsTooLong}
use gargantua.Route.{
  Route, RequestParams, params_reset, Match, matched, no_match, invalid, path_matches,
  dynamic_segment_count, dynamic_count_loop, has_handler, Search, consider, search_match,
  search_step, search_loop, start, conclude, route_find_exact, int_max, max_url,
}

abbrev pub Candidate : Type 0 → Type 0
Candidate Handler = Route Handler × List Bytes

abbrev pub is_invalid : Match → Bool
is_invalid (matched values) = false
is_invalid no_match = false
is_invalid invalid = true

is_invalid-invalid : (m : Match) → is_invalid m ≡ true → m ≡ invalid
is_invalid-invalid (matched values) e = absurd cc
is_invalid-invalid no_match e = absurd cc
is_invalid-invalid invalid e = refl

or_assoc : (a b c : Bool) → ((a || b) || c) ≡ (a || (b || c))
or_assoc a b c = ground arith

-- How many of the bytes open a brace.
abbrev pub braces : Bytes → ℕ
braces [] = 0
braces (c ∷ s) = (if c == b'{' then 1 else 0) + braces s

braces-le : (s : Bytes) → braces s ≤ length s
braces-le [] = omega arith
braces-le (c ∷ s) = ground (arith, braces-le s)

dynamic_count_loop-braces : (n : ℕ) (s : Bytes) → dynamic_count_loop n s ≡ braces (take n s)
unfolding dynamic_count_loop
dynamic_count_loop-braces zero s = refl
dynamic_count_loop-braces (suc n) [] = refl
dynamic_count_loop-braces (suc n) (c ∷ s) = ground (arith, dynamic_count_loop-braces n s)

module _ {Handler : Type 0} where
  abbrev pub keep_match :
      Route Handler → Match → List (Candidate Handler) → List (Candidate Handler)
  keep_match r (matched values) cs = (r, values) ∷ cs
  keep_match r no_match cs = cs
  keep_match r invalid cs = cs

  -- The routes with a handler whose method and pattern fit, each with its values, in table order.
  abbrev pub candidates : Bytes → Bytes → List (Route Handler) → List (Candidate Handler)
  candidates method url [] = []
  candidates method url (r ∷ table) =
      let rest = candidates method url table in
      if has_handler r && str_eq r.method method
      then keep_match r (path_matches r.url url) rest
      else rest

  -- A route of the method would match, but for a value that is too long.
  abbrev pub any_invalid : Bytes → Bytes → List (Route Handler) → Bool
  any_invalid method url [] = false
  any_invalid method url (r ∷ table) =
      (has_handler r && (str_eq r.method method && is_invalid (path_matches r.url url)))
      || any_invalid method url table

  -- The braces among the first 128 bytes of the pattern.
  pub dynamic : Candidate Handler → ℕ
  dynamic c = braces (take max_url c.0.url)

  counted : (c : Candidate Handler) → dynamic_segment_count c.0.url ≡ dynamic c
  unfolding dynamic dynamic_segment_count
  counted c = dynamic_count_loop-braces max_url c.0.url

  abbrev pub fewest : List (Candidate Handler) → ℕ
  fewest [] = int_max
  fewest (c ∷ cs) = if ltb (dynamic c) (fewest cs) then dynamic c else fewest cs

  -- How many candidates have `n` dynamic segments, and the first of them.
  abbrev pub tally : ℕ → List (Candidate Handler) → ℕ
  tally n [] = 0
  tally n (c ∷ cs) = (if dynamic c == n then 1 else 0) + tally n cs

  abbrev pub first_with : ℕ → List (Candidate Handler) → Option (Candidate Handler)
  first_with n [] = none
  first_with n (c ∷ cs) = if dynamic c == n then some c else first_with n cs

  -- The search over the candidates alone.
  choose : Search Handler → List (Candidate Handler) → Search Handler
  choose s [] = s
  choose s (c ∷ cs) = choose (consider s c.0 c.1) cs

  record Agree (s t : Search Handler) : Type 0 where
    ambiguous : s.ambiguous ≡ t.ambiguous
    best_dynamic : s.best_dynamic ≡ t.best_dynamic
    best : s.best ≡ t.best
    best_params : s.best_params ≡ t.best_params

  consider-Agree :
      (s t : Search Handler) (r : Route Handler) (values : List Bytes)
      → Agree s t
      → Agree (consider s r values) (consider t r values)
  unfolding consider
  consider-Agree s t r values a = record {
    ambiguous = ground (arith, a.ambiguous, a.best_dynamic);
    best_dynamic = ground (arith, a.best_dynamic);
    best = ground (arith, a.best, a.best_dynamic);
    best_params = ground (arith, a.best_params, a.best_dynamic);
  }

  search_match-Agree :
      (r : Route Handler) (m : Match) (s t : Search Handler) (cs : List (Candidate Handler))
      → Agree s t
      → (u : Search Handler) × Agree (search_match s r m) u
        × (choose t (keep_match r m cs) ≡ choose u cs)
  unfolding search_match choose
  search_match-Agree r (matched values) s t cs a =
      (consider t r values, consider-Agree s t r values a, refl)
  search_match-Agree r no_match s t cs a = (t, a, refl)
  search_match-Agree r invalid s t cs a = (
    t,
    record {
      ambiguous = a.ambiguous;
      best_dynamic = a.best_dynamic;
      best = a.best;
      best_params = a.best_params;
    },
    refl,
  )

  search_step-Agree :
      (method url : Bytes) (r : Route Handler) (table : List (Route Handler)) (s t : Search Handler)
      → Agree s t
      → (u : Search Handler) × Agree (search_step method url s r) u
        × (choose t (candidates method url (r ∷ table)) ≡ choose u (candidates method url table))
  unfolding search_step
  search_step-Agree method url r table s t a = elim (Bool-cases (has_handler r)) [
    | inr missing ↦ rw missing (t, a, refl)
    | inl present ↦ elim (Bool-cases (str_eq r.method method)) [
      | inr other ↦ rw (present, other) (t, a, refl)
      | inl same ↦
          rw (present, same)
            (search_match-Agree r (path_matches r.url url) s t (candidates method url table) a)
    ]
  ]

  search_loop-Agree :
      (method url : Bytes) (table : List (Route Handler)) (s t : Search Handler)
      → Agree s t
      → Agree (search_loop method url s table) (choose t (candidates method url table))
  unfolding search_loop choose
  search_loop-Agree method url [] s t a = a
  search_loop-Agree method url (r ∷ table) s t a =
      let (u, a', e) = search_step-Agree method url r table s t a in
      rw e (search_loop-Agree method url table (search_step method url s r) u a')

  search_step-saw_invalid :
      (method url : Bytes) (s : Search Handler) (r : Route Handler)
      → (search_step method url s r).saw_invalid ≡ (
          s.saw_invalid
          || (has_handler r && (str_eq r.method method && is_invalid (path_matches r.url url))))
  unfolding search_step search_match consider
  search_step-saw_invalid method url s r = ground arith

  search_loop-saw_invalid :
      (method url : Bytes) (table : List (Route Handler)) (s : Search Handler)
      → (search_loop method url s table).saw_invalid
        ≡ (s.saw_invalid || any_invalid method url table)
  unfolding search_loop
  search_loop-saw_invalid method url [] s = ground arith
  search_loop-saw_invalid method url (r ∷ table) s =
      search_loop-saw_invalid method url table (search_step method url s r)
      ∙ (rw (search_step-saw_invalid method url s r)
          (or_assoc s.saw_invalid _ (any_invalid method url table)))

  tally_below : (n : ℕ) (cs : List (Candidate Handler)) → n < fewest cs → tally n cs ≡ 0
  tally_below n [] h = refl
  tally_below n (c ∷ cs) h = ground (arith, tally_below n cs)

  first_below : (n : ℕ) (cs : List (Candidate Handler)) → n < fewest cs → first_with n cs ≡ none
  first_below n [] h = refl
  first_below n (c ∷ cs) h = ground (arith, first_below n cs)

  choose-best_dynamic :
      (s : Search Handler) (cs : List (Candidate Handler))
      → s.best_dynamic ≤ int_max
      → (choose s cs).best_dynamic
        ≡ (if ltb (fewest cs) s.best_dynamic then fewest cs else s.best_dynamic)
  unfolding choose consider
  choose-best_dynamic s [] h = ground arith
  choose-best_dynamic s (c ∷ cs) h =
      ground (arith, choose-best_dynamic (consider s c.0 c.1) cs, counted c)

  choose-ambiguous :
      (s : Search Handler) (cs : List (Candidate Handler))
      → s.best_dynamic ≤ int_max
      → (choose s cs).ambiguous ≡ (
          if ltb (fewest cs) s.best_dynamic
          then ltb 1 (tally (fewest cs) cs)
          else s.ambiguous || ltb 0 (tally s.best_dynamic cs))
  unfolding choose consider
  choose-ambiguous s [] h = ground arith
  choose-ambiguous s (c ∷ cs) h =
      ground
        (arith, choose-ambiguous (consider s c.0 c.1) cs, tally_below (dynamic c) cs, counted c)

  abbrev pub route_of : Option (Candidate Handler) → Option (Route Handler)
  route_of none = none
  route_of (some c) = some c.0

  abbrev pub params_of : Option (Candidate Handler) → RequestParams
  params_of none = params_reset
  params_of (some c) = record params_reset { path_value = c.1 }

  choose-best :
      (s : Search Handler) (cs : List (Candidate Handler))
      → s.best_dynamic ≤ int_max
      → (choose s cs).best
        ≡ (if ltb (fewest cs) s.best_dynamic then route_of (first_with (fewest cs) cs) else s.best)
  unfolding choose consider
  choose-best s [] h = ground arith
  choose-best s (c ∷ cs) h =
      ground (arith, choose-best (consider s c.0 c.1) cs, first_below (dynamic c) cs, counted c)

  choose-best_params :
      (s : Search Handler) (cs : List (Candidate Handler))
      → s.best_dynamic ≤ int_max
      → (choose s cs).best_params ≡ (
          if ltb (fewest cs) s.best_dynamic
          then params_of (first_with (fewest cs) cs)
          else s.best_params)
  unfolding choose consider
  choose-best_params s [] h = ground arith
  choose-best_params s (c ∷ cs) h =
      ground
        (arith, choose-best_params (consider s c.0 c.1) cs, first_below (dynamic c) cs, counted c)

  first_with-some :
      (n : ℕ) (cs : List (Candidate Handler))
      → 0 < tally n cs
      → (c : Candidate Handler) × (first_with n cs ≡ some c)
  first_with-some n [] h = absurd (omega arith)
  first_with-some n (c ∷ cs) h = elim (Bool-cases (dynamic c == n)) [
    | inl e ↦ rw e (c, refl)
    | inr e ↦ rw e (first_with-some n cs (omega (arith, rw e at h)))
  ]

  -- What the search comes to, said of the candidates as a whole.
  abbrev pub picked : List (Candidate Handler) → Bool → Option (Route Handler) × RequestParams
  picked cs bad =
      let n = tally (fewest cs) cs in
      let first = first_with (fewest cs) cs in
      if n == 1
      then (route_of first, params_of first)
      else (none, record params_reset { invalid = bad || ltb 1 n })

  dynamic-le : (c : Candidate Handler) → dynamic c ≤ max_url
  unfolding dynamic
  dynamic-le c = omega (arith, braces-le (take max_url c.0.url), length-take max_url c.0.url)

  fewest-lt : (c : Candidate Handler) (cs : List (Candidate Handler)) → fewest (c ∷ cs) < int_max
  fewest-lt c cs = ground (arith, dynamic-le c)

  tally-fewest :
      (c : Candidate Handler) (cs : List (Candidate Handler)) → 0 < tally (fewest (c ∷ cs)) (c ∷ cs)
  tally-fewest c [] = ground (arith, fewest-lt c [])
  tally-fewest c (d ∷ cs) = ground (arith, tally-fewest d cs)

  conclude_best :
      (s : Search Handler) (n : ℕ) (first : Option (Candidate Handler)) (c : Candidate Handler)
      → 0 < n
      → first ≡ some c
      → s.best ≡ route_of first
      → s.best_params ≡ params_of first
      → s.ambiguous ≡ ltb 1 n
      → conclude s ≡ (
          if n == 1
          then (route_of first, params_of first)
          else (none, record params_reset { invalid = s.saw_invalid || ltb 1 n }))
  unfolding conclude
  conclude_best s n first c positive found best params ambiguous = ground arith

  conclude-choose :
      (cs : List (Candidate Handler)) (s : Search Handler)
      → Agree s (choose start cs)
      → conclude s ≡ picked cs s.saw_invalid
  unfolding conclude choose
  conclude-choose [] s a = ground (arith, a.best, a.ambiguous)
  conclude-choose (c ∷ cs) s a =
      let n = fewest (c ∷ cs) in
      let below = lt→ltb n int_max (fewest-lt c cs) in
      let (d, found) = first_with-some n (c ∷ cs) (tally-fewest c cs) in
      conclude_best s (tally n (c ∷ cs)) (first_with n (c ∷ cs)) d (tally-fewest c cs) found
        (a.best ∙ choose-best start (c ∷ cs) (omega arith) ∙ rw below)
        (a.best_params ∙ choose-best_params start (c ∷ cs) (omega arith) ∙ rw below)
        (a.ambiguous ∙ choose-ambiguous start (c ∷ cs) (omega arith) ∙ rw below)

  -- A route of the method with a handler would fit, but for a value that is too long.
  pub data TooLongIn (method url : Bytes) : List (Route Handler) → Type 0 where
    here :
        {r : Route Handler} {table : List (Route Handler)}
        → has_handler r ≡ true
        → r.method ≡ method
        → IsTooLong r.url url
        → TooLongIn method url (r ∷ table)
    there :
        {r : Route Handler} {table : List (Route Handler)}
        → TooLongIn method url table
        → TooLongIn method url (r ∷ table)

  any_invalid-TooLongIn :
      (method url : Bytes) (table : List (Route Handler))
      → any_invalid method url table ≡ true
      → TooLongIn method url table
  any_invalid-TooLongIn method url [] e = absurd cc
  any_invalid-TooLongIn method url (r ∷ table) e =
      let this = has_handler r && (str_eq r.method method && is_invalid (path_matches r.url url)) in
      elim (Bool-cases this) [
        | inr other ↦ there (any_invalid-TooLongIn method url table (ground (arith, e, other)))
        | inl bad ↦
            let m : is_invalid (path_matches r.url url) ≡ true = ground (arith, bad) in
            here (ground (arith, bad)) ((str_eq_iff r.method method).0 (ground (arith, bad)))
              ((path_matches-IsTooLong r.url url).0 (is_invalid-invalid _ m))
      ]

  TooLongIn-any_invalid :
      (method url : Bytes) (table : List (Route Handler))
      → TooLongIn method url table
      → any_invalid method url table ≡ true
  TooLongIn-any_invalid method url _ (here {r} {table} present same long) =
      rw (present, (str_eq_iff r.method method).1 same, (path_matches-IsTooLong r.url url).1 long)
  TooLongIn-any_invalid method url _ (there {r} {table} t) =
      ground (arith, TooLongIn-any_invalid method url table t)

  -- `route_find_exact` looks at the routes that have a handler and whose method and pattern fit. If
  -- just one of them has the fewest `{` among the first 128 bytes of its pattern, it returns that
  -- route with its values; otherwise none, with `invalid` set if several share the fewest, or if
  -- there is a route of the method, with a handler, whose pattern fits up to a value of 64 bytes or
  -- more, within the limits of `path_matches`.
  pub route_find_exact-picked :
      (table : List (Route Handler)) (method url : Bytes)
      → (bad : Bool) × ((bad ≡ true) ↔ TooLongIn method url table)
        × (route_find_exact table method url ≡ picked (candidates method url table) bad)
  unfolding route_find_exact
  route_find_exact-picked table method url = (
    any_invalid method url table,
    (any_invalid-TooLongIn method url table, TooLongIn-any_invalid method url table),
    conclude-choose (candidates method url table) _ (
          search_loop-Agree method url table start start
            (record { ambiguous = refl; best_dynamic = refl; best = refl; best_params = refl }))
        ∙ ap (picked (candidates method url table))
            (search_loop-saw_invalid method url table start),
  )
