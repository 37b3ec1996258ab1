-- ===== src/Route/Allow.antt =====
-- `route_allow` of src/http/route.c: the value of an Allow header, in a buffer of `cap` bytes.
use gargantua.Common.{
  ℕ, ◌+◌, Bool, true, false, not, ◌&&◌, ◌||◌, none, some, List, [], ◌∷◌, ◌++◌, Bytes, codes, str_eq,
  leb, ◌==◌, if◌then◌else◌, length,
}
use gargantua.Route.{Route, route_find}

abbrev pub methods : List Bytes
methods =
    codes "GET"
    ∷ codes "HEAD"
    ∷ codes "POST"
    ∷ codes "PUT"
    ∷ codes "PATCH"
    ∷ codes "DELETE"
    ∷ codes "OPTIONS"
    ∷ []

-- 1 with the text, 0, or -1.
pub data AllowResult : Type 0 where
  allowed : Bytes → AllowResult
  unknown : AllowResult
  refused : AllowResult

module _ {Handler : Type 0} where
  -- The loop over the methods: `out` is the text so far.
  unfoldable pub allow_loop :
      List (Route Handler) → Bytes → ℕ → List Bytes → Bytes → Bool → Bool → AllowResult
  unfolding str_eq
  allow_loop table url size [] out found invalid =
      if found then allowed out else if invalid then refused else unknown
  allow_loop table url size (m ∷ ms) out found invalid =
      let (route, params) = route_find table m url in
      let invalid' : Bool = elim route [ none ↦ invalid || params.invalid | some _ ↦ invalid ] in
      let has_route : Bool = elim route [ none ↦ false | some _ ↦ true ] in
      let separator = if length out == 0 then [] else codes ", " in
      let skip = allow_loop table url size ms out found invalid' in
      let next = allow_loop table url size ms (out ++ (separator ++ m)) true invalid' in
      if not has_route && not (str_eq m (codes "OPTIONS") && found)
      then skip
      else if leb size (length out + length separator + length m)
      then refused
      else next

  unfoldable pub route_allow : List (Route Handler) → Bytes → ℕ → AllowResult
  unfolding allow_loop
  route_allow table url size =
      if size == 0 then refused else allow_loop table url size methods [] false false
