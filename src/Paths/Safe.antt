-- ===== src/Paths/Safe.antt =====
-- `split_path` of src/server/server_http.c.
use mathlib.Core.Path.{subst}
use gargantua.Common.{
  ℕ, zero, suc, ◌<◌, Bool, true, false, not, ◌&&◌, ◌||◌, Option, none, some, List, [], ◌∷◌, ◌++◌,
  Bytes, codes, contains, str_eq, length, ◌==◌, if◌then◌else◌, ◌>>=◌, ◌>>◌, guard, >>=-eq-some,
  guard-eq-some, some_inj, Bool-cases, ◌≡◌, ◌≢◌, ◌⊎◌, inl, inr, refl, sym, ap, ◌∙◌, arith, All,
  ==_iff,
}
use gargantua.Paths.{
  max_text, hex_digit_value, url_decode, split_query, encoded_slash_here, has_encoded_slash,
  next_part, bad_part, parts_loop, path_is_clean, split_path,
}
use gargantua.Paths.Decode.{
  HexDigit-hex_digit_value, Escapes, Decodes, nothing, plain, escape, url_decode_iff,
}

-- The pieces between the slashes.
abbrev cons_first : ℕ → List Bytes → List Bytes
cons_first c [] = (c ∷ []) ∷ []
cons_first c (p ∷ ps) = (c ∷ p) ∷ ps

abbrev pub pieces : Bytes → List Bytes
pieces [] = [] ∷ []
pieces (c ∷ s) = if c == b'/' then [] ∷ pieces s else cons_first c (pieces s)

abbrev pub slashes : Bytes → ℕ
slashes [] = 0
slashes (c ∷ s) = if c == b'/' then suc (slashes s) else slashes s

-- A name that stays in its directory.
abbrev pub IsName : Bytes → Type 0
IsName p = (p ≢ []) × (p ≢ codes ".") × (p ≢ codes "..") × (contains p b'/' ≡ false)

abbrev pub Next : Bytes → Bytes × Option Bytes → Type 0
Next s (p, none) = (pieces s ≡ p ∷ []) × (contains p b'/' ≡ false)
Next s (p, some r) = (pieces s ≡ p ∷ pieces r) × (contains p b'/' ≡ false) × (length r < length s)

pub next_part-Next : (s : Bytes) → Next s (next_part s)
unfolding next_part contains
next_part-Next [] = (refl, refl)
next_part-Next (c ∷ s) = elim (Bool-cases (c == b'/')) [
  | inl slash ↦
      let made : next_part (c ∷ s) ≡ ([], some s) = rw slash refl in
      subst (Next (c ∷ s)) (sym made) (rw slash refl, refl, omega arith)
  | inr other ↦
      let made : next_part (c ∷ s) ≡ (c ∷ (next_part s).0, (next_part s).1) = rw other refl in
      subst (Next (c ∷ s)) (sym made) (Next-cons c s (next_part s) other (next_part-Next s))
]
  where
    Next-cons :
        (c : ℕ) (s : Bytes) (r : Bytes × Option Bytes)
        → (c == b'/') ≡ false
        → Next s r
        → Next (c ∷ s) (c ∷ r.0, r.1)
    Next-cons c s (p, none) other (e, no_slash) = (rw (other, e) refl, rw (other, no_slash) refl)
    Next-cons c s (p, some r) other (e, no_slash, shorter) =
        (rw (other, e) refl, rw (other, no_slash) refl, omega (arith, shorter))

true-ne-false : true ≡ false → ⊥
true-ne-false e = cc

or-false : (a b : Bool) → a || b ≡ false → (a ≡ false) × (b ≡ false)
or-false a b h = ground (arith, h)

not-true : (b : Bool) → not b ≡ true → b ≡ false
not-true b h = ground (arith, h)

and-true : (a b : Bool) → a && b ≡ true → (a ≡ true) × (b ≡ true)
and-true a b h = ground (arith, h)

bad_part-IsName : (p : Bytes) → not (bad_part p) ≡ true → contains p b'/' ≡ false → IsName p
unfolding bad_part
bad_part-IsName p h no_slash = (
  λ e. bad (ap bad_part e),
  λ e. bad (ap bad_part e ∙ (unfold str_eq in refl)),
  λ e. bad (ap bad_part e ∙ (unfold str_eq in refl)),
  no_slash,
)
  where
    bad : bad_part p ≡ true → ⊥
    bad e = let no_more : not (bad_part p) ≡ false = ap not e in cc

parts_rest-IsName :
    (rounds : ℕ) (s : Bytes) (r : Bytes × Option Bytes)
    → Next s r
    → ((t : Bytes) → parts_loop rounds t ≡ true → All IsName (pieces t))
    → (not (bad_part r.0)
        && elim r.1 [ none ↦ true | some t ↦ not (length t == 0) && parts_loop rounds t ])
      ≡ true
    → All IsName (pieces s)
parts_rest-IsName rounds s (p, none) (e, no_slash) ih h =
    let (good, _) = and-true (not (bad_part p)) true h in rw e (bad_part-IsName p good no_slash, tt)
parts_rest-IsName rounds s (p, some t) (e, no_slash, shorter) ih h =
    let (good, more) = and-true (not (bad_part p)) (not (length t == 0) && parts_loop rounds t) h in
    let (some_left, rest) = and-true (not (length t == 0)) (parts_loop rounds t) more in
    rw e (bad_part-IsName p good no_slash, ih t rest)

parts_loop-IsName : (rounds : ℕ) (s : Bytes) → parts_loop rounds s ≡ true → All IsName (pieces s)
unfolding parts_loop
parts_loop-IsName zero s h = absurd (true-ne-false (sym h))
parts_loop-IsName (suc rounds) s h =
    parts_rest-IsName rounds s (next_part s) (next_part-Next s) (parts_loop-IsName rounds) h

-- An escape that is not one of those refused gives no slash, and none is lost.
slash-Escapes :
    (c a b n : ℕ) (s : Bytes)
    → c ≡ b'%'
    → Escapes a b n
    → encoded_slash_here (c ∷ a ∷ b ∷ s) ≡ false
    → n ≢ b'/'
unfolding encoded_slash_here hex_digit_value
slash-Escapes c a b n s percent e h same = ground (
  arith,
  percent,
  (HexDigit-hex_digit_value a e.hi e.hi_digit),
  (HexDigit-hex_digit_value b e.lo e.lo_digit),
  e.value,
  h,
  same,
)

digit-ne-slash : (a h : ℕ) → hex_digit_value a ≡ some h → (a == b'/') ≡ false
unfolding hex_digit_value
digit-ne-slash a h e = ground (arith, e)

Decodes-slashes : {s t : Bytes} → Decodes s t → has_encoded_slash s ≡ false → slashes t ≡ slashes s
unfolding has_encoded_slash
Decodes-slashes nothing h = refl
Decodes-slashes (plain {c} {s} {t} p d) h =
    let (here, later) = or-false (encoded_slash_here (c ∷ s)) (has_encoded_slash s) h in
    rw (Decodes-slashes d later) refl
Decodes-slashes (escape {c} {a} {b} {n} {s} {t} p e d) h =
    let (here, h') =
      or-false (encoded_slash_here (c ∷ a ∷ b ∷ s)) (has_encoded_slash (a ∷ b ∷ s)) h in
    let (_, h'') = or-false (encoded_slash_here (a ∷ b ∷ s)) (has_encoded_slash (b ∷ s)) h' in
    let (_, later) = or-false (encoded_slash_here (b ∷ s)) (has_encoded_slash s) h'' in
    let no_slash : (n == b'/') ≡ false = ground (arith, slash-Escapes c a b n s p e here) in
    let percent : (c == b'/') ≡ false = ground (arith, p) in
    rw
      (
        no_slash,
        percent,
        digit-ne-slash a e.hi (HexDigit-hex_digit_value a e.hi e.hi_digit),
        digit-ne-slash b e.lo (HexDigit-hex_digit_value b e.lo e.lo_digit),
      )
      (Decodes-slashes d later)

-- A path that `split_path` accepts, `p` decoded and `query` behind it.
-- The query is what stands behind the first `?`, which `before` is in front of.
abbrev pub QueryAt : Bytes → Bytes → Option Bytes → Type 0
QueryAt path before none = (path ≡ before) × All (λ c. c ≢ b'?') before
QueryAt path before (some q) = (path ≡ before ++ (b'?' ∷ q)) × All (λ c. c ≢ b'?') before

QueryAt-cons :
    (c : ℕ) (path before : Bytes) (query : Option Bytes)
    → c ≢ b'?'
    → QueryAt path before query
    → QueryAt (c ∷ path) (c ∷ before) query
QueryAt-cons c path before none other (same, none_there) = (ap (◌∷◌ c) same, (other, none_there))
QueryAt-cons c path before (some q) other (same, none_there) =
    (ap (◌∷◌ c) same, (other, none_there))

split_query-QueryAt : (path : Bytes) → QueryAt path ((split_query path).0) ((split_query path).1)
unfolding split_query
split_query-QueryAt [] = (refl, tt)
split_query-QueryAt (c ∷ path) = elim (Bool-cases (c == b'?')) [
  | inl mark ↦ rw mark (ap (λ d. d ∷ path) ((==_iff c b'?').0 mark), tt)
  | inr other ↦
      rw other (QueryAt-cons c path _ _ (ground (arith, other)) (split_query-QueryAt path))
]

pub record Splits (path p : Bytes) (query : Option Bytes) : Type 0 where
  pub before : Bytes
  pub split : QueryAt path before query
  pub decoded : Decodes before p
  pub rest : Bytes
  pub rooted : p ≡ b'/' ∷ rest
  pub names : (rest ≡ []) ⊎ All IsName (pieces rest)
  pub no_backslash : contains p b'\\' ≡ false
  pub same_slashes : slashes p ≡ slashes before

or-names :
    (s : Bytes)
    → (length s == 0 || parts_loop (length s) s) ≡ true
    → (s ≡ []) ⊎ All IsName (pieces s)
or-names [] h = inl refl
or-names (c ∷ s) h =
    let more : (length (c ∷ s) == 0) ≡ false = ground arith in
    let loop : parts_loop (length (c ∷ s)) (c ∷ s) ≡ true = rw more at h in
    inr (parts_loop-IsName (length (c ∷ s)) (c ∷ s) loop)

path_is_clean-names :
    (p : Bytes)
    → path_is_clean p ≡ true
    → (rest : Bytes) × (p ≡ b'/' ∷ rest)
      × ((rest ≡ []) ⊎ All IsName (pieces rest))
      × (contains p b'\\' ≡ false)
unfolding path_is_clean
path_is_clean-names [] h = absurd (true-ne-false (sym h))
path_is_clean-names (c ∷ s) h =
    let (h', h'') =
      and-true (not (contains (c ∷ s) b'\\') && c == b'/')
        (length s == 0 || parts_loop (length s) s) h in
    let (clean, slash) = and-true (not (contains (c ∷ s) b'\\')) (c == b'/') h' in
    (
      s,
      ap (λ d. d ∷ s) ((==_iff c b'/').0 slash),
      or-names s h'',
      not-true (contains (c ∷ s) b'\\') clean,
    )

-- Where `split_path` accepts a path of less than 1 MiB, the part in front of the first `?` stands for
-- the path that it returns, which begins with a slash and has as many slashes, so that no slash comes
-- from an escape; it has no backslash; and but for the path `/`, all pieces between its slashes are
-- names: not empty, not `.` and not `..`.
pub split_path-Splits :
    (path p : Bytes) (query : Option Bytes)
    → length (split_query path).0 < max_text
    → split_path path ≡ some (p, query)
    → Splits path p query
unfolding split_path
split_path-Splits path p query small e =
    let before = (split_query path).0 in
    let query' = (split_query path).1 in
    let (_, e1) =
      guard-eq-some (not (contains before b'\\'))
        (guard (not (has_encoded_slash before))
          >> (do t ← url_decode before; guard (path_is_clean t); some (t, query')))
        e in
    let (no_escape, e2) =
      guard-eq-some (not (has_encoded_slash before))
        (do t ← url_decode before; guard (path_is_clean t); some (t, query')) e1 in
    let (t, et, e3) =
      >>=-eq-some (url_decode before) (λ t. guard (path_is_clean t) >> some (t, query')) e2 in
    let (clean, e4) = guard-eq-some (path_is_clean t) (some (t, query')) e3 in
    let same_path : t ≡ p = ap (λ r. r.0) (some_inj e4) in
    let same_query : query' ≡ query = ap (λ r. r.1) (some_inj e4) in
    let decoded : Decodes before t = (url_decode_iff before t small).0 et in
    let (rest, rooted, names, no_backslash) = path_is_clean-names t clean in
    rw (← same_path) (record {
      before = before;
      split = subst (QueryAt path before) same_query (split_query-QueryAt path);
      decoded = decoded;
      rest = rest;
      rooted = rooted;
      names = names;
      no_backslash = no_backslash;
      same_slashes = Decodes-slashes decoded (not-true (has_encoded_slash before) no_escape);
    })
