-- ===== src/Cors/Origin.antt =====
-- The origin that `cors_prepare` of src/server/server_http.c sets.
use mathlib.Core.Path.{subst}
use gargantua.Common.{
  ℕ, ◌<◌, true, false, not, ◌&&◌, ◌||◌, Option, none, some, List, [], ◌∷◌, Bytes, codes, str_eq,
  str_eq_iff, length, take, leb, lt_of_leb-false, ◌==◌, if◌then◌else◌, Bool-cases, some_inj,
  some-ne-none, ◌≡◌, ◌≢◌, inl, inr, refl, sym, ap, ◌∙◌, arith,
}
use gargantua.Http.{HttpHeader, max_headers, header_name_is, skip_blanks, trim_end}
use gargantua.Response.{response_value, value_cap}
use gargantua.Cors.{
  is_found, single_loop, header_single_value, list_contains, origin_allowed, cors_prepare,
}
use gargantua.Cors.Allowed.{items, AnyOf, list_contains_iff}

-- The values of all headers of the name.
abbrev pub values_of : Bytes → List HttpHeader → List Bytes
values_of name [] = []
values_of name (h ∷ hs) =
    if header_name_is h name then h.value ∷ values_of name hs else values_of name hs

-- The loop at a header.
single_loop-taken :
    (name : Bytes) (limit : ℕ) (value : Option Bytes) (h : HttpHeader) (hs : List HttpHeader)
    (r : Option Bytes)
    → header_name_is h name ≡ true
    → single_loop name limit value (h ∷ hs) ≡ some r
    → (is_found value ≡ false)
      × (length h.value < limit)
      × (response_value h.value ≡ true)
      × (single_loop name limit (some h.value) hs ≡ some r)
unfolding single_loop
single_loop-taken name limit value h hs r named e =
    elim (Bool-cases (is_found value || leb limit (length h.value))) [
      | inl bad ↦
          let gone : single_loop name limit value (h ∷ hs) ≡ none = rw (named, bad) refl in
          absurd (some-ne-none (sym e ∙ gone))
      | inr fine ↦ elim (Bool-cases (response_value h.value)) [
        | inl clean ↦
            let made : single_loop name limit value (h ∷ hs)
                ≡ single_loop name limit (some h.value) hs =
              rw (named, fine, clean) refl in
            (ground (arith, fine), lt_of_leb-false _ _ (ground (arith, fine)), clean, sym made ∙ e)
        | inr dirty ↦
            let gone : single_loop name limit value (h ∷ hs) ≡ none =
              rw (named, fine, dirty) refl in
            absurd (some-ne-none (sym e ∙ gone))
      ]
    ]

single_loop-skipped :
    (name : Bytes) (limit : ℕ) (value : Option Bytes) (h : HttpHeader) (hs : List HttpHeader)
    → header_name_is h name ≡ false
    → single_loop name limit value (h ∷ hs) ≡ single_loop name limit value hs
unfolding single_loop
single_loop-skipped name limit value h hs other = rw other refl

single_loop-last :
    (name : Bytes) (limit : ℕ) (v : Bytes) (hs : List HttpHeader) (r : Option Bytes)
    → single_loop name limit (some v) hs ≡ some r
    → (r ≡ some v) × (values_of name hs ≡ [])
unfolding single_loop
single_loop-last name limit v [] r e = (sym (some_inj e), refl)
single_loop-last name limit v (h ∷ hs) r e = elim (Bool-cases (header_name_is h name)) [
  | inl named ↦
      let (none_before, _, _, _) = single_loop-taken name limit (some v) h hs r named e in
      absurd (ground (arith, none_before))
  | inr other ↦
      let (same, rest) =
        single_loop-last name limit v hs r
          (sym (single_loop-skipped name limit (some v) h hs other) ∙ e) in
      (same, rw other rest)
]

abbrev Single : Bytes → ℕ → List HttpHeader → Bytes → Type 0
Single name limit hs v =
    (values_of name hs ≡ v ∷ []) × (length v < limit) × (response_value v ≡ true)

single_loop-Single :
    (name : Bytes) (limit : ℕ) (hs : List HttpHeader) (v : Bytes)
    → single_loop name limit none hs ≡ some (some v)
    → Single name limit hs v
unfolding single_loop
single_loop-Single name limit [] v e = absurd (some-ne-none (sym (some_inj e)))
single_loop-Single name limit (h ∷ hs) v e = elim (Bool-cases (header_name_is h name)) [
  | inl named ↦
      let (_, short, clean, rest) = single_loop-taken name limit none h hs (some v) named e in
      let (same, others) = single_loop-last name limit h.value hs (some v) rest in
      let value : h.value ≡ v = sym (some_inj same) in
      (
        rw (named, others) (ap (λ x. x ∷ []) value),
        subst (λ x. length x < limit) value short,
        subst (λ x. response_value x ≡ true) value clean,
      )
  | inr other ↦
      let (only, short, clean) =
        single_loop-Single name limit hs v
          (sym (single_loop-skipped name limit none h hs other) ∙ e) in
      (rw other only, short, clean)
]

-- `origin` is the only value of the request's `Origin` headers, and the setting `origins` lists it.
pub record IsAllowed (origins : Bytes) (headers : List HttpHeader) (origin : Bytes) : Type 0 where
  pub only : values_of (codes "Origin") (take max_headers headers) ≡ origin ∷ []
  pub short : length origin < value_cap
  pub clean : response_value origin ≡ true
  pub not_all : origin ≢ codes "*"
  pub listed : AnyOf (λ item. trim_end (skip_blanks item) ≡ origin) (items origins)

origin_allowed-IsAllowed :
    (origins before : Bytes) (headers : List HttpHeader) (found : Option (Option Bytes))
    → header_single_value headers (codes "Origin") value_cap ≡ found
    → origin_allowed origins before found ≢ before
    → IsAllowed origins headers (origin_allowed origins before found)
unfolding origin_allowed header_single_value
origin_allowed-IsAllowed origins before headers none e changed = absurd (changed refl)
origin_allowed-IsAllowed origins before headers (some none) e changed = absurd (changed refl)
origin_allowed-IsAllowed origins before headers (some (some origin)) e changed =
    elim (Bool-cases (not (str_eq origin (codes "*")) && list_contains origins origin true)) [
      | inl fine ↦
          let (only, short, clean) =
            single_loop-Single (codes "Origin") value_cap (take max_headers headers) origin e in
          let (named, any) = (list_contains_iff origins origin true).0 (ground (arith, fine)) in
          rw fine (record {
            only = only;
            short = short;
            clean = clean;
            not_all = λ z. ground (arith, fine, (str_eq_iff origin (codes "*")).1 z);
            listed = any;
          })
      | inr bad ↦
          let same : origin_allowed origins before (some (some origin)) ≡ before = rw bad refl in
          absurd (changed same)
    ]

-- Where `cors_prepare` changes the response's origin, the new one is the value of the only `Origin` header among the
-- request's first 64 headers; it fits the response's array and has no control bytes; it is not `*`; and the setting
-- lists it, with nothing around it but blanks and commas.
pub cors_prepare-IsAllowed :
    (origins : Bytes) (headers : List HttpHeader) (before : Bytes)
    → (cors_prepare origins headers before).1 ≢ before
    → IsAllowed origins headers (cors_prepare origins headers before).1
unfolding cors_prepare
cors_prepare-IsAllowed origins headers before changed = elim (Bool-cases (length origins == 0)) [
  | inl off ↦
      let same : (cors_prepare origins headers before).1 ≡ before = rw off refl in
      absurd (changed same)
  | inr set ↦
      let same : (cors_prepare origins headers before).1
          ≡ origin_allowed origins before (header_single_value headers (codes "Origin") value_cap) =
        rw set refl in
      subst (IsAllowed origins headers) (sym same) (
        origin_allowed-IsAllowed origins before headers
          (header_single_value headers (codes "Origin") value_cap) refl (λ z. changed (same ∙ z)))
]
