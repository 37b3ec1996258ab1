-- ===== src/Response/Safe.antt =====
-- What holds of the headers of a response after any calls of the application.
use gargantua.Common.{
  not, ℕ, zero, suc, ◌+◌, ◌≤◌, ◌<◌, true, false, ◌&&◌, ◌||◌, Option, none, some, List, [], ◌∷◌,
  Bytes, codes, strcase_eq, strcase_eq_sym, strcase_eq_congr, ltb, ◌==◌, if◌then◌else◌, length, All,
  ◌≡◌, ◌⊎◌, inl, inr, refl, sym, ◌∙◌, arith, Bool-cases,
}
use mathlib.Core.Path.{subst}
use gargantua.Response.{
  ResponseHeader, Response, max_headers, name_cap, value_cap, response_token, response_value,
  is_reserved_header, index_of, put, accepts, response_header, response_location, response_status,
  response_reset,
}

pub record HeaderIsSafe (h : ResponseHeader) : Type 0 where
  pub token : response_token h.name ≡ true
  pub value : response_value h.value ≡ true
  pub name_fits : length h.name < name_cap
  pub value_fits : length h.value < value_cap
  pub allowed : is_reserved_header h.name ≡ false

abbrev pub Differs : Bytes → ResponseHeader → Type 0
Differs name h = strcase_eq h.name name ≡ false

abbrev pub Distinct : List ResponseHeader → Type 0
Distinct [] = Unit
Distinct (h ∷ hs) = All (Differs h.name) hs × Distinct hs

pub record IsSafe (r : Response) : Type 0 where
  pub headers_safe : All HeaderIsSafe r.headers
  pub distinct : Distinct r.headers
  pub count : length r.headers ≤ max_headers
  pub status : (r.status_override ≡ 0) ⊎ ((200 ≤ r.status_override) × (r.status_override ≤ 599))

accepts-HeaderIsSafe :
    (name value : Bytes)
    → accepts name value ≡ true
    → HeaderIsSafe (record { name = name; value = value })
unfolding accepts
accepts-HeaderIsSafe name value h = record {
  token = ground arith;
  value = ground arith;
  name_fits = ground arith;
  value_fits = ground arith;
  allowed = ground arith;
}

put-All {ℓ} :
    (P : ResponseHeader → Type ℓ) (hs : List ResponseHeader) (i : ℕ) (h : ResponseHeader)
    → All P hs
    → P h
    → All P (put hs i h)
unfolding put
put-All P [] i h a p = (p, tt)
put-All P (x ∷ hs) zero h a p = (p, a.1)
put-All P (x ∷ hs) (suc i) h a p = (a.0, put-All P hs i h a.1 p)

index_of-le : (name : Bytes) (hs : List ResponseHeader) → index_of name hs ≤ length hs
unfolding index_of
index_of-le name [] = omega arith
index_of-le name (h ∷ hs) = ground (arith, index_of-le name hs)

-- Writing over the header of the name, or behind the last, step by step.
abbrev write : Bytes → ResponseHeader → List ResponseHeader → List ResponseHeader
write name h [] = h ∷ []
write name h (x ∷ hs) = if strcase_eq x.name name then h ∷ hs else x ∷ write name h hs

put-write :
    (name : Bytes) (h : ResponseHeader) (hs : List ResponseHeader)
    → put hs (index_of name hs) h ≡ write name h hs
unfolding put index_of
put-write name h [] = refl
put-write name h (x ∷ hs) = ground (arith, put-write name h hs)

length-write :
    (name : Bytes) (h : ResponseHeader) (hs : List ResponseHeader)
    → length (write name h hs)
      ≡ (if index_of name hs == length hs then length hs + 1 else length hs)
unfolding index_of
length-write name h [] = refl
length-write name h (x ∷ hs) = ground (arith, length-write name h hs, index_of-le name hs)

Differs-write :
    (name other value : Bytes) (hs : List ResponseHeader)
    → strcase_eq name other ≡ false
    → All (Differs other) hs
    → All (Differs other) (write name (record { name = name; value = value }) hs)
Differs-write name other value [] d a = (d, tt)
Differs-write name other value (x ∷ hs) d a = elim (Bool-cases (strcase_eq x.name name)) [
  | inl e ↦ rw e (d, a.1)
  | inr e ↦ rw e (a.0, Differs-write name other value hs d a.1)
]

Differs-congr :
    (a b : Bytes) (hs : List ResponseHeader)
    → strcase_eq a b ≡ true
    → All (Differs a) hs
    → All (Differs b) hs
Differs-congr a b [] e d = tt
Differs-congr a b (x ∷ hs) e d = (
  ground
      (arith, strcase_eq_congr a b x.name e, strcase_eq_sym x.name a, strcase_eq_sym x.name b, d.0),
  Differs-congr a b hs e d.1,
)

write-Distinct :
    (name value : Bytes) (hs : List ResponseHeader)
    → Distinct hs
    → Distinct (write name (record { name = name; value = value }) hs)
write-Distinct name value [] d = (tt, tt)
write-Distinct name value (x ∷ hs) d = elim (Bool-cases (strcase_eq x.name name)) [
  | inl e ↦ rw e (Differs-congr x.name name hs e d.0, d.1)
  | inr e ↦ rw e (
    Differs-write name x.name value hs (sym (strcase_eq_sym x.name name) ∙ e) d.0,
    write-Distinct name value hs d.1,
  )
]

response_header-IsSafe :
    (name value : Bytes) (r : Response) → IsSafe r → IsSafe (response_header name value r).1
unfolding response_header
response_header-IsSafe name value r s = elim (Bool-cases (accepts name value)) [
  | inr refused ↦ rw refused s
  | inl good ↦ elim (Bool-cases (index_of name r.headers == max_headers)) [
    | inl full ↦ rw (good, full) s
    | inr room ↦
        let h : ResponseHeader = record { name = name; value = value } in
        let written = put-write name h r.headers in
        rw (good, room)
          (record {
            headers_safe =
                put-All HeaderIsSafe r.headers _ h s.headers_safe
                  (accepts-HeaderIsSafe name value good);
            distinct =
                subst Distinct (sym written) (write-Distinct name value r.headers s.distinct);
            count = ground (
              arith,
              written,
              length-write name h r.headers,
              index_of-le name r.headers,
              s.count,
            );
            status = s.status;
          })
  ]
]

response_status-IsSafe : (code : ℕ) (r : Response) → IsSafe r → IsSafe (response_status code r).1
unfolding response_status
response_status-IsSafe code r s = elim (Bool-cases (ltb code 200 || ltb 599 code)) [
  | inl bad ↦ rw bad s
  | inr good ↦ rw good (record {
    headers_safe = s.headers_safe;
    distinct = s.distinct;
    count = s.count;
    status = inr (ground arith, ground arith);
  })
]

-- What the application and the framework can call.
pub data Call : Type 0 where
  header : Bytes → Bytes → Call
  location : Bytes → Call
  status : ℕ → Call
  reset : Call

abbrev pub perform : Call → Response → Response
perform (header name value) r = (response_header name value r).1
perform (location value) r = (response_location value r).1
perform (status code) r = (response_status code r).1
perform reset r = response_reset r

abbrev pub perform_all : List Call → Response → Response
perform_all [] r = r
perform_all (c ∷ cs) r = perform_all cs (perform c r)

perform-IsSafe : (c : Call) (r : Response) → IsSafe r → IsSafe (perform c r)
unfolding response_location response_reset
perform-IsSafe (header name value) r s = response_header-IsSafe name value r s
perform-IsSafe (location value) r s = response_header-IsSafe (codes "Location") value r s
perform-IsSafe (status code) r s = response_status-IsSafe code r s
perform-IsSafe reset r s = record {
  headers_safe = tt;
  distinct = tt;
  count = omega arith;
  status = inl refl;
}

-- After any calls, from a state that is safe, there are at most 16 headers with different names,
-- none of them reserved, each name a token and each value free of control bytes but tabs, both
-- inside their arrays; and the status is unset or from 200 to 599.
pub perform_all-IsSafe :
    (calls : List Call) (r : Response) → IsSafe r → IsSafe (perform_all calls r)
perform_all-IsSafe [] r s = s
perform_all-IsSafe (c ∷ cs) r s = perform_all-IsSafe cs (perform c r) (perform-IsSafe c r s)

-- The value of the header with this name, whatever the letters' case.
abbrev pub find : Bytes → List ResponseHeader → Option Bytes
find name [] = none
find name (h ∷ hs) = if strcase_eq h.name name then some h.value else find name hs

find-write :
    (name value other : Bytes) (hs : List ResponseHeader)
    → find other (write name (record { name = name; value = value }) hs)
      ≡ (if strcase_eq name other then some value else find other hs)
find-write name value other [] = refl
find-write name value other (x ∷ hs) = elim (Bool-cases (strcase_eq x.name name)) [
  | inl e ↦ rw e (ground (arith, strcase_eq_congr x.name name other e))
  | inr e ↦ rw e (
      ground (
        arith,
        find-write name value other hs,
        strcase_eq_congr name other x.name,
        strcase_eq_sym name x.name,
        strcase_eq_sym other x.name,
      ))
]

response_header-refused :
    (name value : Bytes) (r : Response)
    → ((response_header name value r).1.status_override ≡ r.status_override)
      × ((response_header name value r).0 ≡ false → (response_header name value r).1 ≡ r)
unfolding response_header
response_header-refused name value r = elim (Bool-cases (not (accepts name value))) [
  | inl bad ↦ rw bad (refl, λ e. refl)
  | inr good ↦ elim (Bool-cases (index_of name r.headers == max_headers)) [
    | inl full ↦ rw (good, full) (refl, λ e. refl)
    | inr room ↦ rw (good, room) (refl, λ e. absurd cc)
  ]
]

-- Where `response_header` succeeds, a header of that name reads back with the new value, and every
-- other name reads as before, and the status is as before; where it fails, nothing changes.
pub find-response_header :
    (name value other : Bytes) (r : Response)
    → let (done, r') = response_header name value r in
      (find other r'.headers
        ≡ (if done && strcase_eq name other then some value else find other r.headers))
      × (r'.status_override ≡ r.status_override)
      × (done ≡ false → r' ≡ r)
unfolding response_header
find-response_header name value other r =
    let (kept_status, unchanged) = response_header-refused name value r in
    (
      ground (
        arith,
        put-write name (record { name = name; value = value }) r.headers,
        find-write name value other r.headers,
      ),
      kept_status,
      unchanged,
    )
