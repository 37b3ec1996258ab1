-- ===== src/Auth/Gate.antt =====
-- `auth_bind` and `auth_gate` of src/runtime/auth.c.
use mathlib.Core.Path.{subst}
use gargantua.Common.{
  ◌≤◌, ◌<◌, Bool, true, false, not, ◌&&◌, ◌||◌, Option, none, some, List, [], ◌∷◌, Bytes, codes,
  str_eq, str_eq_iff, strcase_starts, length, drop, all, leb, ◌==◌, ◌≡◌, ◌≢◌, ◌↔◌, ◌⊎◌, inl, inr,
  refl, sym, ap, ◌∙◌, arith, Bool-cases, some-ne-none,
}
use gargantua.Http.{HttpHeader}
use gargantua.Http.Parse.{http_find_header}
use gargantua.Auth.{
  ℤ, pos, negsuc, is_positive, is_zero, token_cap, State, Login, is_token_letter, secret_equals,
  auth_reset, bind_value, auth_bind, auth_gate,
}
use gargantua.Auth.Secret.{secret_equals_iff}

-- What a stored token is: not set, or 32 to 255 visible characters.
abbrev pub TokenIsValid : Bytes → Type 0
TokenIsValid t =
    (t ≡ []) ⊎ ((32 ≤ length t) × (length t < token_cap) × (all is_token_letter t ≡ true))

pub record IsValid (s : State) : Type 0 where
  pub token_valid : TokenIsValid s.token
  pub admin_valid : TokenIsValid s.admin_token
  pub distinct : (s.token ≡ []) ⊎ (s.token ≢ s.admin_token)
  pub some_token : (s.enabled ≡ false) ⊎ (s.token ≢ []) ⊎ (s.admin_token ≢ [])
  pub user_positive : is_positive s.user ≡ true
  pub admin_positive : is_positive s.admin ≡ true

TokenIsValid-short : (t : Bytes) → TokenIsValid t → length t < token_cap
TokenIsValid-short t (inl e) = rw e (omega arith)
TokenIsValid-short t (inr v) = v.1

positive-nonzero : (n : ℤ) → is_positive n ≡ true → is_zero n ≡ false
positive-nonzero (pos n) p = ground (arith, p)
positive-nonzero (negsuc n) p = refl

pub true-ne-false : true ≡ false → ⊥
true-ne-false e = cc

-- The header value `v` carries the credential `t`: it is longer than "Bearer " and starts with it, in
-- any case, and `t` is the rest.
abbrev pub Presents : Option Bytes → Bytes → Type 0
Presents none t = ⊥
Presents (some p) t = (7 < length p) × (strcase_starts (codes "Bearer ") p ≡ true) × (t ≡ drop 7 p)

abbrev pub admin_login : State → Login
admin_login s = record { user = s.admin; role = codes "admin" }

abbrev pub user_login : State → Login
user_login s = record { user = s.user; role = codes "user" }

-- The three outcomes of `bind_value`.
abbrev AsAdmin : State → Option Bytes → Type 0
AsAdmin s v = Presents v s.admin_token × (s.admin_token ≢ []) × (bind_value s v ≡ admin_login s)

abbrev AsUser : State → Option Bytes → Type 0
AsUser s v =
    Presents v s.token
    × (s.token ≢ [])
    × (s.token ≢ s.admin_token)
    × (bind_value s v ≡ user_login s)

abbrev AsNobody : State → Option Bytes → Type 0
AsNobody s v =
    ((Presents v s.admin_token × (s.admin_token ≢ [])) ⊎ (Presents v s.token × (s.token ≢ [])) → ⊥)
    × (bind_value s v ≡ auth_reset)

bind_value-cases :
    (s : State) (v : Option Bytes) → IsValid s → AsAdmin s v ⊎ AsUser s v ⊎ AsNobody s v
unfolding bind_value
bind_value-cases s none w = inr (inr (λ h. elim h [ inl (p, e) ↦ p | inr (p, e) ↦ p ], refl))
bind_value-cases s (some p) w =
    elim (Bool-cases (leb (length p) 7 || not (strcase_starts (codes "Bearer ") p))) [
      | inl bad ↦ inr (
          inr (
            λ h. elim h [
              | inl ((a, b, c), e) ↦ refused bad a b
              | inr ((a, b, c), e) ↦ refused bad a b
            ],
            rw bad refl,
          ))
      | inr good ↦
          let long : (7 < length p) × (strcase_starts (codes "Bearer ") p ≡ true) =
            ground (arith, good) in
          let admin =
            secret_equals_iff (drop 7 p) s.admin_token
              (TokenIsValid-short s.admin_token w.admin_valid) in
          let user =
            secret_equals_iff (drop 7 p) s.token (TokenIsValid-short s.token w.token_valid) in
          elim (Bool-cases (secret_equals (drop 7 p) s.admin_token)) [
            | inl same_token ↦ inl (
              (long.0, long.1, sym (admin.0 same_token).0),
              (admin.0 same_token).1,
              rw (good, same_token) refl,
            )
            | inr not_admin ↦ elim (Bool-cases (secret_equals (drop 7 p) s.token)) [
              | inl same_token ↦ inr (
                  inl (
                    (long.0, long.1, sym (user.0 same_token).0),
                    (user.0 same_token).1,
                    λ same. false-ne-true (
                        sym not_admin
                        ∙ admin.1 (
                          (user.0 same_token).0 ∙ same,
                          λ empty. (user.0 same_token).1 (same ∙ empty),
                        )),
                    rw (good, not_admin, same_token) refl,
                  ))
              | inr neither ↦ inr (
                  inr (
                    λ h. elim h [
                      | inl ((a, b, c), e) ↦ false-ne-true (sym not_admin ∙ admin.1 (sym c, e))
                      | inr ((a, b, c), e) ↦ false-ne-true (sym neither ∙ user.1 (sym c, e))
                    ],
                    rw (good, not_admin, neither) refl,
                  ))
            ]
          ]
    ]
  where
    false-ne-true : false ≡ true → ⊥
    false-ne-true e = cc

    refused :
        (leb (length p) 7 || not (strcase_starts (codes "Bearer ") p)) ≡ true
        → 7 < length p
        → strcase_starts (codes "Bearer ") p ≡ true
        → ⊥
    refused bad long bearer = ground (arith, bad, long, bearer)

abbrev pub MayTake : Bytes → Bytes → Type 0
MayTake role held = (role ≡ []) ⊎ (role ≡ held)

length-zero : (t : Bytes) → t ≢ [] → (length t == 0) ≡ false
length-zero [] set = absurd (set refl)
length-zero (x ∷ t) set = ground arith

-- The test of the role.
role_test_iff :
    (role held : Bytes)
    → ((not (length role == 0) && not (str_eq role held)) ≡ false) ↔ MayTake role held
role_test_iff [] held = (λ h. inl refl, λ h. refl)
role_test_iff (c ∷ role) held = elim (Bool-cases (str_eq (c ∷ role) held)) [
  | inl same ↦ (λ h. inr ((str_eq_iff (c ∷ role) held).0 same), λ h. ground (arith, same))
  | inr other ↦ (
    λ h. absurd (ground (arith, h, other)),
    λ h. elim h [
      | inl e ↦ absurd (omega (arith, ap length e))
      | inr e ↦ absurd (true-ne-false (sym ((str_eq_iff (c ∷ role) held).1 e) ∙ other))
    ],
  )
]

-- A route that is not open to all.
abbrev pub IsGuarded : State → Bytes → Bool → Type 0
IsGuarded s role required = (s.enabled ≡ true) ⊎ (required ≡ true) ⊎ (role ≢ [])

guarded_test :
    (s : State) (role : Bytes) (required : Bool)
    → IsGuarded s role required
    → (not required && not s.enabled && length role == 0) ≡ false
guarded_test s role required (inl e) = ground (arith, e)
guarded_test s role required (inr (inl e)) = ground (arith, e)
guarded_test s role required (inr (inr set)) = ground (arith, length-zero role set)

-- The gate of a guarded route.
auth_gate-guarded :
    (s : State) (l : Login) (role : Bytes) (required : Bool)
    → IsGuarded s role required
    → (auth_gate s l false role required ≡ none) ↔ ((is_zero l.user ≡ false) × MayTake role l.role)
unfolding auth_gate
auth_gate-guarded s l role required g =
    let guarded = guarded_test s role required g in
    let test = role_test_iff role l.role in
    elim (Bool-cases (is_zero l.user)) [
      | inl nobody ↦
          let gate : auth_gate s l false role required ≡ some 401 = rw (guarded, nobody) refl in
          (
            λ e. absurd (some-ne-none (sym gate ∙ e)),
            λ h. absurd (true-ne-false (sym nobody ∙ h.0)),
          )
      | inr somebody ↦ elim (Bool-cases (not (length role == 0) && not (str_eq role l.role))) [
        | inl wrong ↦
            let gate : auth_gate s l false role required ≡ some 403 =
              rw (guarded, somebody, wrong) refl in
            (
              λ e. absurd (some-ne-none (sym gate ∙ e)),
              λ h. absurd (true-ne-false (sym wrong ∙ test.1 h.1)),
            )
        | inr right ↦ (λ e. (somebody, test.0 right), λ h. rw (guarded, somebody, right) refl)
      ]
    ]

-- Who may pass: the admin's token, or the user's, whose role the route asks for, if for any.
abbrev pub IsAuthorized : State → Option Bytes → Bytes → Type 0
IsAuthorized s v role =
    (Presents v s.admin_token × (s.admin_token ≢ []) × MayTake role (codes "admin"))
    ⊎ (Presents v s.token
        × (s.token ≢ [])
        × (s.token ≢ s.admin_token)
        × MayTake role (codes "user"))

Presents-unique : (v : Option Bytes) (t u : Bytes) → Presents v t → Presents v u → t ≡ u
Presents-unique none t u a b = absurd a
Presents-unique (some p) t u (l, m, a) (l', m', b) = a ∙ sym b

bind_value-gate :
    (s : State) (v : Option Bytes) (role : Bytes) (required : Bool)
    → IsValid s
    → IsGuarded s role required
    → (auth_gate s (bind_value s v) false role required ≡ none) ↔ IsAuthorized s v role
unfolding auth_reset
bind_value-gate s v role required w g = elim (bind_value-cases s v w) [
  | inl (shown, set, e) ↦
      let gate = auth_gate-guarded s (admin_login s) role required g in
      (
        λ h. inl (shown, set, (gate.0 (subst passes e h)).1),
        λ h. subst passes (sym e) (
            gate.1 (
              positive-nonzero s.admin w.admin_positive,
              elim h [
                | inl (a, b, may) ↦ may
                | inr (a, b, differ, may) ↦ absurd (differ (Presents-unique v _ _ a shown))
              ],
            )),
      )
  | inr (inl (shown, set, other, e)) ↦
      let gate = auth_gate-guarded s (user_login s) role required g in
      (
        λ h. inr (shown, set, other, (gate.0 (subst passes e h)).1),
        λ h. subst passes (sym e) (
            gate.1 (
              positive-nonzero s.user w.user_positive,
              elim h [
                | inl (a, b, may) ↦ absurd (other (Presents-unique v _ _ shown a))
                | inr (a, b, differ, may) ↦ may
              ],
            )),
      )
  | inr (inr (nobody, e)) ↦
      let gate = auth_gate-guarded s auth_reset role required g in
      (
        λ h. absurd (true-ne-false (gate.0 (subst passes e h)).0),
        λ h. absurd (
            nobody
              (elim h [ inl (a, b, may) ↦ inl (a, b) | inr (a, b, differ, may) ↦ inr (a, b) ])),
      )
]
  where
    passes : Login → Type 0
    passes l = auth_gate s l false role required ≡ none

-- With valid settings, a guarded route (one behind `security.enabled`, marked as authenticated, or
-- with a role, and not public) lets a request pass exactly when its first `Authorization` header is a
-- `Bearer` one that carries the admin's token or the user's, which is set, and the role of that
-- token is the one that the route asks for, if it asks for any.
pub auth_gate-IsAuthorized :
    (s : State) (headers : List HttpHeader) (role : Bytes) (required : Bool)
    → IsValid s
    → IsGuarded s role required
    → (auth_gate s (auth_bind s (some headers)) false role required ≡ none)
      ↔ IsAuthorized s (http_find_header headers (codes "Authorization")) role
unfolding auth_bind
auth_gate-IsAuthorized s headers role required w g =
    bind_value-gate s (http_find_header headers (codes "Authorization")) role required w g
