-- ===== src/Auth/Setup.antt =====
-- `auth_init` of src/runtime/auth.c.
use mathlib.Core.Path.{subst}
use gargantua.Common.{
  Bool, true, false, not, ◌&&◌, ◌||◌, Option, none, some, [], ◌∷◌, Bytes, codes, str_eq, str_eq_iff,
  length, all, ltb, leb, ◌==◌, ◌≡◌, ◌≢◌, ◌⊎◌, inl, inr, refl, sym, ap, ◌∙◌, arith, Bool-cases,
  some_inj, some-ne-none,
}
use gargantua.Auth.{
  ℤ, pos, is_positive, token_cap, Settings, State, is_token_letter, token_copy, check_tokens,
  copy_admin_token, copy_token, auth_init,
}
use gargantua.Auth.Gate.{IsValid, TokenIsValid, true-ne-false}

token_copy-Valid : (value t : Bytes) → token_copy value ≡ some t → TokenIsValid t
unfolding token_copy
token_copy-Valid value t e = elim (Bool-cases (length value == 0)) [
  | inl empty ↦
      let made : token_copy value ≡ some [] = rw empty refl in inl (some_inj (sym e ∙ made))
  | inr full ↦
      elim (Bool-cases (
        ltb (length value) 32 || leb token_cap (length value) || not (all is_token_letter value))) [
          | inl bad ↦
              let gone : token_copy value ≡ none = ground (arith, full, bad) in
              absurd (some-ne-none (sym e ∙ gone))
          | inr good ↦
              let made : token_copy value ≡ some value = ground (arith, full, good) in
              subst TokenIsValid (some_inj (sym made ∙ e))
                (inr (ground (arith, good), ground (arith, good), ground (arith, good)))
        ]
]

unequal : (s t : Bytes) → not (length s == 0) && str_eq s t ≡ false → (s ≡ []) ⊎ (s ≢ t)
unequal [] t h = inl refl
unequal (c ∷ s) t h =
    inr (λ e. true-ne-false (sym ((str_eq_iff (c ∷ s) t).1 e) ∙ ground (arith, h)))

one_set :
    (on : Bool) (s t : Bytes)
    → on && length s == 0 && length t == 0 ≡ false
    → (on ≡ false) ⊎ (s ≢ []) ⊎ (t ≢ [])
one_set false s t h = inl refl
one_set true (c ∷ s) t h = inr (inl (λ e. absurd (omega (arith, ap length e))))
one_set true [] (c ∷ t) h = inr (inr (λ e. absurd (omega (arith, ap length e))))
one_set true [] [] h = absurd (true-ne-false h)

check_tokens-IsValid :
    (s : State)
    → TokenIsValid s.token
    → TokenIsValid s.admin_token
    → is_positive s.user ≡ true
    → is_positive s.admin ≡ true
    → (check_tokens s).0 ≡ true
    → IsValid (check_tokens s).1
unfolding check_tokens
check_tokens-IsValid s token admin user_id admin_id =
    elim (Bool-cases (not (length s.token == 0) && str_eq s.token s.admin_token)) [
      | inl same ↦ rw same (λ h. absurd (true-ne-false (sym h)))
      | inr other ↦
          elim (Bool-cases (s.enabled && length s.token == 0 && length s.admin_token == 0)) [
            | inl unset ↦ rw (other, unset) (λ h. absurd (true-ne-false (sym h)))
            | inr ready ↦
                rw (other, ready)
                  (λ h. record {
                    token_valid = token;
                    admin_valid = admin;
                    distinct = unequal s.token s.admin_token other;
                    some_token = one_set s.enabled s.token s.admin_token ready;
                    user_positive = user_id;
                    admin_positive = admin_id;
                  })
          ]
    ]

copy_admin_token-IsValid :
    (s : State) (o : Option Bytes)
    → ((t : Bytes) → o ≡ some t → TokenIsValid t)
    → TokenIsValid s.token
    → is_positive s.user ≡ true
    → is_positive s.admin ≡ true
    → (copy_admin_token s o).0 ≡ true
    → IsValid (copy_admin_token s o).1
unfolding copy_admin_token
copy_admin_token-IsValid s none v token user_id admin_id h = absurd (true-ne-false (sym h))
copy_admin_token-IsValid s (some t) v token user_id admin_id h =
    check_tokens-IsValid (record s { admin_token = t }) token (v t refl) user_id admin_id h

copy_token-IsValid :
    (c : Settings) (s : State) (o : Option Bytes)
    → ((t : Bytes) → o ≡ some t → TokenIsValid t)
    → is_positive s.user ≡ true
    → is_positive s.admin ≡ true
    → (copy_token c s o).0 ≡ true
    → IsValid (copy_token c s o).1
unfolding copy_token
copy_token-IsValid c s none v user_id admin_id h = absurd (true-ne-false (sym h))
copy_token-IsValid c s (some t) v user_id admin_id h =
    copy_admin_token-IsValid (record s { token = t })
      (token_copy (c.config_str (codes "security.admin_token") []))
      (λ t. token_copy-Valid (c.config_str (codes "security.admin_token") []) t) (v t refl) user_id
      admin_id h

-- When `auth_init` answers 0, whatever the settings and what was stored before: each token is not set
-- or has 32 to 255 visible characters, the user's token is not the admin's, some token is set if the
-- security is enabled, and both ids are positive.
pub auth_init-IsValid :
    (c : Settings) (s : State) → (auth_init c s).0 ≡ true → IsValid (auth_init c s).1
unfolding auth_init
auth_init-IsValid c s =
    elim (Bool-cases
      (not (str_eq enabled (codes "false")) && not (str_eq enabled (codes "true")))) [
        | inl unknown ↦ rw unknown (λ h. absurd (true-ne-false (sym h)))
        | inr known ↦ elim (Bool-cases (not (is_positive user) || not (is_positive admin))) [
          | inl low ↦ rw (known, low) (λ h. absurd (true-ne-false (sym h)))
          | inr high ↦
              rw (known, high)
                (copy_token-IsValid c
                  (record s { enabled = str_eq enabled (codes "true"); user = user; admin = admin })
                  (token_copy (c.config_str (codes "security.token") []))
                  (λ t. token_copy-Valid (c.config_str (codes "security.token") []) t)
                  (ground (arith, high)) (ground (arith, high)))
        ]
      ]
  where
    enabled : Bytes
    enabled = c.config_str (codes "security.enabled") (codes "false")

    user : ℤ
    user = c.config_int (codes "security.user_id") (pos 1)

    admin : ℤ
    admin = c.config_int (codes "security.admin_id") (pos 2)
