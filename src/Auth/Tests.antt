-- ===== src/Auth/Tests.antt =====
-- A server with two tokens, and requests that carry one.
use gargantua.Common.{
  true, false, none, some, List, [], ◌∷◌, Bytes, codes, str_eq, all, if◌then◌else◌, ◌≡◌, ◌≢◌, ◌↔◌,
  inl, inr, refl, ap, arith,
}
use gargantua.Http.{HttpHeader}
use gargantua.Http.Parse.{http_find_header}
use gargantua.Auth.{
  byte_or_0, pos, Settings, State, is_token_letter, token_copy, check_tokens, copy_admin_token,
  copy_token, auth_init, secret_equals, auth_bind, auth_gate,
}
use gargantua.Auth.Secret.{secret_equals_iff}
use gargantua.Auth.Gate.{IsValid, IsAuthorized, auth_gate-IsAuthorized}
use gargantua.Auth.Setup.{auth_init-IsValid}

abbrev user_token : Bytes
user_token = codes "0123456789abcdef0123456789abcdef"

abbrev admin_token : Bytes
admin_token = codes "fedcba9876543210fedcba9876543210"

abbrev settings : Settings
settings = record {
  config_str = λ key default.
      if str_eq key (codes "security.enabled")
      then codes "true"
      else if str_eq key (codes "security.token")
      then user_token
      else if str_eq key (codes "security.admin_token")
      then admin_token
      else default;
  config_int = λ key default. default;
}

abbrev cleared : State
cleared = record { token = []; admin_token = []; enabled = false; user = pos 0; admin = pos 0 }

abbrev started : State
started = record {
  token = user_token;
  admin_token = admin_token;
  enabled = true;
  user = pos 1;
  admin = pos 2;
}

auth_init-started : auth_init settings cleared ≡ (true, started)
unfolding auth_init copy_token copy_admin_token check_tokens token_copy is_token_letter str_eq
auth_init-started = refl

auth_init-IsValid_example : IsValid (auth_init settings cleared).1
auth_init-IsValid_example = auth_init-IsValid settings cleared (ap (λ r. r.0) auth_init-started)

secret_equals_iff_example :
    (secret_equals user_token admin_token ≡ true)
    ↔ ((user_token ≡ admin_token) × (admin_token ≢ []))
secret_equals_iff_example = secret_equals_iff user_token admin_token (omega arith)

user_letters : all is_token_letter user_token ≡ true
unfolding is_token_letter
user_letters = refl

admin_letters : all is_token_letter admin_token ≡ true
unfolding is_token_letter
admin_letters = refl

first_differs : user_token ≡ admin_token → ⊥
first_differs e = let bad : 48 ≡ 102 = ap (λ s. byte_or_0 s 0) e in absurd (omega (arith, bad))

token_set : user_token ≡ [] → ⊥
token_set e = let bad : 48 ≡ 0 = ap (λ s. byte_or_0 s 0) e in absurd (omega (arith, bad))

started-IsValid : IsValid started
started-IsValid = record {
  token_valid = inr (omega arith, omega arith, user_letters);
  admin_valid = inr (omega arith, omega arith, admin_letters);
  distinct = inr first_differs;
  some_token = inr (inl token_set);
  user_positive = refl;
  admin_positive = refl;
}

abbrev headers : List HttpHeader
headers =
    record { name = codes "Host"; value = codes "x" }
    ∷ record {
      name = codes "authorization";
      value = codes "bearer 0123456789abcdef0123456789abcdef";
    }
    ∷ []

auth_gate-IsAuthorized_example :
    (auth_gate started (auth_bind started (some headers)) false (codes "user") false ≡ none)
    ↔ IsAuthorized started (http_find_header headers (codes "Authorization")) (codes "user")
auth_gate-IsAuthorized_example =
    auth_gate-IsAuthorized started headers (codes "user") false started-IsValid (inl refl)
