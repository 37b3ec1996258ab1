-- ===== src/Auth.antt =====
-- Authentication: src/runtime/auth.c. `State` has the file's variables that all threads share, `Login`
-- those of one thread; an `int` is a ℤ, read from the settings. The settings of src/core/config.c are
-- a parameter: the text of a key with its default, and its number.
pub mod Secret
pub mod Gate
pub mod Setup
mod Tests
use Prim.Native.Nat.{bit_or, bit_xor}
use gargantua.Common.{
  ℕ, zero, suc, ◌+◌, ◌^◌, ◌%◌, Bool, true, false, not, ◌&&◌, ◌||◌, Option, none, some, List, [],
  ◌∷◌, String, Bytes, codes, str_eq, strcase_starts, length, drop, all, get_elem?, ltb, leb, ◌==◌,
  if◌then◌else◌,
}
use gargantua.Http.{HttpHeader}
use gargantua.Http.Parse.{http_find_header}

pub data ℤ : Type 0 where
  pos : ℕ → ℤ
  negsuc : ℕ → ℤ

abbrev pub is_positive : ℤ → Bool
is_positive (pos n) = ltb 0 n
is_positive (negsuc n) = false

abbrev pub is_zero : ℤ → Bool
is_zero (pos n) = n == 0
is_zero (negsuc n) = false

abbrev pub int_eq : ℤ → ℤ → Bool
int_eq (pos m) (pos n) = m == n
int_eq (negsuc m) (negsuc n) = m == n
int_eq (pos m) (negsuc n) = false
int_eq (negsuc m) (pos n) = false

abbrev pub token_cap : ℕ
token_cap = 256

pub record Settings : Type 0 where
  pub config_str : Bytes → Bytes → Bytes
  pub config_int : Bytes → ℤ → ℤ

pub record State : Type 0 where
  pub token : Bytes
  pub admin_token : Bytes
  pub enabled : Bool
  pub user : ℤ
  pub admin : ℤ

pub record Login : Type 0 where
  pub user : ℤ
  pub role : Bytes

pub is_token_letter : ℕ → Bool
is_token_letter c = not (ltb c 0x21 || ltb 0x7e c)

-- The token to store, or -1, with the stored one as it was.
pub token_copy : Bytes → Option Bytes
token_copy value =
    let n = length value in
    if n == 0
    then some []
    else if ltb n 32
    then none
    else if leb token_cap n
    then none
    else if all is_token_letter value
    then some value
    else none

-- What follows the two copies.
pub check_tokens : State → Bool × State
check_tokens s =
    if not (length s.token == 0) && str_eq s.token s.admin_token
    then (false, s)
    else if s.enabled && length s.token == 0 && length s.admin_token == 0
    then (false, s)
    else (true, s)

pub copy_admin_token : State → Option Bytes → Bool × State
copy_admin_token s none = (false, s)
copy_admin_token s (some t) = check_tokens (record s { admin_token = t })

pub copy_token : Settings → State → Option Bytes → Bool × State
copy_token c s none = (false, s)
copy_token c s (some t) =
    copy_admin_token (record s { token = t })
      (token_copy (c.config_str (codes "security.admin_token") []))

-- `true` is the result 0; a failure leaves what was stored up to there.
pub auth_init : Settings → State → Bool × State
auth_init c s =
    let enabled = c.config_str (codes "security.enabled") (codes "false") in
    let user = c.config_int (codes "security.user_id") (pos 1) in
    let admin = c.config_int (codes "security.admin_id") (pos 2) in
    let s' : State = record s {
      enabled = str_eq enabled (codes "true");
      user = user;
      admin = admin;
    } in
    if not (str_eq enabled (codes "false")) && not (str_eq enabled (codes "true"))
    then (false, s)
    else if not (is_positive user) || not (is_positive admin)
    then (false, s')
    else copy_token c s' (token_copy (c.config_str (codes "security.token") []))

abbrev pub byte_or_0 : Bytes → ℕ → ℕ
byte_or_0 [] i = 0
byte_or_0 (c ∷ s) zero = c
byte_or_0 (c ∷ s) (suc i) = byte_or_0 s i

-- `n` rounds of the loop over `i`.
pub different_loop : ℕ → ℕ → Bytes → Bytes → ℕ → ℕ
different_loop zero i value secret different = different
different_loop (suc n) i value secret different =
    different_loop n (suc i) value secret
      (bit_or different (bit_xor (byte_or_0 value i) (byte_or_0 secret i)))

pub secret_equals : Bytes → Bytes → Bool
secret_equals value secret =
    let n = length secret in
    if n == 0 || leb token_cap (length value)
    then false
    else different_loop token_cap 0 value secret (bit_xor (length value) n % 2 ^ 32) == 0

pub auth_reset : Login
auth_reset = record { user = pos 0; role = [] }

-- The header's value, if there is one.
pub bind_value : State → Option Bytes → Login
bind_value s none = auth_reset
bind_value s (some value) =
    if leb (length value) 7 || not (strcase_starts (codes "Bearer ") value)
    then auth_reset
    else if secret_equals (drop 7 value) s.admin_token
    then record { user = s.admin; role = codes "admin" }
    else if secret_equals (drop 7 value) s.token
    then record { user = s.user; role = codes "user" }
    else auth_reset

-- `none` is the NULL request.
pub auth_bind : State → Option (List HttpHeader) → Login
auth_bind s none = auth_reset
auth_bind s (some headers) = bind_value s (http_find_header headers (codes "Authorization"))

-- The result 0, or the status of the failure; 401 comes with the header `WWW-Authenticate`.
pub auth_gate : State → Login → Bool → Bytes → Bool → Option ℕ
auth_gate s l public role required =
    if public
    then none
    else if not required && not s.enabled && length role == 0
    then none
    else if is_zero l.user
    then some 401
    else if not (length role == 0) && not (str_eq role l.role)
    then some 403
    else none

pub auth_user_id : Login → ℤ
auth_user_id l = l.user

-- The status that the request is failed with.
pub auth_require_owner : Login → ℤ → Option ℕ
auth_require_owner l id =
    if is_zero l.user then some 401 else if not (int_eq id l.user) then some 403 else none

-- `none` is the NULL role.
pub auth_require_role : Login → Option Bytes → Option ℕ
auth_require_role l role =
    if is_zero l.user
    then some 401
    else elim role [ none ↦ some 403 | some r ↦ if str_eq r l.role then none else some 403 ]
