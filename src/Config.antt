-- ===== src/Config.antt =====
-- The table of settings of src/core/config.c: `store_entry` fills it, `config_str` reads it, after
-- the process's environment, which is a parameter. `g_entries` up to `g_count` is a list.
pub mod Table
mod Tests
use gargantua.Common.{
  ℕ, zero, suc, ◌+◌, ◌-◌, Bool, true, false, not, ◌&&◌, ◌||◌, Option, none, some, List, [], ◌∷◌,
  ◌++◌, Bytes, within, str_eq, length, ltb, leb, ◌==◌, if◌then◌else◌,
}

abbrev pub config_env_max : ℕ
config_env_max = 96

abbrev pub config_max_keys : ℕ
config_max_keys = 64

abbrev pub config_key_len : ℕ
config_key_len = 64

abbrev pub config_value_len : ℕ
config_value_len = 256

pub record Entry : Type 0 where
  pub key : Bytes
  pub value : Bytes

-- The loop over the first `n` entries: the value under the key.
pub find_entry : ℕ → List Entry → Bytes → Option Bytes
find_entry zero entries key = none
find_entry (suc n) [] key = none
find_entry (suc n) (e ∷ entries) key =
    if str_eq e.key key then some e.value else find_entry n entries key

-- The table with the entry, or -1.
pub store_entry : Bytes → Bytes → List Entry → Option (List Entry)
store_entry key value entries =
    if length key == 0 || leb config_key_len (length key) || leb config_value_len (length value)
    then none
    else elim (find_entry config_max_keys entries key) [
      | some _ ↦ none
      | none ↦
          if leb config_max_keys (length entries)
          then none
          else some (entries ++ (record { key = key; value = value } ∷ []))
    ]

-- `toupper` in the C locale.
abbrev pub to_upper : ℕ → ℕ
to_upper c = if within b'a' b'z' c then c - 32 else c

-- At most `room` characters of the variable's name.
pub env_loop : ℕ → Bytes → Bytes
env_loop zero key = []
env_loop (suc room) [] = []
env_loop (suc room) (c ∷ key) = (if c == b'.' then b'_' else to_upper c) ∷ env_loop room key

pub env_name : Bytes → Bytes
env_name key = env_loop (config_env_max - 1) key

pub or_fallback : Option Bytes → Bytes → Bytes
or_fallback none fallback = fallback
or_fallback (some v) fallback = v

pub config_str : (Bytes → Option Bytes) → List Entry → Bytes → Bytes → Bytes
config_str getenv entries key fallback =
    let stored = or_fallback (find_entry config_max_keys entries key) fallback in
    let from_env = or_fallback (getenv (env_name key)) [] in
    if not (length from_env == 0) then from_env else stored
