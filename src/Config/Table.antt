-- ===== src/Config/Table.antt =====
-- `store_entry` and `config_str` of src/core/config.c.
use gargantua.Common.{
  ℕ, zero, suc, ◌≤◌, ◌<◌, false, ◌||◌, Option, none, some, List, [], ◌∷◌, ◌++◌, Bytes, str_eq,
  str_eq_iff, str_eq_refl, length, length-append, leb, ◌==◌, ◌≡◌, ◌≢◌, inl, inr, refl, sym, ap, ◌∙◌,
  arith, Bool-cases, Option-cases, some_inj, some-ne-none, lt_of_leb-false,
}
use gargantua.Config.{
  Entry, config_max_keys, config_key_len, config_value_len, find_entry, store_entry, env_name,
  or_fallback, config_str,
}

-- What a successful call was given, and what it made.
record Stored (key value : Bytes) (entries after : List Entry) : Type 0 where
  short : (0 < length key) × (length key < config_key_len) × (length value < config_value_len)
  room : length entries < config_max_keys
  absent : find_entry config_max_keys entries key ≡ none
  same : after ≡ entries ++ (record { key = key; value = value } ∷ [])

store_entry-Stored :
    (key value : Bytes) (entries after : List Entry)
    → store_entry key value entries ≡ some after
    → Stored key value entries after
unfolding store_entry
store_entry-Stored key value entries after e =
    elim (Bool-cases
      (length key == 0 || leb config_key_len (length key) || leb config_value_len (length value))) [
        | inl bad ↦
            let gone : store_entry key value entries ≡ none = rw bad refl in
            absurd (some-ne-none (sym e ∙ gone))
        | inr good ↦ elim (Option-cases (find_entry config_max_keys entries key)) [
          | inr (v, found) ↦
              let gone : store_entry key value entries ≡ none = rw (good, found) refl in
              absurd (some-ne-none (sym e ∙ gone))
          | inl absent ↦ elim (Bool-cases (leb config_max_keys (length entries))) [
            | inl full ↦
                let gone : store_entry key value entries ≡ none = rw (good, absent, full) refl in
                absurd (some-ne-none (sym e ∙ gone))
            | inr room ↦
                let made : store_entry key value entries
                    ≡ some (entries ++ (record { key = key; value = value } ∷ [])) =
                  rw (good, absent, room) refl in
                record {
                  short = (ground (arith, good), ground (arith, good), ground (arith, good));
                  room = lt_of_leb-false _ _ room;
                  absent = absent;
                  same = some_inj (sym e ∙ made);
                }
          ]
        ]
      ]

find-new :
    (n : ℕ) (entries : List Entry) (key value : Bytes)
    → length entries < n
    → find_entry n entries key ≡ none
    → find_entry n (entries ++ (record { key = key; value = value } ∷ [])) key ≡ some value
unfolding find_entry
find-new zero entries key value room absent = absurd (omega (arith, room))
find-new (suc n) [] key value room absent = rw (str_eq_refl key) refl
find-new (suc n) (e ∷ entries) key value room absent = elim (Bool-cases (str_eq e.key key)) [
  | inl same ↦
      let found : find_entry (suc n) (e ∷ entries) key ≡ some e.value = rw same refl in
      absurd (some-ne-none (sym found ∙ absent))
  | inr other ↦
      let next : find_entry (suc n) (e ∷ entries) key ≡ find_entry n entries key = rw other refl in
      rw other (find-new n entries key value (omega (arith, room)) (sym next ∙ absent))
]

str_eq-differ : (a b : Bytes) → a ≢ b → str_eq a b ≡ false
str_eq-differ a b differ = elim (Bool-cases (str_eq a b)) [
  | inl same ↦ absurd (differ ((str_eq_iff a b).0 same))
  | inr other ↦ other
]

find-other :
    (n : ℕ) (entries : List Entry) (key value other : Bytes)
    → key ≢ other
    → find_entry n (entries ++ (record { key = key; value = value } ∷ [])) other
      ≡ find_entry n entries other
unfolding find_entry
find-other zero entries key value other differ = refl
find-other (suc zero) [] key value other differ = rw (str_eq-differ key other differ) refl
find-other (suc (suc n)) [] key value other differ = rw (str_eq-differ key other differ) refl
find-other (suc n) (e ∷ entries) key value other differ = elim (Bool-cases (str_eq e.key other)) [
  | inl same ↦ rw same refl
  | inr not_same ↦ rw not_same (find-other n entries key value other differ)
]

-- After a successful `store_entry`, and where the environment does not set the key's variable,
-- `config_str` gives the stored value for that key, and for every other key what it gave before. The
-- key was new, is not empty, and key and value fit in their arrays with the NUL, and the table had
-- room.
pub config_str-store_entry :
    (getenv : Bytes → Option Bytes) (entries after : List Entry) (key value other fallback : Bytes)
    → store_entry key value entries ≡ some after
    → getenv (env_name key) ≡ none
    → key ≢ other
    → (config_str getenv after key fallback ≡ value)
      × (config_str getenv after other fallback ≡ config_str getenv entries other fallback)
      × (find_entry config_max_keys entries key ≡ none)
      × (0 < length key)
      × (length key < config_key_len)
      × (length value < config_value_len)
      × (length after ≤ config_max_keys)
unfolding config_str or_fallback
config_str-store_entry getenv entries after key value other fallback e silent differ =
    let s = store_entry-Stored key value entries after e in
    let found = find-new config_max_keys entries key value s.room s.absent in
    let kept = find-other config_max_keys entries key value other differ in
    (
      rw (silent, s.same, found) refl,
      rw (s.same, kept) refl,
      s.absent,
      s.short.0,
      s.short.1,
      s.short.2,
      omega (
        arith,
        ap length s.same,
        s.room,
        length-append entries (record { key = key; value = value } ∷ []),
      ),
    )
