-- ===== src/Route/TooLong.antt =====
-- When `path_matches` of src/http/route.c refuses a URL for a value that is too long.
use gargantua.Common.{
  ℕ, zero, suc, ◌+◌, ◌≤◌, ◌<◌, true, false, List, [], ◌∷◌, ◌++◌, Bytes, length, length-append,
  str_eq_iff, str_eq_refl, leb, ◌≡◌, ◌↔◌, inl, inr, sym, ◌∙◌, arith, Bool-cases,
}
use mathlib.Core.Path.{subst}
use gargantua.Route.{
  invalid, path_matches, is_dynamic, max_segments, max_path_params, param_value_len,
}
use gargantua.Route.Segments.{segments, segment_loop, matches_loop-segment_loop}

-- The first value that is too long stands behind `k` segments that fit, `v` of them values.
pub data LongBehind : List Bytes → List Bytes → ℕ → ℕ → Type 0 where
  long :
      {p u : Bytes} {ps us : List Bytes}
      → is_dynamic p ≡ true
      → param_value_len ≤ length u
      → LongBehind (p ∷ ps) (u ∷ us) 0 0
  behind_same :
      {p : Bytes} {ps us : List Bytes} {k v : ℕ}
      → is_dynamic p ≡ false
      → LongBehind ps us k v
      → LongBehind (p ∷ ps) (p ∷ us) (suc k) v
  behind_value :
      {p u : Bytes} {ps us : List Bytes} {k v : ℕ}
      → is_dynamic p ≡ true
      → 0 < length u
      → length u < param_value_len
      → LongBehind ps us k v
      → LongBehind (p ∷ ps) (u ∷ us) (suc k) (suc v)

record Located (guard count : ℕ) (ps us : List Bytes) : Type 0 where
  k : ℕ
  v : ℕ
  place : LongBehind ps us k v
  values_before : count + v < max_path_params
  rounds : k < guard

-- One of the first 66 segments is a value of 64 bytes or more, with less than 8 values before it, and
-- the segments before it fit.
abbrev pub IsTooLong : Bytes → Bytes → Type 0
IsTooLong pattern url =
    (k : ℕ) × (v : ℕ) × LongBehind (segments pattern) (segments url) k v
    × (v < max_path_params)
    × (k < max_segments)

data Round (guard : ℕ) (p u : Bytes) (ps us out : List Bytes) : Type 0 where
  here :
      is_dynamic p ≡ true
      → length out < max_path_params
      → param_value_len ≤ length u
      → Round guard p u ps us out
  by_value :
      is_dynamic p ≡ true
      → 0 < length u
      → length u < param_value_len
      → segment_loop guard ps us (out ++ (u ∷ [])) ≡ invalid
      → Round guard p u ps us out
  by_text :
      is_dynamic p ≡ false
      → p ≡ u
      → segment_loop guard ps us out ≡ invalid
      → Round guard p u ps us out

segment_loop-Round :
    (guard : ℕ) (p u : Bytes) (ps us out : List Bytes)
    → segment_loop (suc guard) (p ∷ ps) (u ∷ us) out ≡ invalid
    → Round guard p u ps us out
unfolding segment_loop
segment_loop-Round guard p u ps us out h = elim (Bool-cases (is_dynamic p)) [
  | inr d ↦ by_text d (ground (arith, str_eq_iff p u)) (ground arith)
  | inl d ↦ elim (Bool-cases (leb param_value_len (length u))) [
    | inl big ↦ here d (ground arith) (ground arith)
    | inr small ↦ by_value d (ground arith) (ground arith) (ground arith)
  ]
]

segment_loop-Located :
    (guard : ℕ) (ps us out : List Bytes)
    → segment_loop guard ps us out ≡ invalid
    → Located guard (length out) ps us
unfolding segment_loop
segment_loop-Located zero ps us out h = absurd cc
segment_loop-Located (suc guard) [] [] out h = absurd cc
segment_loop-Located (suc guard) [] (u ∷ us) out h = absurd cc
segment_loop-Located (suc guard) (p ∷ ps) [] out h = absurd cc
segment_loop-Located (suc guard) (p ∷ ps) (u ∷ us) out h =
    elim (segment_loop-Round guard p u ps us out h) [
      | here d room big ↦ record {
        k = 0;
        v = 0;
        place = long d big;
        values_before = omega (arith, room);
        rounds = omega arith;
      }
      | by_value d some_byte short rest ↦
          let f = segment_loop-Located guard ps us (out ++ (u ∷ [])) rest in
          record {
            k = suc f.k;
            v = suc f.v;
            place = behind_value d some_byte short f.place;
            values_before = omega (arith, f.values_before, length-append out (u ∷ []));
            rounds = omega (arith, f.rounds);
          }
      | by_text d e rest ↦
          let f = segment_loop-Located guard ps us out rest in
          record {
            k = suc f.k;
            v = f.v;
            place =
                subst (λ t. LongBehind (p ∷ ps) (t ∷ us) (suc f.k) f.v) e (behind_same d f.place);
            values_before = f.values_before;
            rounds = omega (arith, f.rounds);
          }
    ]

segment_loop-invalid :
    {ps us : List Bytes} {k v : ℕ} (guard : ℕ) (out : List Bytes)
    → LongBehind ps us k v
    → length out + v < max_path_params
    → k < guard
    → segment_loop guard ps us out ≡ invalid
unfolding segment_loop
segment_loop-invalid zero out place room r = absurd (omega arith)
segment_loop-invalid (suc guard) out (long {p} {u} {ps} {us} d big) room r = ground (arith, d)
segment_loop-invalid (suc guard) out (behind_same {p} {ps} {us} {k} {v} d place) room r =
    ground (arith, d, str_eq_refl p, segment_loop-invalid guard out place)
segment_loop-invalid (suc guard) out
      (behind_value {p} {u} {ps} {us} {k} {v} d some_byte short place) room r =
    ground
      (arith, d, segment_loop-invalid guard (out ++ (u ∷ [])) place, length-append out (u ∷ []))

pub path_matches-IsTooLong :
    (pattern url : Bytes) → (path_matches pattern url ≡ invalid) ↔ IsTooLong pattern url
unfolding path_matches
path_matches-IsTooLong pattern url = (
  λ h.
      let f =
        segment_loop-Located max_segments (segments pattern) (segments url) []
          (sym (matches_loop-segment_loop max_segments pattern url []) ∙ h) in
      (f.k, f.v, f.place, omega (arith, f.values_before), f.rounds),
  λ (k, v, place, room, r).
      matches_loop-segment_loop max_segments pattern url []
      ∙ segment_loop-invalid max_segments [] place (omega (arith, room)) r,
)
