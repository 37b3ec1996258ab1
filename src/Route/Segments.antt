-- ===== src/Route/Segments.antt =====
-- `path_matches` against an independent reading of patterns: the segments between the slashes.
use gargantua.Common.{
  ℕ, zero, suc, ◌+◌, ◌≤◌, ◌<◌, true, false, not, List, [], ◌∷◌, ◌++◌, Bytes, append-nil,
  append_assoc, length-append, str_eq, str_eq_iff, str_eq_refl, leb, ◌==◌, if◌then◌else◌, ◌≡◌, ◌↔◌,
  inl, inr, refl, sym, ap, ◌∙◌, arith, Bool-cases, length,
}
use mathlib.Core.Path.{subst}
use gargantua.Route.{
  Match, matched, no_match, invalid, path_matches, matches_loop, next_segment, is_dynamic,
  max_segments, max_path_params, param_value_len,
}

abbrev push_front : ℕ → List Bytes → List Bytes
push_front c [] = (c ∷ []) ∷ []
push_front c (s ∷ ss) = (c ∷ s) ∷ ss

-- The segments of a text; a slash at its end adds none.
abbrev pub segments : Bytes → List Bytes
segments [] = []
segments (c ∷ s) = if c == b'/' then [] ∷ segments s else push_front c (segments s)

-- A pattern's segments, a URL's, and the values that stand for the segments in braces, each of 1 to
-- 63 bytes.
pub data Fills : List Bytes → List Bytes → List Bytes → Type 0 where
  done : Fills [] [] []
  same :
      {p : Bytes} {ps us vs : List Bytes}
      → is_dynamic p ≡ false
      → Fills ps us vs
      → Fills (p ∷ ps) (p ∷ us) vs
  value :
      {p u : Bytes} {ps us vs : List Bytes}
      → is_dynamic p ≡ true
      → 0 < length u
      → length u < param_value_len
      → Fills ps us vs
      → Fills (p ∷ ps) (u ∷ us) (u ∷ vs)

segments-next_segment :
    (c : ℕ) (s : Bytes)
    → segments (c ∷ s) ≡ (next_segment (c ∷ s)).0 ∷ segments (next_segment (c ∷ s)).1
unfolding next_segment
segments-next_segment c [] = ground arith
segments-next_segment c (d ∷ s) = ground (arith, segments-next_segment d s)

-- The rounds of `matches_loop` over segments.
unfoldable pub segment_loop : ℕ → List Bytes → List Bytes → List Bytes → Match
segment_loop zero ps us out = no_match
segment_loop (suc guard) [] [] out = matched out
segment_loop (suc guard) [] (u ∷ us) out = no_match
segment_loop (suc guard) (p ∷ ps) [] out = no_match
segment_loop (suc guard) (p ∷ ps) (u ∷ us) out =
    let rest = segment_loop guard ps us out in
    let rest_with = segment_loop guard ps us (out ++ (u ∷ [])) in
    if is_dynamic p
    then (if leb max_path_params (length out)
        then no_match
        else if length u == 0
        then no_match
        else if leb param_value_len (length u)
        then invalid
        else rest_with)
    else if not (length p == length u)
    then no_match
    else if not (str_eq p u)
    then no_match
    else rest

pub matches_loop-segment_loop :
    (guard : ℕ) (pattern url : Bytes) (out : List Bytes)
    → matches_loop guard pattern url out ≡ segment_loop guard (segments pattern) (segments url) out
unfolding matches_loop segment_loop
matches_loop-segment_loop zero pattern url out = refl
matches_loop-segment_loop (suc guard) [] [] out = refl
matches_loop-segment_loop (suc guard) [] (d ∷ url) out = rw (segments-next_segment d url)
matches_loop-segment_loop (suc guard) (c ∷ pattern) [] out = rw (segments-next_segment c pattern)
matches_loop-segment_loop (suc guard) (c ∷ pattern) (d ∷ url) out =
    let (p, pattern') = next_segment (c ∷ pattern) in
    let (u, url') = next_segment (d ∷ url) in
    rw (
      segments-next_segment c pattern,
      segments-next_segment d url,
      matches_loop-segment_loop guard pattern' url' out,
      matches_loop-segment_loop guard pattern' url' (out ++ (u ∷ [])),
    )

-- What one round gives, where segments are left on both sides.
data Reading (guard : ℕ) (p u : Bytes) (ps us out out' : List Bytes) : Type 0 where
  by_value :
      is_dynamic p ≡ true
      → length out < max_path_params
      → 0 < length u
      → length u < param_value_len
      → segment_loop guard ps us (out ++ (u ∷ [])) ≡ matched out'
      → Reading guard p u ps us out out'
  by_text :
      is_dynamic p ≡ false
      → p ≡ u
      → segment_loop guard ps us out ≡ matched out'
      → Reading guard p u ps us out out'

segment_loop-Reading :
    (guard : ℕ) (p u : Bytes) (ps us out : List Bytes) {out' : List Bytes}
    → segment_loop (suc guard) (p ∷ ps) (u ∷ us) out ≡ matched out'
    → Reading guard p u ps us out out'
unfolding segment_loop
segment_loop-Reading guard p u ps us out h = elim (Bool-cases (is_dynamic p)) [
  | inl d ↦ by_value d (ground arith) (ground arith) (ground arith) (ground arith)
  | inr d ↦ by_text d (ground (arith, str_eq_iff p u)) (ground arith)
]

-- What a match shows of the values, which follow those read before.
record Found (guard : ℕ) (ps us out out' : List Bytes) : Type 0 where
  values : List Bytes
  fills : Fills ps us values
  written : out' ≡ out ++ values
  fit : length out' ≤ max_path_params
  rounds : length us < guard

segment_loop-Found :
    (guard : ℕ) (ps us out : List Bytes) {out' : List Bytes}
    → segment_loop guard ps us out ≡ matched out'
    → length out ≤ max_path_params
    → Found guard ps us out out'
unfolding segment_loop
segment_loop-Found zero ps us out h fit = cc
segment_loop-Found (suc guard) [] [] out {out'} h fit = record {
  values = [];
  fills = done;
  written = cc (append-nil out);
  fit = ground arith;
  rounds = omega arith;
}
segment_loop-Found (suc guard) [] (u ∷ us) out h fit = cc
segment_loop-Found (suc guard) (p ∷ ps) [] out h fit = cc
segment_loop-Found (suc guard) (p ∷ ps) (u ∷ us) out h fit =
    elim (segment_loop-Reading guard p u ps us out h) [
      | by_value d room some_byte short rest ↦
          let f =
            segment_loop-Found guard ps us (out ++ (u ∷ [])) rest
              (omega (arith, length-append out (u ∷ []))) in
          record {
            values = u ∷ f.values;
            fills = value d some_byte short f.fills;
            written = f.written ∙ append_assoc out (u ∷ []) f.values;
            fit = f.fit;
            rounds = omega (arith, f.rounds);
          }
      | by_text d e rest ↦
          let f = segment_loop-Found guard ps us out rest fit in
          record {
            values = f.values;
            fills = subst (λ t. Fills (p ∷ ps) (t ∷ us) f.values) e (same d f.fills);
            written = f.written;
            fit = f.fit;
            rounds = omega (arith, f.rounds);
          }
    ]

segment_loop-Fills :
    {ps us vs : List Bytes} (guard : ℕ) (out : List Bytes)
    → Fills ps us vs
    → length us < guard
    → length out + length vs ≤ max_path_params
    → segment_loop guard ps us out ≡ matched (out ++ vs)
unfolding segment_loop
segment_loop-Fills zero out f r fit = absurd (omega arith)
segment_loop-Fills (suc guard) out done r fit = ap matched (sym (append-nil out))
segment_loop-Fills (suc guard) out (same {p} {ps} {us} {vs} d f) r fit =
    ground (arith, d, str_eq_refl p, segment_loop-Fills guard out f)
segment_loop-Fills (suc guard) out (value {p} {u} {ps} {us} {vs} d some_byte short f) r fit =
    ground (
      arith,
      d,
      segment_loop-Fills guard (out ++ (u ∷ [])) f,
      append_assoc out (u ∷ []) vs,
      length-append out (u ∷ []),
    )

-- A pattern matches a URL with the values `vs` exactly when the two have the same segments but for
-- the pattern's segments in braces, for which `vs` are the URL's; each value has 1 to 63 bytes,
-- there are at most 8, and the URL has at most 65 segments.
pub path_matches_iff :
    (pattern url : Bytes) (vs : List Bytes)
    → (path_matches pattern url ≡ matched vs) ↔ (
        Fills (segments pattern) (segments url) vs
        × (length vs ≤ max_path_params)
        × (length (segments url) < max_segments))
unfolding path_matches
path_matches_iff pattern url vs = (
  λ h.
      let f =
        segment_loop-Found max_segments (segments pattern) (segments url) []
          (sym (matches_loop-segment_loop max_segments pattern url []) ∙ h) (omega arith) in
      (subst (Fills (segments pattern) (segments url)) (sym f.written) f.fills, f.fit, f.rounds),
  λ h.
      matches_loop-segment_loop max_segments pattern url []
      ∙ segment_loop-Fills max_segments [] h.0 h.2 (omega (arith, h.1)),
)
