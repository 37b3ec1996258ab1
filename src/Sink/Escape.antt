-- ===== src/Sink/Escape.antt =====
-- What `sink_add_escaped` of src/runtime/runtime.c adds.
use mathlib.Core.Path.{subst}
use gargantua.Common.{
  ℕ, ◌+◌, ◌-◌, ◌/◌, ◌≤◌, ◌<◌, true, false, [], ◌∷◌, ◌++◌, append-nil, append_assoc, Bytes, codes,
  length, length-append, take, ltb, leb, ◌==◌, if◌then◌else◌, Bool-cases, lt→ltb, leb→le,
  lt_of_leb-false, ◌≡◌, ◌⊎◌, inl, inr, refl, sym, ap, ◌∙◌, arith,
}
use gargantua.Paths.{max_text}
use gargantua.Sink.{
  Sink, sink_add_bytes, sink_put, hex_char, is_plain, sink_escape, flush, escaped_loop,
  sink_add_escaped,
}

-- A byte of a JSON string's text.
unfoldable pub escape_byte : ℕ → Bytes
escape_byte c =
    if is_plain c
    then c ∷ []
    else if c == b'"'
    then codes "\\\""
    else if c == b'\\'
    then codes "\\\\"
    else if c == b'\n'
    then codes "\\n"
    else if c == b'\r'
    then codes "\\r"
    else if c == b'\t'
    then codes "\\t"
    else codes "\\u00" ++ (hex_char (c / 16) ∷ hex_char c ∷ [])

unfoldable pub escape : Bytes → Bytes
escape [] = []
escape (c ∷ text) = escape_byte c ++ escape text

abbrev pub How : Sink → Bytes → Sink → Type 0
How s bytes s' =
    ((s'.overflow ≡ false) × (s.overflow ≡ false) × (s'.text ≡ s.text ++ bytes))
    ⊎ ((s'.overflow ≡ true) × ((s.overflow ≡ true) ⊎ (s.cap ≤ length s.text + length bytes)))

-- Adding `bytes` to `s` gave `s'`: all of them where they fit, and else an overflow.
pub record Added (s : Sink) (bytes : Bytes) (s' : Sink) : Type 0 where
  pub same_cap : s'.cap ≡ s.cap
  pub fits : length s'.text < s'.cap
  pub how : How s bytes s'

How-trans :
    (s s' s'' : Sink) (a b : Bytes)
    → s'.cap ≡ s.cap
    → How s a s'
    → How s' b s''
    → How s (a ++ b) s''
How-trans s s' s'' a b cap (inl (o, o', t)) (inl (p, p', u)) =
    inl (p, o', u ∙ ap (λ l. l ++ b) t ∙ append_assoc s.text a b)
How-trans s s' s'' a b cap (inl (o, o', t)) (inr (p, inl q)) = absurd (ground (arith, o, q))
How-trans s s' s'' a b cap (inl (o, o', t)) (inr (p, inr q)) =
    inr (p, inr (omega (arith, q, cap, ap length t, length-append s.text a, length-append a b)))
How-trans s s' s'' a b cap (inr (o, why)) (inl (p, p', u)) = absurd (ground (arith, o, p'))
How-trans s s' s'' a b cap (inr (o, inl q)) (inr (p, why)) = inr (p, inl q)
How-trans s s' s'' a b cap (inr (o, inr q)) (inr (p, why)) =
    inr (p, inr (omega (arith, q, length-append a b)))

pub Added-trans :
    (s s' s'' : Sink) (a b : Bytes) → Added s a s' → Added s' b s'' → Added s (a ++ b) s''
Added-trans s s' s'' a b x y = record {
  same_cap = y.same_cap ∙ x.same_cap;
  fits = y.fits;
  how = How-trans s s' s'' a b x.same_cap x.how y.how;
}

pub Added-nothing : (s : Sink) → length s.text < s.cap → Added s [] s
Added-nothing s fits = record {
  same_cap = refl;
  fits = fits;
  how = elim (Bool-cases s.overflow) [
    | inl over ↦ inr (over, inl over)
    | inr fine ↦ inl (fine, fine, sym (append-nil s.text))
  ];
}

Added-refused :
    (s : Sink) (bytes : Bytes)
    → length s.text < s.cap
    → s.cap ≤ length s.text + length bytes
    → Added s bytes (record s { overflow = true })
Added-refused s bytes fits full = record {
  same_cap = refl;
  fits = fits;
  how = inr (refl, inr full);
}

Added-stored :
    (s : Sink) (bytes : Bytes)
    → s.overflow ≡ false
    → length s.text + length bytes < s.cap
    → Added s bytes (record s { text = s.text ++ bytes })
Added-stored s bytes fine room = record {
  same_cap = refl;
  fits = omega (arith, room, length-append s.text bytes);
  how = inl (fine, fine, refl);
}

Added-over :
    (s : Sink) (bytes : Bytes) → length s.text < s.cap → s.overflow ≡ true → Added s bytes s
Added-over s bytes fits over = record { same_cap = refl; fits = fits; how = inr (over, inl over) }

pub sink_add_bytes-Added :
    (s : Sink) (bytes : Bytes) → length s.text < s.cap → Added s bytes (sink_add_bytes s bytes)
unfolding sink_add_bytes
sink_add_bytes-Added s bytes fits = elim (Bool-cases s.overflow) [
  | inl over ↦
      let made : sink_add_bytes s bytes ≡ s = simp over in
      subst (Added s bytes) (sym made) (Added-over s bytes fits over)
  | inr fine ↦ elim (Bool-cases (leb (s.cap - length s.text) (length bytes))) [
    | inl full ↦
        let made : sink_add_bytes s bytes ≡ record s { overflow = true } = simp (fine, full) in
        subst (Added s bytes) (sym made)
          (Added-refused s bytes fits (omega (arith, leb→le _ _ full, fits)))
    | inr room ↦
        let made : sink_add_bytes s bytes ≡ record s { text = s.text ++ bytes } =
          simp (fine, room) in
        subst (Added s bytes) (sym made)
          (Added-stored s bytes fine (omega (arith, lt_of_leb-false _ _ room, fits)))
  ]
]

pub sink_put-Added : (s : Sink) (c : ℕ) → length s.text < s.cap → Added s (c ∷ []) (sink_put s c)
unfolding sink_put
sink_put-Added s c fits = elim (Bool-cases s.overflow) [
  | inl over ↦
      let made : sink_put s c ≡ s = simp over in
      subst (Added s (c ∷ [])) (sym made) (Added-over s (c ∷ []) fits over)
  | inr fine ↦ elim (Bool-cases (leb s.cap (length s.text + 1))) [
    | inl full ↦
        let made : sink_put s c ≡ record s { overflow = true } = simp (fine, full) in
        subst (Added s (c ∷ [])) (sym made)
          (Added-refused s (c ∷ []) fits (omega (arith, leb→le _ _ full)))
    | inr room ↦
        let made : sink_put s c ≡ record s { text = s.text ++ (c ∷ []) } = simp (fine, room) in
        subst (Added s (c ∷ [])) (sym made)
          (Added-stored s (c ∷ []) fine (omega (arith, lt_of_leb-false _ _ room)))
  ]
]

escape_byte-plain : (c : ℕ) → is_plain c ≡ true → escape_byte c ≡ c ∷ []
unfolding escape_byte
escape_byte-plain c e = simp e

hex_escape-Added :
    (s : Sink) (x y : ℕ)
    → length s.text < s.cap
    → Added s
        (codes "\\u00" ++ (x ∷ y ∷ []))
        (sink_put (sink_put (sink_add_bytes s (codes "\\u00")) x) y)
hex_escape-Added s x y fits =
    let a = sink_add_bytes-Added s (codes "\\u00") fits in
    let b = sink_put-Added _ x a.fits in
    let c = sink_put-Added _ y b.fits in
    Added-trans s _ _ (codes "\\u00") (x ∷ y ∷ []) a (Added-trans _ _ _ (x ∷ []) (y ∷ []) b c)

sink_escape-Added :
    (s : Sink) (c : ℕ)
    → is_plain c ≡ false
    → length s.text < s.cap
    → Added s (escape_byte c) (sink_escape s c)
unfolding sink_escape escape_byte
sink_escape-Added s c special fits = elim (Bool-cases (c == b'"')) [
  | inl q ↦ rw (special, q) (sink_add_bytes-Added s (codes "\\\"") fits)
  | inr q ↦ elim (Bool-cases (c == b'\\')) [
    | inl b ↦ rw (special, q, b) (sink_add_bytes-Added s (codes "\\\\") fits)
    | inr b ↦ elim (Bool-cases (c == b'\n')) [
      | inl n ↦ rw (special, q, b, n) (sink_add_bytes-Added s (codes "\\n") fits)
      | inr n ↦ elim (Bool-cases (c == b'\r')) [
        | inl r ↦ rw (special, q, b, n, r) (sink_add_bytes-Added s (codes "\\r") fits)
        | inr r ↦ elim (Bool-cases (c == b'\t')) [
          | inl t ↦ rw (special, q, b, n, r, t) (sink_add_bytes-Added s (codes "\\t") fits)
          | inr t ↦
              rw (special, q, b, n, r, t) (hex_escape-Added s (hex_char (c / 16)) (hex_char c) fits)
        ]
      ]
    ]
  ]
]

flush-Added : (s : Sink) (plain : Bytes) → length s.text < s.cap → Added s plain (flush s plain)
unfolding flush
flush-Added s [] fits = Added-nothing s fits
flush-Added s (c ∷ plain) fits =
    let some_bytes : ltb 0 (length (c ∷ plain)) ≡ true = lt→ltb _ _ (omega arith) in
    rw some_bytes (sink_add_bytes-Added s (c ∷ plain) fits)

escaped_loop-Added :
    (s : Sink) (plain text : Bytes)
    → length s.text < s.cap
    → Added s (plain ++ escape text) (escaped_loop s plain text)
unfolding escaped_loop escape
escaped_loop-Added s plain [] fits =
    subst (λ l. Added s l (flush s plain)) (sym (append-nil plain)) (flush-Added s plain fits)
escaped_loop-Added s plain (c ∷ text) fits = elim (Bool-cases (is_plain c)) [
  | inl fine ↦
      rw (fine, escape_byte-plain c fine)
        (subst (λ l. Added s l (escaped_loop s (plain ++ (c ∷ [])) text))
          (append_assoc plain (c ∷ []) (escape text))
          (escaped_loop-Added s (plain ++ (c ∷ [])) text fits))
  | inr special ↦
      let a = flush-Added s plain fits in
      let b = sink_escape-Added (flush s plain) c special a.fits in
      rw special (
        Added-trans s _ _ plain (escape_byte c ++ escape text) a (
          Added-trans _ _ _ (escape_byte c) (escape text) b
            (escaped_loop-Added (sink_escape (flush s plain) c) [] text b.fits)))
]

-- In a sink with room, `sink_add_escaped` adds the escapes of the text's first `max_text` bytes,
-- in front of which nothing changes, where they fit with a NUL behind them; and where they
-- do not, or the sink had overflowed before, it has overflowed and its text is still shorter than `cap`.
pub sink_add_escaped-Added :
    (s : Sink) (text : Bytes)
    → length s.text < s.cap
    → Added s (escape (take max_text text)) (sink_add_escaped s text)
unfolding sink_add_escaped
sink_add_escaped-Added s text fits = escaped_loop-Added s [] (take max_text text) fits
