-- ===== src/Reading/Checks.antt =====
-- What `read_request` of src/server/server_http.c decides on the bytes that it has.
use mathlib.Core.Path.{subst}
use gargantua.Common.{
  ℕ, ◌+◌, ◌≤◌, Bool, true, false, not, ◌||◌, Option, none, some, Bytes, codes, strcase_eq, length,
  ltb, ◌==◌, le_of_ltb-false, Bool-cases, ◌≡◌, ◌⊎◌, inl, inr, refl, sym, arith,
}
use gargantua.Buffer.Reserve.{contents}
use gargantua.Http.{HttpRequest, HttpParseResult, parsed, need_more, error}
use gargantua.Http.Parse.{http_parse_request, http_find_header}
use gargantua.Reading.{
  body_max, Peer, Outcome, ready, no_request, broken, too_large, unexpected, Conn, expected,
  expect_header, handle_expect_continue, announces_too_much, after_expect, check_request,
  check_parsed, check_buffer,
}

abbrev pub Once : Conn → Type 0
Once c = (c.interims ≡ 0) ⊎ ((c.interims ≡ 1) × (c.sent_continue ≡ true))

-- A request that is ready, with what the buffer holds.
abbrev pub ReadyOk : Bytes → Outcome → Type 0
ReadyOk s (ready req) =
    (http_parse_request s ≡ parsed req)
    × (req.body_len ≤ body_max)
    × (announces_too_much req req.content_length ≡ false)
ReadyOk s _ = Unit

abbrev pub Decided : Bytes → Option Outcome → Type 0
Decided s none = Unit
Decided s (some o) = ReadyOk s o

abbrev NotReady : Option Outcome → Type 0
NotReady (some (ready req)) = ⊥
NotReady _ = Unit

abbrev Quiet : Conn → Option Outcome × Conn → Type 0
Quiet c r = (r.1.buf ≡ c.buf) × Once r.1 × NotReady r.0

abbrev pub Checked : Conn → Option Outcome × Conn → Type 0
Checked c r = (r.1.buf ≡ c.buf) × Once r.1 × Decided (contents c.buf) r.0

module _ (peer : Peer) (step : ℕ) (c : Conn) (once : Once c) where
  expected-Quiet :
      (req : HttpRequest) (ok : Bool) (expect : Bytes)
      → c.sent_continue ≡ false
      → Quiet c (expected peer step req ok c expect)
  unfolding expected
  expected-Quiet req ok expect unsent =
      elim (Bool-cases (
        not (req.minor_version == 1)
        || not (length expect == 12)
        || not (strcase_eq expect (codes "100-continue")))) [
          | inl bad ↦
              let made : expected peer step req ok c expect ≡ (some unexpected, c) = simp bad in
              subst (Quiet c) (sym made) (refl, once, tt)
          | inr good ↦ elim (Bool-cases ok) [
            | inl whole ↦
                let made : expected peer step req ok c expect
                    ≡ (none, record c { sent_continue = true }) =
                  simp (good, whole) in
                subst (Quiet c) (sym made)
                  (refl, elim once [ inl z ↦ inl z | inr (z, t) ↦ inr (z, refl) ], tt)
            | inr part ↦ elim (Bool-cases (peer.send step)) [
              | inl sent ↦
                  let made : expected peer step req ok c expect
                      ≡ (none, record c { sent_continue = true; interims = c.interims + 1 }) =
                    simp (good, part, sent) in
                  subst (Quiet c) (sym made) (
                    refl,
                    inr (
                      elim once [
                        | inl z ↦ omega (arith, z)
                        | inr (z, t) ↦ absurd (ground (arith, t, unsent))
                      ],
                      refl,
                    ),
                    tt,
                  )
              | inr lost ↦
                  let made : expected peer step req ok c expect ≡ (some broken, c) =
                    simp (good, part, lost) in
                  subst (Quiet c) (sym made) (refl, once, tt)
            ]
          ]
        ]

  expect_header-Quiet :
      (req : HttpRequest) (ok : Bool) (o : Option Bytes)
      → c.sent_continue ≡ false
      → Quiet c (expect_header peer step req ok c o)
  unfolding expect_header
  expect_header-Quiet req ok none unsent = (refl, once, tt)
  expect_header-Quiet req ok (some expect) unsent = expected-Quiet req ok expect unsent

  handle_expect_continue-Quiet :
      (req : HttpRequest) (ok : Bool) → Quiet c (handle_expect_continue peer step req ok c)
  unfolding handle_expect_continue
  handle_expect_continue-Quiet req ok = elim (Bool-cases (req.header_len == 0 || c.sent_continue)) [
    | inl skip ↦
        let made : handle_expect_continue peer step req ok c ≡ (none, c) = simp skip in
        subst (Quiet c) (sym made) (refl, once, tt)
    | inr look ↦
        let made : handle_expect_continue peer step req ok c
            ≡ expect_header peer step req ok c (http_find_header req.headers (codes "Expect")) =
          simp look in
        subst (Quiet c) (sym made) (
          expect_header-Quiet req ok (http_find_header req.headers (codes "Expect"))
            (ground (arith, look)))
  ]

  -- `result` is what the parser said of the buffer.
  after_expect-Checked :
      (req : HttpRequest) (ok : Bool) (r : Option Outcome × Conn)
      → (ok ≡ true → http_parse_request (contents c.buf) ≡ parsed req)
      → announces_too_much req req.content_length ≡ false
      → Quiet c r
      → Checked c (after_expect req ok r)
  unfolding after_expect
  after_expect-Checked req ok (some (ready q), c') said few (same, o, bad) = absurd bad
  after_expect-Checked req ok (some no_request, c') said few (same, o, n) = (same, o, tt)
  after_expect-Checked req ok (some broken, c') said few (same, o, n) = (same, o, tt)
  after_expect-Checked req ok (some too_large, c') said few (same, o, n) = (same, o, tt)
  after_expect-Checked req ok (some unexpected, c') said few (same, o, n) = (same, o, tt)
  after_expect-Checked req false (none, c') said few (same, o, n) = (same, o, tt)
  after_expect-Checked req true (none, c') said few (same, o, n) =
      elim (Bool-cases (ltb body_max req.body_len)) [
        | inl large ↦ (same, o, rw large tt)
        | inr fits ↦ (same, o, rw fits (said refl, le_of_ltb-false _ _ fits, few))
      ]

  check_request-Checked :
      (req : HttpRequest) (ok : Bool)
      → (ok ≡ true → http_parse_request (contents c.buf) ≡ parsed req)
      → Checked c (check_request peer step req ok c)
  unfolding check_request
  check_request-Checked req ok said =
      elim (Bool-cases (announces_too_much req req.content_length)) [
        | inl large ↦
            let made : check_request peer step req ok c ≡ (some too_large, c) = simp large in
            subst (Checked c) (sym made) (refl, once, tt)
        | inr few ↦
            let made : check_request peer step req ok c
                ≡ after_expect req ok (handle_expect_continue peer step req ok c) =
              simp few in
            subst (Checked c) (sym made) (
              after_expect-Checked req ok (handle_expect_continue peer step req ok c) said few
                (handle_expect_continue-Quiet req ok))
      ]

  check_parsed-Checked :
      (result : HttpParseResult)
      → http_parse_request (contents c.buf) ≡ result
      → Checked c (check_parsed peer step c result)
  unfolding check_parsed
  check_parsed-Checked error said = (refl, once, tt)
  check_parsed-Checked (parsed req) said = check_request-Checked req true (λ t. said)
  check_parsed-Checked (need_more req) said =
      check_request-Checked req false (λ t. absurd (ground (arith, t)))

  pub check_buffer-Checked : Checked c (check_buffer peer step c)
  unfolding check_buffer
  check_buffer-Checked = elim (Bool-cases (ltb 0 c.buf.len)) [
    | inl filled ↦
        let made : check_buffer peer step c
            ≡ check_parsed peer step c (http_parse_request (contents c.buf)) =
          simp filled in
        subst (Checked c) (sym made)
          (check_parsed-Checked (http_parse_request (contents c.buf)) refl)
    | inr empty ↦
        let made : check_buffer peer step c ≡ (none, c) = simp empty in
        subst (Checked c) (sym made) (refl, once, tt)
  ]
