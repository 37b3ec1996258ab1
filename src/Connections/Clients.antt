-- ===== src/Connections/Clients.antt =====
-- The table of clients of src/server/server.c: what one call of `client_limit` does to the connections that are
-- counted for an address.
use gargantua.Common.{
  ℕ, zero, suc, ◌+◌, ◌-◌, ◌≤◌, ◌<◌, Bool, true, false, Option, none, some, List, [], ◌∷◌, get_elem?,
  total, weight≤total, ltb, if◌then◌else◌, Bool-cases, ltb→lt, le_of_ltb-false, ◌≡◌, ◌⊎◌, inl, inr,
  refl, arith,
}
use gargantua.Connections.{
  ClientLimit, Action, Limits, is_client, is_reusable, behind, or_here, find_slot, limit_client,
}
use gargantua.Connections.Action.{connect, request, disconnect}

abbrev pub slots : ℕ → ClientLimit → ℕ
slots ip c = if is_client ip c then 1 else 0

abbrev pub open_for : ℕ → ClientLimit → ℕ
open_for ip c = if is_client ip c then c.connections else 0

-- The connections that the table counts for an address.
abbrev pub connections_of : ℕ → List ClientLimit → ℕ
connections_of ip clients = total (open_for ip) clients

-- No address has two slots.
abbrev pub IsTable : List ClientLimit → Type 0
IsTable clients = (ip : ℕ) → total (slots ip) clients ≤ 1

-- The connections of the address `of_it` of a call, or of another one, after the call.
unfoldable pub counted : Bool → Action → Bool → ℕ → ℕ
counted true connect true n = n + 1
counted true disconnect true n = n - 1
counted ok action of_it n = n

pub connections-absent :
    (ip : ℕ) (clients : List ClientLimit)
    → total (slots ip) clients ≡ 0
    → connections_of ip clients ≡ 0
unfolding total
connections-absent ip [] h = refl
connections-absent ip (c ∷ clients) h =
    let ih = connections-absent ip clients in
    elim (Bool-cases (is_client ip c)) [
      | inl e ↦ absurd (omega (arith, simp e at h))
      | inr e ↦ rw e (omega (arith, ih (omega (arith, simp e at h))))
    ]

pub connections-slot :
    (ip : ℕ) (clients : List ClientLimit) (i : ℕ) (c : ClientLimit)
    → get_elem? clients i ≡ some c
    → is_client ip c ≡ true
    → total (slots ip) clients ≤ 1
    → connections_of ip clients ≡ c.connections
unfolding total
connections-slot ip [] i c h his one = absurd cc
connections-slot ip (b ∷ clients) zero c h his one =
    let e : b ≡ c = cc in
    let others : total (slots ip) clients ≡ 0 = omega (arith, simp (e, his) at one) in
    rw (e, his, connections-absent ip clients others) (omega arith)
connections-slot ip (b ∷ clients) (suc i) c h his one =
    let below = weight≤total (slots ip) clients i c h in
    elim (Bool-cases (is_client ip b)) [
      | inl e ↦ absurd (omega (arith, simp his at below, simp e at one))
      | inr e ↦
          rw e (omega (arith, connections-slot ip clients i c h his (omega (arith, simp e at one))))
    ]

behind-some : (o : Option ℕ) (i : ℕ) → behind o ≡ some i → (j : ℕ) × (i ≡ suc j) × (o ≡ some j)
behind-some none i h = absurd cc
behind-some (some j) i h = (j, cc, refl)

behind-none : (o : Option ℕ) → behind o ≡ none → o ≡ none
behind-none none h = refl
behind-none (some j) h = absurd cc

or_here-some :
    (o : Option ℕ) (here : Bool) (i : ℕ)
    → or_here o here ≡ some i
    → ((i ≡ 0) × (here ≡ true)) ⊎ ((j : ℕ) × (i ≡ suc j) × (o ≡ some j))
or_here-some none true i h = inl (cc, refl)
or_here-some none false i h = absurd cc
or_here-some (some j) here i h = inr (j, cc, refl)

-- What holds for the element at an index of the tail holds for it at the next one.
at_next :
    {P : ClientLimit → Type 0} (c : ClientLimit) (clients : List ClientLimit) (i j : ℕ)
    → i ≡ suc j
    → (d : ClientLimit) × (get_elem? clients j ≡ some d) × P d
    → (d : ClientLimit) × (get_elem? (c ∷ clients) i ≡ some d) × P d
at_next c clients i j e (d, h, p) = (d, rw e h, p)

pub find_slot-found :
    (now ip : ℕ) (clients : List ClientLimit) (i : ℕ)
    → (find_slot now ip clients).0 ≡ some i
    → (c : ClientLimit) × (get_elem? clients i ≡ some c) × (is_client ip c ≡ true)
unfolding find_slot
find_slot-found now ip [] i h = absurd cc
find_slot-found now ip (c ∷ clients) i h = elim (Bool-cases (is_client ip c)) [
  | inl e ↦ let h' : some 0 ≡ some i = simp e at h in let i0 : i ≡ 0 = cc in (c, rw i0 refl, e)
  | inr e ↦
      let (j, ij, hj) = behind-some _ i (simp e at h) in
      at_next c clients i j ij (find_slot-found now ip clients j hj)
]

pub find_slot-absent :
    (now ip : ℕ) (clients : List ClientLimit)
    → (find_slot now ip clients).0 ≡ none
    → total (slots ip) clients ≡ 0
unfolding find_slot total
find_slot-absent now ip [] h = refl
find_slot-absent now ip (c ∷ clients) h = elim (Bool-cases (is_client ip c)) [
  | inl e ↦ let h' : ◌≡◌ {A = Option ℕ} (some 0) none = simp e at h in absurd cc
  | inr e ↦ rw e (omega (arith, find_slot-absent now ip clients (behind-none _ (simp e at h))))
]

pub find_slot-empty :
    (now ip : ℕ) (clients : List ClientLimit) (i : ℕ)
    → (find_slot now ip clients).1 ≡ some i
    → (c : ClientLimit) × (get_elem? clients i ≡ some c) × (is_reusable now c ≡ true)
unfolding find_slot
find_slot-empty now ip [] i h = absurd cc
find_slot-empty now ip (c ∷ clients) i h = elim (Bool-cases (is_client ip c)) [
  | inl e ↦ let h' : none ≡ some i = simp e at h in absurd cc
  | inr e ↦ elim (or_here-some _ _ i (simp e at h)) [
    | inl (i0, here) ↦ (c, rw i0 refl, here)
    | inr (j, ij, hj) ↦ at_next c clients i j ij (find_slot-empty now ip clients j hj)
  ]
]

pub limit_client-counted :
    (l : Limits) (action : Action) (c : ClientLimit)
    → ((limit_client l action c).1.ip ≡ c.ip)
      × ((limit_client l action c).1.used ≡ c.used)
      × ((limit_client l action c).1.connections
          ≡ counted ((limit_client l action c).0) action true c.connections)
      × (action ≡ connect
          → (limit_client l action c).0 ≡ true
          → c.connections < l.connections_per_ip)
unfolding limit_client counted
limit_client-counted l connect c = elim (Bool-cases (ltb c.connections l.connections_per_ip)) [
  | inl e ↦ rw e (refl, refl, refl, λ z y. ltb→lt _ _ e)
  | inr e ↦ rw e (refl, refl, refl, λ z y. absurd cc)
]
limit_client-counted l request c = elim (Bool-cases (ltb c.requests l.requests_per_minute)) [
  | inl e ↦ rw e (refl, refl, refl, λ z. absurd cc)
  | inr e ↦ rw e (refl, refl, refl, λ z. absurd cc)
]
limit_client-counted l disconnect c = elim (Bool-cases (ltb 0 c.connections)) [
  | inl e ↦ rw e (refl, refl, refl, λ z. absurd cc)
  | inr e ↦ let h = le_of_ltb-false _ _ e in rw e (refl, refl, omega (arith, h), λ z. absurd cc)
]
