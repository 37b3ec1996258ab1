-- ===== src/Connections/Rate.antt =====
-- The requests that `client_limit` of src/server/server.c counts for a slot stay within the limit of a minute.
use mathlib.Core.Path.{subst}
use gargantua.Common.{
  ℕ, zero, suc, ◌-◌, ◌≤◌, Option, none, some, List, [], ◌∷◌, All, get_elem?, set, ltb, leb,
  Bool-cases, Option-cases, ltb→lt, ◌≡◌, inl, inr, arith,
}
use gargantua.Connections.{
  ClientLimit, Action, connect, request, disconnect, Limits, find_slot, new_client, chosen,
  this_window, limit_client, limit_slot, client_limit,
}

abbrev pub WithinRate : Limits → ClientLimit → Type 0
WithinRate l c = c.requests ≤ l.requests_per_minute

All-set :
    (P : ClientLimit → Type 0) (clients : List ClientLimit) (i : ℕ) (c : ClientLimit)
    → All P clients
    → P c
    → All P (set clients i c)
All-set P [] i c h p = tt
All-set P (b ∷ clients) zero c (q, h) p = (p, h)
All-set P (b ∷ clients) (suc i) c (q, h) p = (q, All-set P clients i c h p)

All-get_elem :
    (P : ClientLimit → Type 0) (clients : List ClientLimit) (i : ℕ) (c : ClientLimit)
    → All P clients
    → get_elem? clients i ≡ some c
    → P c
All-get_elem P [] i c h e = absurd cc
All-get_elem P (b ∷ clients) zero c (q, h) e = let same : b ≡ c = cc in subst P same q
All-get_elem P (b ∷ clients) (suc i) c (q, h) e = All-get_elem P clients i c h e

this_window-WithinRate :
    (l : Limits) (now : ℕ) (c : ClientLimit) → WithinRate l c → WithinRate l (this_window now c)
unfolding this_window
this_window-WithinRate l now c h = elim (Bool-cases (leb 60 (now - c.window))) [
  | inl e ↦ rw e (omega arith)
  | inr e ↦ rw e h
]

limit_client-WithinRate :
    (l : Limits) (action : Action) (c : ClientLimit)
    → WithinRate l c
    → WithinRate l ((limit_client l action c).1)
unfolding limit_client
limit_client-WithinRate l connect c h = elim (Bool-cases (ltb c.connections l.connections_per_ip)) [
  | inl e ↦ rw e h
  | inr e ↦ rw e h
]
limit_client-WithinRate l request c h = elim (Bool-cases (ltb c.requests l.requests_per_minute)) [
  | inl e ↦ rw e (omega (arith, ltb→lt c.requests l.requests_per_minute e))
  | inr e ↦ rw e h
]
limit_client-WithinRate l disconnect c h = elim (Bool-cases (ltb 0 c.connections)) [
  | inl e ↦ rw e h
  | inr e ↦ rw e h
]

chosen-WithinRate :
    (l : Limits) (now ip : ℕ) (action : Action) (clients : List ClientLimit)
    (found : Option ℕ × Option ℕ) (slot : ℕ) (after : List ClientLimit)
    → All (WithinRate l) clients
    → chosen now ip action clients found ≡ some (slot, after)
    → All (WithinRate l) after
unfolding chosen
chosen-WithinRate l now ip action clients (some i, empty) slot after h e =
    let kept : clients ≡ after = cc in subst (All (WithinRate l)) kept h
chosen-WithinRate l now ip connect clients (none, some i) slot after h e =
    let made : set clients i (new_client now ip) ≡ after = cc in
    subst (All (WithinRate l)) made
      (All-set (WithinRate l) clients i (new_client now ip) h (omega arith))
chosen-WithinRate l now ip request clients (none, some i) slot after h e = absurd cc
chosen-WithinRate l now ip disconnect clients (none, some i) slot after h e = absurd cc
chosen-WithinRate l now ip connect clients (none, none) slot after h e = absurd cc
chosen-WithinRate l now ip request clients (none, none) slot after h e = absurd cc
chosen-WithinRate l now ip disconnect clients (none, none) slot after h e = absurd cc

limit_slot-WithinRate :
    (l : Limits) (now : ℕ) (action : Action) (clients : List ClientLimit) (slot : ℕ)
    → All (WithinRate l) clients
    → All (WithinRate l) ((limit_slot l now action clients slot (get_elem? clients slot)).1)
limit_slot-WithinRate l now action clients slot h = elim (Option-cases (get_elem? clients slot)) [
  | inl e ↦ rw e h
  | inr (c, e) ↦
      let within_it =
        this_window-WithinRate l now c (All-get_elem (WithinRate l) clients slot c h e) in
      rw e (
        All-set (WithinRate l) clients slot _ h
          (limit_client-WithinRate l action (this_window now c) within_it))
]

pub client_limit-WithinRate :
    (l : Limits) (clock : Option ℕ) (ip : ℕ) (action : Action) (clients : List ClientLimit)
    → All (WithinRate l) clients
    → All (WithinRate l) ((client_limit l clock ip action clients).1)
unfolding client_limit
client_limit-WithinRate l none ip action clients h = h
client_limit-WithinRate l (some now) ip action clients h =
    elim (Option-cases (chosen now ip action clients (find_slot now ip clients))) [
      | inl e ↦ rw e h
      | inr ((slot, after), e) ↦ rw e (
          limit_slot-WithinRate l now action after slot
            (chosen-WithinRate l now ip action clients (find_slot now ip clients) slot after h e))
    ]
