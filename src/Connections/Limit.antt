-- ===== src/Connections/Limit.antt =====
-- `client_limit` of src/server/server.c as a whole: what a call counts, for its address and for the others.
use mathlib.Core.Path.{subst}
use gargantua.Common.{
  ℕ, zero, suc, ◌-◌, ◌≤◌, ◌<◌, Bool, true, false, Option, none, some, List, [], ◌∷◌, get_elem?,
  total, total-set, set, leb, ◌==◌, Bool-cases, Option-cases, ==_refl, ==_iff, ◌≡◌, ◌≢◌, inl, inr,
  refl, sym, ap, ◌∙◌, arith,
}
use gargantua.Connections.{
  ClientLimit, Action, Limits, is_client, is_reusable, find_slot, new_client, chosen, this_window,
  limit_client, limit_slot, client_limit,
}
use gargantua.Connections.Action.{connect, request, disconnect}
use gargantua.Connections.Clients.{
  slots, open_for, connections_of, IsTable, counted, connections-absent, connections-slot,
  find_slot-found, find_slot-absent, find_slot-empty, limit_client-counted,
}

-- The slot that a call uses is the client's, and no count is different from before.
record IsClientSlot (ip : ℕ) (before after : List ClientLimit) (slot : ℕ) : Type 0 where
  table : IsTable after
  same : (j : ℕ) → connections_of j after ≡ connections_of j before
  client : (c : ClientLimit) × (get_elem? after slot ≡ some c) × (is_client ip c ≡ true)

get_elem-set_self :
    (clients : List ClientLimit) (i : ℕ) (c d : ClientLimit)
    → get_elem? clients i ≡ some c
    → get_elem? (set clients i d) i ≡ some d
get_elem-set_self [] i c d h = absurd cc
get_elem-set_self (b ∷ clients) zero c d h = refl
get_elem-set_self (b ∷ clients) (suc i) c d h = get_elem-set_self clients i c d h

slots≤one : (j : ℕ) (c : ClientLimit) → slots j c ≤ 1
slots≤one j c = ground arith

open_for-slots : (j : ℕ) (c : ClientLimit) → slots j c ≡ 0 → open_for j c ≡ 0
open_for-slots j c h = ground (arith, h)

slots-other : (ip j : ℕ) (c : ClientLimit) → is_client ip c ≡ true → j ≢ ip → slots j c ≡ 0
slots-other ip j c h other = ground (arith, h, other)

open_for-empty : (now j : ℕ) (c : ClientLimit) → is_reusable now c ≡ true → open_for j c ≡ 0
open_for-empty now j c h = ground (arith, h)

new_client-IsClientSlot :
    (now ip : ℕ) (clients : List ClientLimit) (i : ℕ) (c : ClientLimit)
    → IsTable clients
    → total (slots ip) clients ≡ 0
    → get_elem? clients i ≡ some c
    → is_reusable now c ≡ true
    → IsClientSlot ip clients (set clients i (new_client now ip)) i
new_client-IsClientSlot now ip clients i c table absent here empty =
    let new = new_client now ip in
    let mine : is_client ip new ≡ true = ==_refl ip in
    record {
      table = λ j.
          let sum = total-set (slots j) clients i c new here in
          elim (Bool-cases (j == ip)) [
            | inl e ↦
                let e' : j ≡ ip = (==_iff j ip).0 e in
                let nowhere : total (slots j) clients ≡ 0 = rw e' absent in
                omega (arith, sum, nowhere, slots≤one j new)
            | inr e ↦
                let e' : j ≢ ip = ground (arith, e) in
                omega (arith, sum, slots-other ip j new mine e', table j)
          ];
      same = λ j.
          let sum = total-set (open_for j) clients i c new here in
          let nothing : open_for j new ≡ 0 = ground arith in
          omega (arith, sum, nothing, open_for-empty now j c empty);
      client = (new, get_elem-set_self clients i c new here, mine);
    }

chosen-IsClientSlot :
    (now ip : ℕ) (action : Action) (clients : List ClientLimit) (found : Option ℕ × Option ℕ)
    (slot : ℕ) (after : List ClientLimit)
    → find_slot now ip clients ≡ found
    → IsTable clients
    → chosen now ip action clients found ≡ some (slot, after)
    → IsClientSlot ip clients after slot
unfolding chosen
chosen-IsClientSlot now ip action clients (some i, empty) slot after e table h =
    let here : i ≡ slot = cc in
    let kept : clients ≡ after = cc in
    subst (λ a. IsClientSlot ip clients a slot) kept
      (record {
        table = table;
        same = λ j. refl;
        client = find_slot-found now ip clients slot (rw e (ap some here));
      })
chosen-IsClientSlot now ip connect clients (none, some i) slot after e table h =
    let here : i ≡ slot = cc in
    let made : set clients i (new_client now ip) ≡ after = cc in
    let (c, at_i, free) = find_slot-empty now ip clients i (rw e refl) in
    rw⁻¹ (made, here)
      (new_client-IsClientSlot now ip clients i c table
        (find_slot-absent now ip clients (rw e refl)) at_i free)
chosen-IsClientSlot now ip request clients (none, some i) slot after e table h = absurd cc
chosen-IsClientSlot now ip disconnect clients (none, some i) slot after e table h = absurd cc
chosen-IsClientSlot now ip connect clients (none, none) slot after e table h = absurd cc
chosen-IsClientSlot now ip request clients (none, none) slot after e table h = absurd cc
chosen-IsClientSlot now ip disconnect clients (none, none) slot after e table h = absurd cc

this_window-kept :
    (now : ℕ) (c : ClientLimit)
    → ((this_window now c).ip ≡ c.ip)
      × ((this_window now c).used ≡ c.used)
      × ((this_window now c).connections ≡ c.connections)
unfolding this_window
this_window-kept now c = elim (Bool-cases (leb 60 (now - c.window))) [
  | inl e ↦ rw e (refl, refl, refl)
  | inr e ↦ rw e (refl, refl, refl)
]

-- What a call of `client_limit` does.
pub record IsCounted (l : Limits) (ip : ℕ) (action : Action) (before : List ClientLimit)
    (after : Bool × List ClientLimit) : Type 0 where
  pub table : IsTable after.1
  pub count :
      (j : ℕ)
      → connections_of j after.1 ≡ counted after.0 action (j == ip) (connections_of j before)
  pub few : action ≡ connect → after.0 ≡ true → connections_of ip before < l.connections_per_ip

counted_other : (ok : Bool) (action : Action) (n : ℕ) → counted ok action false n ≡ n
unfolding counted
counted_other true connect n = refl
counted_other true request n = refl
counted_other true disconnect n = refl
counted_other false action n = refl

slots-same : (j : ℕ) (c d : ClientLimit) → d.ip ≡ c.ip → d.used ≡ c.used → slots j d ≡ slots j c
slots-same j c d h k = rw (h, k) refl

-- The slot of the client is written back.
IsCounted-set :
    (l : Limits) (ip : ℕ) (action : Action) (clients : List ClientLimit) (slot : ℕ)
    (c d : ClientLimit) (ok : Bool)
    → IsTable clients
    → get_elem? clients slot ≡ some c
    → is_client ip c ≡ true
    → d.ip ≡ c.ip
    → d.used ≡ c.used
    → d.connections ≡ counted ok action true c.connections
    → (action ≡ connect → ok ≡ true → c.connections < l.connections_per_ip)
    → IsCounted l ip action clients (ok, set clients slot d)
IsCounted-set l ip action clients slot c d ok table here mine same_ip same_used conns few =
    let all_here : connections_of ip clients ≡ c.connections =
      connections-slot ip clients slot c here mine (table ip) in
    let mine' : is_client ip d ≡ true = rw (same_ip, same_used) mine in
    record {
      table = λ j. omega (
        arith,
        total-set (slots j) clients slot c d here,
        slots-same j c d same_ip same_used,
        table j,
      );
      count = λ j.
          let sum = total-set (open_for j) clients slot c d here in
          elim (Bool-cases (j == ip)) [
            | inl e ↦
                let e' : j ≡ ip = (==_iff j ip).0 e in
                let c1 : open_for j c ≡ c.connections = rw (e', mine) refl in
                let d1 : open_for j d ≡ d.connections = rw (e', mine') refl in
                let all_j : connections_of j clients ≡ c.connections = rw e' all_here in
                rw (e, all_j) (omega (arith, sum, c1, d1, all_j, conns))
            | inr e ↦
                let e' : j ≢ ip = ground (arith, e) in
                let c0 = open_for-slots j c (slots-other ip j c mine e') in
                let d0 = open_for-slots j d (slots-other ip j d mine' e') in
                rw (e, counted_other ok action (connections_of j clients))
                  (omega (arith, sum, c0, d0))
          ];
      few = λ a b. rw all_here (few a b);
    }

client_limit-chosen :
    (l : Limits) (now ip : ℕ) (action : Action) (clients : List ClientLimit) (slot : ℕ)
    (after : List ClientLimit)
    → IsClientSlot ip clients after slot
    → IsCounted l ip action clients (limit_slot l now action after slot (get_elem? after slot))
client_limit-chosen l now ip action clients slot after ch =
    let (c, here, mine) = ch.client in
    let w = this_window now c in
    let (w_ip, w_used, w_conns) = this_window-kept now c in
    let (d_ip, d_used, d_conns, few) = limit_client-counted l action w in
    let r = limit_client l action w in
    let after_all =
      IsCounted-set l ip action after slot c r.1 r.0 ch.table here mine (d_ip ∙ w_ip)
        (d_used ∙ w_used) (d_conns ∙ ap (counted r.0 action true) w_conns)
        (λ a b. omega (arith, few a b, w_conns)) in
    rw here (record {
      table = after_all.table;
      count = λ j. after_all.count j ∙ ap (counted r.0 action (j == ip)) (ch.same j);
      few = λ a b. omega (arith, ch.same ip, after_all.few a b);
    })

counted_failed : (action : Action) (of_it : Bool) (n : ℕ) → counted false action of_it n ≡ n
unfolding counted
counted_failed connect of_it n = refl
counted_failed request of_it n = refl
counted_failed disconnect of_it n = refl

IsCounted-unchanged :
    (l : Limits) (ip : ℕ) (action : Action) (clients : List ClientLimit)
    → IsTable clients
    → IsCounted l ip action clients (false, clients)
IsCounted-unchanged l ip action clients table = record {
  table = table;
  count = λ j. sym (counted_failed action (j == ip) (connections_of j clients));
  few = λ a b. absurd cc;
}

-- In a table with no two slots of one address, a call of `client_limit` adds one connection for its address where
-- it succeeds with 1, which it does only below the limit, takes one away where it succeeds with -1, and leaves
-- every other count as it is. The table stays one with no two slots of an address.
pub client_limit-IsCounted :
    (l : Limits) (clock : Option ℕ) (ip : ℕ) (action : Action) (clients : List ClientLimit)
    → IsTable clients
    → IsCounted l ip action clients (client_limit l clock ip action clients)
unfolding client_limit
client_limit-IsCounted l none ip action clients table =
    IsCounted-unchanged l ip action clients table
client_limit-IsCounted l (some now) ip action clients table =
    elim (Option-cases (chosen now ip action clients (find_slot now ip clients))) [
      | inl e ↦ rw e (IsCounted-unchanged l ip action clients table)
      | inr ((slot, after), e) ↦ rw e (
          client_limit-chosen l now ip action clients slot after (
            chosen-IsClientSlot now ip action clients (find_slot now ip clients) slot after refl
              table e))
    ]

chosen_found :
    (now ip : ℕ) (action : Action) (clients : List ClientLimit) (found : Option ℕ × Option ℕ)
    (slot : ℕ)
    → found.0 ≡ some slot
    → chosen now ip action clients found ≡ some (slot, clients)
unfolding chosen
chosen_found now ip action clients (some i, empty) slot h = let e : i ≡ slot = cc in rw e refl
chosen_found now ip action clients (none, empty) slot h = absurd cc

-- Where connections are counted for the address, a release succeeds unless the clock fails.
pub client_limit-released :
    (l : Limits) (now ip : ℕ) (clients : List ClientLimit)
    → 0 < connections_of ip clients
    → (client_limit l (some now) ip disconnect clients).0 ≡ true
unfolding client_limit limit_client
client_limit-released l now ip clients some_open =
    elim (Option-cases (find_slot now ip clients).0) [
      | inl e ↦ absurd (
          omega
            (arith, some_open, connections-absent ip clients (find_slot-absent now ip clients e)))
      | inr (slot, e) ↦
          let (c, here, mine) = find_slot-found now ip clients slot e in
          rw (chosen_found now ip disconnect clients (find_slot now ip clients) slot e, here) refl
    ]
