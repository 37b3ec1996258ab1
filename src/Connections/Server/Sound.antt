-- ===== src/Connections/Server/Sound.antt =====
-- What holds in every state of the threads of src/server/server_worker.c: the table counts just the connections that
-- are still to be released, and a socket is held in one place until it is closed.
use gargantua.Common.{
  All, ℕ, ◌+◌, ◌-◌, ◌≤◌, ◌<◌, Bool, true, false, Option, none, some, total, ◌==◌, if◌then◌else◌,
  Bool-cases, ==_iff, ◌≡◌, inl, inr, refl, ◌∙◌, arith,
}
use gargantua.Connections.{Limits, client_limit}
use gargantua.Connections.Action.{connect, request, disconnect}
use gargantua.Connections.Ring.{IsRing}
use gargantua.Connections.Clients.{IsTable, connections_of, counted}
use gargantua.Connections.Limit.{client_limit-IsCounted, client_limit-released}
use gargantua.Connections.Rate.{WithinRate, client_limit-WithinRate}
use gargantua.Connections.Server.{
  Server, Acceptor, same, acceptor_fd, acceptor_ip, held, unreleased, release, accept_one,
}

pub record IsSound (l : Limits) (s : Server) : Type 0 where
  pub ring : IsRing s.queue
  pub table : IsTable s.clients
  pub counts : (ip : ℕ) → connections_of ip s.clients ≡ unreleased ip s + total (same ip) s.lost
  pub few : (ip : ℕ) → connections_of ip s.clients ≤ l.connections_per_ip
  pub rate : All (WithinRate l) s.clients
  pub sockets : (fd : ℕ) → total (same fd) s.accepted ≡ total (same fd) s.closed + held fd s
  pub alone : (fd : ℕ) → held fd s ≤ 1

same_self : (x : ℕ) → same x x ≡ 1
same_self x = ground arith

connected :
    (ok : Bool) (j ip n : ℕ) → counted ok connect (j == ip) n ≡ n + (if ok then same j ip else 0)
unfolding counted
connected true j ip n = ground arith
connected false j ip n = ground arith

pub requested : (ok : Bool) (j ip n : ℕ) → counted ok request (j == ip) n ≡ n
unfolding counted
requested true j ip n = refl
requested false j ip n = refl

disconnected : (j ip n : ℕ) → counted true disconnect (j == ip) n ≡ n - same j ip
unfolding counted
disconnected j ip n = ground arith

-- A release takes one connection of its address off the table, or is lost.
record IsReleased (ip : ℕ) (s t : Server) : Type 0 where
  table : IsTable t.clients
  counts :
      (j : ℕ)
      → connections_of j t.clients + (same j ip + total (same j) s.lost)
        ≡ connections_of j s.clients + total (same j) t.lost
  few : (j : ℕ) → connections_of j t.clients ≤ connections_of j s.clients

release-IsReleased :
    (l : Limits) (clock : Option ℕ) (ip : ℕ) (s : Server)
    → IsTable s.clients
    → 0 < connections_of ip s.clients
    → IsReleased ip s (release l clock ip s)
unfolding release total client_limit
release-IsReleased l none ip s table open_here = record {
  table = table;
  counts = λ j. omega arith;
  few = λ j. omega arith;
}
release-IsReleased l (some now) ip s table open_here =
    let r = client_limit-IsCounted l (some now) ip disconnect s.clients table in
    let ok = client_limit-released l now ip s.clients open_here in
    let off : (j : ℕ)
        → connections_of j ((client_limit l (some now) ip disconnect s.clients).1)
          ≡ connections_of j s.clients - same j ip =
      λ j. r.count j ∙ rw ok (disconnected j ip (connections_of j s.clients)) in
    record {
      table = r.table;
      counts = λ j. elim (Bool-cases (j == ip)) [
        | inl e ↦
            let one : same j ip ≡ 1 = rw e refl in
            let open_there : 0 < connections_of j s.clients = rw ((==_iff j ip).0 e) open_here in
            omega (arith, off j, one, open_there)
        | inr e ↦ let none_off : same j ip ≡ 0 = rw e refl in omega (arith, off j, none_off)
      ];
      few = λ j. omega (arith, off j);
    }

accepted_ip :
    (ok : Bool) (fd ip j : ℕ)
    → acceptor_ip j (if ok then Acceptor.limited fd ip else Acceptor.rejecting fd)
      ≡ (if ok then same j ip else 0)
accepted_ip true fd ip j = refl
accepted_ip false fd ip j = refl

accepted_fd :
    (ok : Bool) (fd ip x : ℕ)
    → acceptor_fd x (if ok then Acceptor.limited fd ip else Acceptor.rejecting fd) ≡ same x fd
accepted_fd true fd ip x = refl
accepted_fd false fd ip x = refl

-- A socket that nobody held is held once more, and the others as often as before.
alone_more : (f : ℕ → ℕ) (fd x : ℕ) → f fd ≡ 0 → ((y : ℕ) → f y ≤ 1) → same x fd + f x ≤ 1
alone_more f fd x fresh alone = elim (Bool-cases (x == fd)) [
  | inl e ↦ let here : f x ≡ 0 = rw ((==_iff x fd).0 e) fresh in rw e (omega (arith, here))
  | inr e ↦ rw e (omega (arith, alone x))
]

few_more :
    (f : ℕ → ℕ) (most ip j : ℕ) (ok : Bool)
    → (ok ≡ true → f ip < most)
    → ((i : ℕ) → f i ≤ most)
    → f j + (if ok then same j ip else 0) ≤ most
few_more f most ip j false below few = omega (arith, few j)
few_more f most ip j true below few = elim (Bool-cases (j == ip)) [
  | inl e ↦
      let here : f j < most = rw ((==_iff j ip).0 e) (below refl) in rw e (omega (arith, here))
  | inr e ↦ rw e (omega (arith, few j))
]

pub accepts-IsSound :
    (l : Limits) (s : Server) (clock : Option ℕ) (fd ip : ℕ)
    → s.acceptor ≡ Acceptor.polling
    → held fd s ≡ 0
    → IsSound l s
    → IsSound l (accept_one l clock fd ip s)
unfolding accept_one total
accepts-IsSound l s clock fd ip polls fresh sound =
    let r = client_limit-IsCounted l clock ip connect s.clients sound.table in
    let ok = (client_limit l clock ip connect s.clients).0 in
    let conns : ℕ → ℕ = λ j. connections_of j s.clients in
    let more : (j : ℕ)
        → connections_of j ((client_limit l clock ip connect s.clients).1)
          ≡ conns j + (if ok then same j ip else 0) =
      λ j. r.count j ∙ connected ok j ip (conns j) in
    let polls_ip : (j : ℕ) → acceptor_ip j s.acceptor ≡ 0 = λ j. rw polls refl in
    let polls_fd : (x : ℕ) → acceptor_fd x s.acceptor ≡ 0 = λ x. rw polls refl in
    record {
      ring = sound.ring;
      table = r.table;
      counts = λ j. omega (arith, more j, sound.counts j, polls_ip j, accepted_ip ok fd ip j);
      rate = client_limit-WithinRate l clock ip connect s.clients sound.rate;
      few = λ j.
          omega (arith, more j, few_more conns l.connections_per_ip ip j ok (r.few refl) sound.few);
      sockets = λ x. omega (arith, sound.sockets x, polls_fd x, accepted_fd ok fd ip x);
      alone = λ x. omega (
        arith,
        polls_fd x,
        accepted_fd ok fd ip x,
        alone_more (λ y. held y s) fd x fresh sound.alone,
      );
    }

-- A step that only moves connections, or closes a socket that was held.
pub IsSound-moved :
    (l : Limits) (s t : Server)
    → IsSound l s
    → IsRing t.queue
    → t.clients ≡ s.clients
    → t.lost ≡ s.lost
    → t.accepted ≡ s.accepted
    → ((x : ℕ) → total (same x) t.closed + held x t ≡ total (same x) s.closed + held x s)
    → ((x : ℕ) → held x t ≤ held x s)
    → ((j : ℕ) → unreleased j t ≡ unreleased j s)
    → IsSound l t
IsSound-moved l s t sound ring clients lost accepted sockets fewer moved = record {
  ring = ring;
  table = rw clients sound.table;
  counts = λ j. rw (clients, lost) (omega (arith, sound.counts j, moved j));
  rate = rw clients sound.rate;
  few = λ j. rw clients (sound.few j);
  sockets = λ x. rw accepted (omega (arith, sound.sockets x, sockets x));
  alone = λ x. omega (arith, sound.alone x, fewer x);
}

release-rate :
    (l : Limits) (clock : Option ℕ) (ip : ℕ) (s : Server)
    → All (WithinRate l) s.clients
    → All (WithinRate l) (release l clock ip s).clients
unfolding release
release-rate l clock ip s h = client_limit-WithinRate l clock ip disconnect s.clients h

-- A step that releases a connection.
pub IsSound-released :
    (l : Limits) (clock : Option ℕ) (ip : ℕ) (s t : Server)
    → IsSound l s
    → IsRing t.queue
    → t.clients ≡ (release l clock ip s).clients
    → t.lost ≡ (release l clock ip s).lost
    → t.accepted ≡ s.accepted
    → ((x : ℕ) → total (same x) t.closed + held x t ≡ total (same x) s.closed + held x s)
    → ((x : ℕ) → held x t ≤ held x s)
    → ((j : ℕ) → unreleased j t + same j ip ≡ unreleased j s)
    → IsSound l t
IsSound-released l clock ip s t sound ring clients lost accepted sockets fewer released =
    let some_open : 0 < connections_of ip s.clients =
      omega (arith, released ip, sound.counts ip, same_self ip) in
    let r = release-IsReleased l clock ip s sound.table some_open in
    record {
      ring = ring;
      table = rw clients r.table;
      counts = λ j. rw (clients, lost) (omega (arith, sound.counts j, released j, r.counts j));
      rate = rw clients (release-rate l clock ip s sound.rate);
      few = λ j. rw clients (omega (arith, sound.few j, r.few j));
      sockets = λ x. rw accepted (omega (arith, sound.sockets x, sockets x));
      alone = λ x. omega (arith, sound.alone x, fewer x);
    }
