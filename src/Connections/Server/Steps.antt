-- ===== src/Connections/Server/Steps.antt =====
-- Each step of the threads keeps what `IsSound` says.
use gargantua.Common.{
  ℕ, ◌+◌, ◌-◌, ◌%◌, Bool, true, false, Option, some, List, [], ◌∷◌, ◌++◌, length, get_elem?, total,
  total-set, total-append, ltb, if◌then◌else◌, Bool-cases, ltb→lt, ◌≡◌, inl, inr, refl, ap, ◌∙◌,
  arith,
}
use gargantua.Connections.{queue_size, Limits, ConnQueue, at, client_limit, queue_push, queue_pop}
use gargantua.Connections.Action.{request}
use gargantua.Connections.Ring.{
  IsRing, window, queued, fifo_push, window-first, queue_push-fifo, queue_pop-fifo,
}
use gargantua.Connections.Clients.{connections_of}
use gargantua.Connections.Limit.{client_limit-IsCounted}
use gargantua.Connections.Rate.{client_limit-WithinRate}
use gargantua.Connections.Server.{
  Server, Acceptor, Place, same, acceptor_fd, acceptor_ip, place_fd, place_ip, entry_fd, entry_ip,
  held, release, close_accepted, push_accepted, undo_accepted, reject_busy, take_connection,
  count_request, close_connection, release_connection, leave, stop_queue, drop_queued,
}
use gargantua.Connections.Server.Sound.{IsSound, requested, IsSound-moved, IsSound-released}

total-fifo_push :
    (weight : ℕ × ℕ → ℕ) (before after : List (ℕ × ℕ)) (ok : Bool) (e : ℕ × ℕ)
    → (ok, after) ≡ fifo_push before e
    → total weight after ≡ total weight before + (if ok then weight e else 0)
unfolding fifo_push total
total-fifo_push weight before after ok e h = elim (Bool-cases (ltb (length before) queue_size)) [
  | inl room ↦
      let h' : ◌≡◌ {A = Bool × List (ℕ × ℕ)} (ok, after) (true, before ++ (e ∷ [])) =
        simp room at h in
      let yes : ok ≡ true = ap (λ p. p.0) h' in
      let now : after ≡ before ++ (e ∷ []) = ap (λ p. p.1) h' in
      rw (yes, now) (omega (arith, total-append weight before (e ∷ [])))
  | inr full ↦
      let h' : ◌≡◌ {A = Bool × List (ℕ × ℕ)} (ok, after) (false, before) = simp full at h in
      let refused : ok ≡ false = ap (λ p. p.0) h' in
      let now : after ≡ before = ap (λ p. p.1) h' in rw (refused, now) (omega arith)
]

pushed_ip :
    (ok : Bool) (fd ip j : ℕ)
    → acceptor_ip j (if ok then Acceptor.polling else Acceptor.overflowing fd ip)
        + (if ok then same j ip else 0)
      ≡ same j ip
pushed_ip true fd ip j = omega arith
pushed_ip false fd ip j = omega arith

pushed_fd :
    (ok : Bool) (fd ip x : ℕ)
    → acceptor_fd x (if ok then Acceptor.polling else Acceptor.overflowing fd ip)
        + (if ok then same x fd else 0)
      ≡ same x fd
pushed_fd true fd ip x = omega arith
pushed_fd false fd ip x = omega arith

pub total-queue_pop :
    (weight : ℕ × ℕ → ℕ) (q : ConnQueue)
    → ltb 0 q.count ≡ true
    → total weight (queued q)
      ≡ weight (at q.fds q.head, at q.ips q.head)
        + total weight (window q.fds q.ips ((q.head + 1) % queue_size) (q.count - 1))
unfolding total
total-queue_pop weight q some_there =
    rw (window-first q.fds q.ips q.head q.count (ltb→lt 0 q.count some_there)) refl

popped-IsRing :
    (q : ConnQueue)
    → IsRing q
    → ltb 0 q.count ≡ true
    → IsRing (record q { head = (q.head + 1) % queue_size; count = q.count - 1 })
unfolding queue_pop
popped-IsRing q ring some_there = simp some_there at ((queue_pop-fifo q ring).0)

module _ (l : Limits) (s : Server) (sound : IsSound l s) where
  pub pushes-IsSound :
      (fd ip : ℕ) → s.acceptor ≡ Acceptor.limited fd ip → IsSound l (push_accepted fd ip s)
  unfolding push_accepted
  pushes-IsSound fd ip limited =
      let (ring, fifo) = queue_push-fifo s.queue fd ip sound.ring in
      let ok = (queue_push s.queue fd ip).0 in
      let had_ip : (j : ℕ) → acceptor_ip j s.acceptor ≡ same j ip = λ j. rw limited refl in
      let had_fd : (x : ℕ) → acceptor_fd x s.acceptor ≡ same x fd = λ x. rw limited refl in
      let fds : (x : ℕ) → held x (push_accepted fd ip s) ≡ held x s = λ x. omega (
        arith,
        had_fd x,
        pushed_fd ok fd ip x,
        total-fifo_push (entry_fd x) (queued s.queue) _ ok (fd, ip) fifo,
      ) in
      IsSound-moved l s (push_accepted fd ip s) sound ring refl refl refl
        (λ x. omega (arith, fds x)) (λ x. omega (arith, fds x))
        (λ j. omega (
          arith,
          had_ip j,
          pushed_ip ok fd ip j,
          total-fifo_push (entry_ip j) (queued s.queue) _ ok (fd, ip) fifo,
        ))

  pub refuses-IsSound : (fd : ℕ) → IsSound l (close_accepted fd s)
  unfolding close_accepted total
  refuses-IsSound fd = record {
    ring = sound.ring;
    table = sound.table;
    counts = sound.counts;
    few = sound.few;
    rate = sound.rate;
    sockets = λ x. omega (arith, sound.sockets x);
    alone = sound.alone;
  }

  pub rejects-IsSound : (fd : ℕ) → s.acceptor ≡ Acceptor.rejecting fd → IsSound l (reject_busy fd s)
  unfolding reject_busy total
  rejects-IsSound fd rejecting =
      let had_ip : (j : ℕ) → acceptor_ip j s.acceptor ≡ 0 = λ j. rw rejecting refl in
      let had_fd : (x : ℕ) → acceptor_fd x s.acceptor ≡ same x fd = λ x. rw rejecting refl in
      IsSound-moved l s (reject_busy fd s) sound sound.ring refl refl refl
        (λ x. omega (arith, had_fd x)) (λ x. omega (arith, had_fd x)) (λ j. omega (arith, had_ip j))

  pub undoes-IsSound :
      (clock : Option ℕ) (fd ip : ℕ)
      → s.acceptor ≡ Acceptor.overflowing fd ip
      → IsSound l (undo_accepted l clock fd ip s)
  unfolding undo_accepted release
  undoes-IsSound clock fd ip full =
      let had_ip : (j : ℕ) → acceptor_ip j s.acceptor ≡ same j ip = λ j. rw full refl in
      let had_fd : (x : ℕ) → acceptor_fd x s.acceptor ≡ same x fd = λ x. rw full refl in
      IsSound-released l clock ip s (undo_accepted l clock fd ip s) sound sound.ring refl refl refl
        (λ x. omega (arith, had_fd x)) (λ x. omega (arith, had_fd x)) (λ j. omega (arith, had_ip j))

  pub takes-IsSound :
      (i : ℕ)
      → get_elem? s.workers i ≡ some Place.waiting
      → ltb 0 s.queue.count ≡ true
      → IsSound l (take_connection i s)
  unfolding take_connection queue_pop
  takes-IsSound i idle some_there =
      let fd = at s.queue.fds s.queue.head in
      let ip = at s.queue.ips s.queue.head in
      let ring = popped-IsRing s.queue sound.ring some_there in
      let fds =
        λ (x : ℕ). total-set (place_fd x) s.workers i Place.waiting (Place.handling fd ip) idle in
      let ips =
        λ (j : ℕ). total-set (place_ip j) s.workers i Place.waiting (Place.handling fd ip) idle in
      let queue_fds = λ (x : ℕ). total-queue_pop (entry_fd x) s.queue some_there in
      let queue_ips = λ (j : ℕ). total-queue_pop (entry_ip j) s.queue some_there in
      rw some_there (
        IsSound-moved l s _ sound ring refl refl refl (λ x. omega (arith, fds x, queue_fds x))
          (λ x. omega (arith, fds x, queue_fds x)) (λ j. omega (arith, ips j, queue_ips j)))

  pub closes-IsSound :
      (i fd ip : ℕ)
      → get_elem? s.workers i ≡ some (Place.handling fd ip)
      → IsSound l (close_connection i fd ip s)
  unfolding close_connection total
  closes-IsSound i fd ip busy =
      let fds = λ (x : ℕ).
        total-set (place_fd x) s.workers i (Place.handling fd ip) (Place.releasing ip) busy in
      let ips = λ (j : ℕ).
        total-set (place_ip j) s.workers i (Place.handling fd ip) (Place.releasing ip) busy in
      IsSound-moved l s (close_connection i fd ip s) sound sound.ring refl refl refl
        (λ x. omega (arith, fds x)) (λ x. omega (arith, fds x)) (λ j. omega (arith, ips j))

  pub leaves-IsSound : (i : ℕ) → get_elem? s.workers i ≡ some Place.waiting → IsSound l (leave i s)
  leaves-IsSound i idle =
      let fds = λ (x : ℕ). total-set (place_fd x) s.workers i Place.waiting Place.ended idle in
      let ips = λ (j : ℕ). total-set (place_ip j) s.workers i Place.waiting Place.ended idle in
      IsSound-moved l s (leave i s) sound sound.ring refl refl refl (λ x. omega (arith, fds x))
        (λ x. omega (arith, fds x)) (λ j. omega (arith, ips j))

  pub stops-IsSound : IsSound l (stop_queue s)
  stops-IsSound =
      let ring : IsRing (record s.queue { stopping = true }) = record {
        size = sound.ring.size;
        head_in = sound.ring.head_in;
        few = sound.ring.few;
        tail_at = sound.ring.tail_at;
      } in
      IsSound-moved l s (stop_queue s) sound ring refl refl refl (λ x. refl) (λ x. omega arith)
        (λ j. refl)

  pub releases-IsSound :
      (clock : Option ℕ) (i ip : ℕ)
      → get_elem? s.workers i ≡ some (Place.releasing ip)
      → IsSound l (release_connection l clock i ip s)
  unfolding release_connection release
  releases-IsSound clock i ip closed =
      let fds =
        λ (x : ℕ). total-set (place_fd x) s.workers i (Place.releasing ip) Place.waiting closed in
      let ips =
        λ (j : ℕ). total-set (place_ip j) s.workers i (Place.releasing ip) Place.waiting closed in
      IsSound-released l clock ip s (release_connection l clock i ip s) sound sound.ring refl refl
        refl (λ x. omega (arith, fds x)) (λ x. omega (arith, fds x)) (λ j. omega (arith, ips j))

  pub drops-IsSound :
      (clock : Option ℕ) → ltb 0 s.queue.count ≡ true → IsSound l (drop_queued l clock s)
  unfolding drop_queued release total
  drops-IsSound clock some_there =
      let fds = λ (x : ℕ). total-queue_pop (entry_fd x) s.queue some_there in
      let ips = λ (j : ℕ). total-queue_pop (entry_ip j) s.queue some_there in
      IsSound-released l clock (at s.queue.ips s.queue.head) s (drop_queued l clock s) sound
        (popped-IsRing s.queue sound.ring some_there) refl refl refl (λ x. omega (arith, fds x))
        (λ x. omega (arith, fds x)) (λ j. omega (arith, ips j))

  pub requests-IsSound : (clock : Option ℕ) (ip : ℕ) → IsSound l (count_request l clock ip s)
  unfolding count_request
  requests-IsSound clock ip =
      let r = client_limit-IsCounted l clock ip request s.clients sound.table in
      let same_count : (j : ℕ)
          → connections_of j ((client_limit l clock ip request s.clients).1)
            ≡ connections_of j s.clients =
        λ j.
          r.count j
          ∙ requested ((client_limit l clock ip request s.clients).0) j ip
              (connections_of j s.clients) in
      record {
        ring = sound.ring;
        table = r.table;
        counts = λ j. same_count j ∙ sound.counts j;
        rate = client_limit-WithinRate l clock ip request s.clients sound.rate;
        few = λ j. omega (arith, same_count j, sound.few j);
        sockets = sound.sockets;
        alone = sound.alone;
      }
