-- ===== src/Connections/Server/Reached.antt =====
-- The states that the threads of src/server/server_worker.c reach, and what is left when `stop_workers` is done.
use gargantua.Common.{ℕ, zero, suc, List, [], ◌∷◌, total, All, ◌≡◌, refl, arith}
use gargantua.Connections.{ClientLimit, Limits}
use gargantua.Connections.Ring.{IsRing, queued, window-none}
use gargantua.Connections.Clients.{connections_of, slots, open_for}
use gargantua.Connections.Rate.{WithinRate}
use gargantua.Connections.Server.{
  Server, Acceptor, Place, Step, Reach, copies, same, place_fd, place_ip, held, unreleased,
  no_client, started_queue, started,
}
use gargantua.Connections.Server.Step.{
  accepts, refuses, pushes, undoes, rejects, takes, requests, closes, releases, leaves, stops,
  drops,
}
use gargantua.Connections.Server.Reach.{start, after}
use gargantua.Connections.Server.Sound.{IsSound, accepts-IsSound}
use gargantua.Connections.Server.Steps.{
  refuses-IsSound, pushes-IsSound, rejects-IsSound, undoes-IsSound, takes-IsSound, closes-IsSound,
  leaves-IsSound, stops-IsSound, releases-IsSound, drops-IsSound, requests-IsSound,
}

total-copies {ℓ} :
    {A : Type ℓ} (weight : A → ℕ) (n : ℕ) (a : A) → weight a ≡ 0 → total weight (copies n a) ≡ 0
unfolding total
total-copies weight zero a h = refl
total-copies weight (suc n) a h = omega (arith, h, total-copies weight n a h)

All-copies : (P : ClientLimit → Type 0) (n : ℕ) (c : ClientLimit) → P c → All P (copies n c)
All-copies P zero c p = tt
All-copies P (suc n) c p = (p, All-copies P n c p)

pub started_queue-IsRing : IsRing started_queue
started_queue-IsRing = record {
  size = (refl, refl);
  head_in = omega arith;
  few = omega arith;
  tail_at = refl;
}

started-IsSound : (l : Limits) (workers : ℕ) → IsSound l (started workers)
unfolding started total
started-IsSound l workers = record {
  ring = started_queue-IsRing;
  table = λ ip. omega (arith, total-copies (slots ip) 256 no_client refl);
  counts = λ ip. omega (
    arith,
    total-copies (open_for ip) 256 no_client refl,
    total-copies (place_ip ip) workers Place.waiting refl,
  );
  rate = All-copies (WithinRate l) 256 no_client (omega arith);
  few = λ ip. omega (arith, total-copies (open_for ip) 256 no_client refl);
  sockets = λ fd. omega (arith, total-copies (place_fd fd) workers Place.waiting refl);
  alone = λ fd. omega (arith, total-copies (place_fd fd) workers Place.waiting refl);
}

Step-IsSound : (l : Limits) (s t : Server) → Step l s t → IsSound l s → IsSound l t
Step-IsSound l _ _ (accepts s clock fd ip polls runs fresh) sound =
    accepts-IsSound l s clock fd ip polls fresh sound
Step-IsSound l _ _ (refuses s fd polls runs) sound = refuses-IsSound l s sound fd
Step-IsSound l _ _ (pushes s fd ip at_push) sound = pushes-IsSound l s sound fd ip at_push
Step-IsSound l _ _ (undoes s clock fd ip full) sound = undoes-IsSound l s sound clock fd ip full
Step-IsSound l _ _ (rejects s fd rejecting) sound = rejects-IsSound l s sound fd rejecting
Step-IsSound l _ _ (takes s i idle some_there) sound = takes-IsSound l s sound i idle some_there
Step-IsSound l _ _ (requests s clock i fd ip busy) sound = requests-IsSound l s sound clock ip
Step-IsSound l _ _ (closes s i fd ip busy) sound = closes-IsSound l s sound i fd ip busy
Step-IsSound l _ _ (releases s clock i ip closed) sound =
    releases-IsSound l s sound clock i ip closed
Step-IsSound l _ _ (leaves s i idle stopping empty) sound = leaves-IsSound l s sound i idle
Step-IsSound l _ _ (stops s polls) sound = stops-IsSound l s sound
Step-IsSound l _ _ (drops s clock stopping some_there) sound =
    drops-IsSound l s sound clock some_there

-- In every state that the threads reach, in whatever order they run: the ring is well formed, the table has
-- at most one slot for an address and counts for it just its connections that are not released yet and the
-- releases that found no clock, which are at most the limit, no slot counts more requests than the limit of
-- a minute, and every accepted socket is closed once for each time that it was accepted or is held in one
-- single place.
pub Reach-IsSound : (l : Limits) (workers : ℕ) (s : Server) → Reach l workers s → IsSound l s
Reach-IsSound l workers _ start = started-IsSound l workers
Reach-IsSound l workers _ (after r s reached step) =
    Step-IsSound l r s step (Reach-IsSound l workers r reached)

total-ended_fd :
    (x : ℕ) (workers : List Place)
    → All (λ p. p ≡ Place.ended) workers
    → total (place_fd x) workers ≡ 0
unfolding total
total-ended_fd x [] h = refl
total-ended_fd x (p ∷ workers) (e, h) = rw e (omega (arith, total-ended_fd x workers h))

total-ended_ip :
    (x : ℕ) (workers : List Place)
    → All (λ p. p ≡ Place.ended) workers
    → total (place_ip x) workers ≡ 0
unfolding total
total-ended_ip x [] h = refl
total-ended_ip x (p ∷ workers) (e, h) = rw e (omega (arith, total-ended_ip x workers h))

-- In a state that the threads reach in which the accepting thread is between two connections, the ring is empty and
-- every worker is at its end, every socket was closed as often as it was accepted, and the table counts for an
-- address only the releases that found no clock.
pub reached-ended :
    (l : Limits) (workers : ℕ) (s : Server)
    → Reach l workers s
    → s.acceptor ≡ Acceptor.polling
    → s.queue.count ≡ 0
    → All (λ p. p ≡ Place.ended) s.workers
    → ((fd : ℕ) → total (same fd) s.accepted ≡ total (same fd) s.closed)
      × ((ip : ℕ) → connections_of ip s.clients ≡ total (same ip) s.lost)
unfolding total
reached-ended l workers s reached polls empty ended =
    let sound = Reach-IsSound l workers s reached in
    let none_queued : queued s.queue ≡ [] =
      window-none s.queue.fds s.queue.ips s.queue.head s.queue.count empty in
    let idle_fd : (x : ℕ) → held x s ≡ 0 =
      λ x. rw (polls, none_queued) (omega (arith, total-ended_fd x s.workers ended)) in
    let idle_ip : (x : ℕ) → unreleased x s ≡ 0 =
      λ x. rw (polls, none_queued) (omega (arith, total-ended_ip x s.workers ended)) in
    (
      λ fd. omega (arith, sound.sockets fd, idle_fd fd),
      λ ip. omega (arith, sound.counts ip, idle_ip ip),
    )
