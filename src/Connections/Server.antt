-- ===== src/Connections/Server.antt =====
-- The threads of src/server/server_worker.c over the table of clients and the ring: `accept_one`, `worker_main` and
-- `stop_workers`, each in the steps between which another thread may run.
pub mod Sound
pub mod Steps
pub mod Reached
mod Tests
use gargantua.Common.{
  ℕ, zero, suc, ◌+◌, ◌-◌, ◌%◌, Bool, true, false, Option, none, some, List, [], ◌∷◌, get_elem?,
  total, set, ◌==◌, ltb, if◌then◌else◌, ◌≡◌,
}
use gargantua.Connections.{
  queue_size, ClientLimit, Action, Limits, client_limit, ConnQueue, at, queue_push, queue_pop,
}
use gargantua.Connections.Ring.{queued}
use gargantua.Connections.Action.{connect, request, disconnect}

-- Where `accept_one` is, with the socket and the address that it has.
pub data Acceptor : Type 0 where
  polling : Acceptor
  limited overflowing : ℕ → ℕ → Acceptor
  rejecting : ℕ → Acceptor

-- Where `worker_main` is: at `queue_pop`, in `handle_connection`, behind `close`, or at its end.
pub data Place : Type 0 where
  waiting ended : Place
  handling : ℕ → ℕ → Place
  releasing : ℕ → Place

-- `accepted` and `closed` are the calls of `accept` and `close` so far, `lost` the addresses whose release found no
-- clock.
pub record Server : Type 0 where
  pub clients : List ClientLimit
  pub queue : ConnQueue
  pub acceptor : Acceptor
  pub workers : List Place
  pub accepted : List ℕ
  pub closed : List ℕ
  pub lost : List ℕ

abbrev pub copies {ℓ} : {A : Type ℓ} → ℕ → A → List A
copies zero a = []
copies (suc n) a = a ∷ copies n a

abbrev pub no_client : ClientLimit
no_client = record { ip = 0; used = false; connections = 0; requests = 0; window = 0 }

abbrev pub started_queue : ConnQueue
started_queue = record {
  fds = copies queue_size 0;
  ips = copies queue_size 0;
  head = 0;
  tail = 0;
  count = 0;
  stopping = false;
}

-- `server_run` and `start_workers`.
pub started : ℕ → Server
started workers = record {
  clients = copies 256 no_client;
  queue = started_queue;
  acceptor = Acceptor.polling;
  workers = copies workers Place.waiting;
  accepted = [];
  closed = [];
  lost = [];
}

abbrev pub if_lost : Option ℕ → ℕ → List ℕ → List ℕ
if_lost none ip lost = ip ∷ lost
if_lost (some now) ip lost = lost

-- `client_limit(ip, -1)`, whose result no caller reads.
pub release : Limits → Option ℕ → ℕ → Server → Server
release l clock ip s = record s {
  clients = (client_limit l clock ip disconnect s.clients).1;
  lost = if_lost clock ip s.lost;
}

-- `accept`, and `client_limit(ip, 1)`.
pub accept_one : Limits → Option ℕ → ℕ → ℕ → Server → Server
accept_one l clock fd ip s =
    let counted = client_limit l clock ip connect s.clients in
    record s {
      clients = counted.1;
      acceptor = if counted.0 then Acceptor.limited fd ip else Acceptor.rejecting fd;
      accepted = fd ∷ s.accepted;
    }

-- A socket that `set_nonblocking` refuses is closed at once.
pub close_accepted : ℕ → Server → Server
close_accepted fd s = record s { accepted = fd ∷ s.accepted; closed = fd ∷ s.closed }

pub push_accepted : ℕ → ℕ → Server → Server
push_accepted fd ip s =
    let pushed = queue_push s.queue fd ip in
    record s {
      queue = pushed.1;
      acceptor = if pushed.0 then Acceptor.polling else Acceptor.overflowing fd ip;
    }

pub undo_accepted : Limits → Option ℕ → ℕ → ℕ → Server → Server
undo_accepted l clock fd ip s = record (release l clock ip s) { acceptor = Acceptor.rejecting fd }

-- The `close` of `reject_busy`.
pub reject_busy : ℕ → Server → Server
reject_busy fd s = record s { acceptor = Acceptor.polling; closed = fd ∷ s.closed }

abbrev pub handled : Option (ℕ × ℕ) → Place
handled none = Place.waiting
handled (some (fd, ip)) = Place.handling fd ip

-- `queue_pop` by the worker `i`.
pub take_connection : ℕ → Server → Server
take_connection i s =
    let popped = queue_pop s.queue in
    record s { queue = popped.1; workers = set s.workers i (handled popped.0) }

-- The call `client_limit(w->ip, 0)` of `handle_connection`.
pub count_request : Limits → Option ℕ → ℕ → Server → Server
count_request l clock ip s = record s { clients = (client_limit l clock ip request s.clients).1 }

pub close_connection : ℕ → ℕ → ℕ → Server → Server
close_connection i fd ip s = record s {
  workers = set s.workers i (Place.releasing ip);
  closed = fd ∷ s.closed;
}

pub release_connection : Limits → Option ℕ → ℕ → ℕ → Server → Server
release_connection l clock i ip s = record (release l clock ip s) {
  workers = set s.workers i Place.waiting;
}

abbrev pub leave : ℕ → Server → Server
leave i s = record s { workers = set s.workers i Place.ended }

abbrev pub stop_queue : Server → Server
stop_queue s = record s { queue = record s.queue { stopping = true } }

-- One round of the first loop of `stop_workers`. The code holds the ring's lock for all of its rounds, so that the
-- steps have more orders than the code.
pub drop_queued : Limits → Option ℕ → Server → Server
drop_queued l clock s = record (release l clock (at s.queue.ips s.queue.head) s) {
  queue = record s.queue { head = (s.queue.head + 1) % queue_size; count = s.queue.count - 1 };
  closed = at s.queue.fds s.queue.head ∷ s.closed;
}

abbrev pub same : ℕ → ℕ → ℕ
same x y = if x == y then 1 else 0

-- How often the acceptor, a worker or an entry of the ring has a socket or an address.
abbrev pub acceptor_fd : ℕ → Acceptor → ℕ
acceptor_fd x polling = 0
acceptor_fd x (limited fd ip) = same x fd
acceptor_fd x (overflowing fd ip) = same x fd
acceptor_fd x (rejecting fd) = same x fd

abbrev pub acceptor_ip : ℕ → Acceptor → ℕ
acceptor_ip x polling = 0
acceptor_ip x (limited fd ip) = same x ip
acceptor_ip x (overflowing fd ip) = same x ip
acceptor_ip x (rejecting fd) = 0

abbrev pub place_fd : ℕ → Place → ℕ
place_fd x waiting = 0
place_fd x ended = 0
place_fd x (handling fd ip) = same x fd
place_fd x (releasing ip) = 0

abbrev pub place_ip : ℕ → Place → ℕ
place_ip x waiting = 0
place_ip x ended = 0
place_ip x (handling fd ip) = same x ip
place_ip x (releasing ip) = same x ip

abbrev pub entry_fd : ℕ → ℕ × ℕ → ℕ
entry_fd x (fd, ip) = same x fd

abbrev pub entry_ip : ℕ → ℕ × ℕ → ℕ
entry_ip x (fd, ip) = same x ip

-- The places that hold a socket, and the connections of an address that are still to be released.
abbrev pub held : ℕ → Server → ℕ
held fd s =
    acceptor_fd fd s.acceptor
    + (total (entry_fd fd) (queued s.queue) + total (place_fd fd) s.workers)

abbrev pub unreleased : ℕ → Server → ℕ
unreleased ip s =
    acceptor_ip ip s.acceptor
    + (total (entry_ip ip) (queued s.queue) + total (place_ip ip) s.workers)

-- One step of a thread. A socket that `accept` returns is one that nobody holds.
pub data Step (l : Limits) : Server → Server → Type 0 where
  accepts :
      (s : Server) (clock : Option ℕ) (fd ip : ℕ)
      → s.acceptor ≡ Acceptor.polling
      → s.queue.stopping ≡ false
      → held fd s ≡ 0
      → Step l s (accept_one l clock fd ip s)
  refuses :
      (s : Server) (fd : ℕ)
      → s.acceptor ≡ Acceptor.polling
      → s.queue.stopping ≡ false
      → Step l s (close_accepted fd s)
  pushes :
      (s : Server) (fd ip : ℕ)
      → s.acceptor ≡ Acceptor.limited fd ip
      → Step l s (push_accepted fd ip s)
  undoes :
      (s : Server) (clock : Option ℕ) (fd ip : ℕ)
      → s.acceptor ≡ Acceptor.overflowing fd ip
      → Step l s (undo_accepted l clock fd ip s)
  rejects : (s : Server) (fd : ℕ) → s.acceptor ≡ Acceptor.rejecting fd → Step l s (reject_busy fd s)
  takes :
      (s : Server) (i : ℕ)
      → get_elem? s.workers i ≡ some Place.waiting
      → ltb 0 s.queue.count ≡ true
      → Step l s (take_connection i s)
  requests :
      (s : Server) (clock : Option ℕ) (i fd ip : ℕ)
      → get_elem? s.workers i ≡ some (Place.handling fd ip)
      → Step l s (count_request l clock ip s)
  closes :
      (s : Server) (i fd ip : ℕ)
      → get_elem? s.workers i ≡ some (Place.handling fd ip)
      → Step l s (close_connection i fd ip s)
  releases :
      (s : Server) (clock : Option ℕ) (i ip : ℕ)
      → get_elem? s.workers i ≡ some (Place.releasing ip)
      → Step l s (release_connection l clock i ip s)
  leaves :
      (s : Server) (i : ℕ)
      → get_elem? s.workers i ≡ some Place.waiting
      → s.queue.stopping ≡ true
      → s.queue.count ≡ 0
      → Step l s (leave i s)
  stops : (s : Server) → s.acceptor ≡ Acceptor.polling → Step l s (stop_queue s)
  drops :
      (s : Server) (clock : Option ℕ)
      → s.queue.stopping ≡ true
      → ltb 0 s.queue.count ≡ true
      → Step l s (drop_queued l clock s)

-- What the threads have made of the server that `server_run` started.
pub data Reach (l : Limits) (workers : ℕ) : Server → Type 0 where
  start : Reach l workers (started workers)
  after : (s t : Server) → Reach l workers s → Step l s t → Reach l workers t
