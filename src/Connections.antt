-- ===== src/Connections.antt =====
-- The connections between the accepting thread and the workers: `client_limit`, `queue_push` and `queue_pop` of
-- src/server/server.c, and who calls them in src/server/server_worker.c. Each of them runs under its lock, so that
-- it is one step. Sockets and addresses are numbers.
pub mod Clients
pub mod Limit
pub mod Rate
pub mod Ring
pub mod Server
mod Tests
use gargantua.Common.{
  ℕ, zero, suc, ◌+◌, ◌-◌, ◌%◌, Bool, true, false, not, ◌&&◌, ◌||◌, Option, none, some, List, [],
  ◌∷◌, get_elem?, set, ltb, leb, ◌==◌, if◌then◌else◌,
}

abbrev pub queue_size : ℕ
queue_size = 64

pub record ClientLimit : Type 0 where
  pub ip : ℕ
  pub used : Bool
  pub connections : ℕ
  pub requests : ℕ
  pub window : ℕ

-- The actions 1, 0 and -1.
pub data Action : Type 0 where
  connect request disconnect : Action

-- The settings `g_connections_per_ip` and `g_requests_per_minute`.
pub record Limits : Type 0 where
  pub connections_per_ip : ℕ
  pub requests_per_minute : ℕ

abbrev pub is_client : ℕ → ClientLimit → Bool
is_client ip c = c.used && c.ip == ip

-- A slot for another client; of a clock that went back the difference is not 60.
abbrev pub is_reusable : ℕ → ClientLimit → Bool
is_reusable now c = not c.used || (c.connections == 0 && leb 60 (now - c.window))

abbrev pub behind : Option ℕ → Option ℕ
behind none = none
behind (some i) = some (suc i)

abbrev pub or_here : Option ℕ → Bool → Option ℕ
or_here (some i) here = some (suc i)
or_here none true = some 0
or_here none false = none

-- `slot` and `empty` after the loop: the first slot of the client, and the last free one in front of it.
pub find_slot : ℕ → ℕ → List ClientLimit → Option ℕ × Option ℕ
find_slot now ip [] = (none, none)
find_slot now ip (c ∷ clients) =
    let rest = find_slot now ip clients in
    let later : Option ℕ × Option ℕ = (behind rest.0, or_here rest.1 (is_reusable now c)) in
    if is_client ip c then (some 0, none) else later

abbrev pub new_client : ℕ → ℕ → ClientLimit
new_client now ip = record { ip = ip; used = true; connections = 0; requests = 0; window = now }

-- The slot that is used, with the table then.
pub chosen : ℕ → ℕ → Action → List ClientLimit → Option ℕ × Option ℕ → Option (ℕ × List ClientLimit)
chosen now ip action clients (some slot, empty) = some (slot, clients)
chosen now ip connect clients (none, some empty) =
    some (empty, set clients empty (new_client now ip))
chosen now ip request clients (none, some empty) = none
chosen now ip disconnect clients (none, some empty) = none
chosen now ip action clients (none, none) = none

pub this_window : ℕ → ClientLimit → ClientLimit
this_window now c = if leb 60 (now - c.window) then record c { requests = 0; window = now } else c

-- `true` is the result 0.
pub limit_client : Limits → Action → ClientLimit → Bool × ClientLimit
limit_client l disconnect c =
    (true, if ltb 0 c.connections then record c { connections = c.connections - 1 } else c)
limit_client l connect c =
    if ltb c.connections l.connections_per_ip
    then (true, record c { connections = c.connections + 1 })
    else (false, c)
limit_client l request c =
    if ltb c.requests l.requests_per_minute
    then (true, record c { requests = c.requests + 1 })
    else (false, c)

abbrev pub limited_at : List ClientLimit → ℕ → Bool × ClientLimit → Bool × List ClientLimit
limited_at clients slot (ok, c) = (ok, set clients slot c)

abbrev pub limit_slot :
    Limits → ℕ → Action → List ClientLimit → ℕ → Option ClientLimit → Bool × List ClientLimit
limit_slot l now action clients slot none = (false, clients)
limit_slot l now action clients slot (some c) =
    limited_at clients slot (limit_client l action (this_window now c))

abbrev pub limit_chosen :
    Limits → ℕ → Action → List ClientLimit → Option (ℕ × List ClientLimit) → Bool × List ClientLimit
limit_chosen l now action clients none = (false, clients)
limit_chosen l now action clients (some (slot, with_client)) =
    limit_slot l now action with_client slot (get_elem? with_client slot)

-- The clock's seconds are `none` where it fails.
pub client_limit : Limits → Option ℕ → ℕ → Action → List ClientLimit → Bool × List ClientLimit
client_limit l none ip action clients = (false, clients)
client_limit l (some now) ip action clients =
    limit_chosen l now action clients (chosen now ip action clients (find_slot now ip clients))

pub record ConnQueue : Type 0 where
  pub fds : List ℕ
  pub ips : List ℕ
  pub head : ℕ
  pub tail : ℕ
  pub count : ℕ
  pub stopping : Bool

abbrev pub at : List ℕ → ℕ → ℕ
at [] i = 0
at (x ∷ xs) zero = x
at (x ∷ xs) (suc i) = at xs i

pub queue_push : ConnQueue → ℕ → ℕ → Bool × ConnQueue
queue_push q fd ip =
    if ltb q.count queue_size
    then (
      true,
      record q {
        fds = set q.fds q.tail fd;
        ips = set q.ips q.tail ip;
        tail = (q.tail + 1) % queue_size;
        count = q.count + 1;
      },
    )
    else (false, q)

-- A worker waits while this is false.
abbrev pub pop_ready : ConnQueue → Bool
pop_ready q = not (q.count == 0 && not q.stopping)

-- The first connection, with its address.
pub queue_pop : ConnQueue → Option (ℕ × ℕ) × ConnQueue
queue_pop q =
    if ltb 0 q.count
    then (
      some (at q.fds q.head, at q.ips q.head),
      record q { head = (q.head + 1) % queue_size; count = q.count - 1 },
    )
    else (none, q)
