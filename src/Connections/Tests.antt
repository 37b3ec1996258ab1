-- ===== src/Connections/Tests.antt =====
-- A table of two clients: a connection of the first one is counted, one of the second is refused.
use gargantua.Common.{true, false, some, List, [], ◌∷◌, total, ◌≡◌, refl, arith}
use gargantua.Connections.{
  Limits, ClientLimit, Action, find_slot, chosen, this_window, limit_client, client_limit,
}
use gargantua.Connections.Clients.{IsTable}
use gargantua.Connections.Limit.{IsCounted, client_limit-IsCounted}

abbrev limits : Limits
limits = record { connections_per_ip = 2; requests_per_minute = 3 }

abbrev two_clients : List ClientLimit
two_clients =
    record { ip = 7; used = true; connections = 1; requests = 3; window = 40 }
    ∷ record { ip = 9; used = true; connections = 2; requests = 1; window = 95 }
    ∷ []

two_clients-IsTable : IsTable two_clients
unfolding total
two_clients-IsTable ip = ground arith

two_clients-connect : client_limit limits (some 100) 7 Action.connect two_clients ≡ (
  true,
  record { ip = 7; used = true; connections = 2; requests = 0; window = 100 }
      ∷ record { ip = 9; used = true; connections = 2; requests = 1; window = 95 }
      ∷ [],
)
unfolding client_limit find_slot chosen this_window limit_client
two_clients-connect = refl

two_clients-refused :
    client_limit limits (some 100) 9 Action.connect two_clients ≡ (false, two_clients)
unfolding client_limit find_slot chosen this_window limit_client
two_clients-refused = refl

client_limit-IsCounted_example :
    IsCounted limits 7 Action.connect two_clients
      (client_limit limits (some 100) 7 Action.connect two_clients)
client_limit-IsCounted_example =
    client_limit-IsCounted limits (some 100) 7 Action.connect two_clients two_clients-IsTable
