-- ===== src/Config/Tests.antt =====
-- A table with one entry.
use gargantua.Common.{
  ◌≤◌, ◌<◌, Option, none, some, List, [], ◌∷◌, Bytes, codes, str_eq, length, ◌≡◌, ◌≢◌, refl, ap,
  arith,
}
use gargantua.Config.{
  Entry, config_max_keys, config_key_len, config_value_len, find_entry, store_entry, env_name,
  env_loop, config_str,
}
use gargantua.Config.Table.{config_str-store_entry}

abbrev no_variables : Bytes → Option Bytes
no_variables name = none

abbrev port : List Entry
port = record { key = codes "server.port"; value = codes "8080" } ∷ []

abbrev port_and_host : List Entry
port_and_host =
    record { key = codes "server.port"; value = codes "8080" }
    ∷ record { key = codes "server.host"; value = codes "localhost" }
    ∷ []

env_name-port : env_name (codes "server.port") ≡ codes "SERVER_PORT"
unfolding env_name env_loop
env_name-port = refl

store_entry-host : store_entry (codes "server.host") (codes "localhost") port ≡ some port_and_host
unfolding store_entry find_entry str_eq
store_entry-host = refl

hosts_differ : codes "server.host" ≢ codes "x"
hosts_differ e = absurd (omega (arith, ap length e))

config_str-store_entry_example :
    (config_str no_variables port_and_host (codes "server.host") [] ≡ codes "localhost")
    × (config_str no_variables port_and_host (codes "x") []
        ≡ config_str no_variables port (codes "x") [])
    × (find_entry config_max_keys port (codes "server.host") ≡ none)
    × (0 < length (codes "server.host"))
    × (length (codes "server.host") < config_key_len)
    × (length (codes "localhost") < config_value_len)
    × (length port_and_host ≤ config_max_keys)
config_str-store_entry_example =
    config_str-store_entry no_variables port port_and_host (codes "server.host") (codes "localhost")
      (codes "x") [] store_entry-host refl hosts_differ
