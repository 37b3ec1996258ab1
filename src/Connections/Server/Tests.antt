-- ===== src/Connections/Server/Tests.antt =====
-- A run of the server: a connection is accepted, handled, closed and released, then the server stops.
use gargantua.Common.{ℕ, some, [], ◌∷◌, total, ◌≡◌, refl}
use gargantua.Connections.{
  Limits, find_slot, client_limit, chosen, limit_client, this_window, queue_push, queue_pop,
}
use gargantua.Connections.Clients.{connections_of}
use gargantua.Connections.Ring.{ring_calls, fifo_calls, Call, queued, ring_calls-fifo}
use gargantua.Connections.Server.{
  Server, Reach, same, started_queue, started, release, accept_one, push_accepted, take_connection,
  close_connection, release_connection, stop_queue, leave,
}
use gargantua.Connections.Server.Step.{accepts, pushes, takes, closes, releases, stops, leaves}
use gargantua.Connections.Server.Reach.{start, after}
use gargantua.Connections.Server.Sound.{IsSound}
use gargantua.Connections.Server.Reached.{started_queue-IsRing, Reach-IsSound, reached-ended}

abbrev limits : Limits
limits = record { connections_per_ip = 2; requests_per_minute = 3 }

abbrev accepted_state : Server
accepted_state = accept_one limits (some 100) 5 9 (started 1)

abbrev pushed_state : Server
pushed_state = push_accepted 5 9 accepted_state

abbrev taken_state : Server
taken_state = take_connection 0 pushed_state

abbrev closed_state : Server
closed_state = close_connection 0 5 9 taken_state

abbrev released_state : Server
released_state = release_connection limits (some 130) 0 9 closed_state

abbrev stopped_state : Server
stopped_state = leave 0 (stop_queue released_state)

reached : Reach limits 1 stopped_state
unfolding started accept_one push_accepted take_connection close_connection release_connection
    client_limit queue_push queue_pop find_slot total chosen limit_client this_window release
reached =
    after _ _
      (after _ _
        (after _ _
          (after _ _
            (after _ _
              (after _ _ (after _ _ start (accepts (started 1) (some 100) 5 9 refl refl refl))
                (pushes accepted_state 5 9 refl))
              (takes pushed_state 0 refl refl))
            (closes taken_state 0 5 9 refl))
          (releases closed_state (some 130) 0 9 refl))
        (stops released_state refl))
      (leaves (stop_queue released_state) 0 refl refl refl)

Reach-IsSound_example : IsSound limits stopped_state
Reach-IsSound_example = Reach-IsSound limits 1 stopped_state reached

reached-ended_example :
    ((fd : ℕ) → total (same fd) stopped_state.accepted ≡ total (same fd) stopped_state.closed)
    × ((ip : ℕ) → connections_of ip stopped_state.clients ≡ total (same ip) stopped_state.lost)
unfolding started accept_one push_accepted take_connection close_connection release_connection
    client_limit queue_push queue_pop find_slot release
reached-ended_example = reached-ended limits 1 stopped_state reached refl refl (refl, tt)

ring_calls-fifo_example :
    ring_calls (Call.push 5 9 ∷ Call.push 6 9 ∷ Call.pop ∷ []) started_queue
    ≡ fifo_calls (Call.push 5 9 ∷ Call.push 6 9 ∷ Call.pop ∷ []) (queued started_queue)
ring_calls-fifo_example =
    ring_calls-fifo (Call.push 5 9 ∷ Call.push 6 9 ∷ Call.pop ∷ []) started_queue
      started_queue-IsRing
