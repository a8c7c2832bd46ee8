-- ===== src/Tests/Restarts.antt =====
-- The programs when what they run is stopped and run again.
use embkv.Base.{not, ◌≡◌, refl, true, some, [], ◌∷◌, Returns}
use embkv.Proto.{Bytes}
use embkv.Client.{Client, put_operation, stop}
use embkv.Client.Redirects.{Call}
use embkv.Client.Restart.{ClientUse, client_uses, stop-silences}
use embkv.Main.{new_client, run_raft_node}
use embkv.Main.Restart.{run_raft_node_once}
use embkv.Transport.Session.{readable}
use embkv.Tests.Wire.{pipe, ids, answers}

abbrev running : Client (Bytes × Bytes)
running = record (new_client [] []) { is_running = true; watched = some 0; stream = some ([], []) }

stop-silences_example :
    Returns
      (λ d. d.printed ≡ [])
      (client_uses pipe ids
        (λ o. o.key)
        answers
        not
        (stop pipe ids (λ o. o.key) answers running)
        (ClientUse.run_again
          ∷ ClientUse.call (Call.send (put_operation (5 ∷ []) (6 ∷ [])))
          ∷ ClientUse.call (Call.readable_event readable)
          ∷ []))
stop-silences_example =
    stop-silences pipe ids (λ o. o.key) answers not refl running
      (ClientUse.run_again
        ∷ ClientUse.call (Call.send (put_operation (5 ∷ []) (6 ∷ [])))
        ∷ ClientUse.call (Call.readable_event readable)
        ∷ [])
      refl

-- "s", "r" and "q"
run_raft_node_once_example :
    (run_raft_node not 4 ((115 ∷ []) ∷ (114 ∷ []) ∷ (113 ∷ []) ∷ [])).event_loops ≡ 1
run_raft_node_once_example =
    run_raft_node_once not refl refl 4 ((115 ∷ []) ∷ (114 ∷ []) ∷ (113 ∷ []) ∷ [])
