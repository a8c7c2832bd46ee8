-- ===== src/Tests/Redirects.antt =====
-- The client when a server refuses its requests.
use embkv.Base.{◌≡◌, refl, ap, false, none, some, List, not, [], ◌∷◌, ◌++◌, arith, Returns, ◌>>=◌}
use embkv.Base.Map.{lookup}
use embkv.Proto.{Bytes, Message, ClientResponse}
use embkv.Head.{client_node}
use embkv.Head.Framing.{head, frame, length-head}
use embkv.Transport.{client_at, send_to_client, handshake_cb}
use embkv.Transport.Session.{readable}
use embkv.Client.{Client, put_operation, read_cb, connect_to_server}
use embkv.Client.Redirects.{connect_to_server-greets, reply_lost, Call}
use embkv.Client.Restart.{ClientUse, client_uses, redirect-silences}
use embkv.Tests.Wire.{lists, pipe, answers}
use embkv.Tests.Calls.{
  words, operation, client, server, success, reply_message, write_content, read_reply, read_content,
  parse_words,
}

abbrev refusal : ClientResponse
refusal = record { request_id = 0; leader_hint = 1; success = false; value = []; error = none }

abbrev refused : Client (Bytes × Bytes)
refused = client (frame (words.serialize_message (reply_message refusal)) ++ [])

abbrev after_refusal : List ClientUse
after_refusal =
    ClientUse.call (Call.send (put_operation (5 ∷ []) (6 ∷ [])))
    ∷ ClientUse.call (Call.readable_event readable)
    ∷ ClientUse.stop_again
    ∷ ClientUse.run_again
    ∷ []

redirect-silences_example :
    Returns
      (λ d. d.printed ≡ [])
      (read_cb pipe words operation answers readable refused >>= λ d.
        client_uses pipe words operation answers not d after_refusal)
unfolding write_content parse_words read_content read_reply lookup
redirect-silences_example =
    redirect-silences pipe words operation answers not refl (reply_message refusal) refusal []
      (frame (words.serialize_message (reply_message refusal)) ++ [], []) ([], [])
      (record { ip = []; port = 8082 }) refused after_refusal (omega arith, omega arith, refl)
      (refl, refl) (refl, refl, refl) (length-head client_node 1 (omega arith)) refl (refl, refl)

-- Client 4 connects to server 1.
abbrev greets :
    (s : Bytes × Bytes) × (connect_to_server pipe words operation answers 1 (client []) ≡ some s)
    × (s.1 ≡ [] ++ head client_node 1)
unfolding lookup
greets =
    connect_to_server-greets pipe words operation answers 1 (client [])
      (record { ip = []; port = 8082 }) ([], []) refl refl

reply_lost_example :
    send_to_client pipe words (lists Bytes) (lists Message) answers 4 (reply_message success) (
      handshake_cb pipe words
        (lists Bytes)
        (lists Message)
        answers
        readable
        (head client_node 1 ++ [], [])
        (server []))
    ≡ handshake_cb pipe words
        (lists Bytes)
        (lists Message)
        answers
        readable
        (head client_node 1 ++ [], [])
        (server [])
unfolding client_at lookup
reply_lost_example =
    (reply_lost pipe words operation answers (lists Bytes) (lists Message) 1 (client [])
      (record { ip = []; port = 8082 }) ([], []) greets.0 (head client_node 1 ++ [], []) []
      (server []) (reply_message success) (omega arith) (λ e. omega arith) (refl, refl) greets.1
      (refl, refl) (ap (λ l. l ++ []) greets.2)).1
