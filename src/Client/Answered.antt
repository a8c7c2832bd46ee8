-- ===== src/Client/Answered.antt =====
-- From a call of the client to the node's reply.
use embkv.Base.{
  ℕ, suc, ◌<◌, ◌≡◌, refl, ap, ◌∙◌, none, some, Option, true, [], ◌∷◌, ◌++◌, u64_mod, length, ◌>>=◌,
  Returns, Returns-map,
}
use embkv.Base.Map.{lookup}
use embkv.Proto.{Bytes, KvOperation, Content, null_text}
use embkv.Status.{Role}
use embkv.Log.Contiguous.{IsContiguous}
use embkv.Node.{RaftNode, Effect, message}
use embkv.Node.Client.{handle_client_request}
use embkv.Node.Apply.{apply_to_state_machine, success_response, value_or}
use embkv.Node.Apply.Answers.{Answered, client_request-Answered}
use embkv.Stream.{Connection}
use embkv.Pipeline.{MessageCodec}
use embkv.Store.{Sqlite, Codec, IsUtf8, execute, services}
use embkv.Client.{Client, client_request, request_message}
use embkv.Client.Stored.{entry_for-execute}

-- The value in a reply: "Null" for none.
abbrev pub value_of : Option Bytes → Bytes
value_of none = b'N' ∷ b'u' ∷ b'l' ∷ b'l' ∷ []
value_of (some value) = value

value_or-value_of : (v : Option Bytes) → value_or null_text v ≡ value_of v
value_or-value_of none = refl
value_or-value_of (some value) = refl

module _ {C Db : Type 0} (conn : Connection C) (messages : MessageCodec)
    (dial : Bytes → ℕ → Option C) (sql : Sqlite Db) (codec : Codec) where
  -- The reply to a call that the store has executed: the call's number, success, and the value.
  abbrev pub reply_to : KvOperation → Client C → RaftNode Db → Effect
  reply_to o c n = Effect.to_client c.id (
      message n (
        Content.client_response (record {
          request_id = c.request_id;
          leader_hint = 0;
          success = true;
          value = value_of (execute sql o.op_type o.key o.value n.state_machine).0;
          error = none;
        })))

  abbrev pub Executed : KvOperation → Client C → RaftNode Db → RaftNode Db → Type 0
  Executed o c n m =
      ((e : Effect) × (m.out ≡ (n.out ++ e ∷ []) ++ reply_to o c n ∷ []))
      × (m.state_machine ≡ (execute sql o.op_type o.key o.value n.state_machine).1)

  -- A put, get or delete of a client reaches a leader that has applied all of its log, and its
  -- entry is committed: the operation is executed on the table, and a reply of success goes to
  -- the client's id, with the number that the client gave the request and with the value that
  -- the operation returns ("Null" for none); where the log is contiguous, its length with one
  -- more entry is below 2 ^ 64, no request is on record for the new entry, and key and value
  -- are UTF-8.
  pub call-answered :
      (o : KvOperation) (c : Client C) (n : RaftNode Db)
      → IsContiguous n.log
      → suc (length n.log.entries) < u64_mod
      → n.st.role ≡ Role.leader
      → n.st.last_applied ≡ n.log.last_log_index
      → lookup (suc n.st.last_applied) n.requests ≡ none
      → IsUtf8 codec o.key
      → IsUtf8 codec o.value
      → Returns (Executed o c n) (
          handle_client_request
            (services sql codec)
            n
            (request_message conn messages codec.serialize_operation dial o c)
            (client_request conn messages codec.serialize_operation dial o c)
          >>= λ m. apply_to_state_machine (services sql codec) (suc n.st.last_applied) m)
  call-answered o c n contiguous small leads done free key value =
      let executed =
        entry_for-execute conn messages dial sql codec o c n n.state_machine key value in
      let msg = request_message conn messages codec.serialize_operation dial o c in
      let req = client_request conn messages codec.serialize_operation dial o c in
      Returns-map (Answered (services sql codec) n msg req) (Executed o c n) _
        (λ m q. (
          (
            q.0.0,
            q.0.1
                ∙ ap
                    (λ r.
                      (n.out ++ q.0.0 ∷ [])
                      ++ Effect.to_client c.id
                          (message n (Content.client_response (success_response c.request_id r.0)))
                        ∷ [])
                    executed
                ∙ ap
                    (λ v.
                      (n.out ++ q.0.0 ∷ [])
                      ++ Effect.to_client c.id (
                          message n (
                            Content.client_response (record {
                              request_id = c.request_id;
                              leader_hint = 0;
                              success = true;
                              value = v;
                              error = none;
                            })))
                        ∷ [])
                    (value_or-value_of (execute sql o.op_type o.key o.value n.state_machine).0),
          ),
          q.1 ∙ ap (λ r. r.1) executed,
        ))
        (client_request-Answered (services sql codec) n msg req contiguous small leads done free)
