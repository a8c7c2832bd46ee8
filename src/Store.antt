-- ===== src/Store.antt =====
-- embkv/include/raft/store.h and embkv/include/raft/statemachine.h: the table of keys and values,
-- and the state machine that applies log entries to it.
pub mod Text
pub mod Refine
use embkv.Base.{ℕ, ◌≡◌, Bool, true, false, Option, none, some, List, [], ◌∷◌, if◌then◌else◌}
use embkv.Proto.{Bytes, EntryMeta, ClientRequest, KvOperation, OperationType}
use embkv.Node.{Services}
use Text.{c_str, bytes_eq, IsText}

-- The three statements that the store runs, and what SQLite promises of them on text without NUL
-- where they succeed; the code looks at no error. `Db` is the database.
pub record Sqlite (Db : Type 0) : Type 0 where
  pub replace : Bytes → Bytes → Db → Db
  pub delete : Bytes → Db → Db
  pub select : Bytes → Db → Option Bytes
  pub select-replace :
      (k v j : Bytes) (db : Db)
      → IsText k
      → IsText v
      → IsText j
      → select j (replace k v db) ≡ (if bytes_eq k j then some v else select j db)
  pub select-delete :
      (k j : Bytes) (db : Db)
      → IsText k
      → IsText j
      → select j (delete k db) ≡ (if bytes_eq k j then none else select j db)

-- The encoders and decoders of the generated protobuf code. A decoder returns whether it succeeded, and
-- the message as far as it got. It takes back a request that was written, whose fields are a number and
-- bytes, and an operation whose key and value, strings of proto3, pass the check for UTF-8, as the empty
-- string does.
pub record Codec : Type 0 where
  pub serialize_request : ClientRequest → Bytes
  pub parse_request : Bytes → Bool × ClientRequest
  pub serialize_operation : KvOperation → Bytes
  pub parse_operation : Bytes → Bool × KvOperation
  pub request_back : (r : ClientRequest) → parse_request (serialize_request r) ≡ (true, r)
  pub valid_utf8 : Bytes → Bool
  pub empty_utf8 : valid_utf8 [] ≡ true
  pub operation_back :
      (o : KvOperation)
      → valid_utf8 o.key ≡ true
      → valid_utf8 o.value ≡ true
      → parse_operation (serialize_operation o) ≡ (true, o)

abbrev pub IsUtf8 : Codec → Bytes → Type 0
IsUtf8 codec text = codec.valid_utf8 text ≡ true

-- The column comes back as a C string.
abbrev pub text_of : Option Bytes → Option Bytes
text_of none = none
text_of (some text) = some (c_str text)

module _ {Db : Type 0} (sql : Sqlite Db) where
  -- The parameters are bound with length -1: up to the first NUL.
  unfoldable pub put : Bytes → Bytes → Db → Db
  put key value db = sql.replace (c_str key) (c_str value) db

  unfoldable pub get : Bytes → Db → Option Bytes
  get key db = text_of (sql.select (c_str key) db)

  unfoldable pub del : Bytes → Db → Db
  del key db = sql.delete (c_str key) db

  -- The switch of StateMachine::apply.
  unfoldable pub execute : OperationType → Bytes → Bytes → Db → Option Bytes × Db
  unfolding put get del
  execute OperationType.put key value db = (none, put key value db)
  execute OperationType.get key value db = (get key db, db)
  execute OperationType.delete key value db = (none, del key db)
  execute (OperationType.unknown n) key value db = (none, db)

  -- Whether a decoder succeeded is not looked at.
  unfoldable pub apply : Codec → EntryMeta → Db → Option Bytes × Db
  unfolding execute
  apply codec entry db =
      let request = (codec.parse_request entry.client_request).1 in
      let op = (codec.parse_operation request.command).1 in execute op.op_type op.key op.value db

  -- What the node calls.
  abbrev pub services : Codec → Services Db
  services codec = record { apply = apply codec; serialize_request = codec.serialize_request }
