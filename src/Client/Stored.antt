-- ===== src/Client/Stored.antt =====
-- From a call of the client to the table of the store.
use embkv.Base.{ℕ, ◌≡◌, refl, ap, ◌∙◌, Option, none, some, add64}
use embkv.Proto.{Bytes, KvOperation, EntryMeta}
use embkv.Node.{RaftNode}
use embkv.Node.Client.{new_entry}
use embkv.Stream.{Connection}
use embkv.Pipeline.{MessageCodec}
use embkv.Store.{Sqlite, Codec, IsUtf8, apply, execute, get, services}
use embkv.Store.Text.{IsText, bytes_eq_refl}
use embkv.Store.Refine.{apply-entry_of, execute-Agrees, perform}
use embkv.Client.{Client, client_request, put_operation, del_operation, get_operation}

module _ {C Db : Type 0} (conn : Connection C) (messages : MessageCodec)
    (dial : Bytes → ℕ → Option C) (sql : Sqlite Db) (codec : Codec) where
  -- The entry that a leader makes of a call's request.
  abbrev pub entry_for : KvOperation → Client C → RaftNode Db → EntryMeta
  entry_for op c n =
      new_entry (services sql codec) n
        (client_request conn messages codec.serialize_operation dial op c)

  pub entry_for-execute :
      (o : KvOperation) (c : Client C) (n : RaftNode Db) (db : Db)
      → IsUtf8 codec o.key
      → IsUtf8 codec o.value
      → apply sql codec (entry_for o c n) db ≡ execute sql o.op_type o.key o.value db
  entry_for-execute o c n db uk uv =
      apply-entry_of sql codec (n.st.current_term, add64 n.log.last_log_index 1, c.request_id) o db
        uk uv

  get-entry_for :
      (o : KvOperation) (c : Client C) (n : RaftNode Db) (db : Db)
      → IsText o.key × IsUtf8 codec o.key
      → IsText o.value × IsUtf8 codec o.value
      → get sql o.key (apply sql codec (entry_for o c n) db).1
        ≡ perform o.op_type o.key o.value (λ k. get sql k db) o.key
  get-entry_for o c n db hk hv =
      ap (λ r. get sql o.key r.1) (entry_for-execute o c n db hk.1 hv.1)
      ∙ execute-Agrees sql codec o.op_type o.key o.value db (λ k. get sql k db) hk.0 hv.0
          (λ k _. refl) o.key hk.0

  -- Applied to the store, the entry that a leader makes of a client's put makes the key read
  -- as the value, that of a delete makes it read as nothing, and that of a get answers with
  -- what the key reads as; where key and value are UTF-8 without NUL.
  pub apply-entry_for :
      (key value : Bytes) (c : Client C) (n : RaftNode Db) (db : Db)
      → IsText key × IsUtf8 codec key
      → IsText value × IsUtf8 codec value
      → (get sql key (apply sql codec (entry_for (put_operation key value) c n) db).1 ≡ some value)
        × (get sql key (apply sql codec (entry_for (del_operation key) c n) db).1 ≡ none)
        × ((apply sql codec (entry_for (get_operation key) c n) db).0 ≡ get sql key db)
  unfolding execute
  apply-entry_for key value c n db hk hv =
      let same = bytes_eq_refl key in
      (
        get-entry_for (put_operation key value) c n db hk hv ∙ rw same refl,
        get-entry_for (del_operation key) c n db hk (tt, codec.empty_utf8) ∙ rw same refl,
        ap (λ r. r.0) (entry_for-execute (get_operation key) c n db hk.1 codec.empty_utf8),
      )
