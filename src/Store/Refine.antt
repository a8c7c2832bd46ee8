-- ===== src/Store/Refine.antt =====
-- The state machine against a map from keys to values.
use embkv.Base.{
  ℕ, ◌≡◌, refl, sym, ap, ◌∙◌, subst, Option, none, some, List, [], ◌∷◌, arith, All, map,
  if◌then◌else◌,
}
use embkv.Proto.{Bytes, EntryMeta, KvOperation, OperationType}
use embkv.Node.Apply.Machine.{apply_all}
use embkv.Store.{Sqlite, Codec, IsUtf8, put, get, del, execute, apply, services, text_of}
use embkv.Store.Text.{c_str, bytes_eq, IsText, c_str-IsText, c_str-eq_text, bytes_eq_refl}

-- The abstract store.
abbrev pub KvMap : Type 0
KvMap = Bytes → Option Bytes

-- One operation on it.
abbrev pub perform : OperationType → Bytes → Bytes → KvMap → KvMap
perform OperationType.put key value m = λ k. if bytes_eq key k then some value else m k
perform OperationType.delete key value m = λ k. if bytes_eq key k then none else m k
perform OperationType.get key value m = m
perform (OperationType.unknown n) key value m = m

abbrev pub perform_all : List KvOperation → KvMap → KvMap
perform_all [] m = m
perform_all (o ∷ os) m = perform_all os (perform o.op_type o.key o.value m)

module _ {Db : Type 0} (sql : Sqlite Db) (codec : Codec) where
  -- Key and value are UTF-8 and hold no NUL.
  abbrev pub IsTextOperation : KvOperation → Type 0
  IsTextOperation o = IsText o.key × IsText o.value × IsUtf8 codec o.key × IsUtf8 codec o.value

  -- The entry that carries an operation.
  abbrev pub entry_of : ℕ × ℕ × ℕ → KvOperation → EntryMeta
  entry_of (term, index, request_id) o = record {
    term = term;
    index = index;
    client_request =
        codec.serialize_request
          (record { request_id = request_id; command = codec.serialize_operation o });
  }

  abbrev pub entries_of : List (ℕ × ℕ × ℕ × KvOperation) → List EntryMeta
  entries_of = map (λ e. entry_of (e.0, e.1, e.2) e.3)

  abbrev pub operations : List (ℕ × ℕ × ℕ × KvOperation) → List KvOperation
  operations = map (λ e. e.3)

  pub apply-entry_of :
      (h : ℕ × ℕ × ℕ) (o : KvOperation) (db : Db)
      → IsUtf8 codec o.key
      → IsUtf8 codec o.value
      → apply sql codec (entry_of h o) db ≡ execute sql o.op_type o.key o.value db
  unfolding apply
  apply-entry_of h o db uk uv =
      rw
        (
          codec.request_back (record { request_id = h.2; command = codec.serialize_operation o }),
          codec.operation_back o uk uv,
        )
        refl

  -- The database reads as the map does, at every key without NUL.
  abbrev pub Agrees : Db → KvMap → Type 0
  Agrees db m = (k : Bytes) → IsText k → get sql k db ≡ m k

  -- One operation on the database is that operation on the map.
  pub execute-Agrees :
      (t : OperationType) (key value : Bytes) (db : Db) (m : KvMap)
      → IsText key
      → IsText value
      → Agrees db m
      → Agrees (execute sql t key value db).1 (perform t key value m)
  unfolding execute get put del
  execute-Agrees OperationType.put key value db m hk hv a k h = ground (
    arith,
    sql.select-replace key value k db hk hv h,
    c_str-eq_text key hk,
    c_str-eq_text value hv,
    c_str-eq_text k h,
    a k h,
  )
  execute-Agrees OperationType.delete key value db m hk hv a k h =
      ground
        (arith, sql.select-delete key k db hk h, c_str-eq_text key hk, c_str-eq_text k h, a k h)
  execute-Agrees OperationType.get key value db m hk hv a k h = a k h
  execute-Agrees (OperationType.unknown n) key value db m hk hv a k h = a k h

  apply_all-Agrees :
      (es : List (ℕ × ℕ × ℕ × KvOperation)) (db : Db) (m : KvMap)
      → All IsTextOperation (operations es)
      → Agrees db m
      → Agrees (apply_all (services sql codec) (entries_of es) db) (perform_all (operations es) m)
  unfolding apply_all
  apply_all-Agrees [] db m h a = a
  apply_all-Agrees (e ∷ es) db m h a =
      apply_all-Agrees es _ (perform e.3.op_type e.3.key e.3.value m) h.1 (
        subst (λ r. Agrees r.1 (perform e.3.op_type e.3.key e.3.value m))
          (sym (apply-entry_of (e.0, e.1, e.2) e.3 db h.0.2 h.0.3))
          (execute-Agrees e.3.op_type e.3.key e.3.value db m h.0.0 h.0.1 a))

  -- Whatever entries of operations are applied, a key of the store reads as in the map on
  -- which the operations were performed in the same order, from what the database held; where
  -- the keys and values of the operations are UTF-8 without NUL, and the key that is read
  -- holds no NUL.
  pub get-apply_all :
      (es : List (ℕ × ℕ × ℕ × KvOperation)) (db : Db) (k : Bytes)
      → All IsTextOperation (operations es)
      → IsText k
      → get sql k (apply_all (services sql codec) (entries_of es) db)
        ≡ perform_all (operations es) (λ j. get sql j db) k
  get-apply_all es db k h t = apply_all-Agrees es db (λ j. get sql j db) h (λ j _. refl) k t

  -- Two keys that agree up to their first NUL are one key to the store: a value put under one, cut at
  -- its own first NUL, is read under the other.
  pub get-put_same_text :
      (key j value : Bytes) (db : Db)
      → c_str key ≡ c_str j
      → get sql j (put sql key value db) ≡ some (c_str value)
  unfolding get put
  get-put_same_text key j value db e =
      let found : sql.select (c_str j) (put sql key value db) ≡ some (c_str value) =
        sql.select-replace (c_str key) (c_str value) (c_str j) db (c_str-IsText key)
          (c_str-IsText value) (c_str-IsText j)
        ∙ rw (e, bytes_eq_refl (c_str j)) in
      ap text_of found ∙ ap some (c_str-eq_text (c_str value) (c_str-IsText value))
