-- ===== src/Config.antt =====
-- embkv/include/config.h: the configuration of a node, read once from the file config.json, which is
-- written where it cannot be opened. The JSON library is a parameter.
pub mod File
use embkv.Base.{
  ℕ, ◌<◌, ◌^◌, ◌≡◌, Bool, true, false, Option, none, some, [], ◌∷◌, if◌then◌else◌, u64_mod,
}
use embkv.Store.Text.{bytes_eq}
use embkv.Proto.{Bytes}

-- Config
pub record Config : Type 0 where
  pub cluster_id : ℕ
  pub node_id : ℕ
  pub node_name : Bytes
  pub ip : Bytes
  pub port : ℕ

-- "cluster_id"
abbrev pub cluster_id_key : Bytes
cluster_id_key = 99 ∷ 108 ∷ 117 ∷ 115 ∷ 116 ∷ 101 ∷ 114 ∷ 95 ∷ 105 ∷ 100 ∷ []

-- "node_id"
abbrev pub node_id_key : Bytes
node_id_key = 110 ∷ 111 ∷ 100 ∷ 101 ∷ 95 ∷ 105 ∷ 100 ∷ []

-- "node_name"
abbrev pub node_name_key : Bytes
node_name_key = 110 ∷ 111 ∷ 100 ∷ 101 ∷ 95 ∷ 110 ∷ 97 ∷ 109 ∷ 101 ∷ []

-- "ip"
abbrev pub ip_key : Bytes
ip_key = 105 ∷ 112 ∷ []

-- "port"
abbrev pub port_key : Bytes
port_key = 112 ∷ 111 ∷ 114 ∷ 116 ∷ []

-- "Default_Node"
abbrev pub default_name : Bytes
default_name = 68 ∷ 101 ∷ 102 ∷ 97 ∷ 117 ∷ 108 ∷ 116 ∷ 95 ∷ 78 ∷ 111 ∷ 100 ∷ 101 ∷ []

-- "127.0.0.1"
abbrev pub default_ip : Bytes
default_ip = 49 ∷ 50 ∷ 55 ∷ 46 ∷ 48 ∷ 46 ∷ 48 ∷ 46 ∷ 49 ∷ []

-- The values of the members of a new Config.
abbrev pub default_config : Config
default_config = record {
  cluster_id = 0;
  node_id = 0;
  node_name = default_name;
  ip = default_ip;
  port = 8080;
}

-- What is put into a JSON object.
pub data Value : Type 0 where
  number : ℕ → Value
  text : Bytes → Value

-- nlohmann::json, on objects `J` and the texts of files `T`. A member that is not there is read as the
-- default; one of another type throws, here none, and so do a text that is no JSON and an object that
-- has a string outside UTF-8. What it has written it reads back.
pub record Json (J T : Type 0) : Type 0 where
  pub new : J
  pub set : Bytes → Value → J → J
  pub value_u64 : J → Bytes → ℕ → Option ℕ
  pub value_u16 : J → Bytes → ℕ → Option ℕ
  pub value_string : J → Bytes → Bytes → Option Bytes
  pub dump : J → Option T
  pub parse : T → Option J
  pub parse-dump : (j : J) (t : T) → dump j ≡ some t → parse t ≡ some j
  pub u64-set :
      (k : Bytes) (n : ℕ) (j : J) (d : ℕ)
      → n < u64_mod
      → value_u64 (set k (Value.number n) j) k d ≡ some n
  pub u16-set :
      (k : Bytes) (n : ℕ) (j : J) (d : ℕ)
      → n < 2 ^ 16
      → value_u16 (set k (Value.number n) j) k d ≡ some n
  pub string-set :
      (k b : Bytes) (j : J) (d : Bytes) → value_string (set k (Value.text b) j) k d ≡ some b
  pub u64-other :
      (k l : Bytes) (v : Value) (j : J) (d : ℕ)
      → bytes_eq k l ≡ false
      → value_u64 (set k v j) l d ≡ value_u64 j l d
  pub u16-other :
      (k l : Bytes) (v : Value) (j : J) (d : ℕ)
      → bytes_eq k l ≡ false
      → value_u16 (set k v j) l d ≡ value_u16 j l d
  pub string-other :
      (k l : Bytes) (v : Value) (j : J) (d : Bytes)
      → bytes_eq k l ≡ false
      → value_string (set k v j) l d ≡ value_string j l d

-- config.json: its text, if it can be opened for reading, and whether it can be for writing; that
-- empties it.
pub record Disk (T : Type 0) : Type 0 where
  pub content : Option T
  pub writable : Bool

-- The static Config of load with its once_flag, and the file. `load` has no result if it throws.
pub record Loader (T : Type 0) : Type 0 where
  pub config : Config
  pub called : Bool
  pub disk : Disk T

module _ {J T : Type 0} (json : Json J T) (empty : T) where
  unfoldable pub to_json : Config → J
  to_json c = json.set port_key (Value.number c.port) (
      json.set ip_key (Value.text c.ip) (
        json.set node_name_key (Value.text c.node_name) (
          json.set node_id_key (Value.number c.node_id)
            (json.set cluster_id_key (Value.number c.cluster_id) json.new))))

  abbrev pub write_text : Option T → Disk T → Bool × Disk T
  write_text none disk = (false, record disk { content = some empty })
  write_text (some t) disk = (true, record disk { content = some t })

  -- Config::save: whether it returns, and the file after it.
  unfoldable pub save : Config → Disk T → Bool × Disk T
  unfolding to_json
  save c disk = if disk.writable then write_text (json.dump (to_json c)) disk else (false, disk)

  -- The members in their order; those before one that throws have been assigned.
  abbrev pub set_port : Config → Option ℕ → Bool × Config
  set_port c none = (false, c)
  set_port c (some n) = (true, record c { port = n })

  abbrev pub set_ip : J → Config → Option Bytes → Bool × Config
  set_ip j c none = (false, c)
  set_ip j c (some b) =
      let c' = record c { ip = b } in set_port c' (json.value_u16 j port_key c'.port)

  abbrev pub set_node_name : J → Config → Option Bytes → Bool × Config
  set_node_name j c none = (false, c)
  set_node_name j c (some b) =
      let c' = record c { node_name = b } in set_ip j c' (json.value_string j ip_key c'.ip)

  abbrev pub set_node_id : J → Config → Option ℕ → Bool × Config
  set_node_id j c none = (false, c)
  set_node_id j c (some n) =
      let c' = record c { node_id = n } in
      set_node_name j c' (json.value_string j node_name_key c'.node_name)

  abbrev pub set_cluster_id : J → Config → Option ℕ → Bool × Config
  set_cluster_id j c none = (false, c)
  set_cluster_id j c (some n) =
      let c' = record c { cluster_id = n } in
      set_node_id j c' (json.value_u64 j node_id_key c'.node_id)

  unfoldable pub assign_members : Config → Option J → Bool × Config
  assign_members c none = (false, c)
  assign_members c (some j) = set_cluster_id j c (json.value_u64 j cluster_id_key c.cluster_id)

  -- What call_once calls: whether it returns, and what it leaves.
  unfoldable pub load_file : Config → Disk T → Option T → Bool × Config × Disk T
  unfolding assign_members save
  load_file c disk none = let (done, after) = save c disk in (done, c, after)
  load_file c disk (some t) =
      let (done, after) = assign_members c (json.parse t) in (done, after, disk)

  abbrev pub called_once : Bool × Config × Disk T → Option Config × Loader T
  called_once (false, c, disk) = (none, record { config = c; called = false; disk = disk })
  called_once (true, c, disk) = (some c, record { config = c; called = true; disk = disk })

  -- Config::load. A call that throws leaves the flag as it is.
  unfoldable pub load : Loader T → Option Config × Loader T
  unfolding load_file
  load l =
      let fresh = called_once (load_file l.config l.disk l.disk.content) in
      if l.called then (some l.config, l) else fresh

-- A process that starts on a disk.
abbrev pub started : {T : Type 0} → Disk T → Loader T
started disk = record { config = default_config; called = false; disk = disk }
