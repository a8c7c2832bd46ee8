-- ===== src/Config/File.antt =====
-- What is saved is loaded again.
use embkv.Base.{◌<◌, ◌^◌, true, some, u64_mod}
use embkv.Config.{Config, Json, Disk}

-- The numbers fit their types.
pub record IsConfig (c : Config) : Type 0 where
  pub cluster_id_fits : c.cluster_id < u64_mod
  pub node_id_fits : c.node_id < u64_mod
  pub port_fits : c.port < 2 ^ 16

module _ {J T : Type 0} (json : Json J T) (empty : T) where
  abbrev written : T → Disk T
  written t = record { content = some t; writable = true }
