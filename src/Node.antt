-- ===== src/Node.antt =====
-- include/doriot_dca/db_node.h: the node types and the nodes of the database. A node is its
-- operations table and 8 bytes of private data; here each table is a constructor over the struct
-- that its operations lay over those bytes.
use dca.Common.{ℕ, Bool, leb, ltb, ◌||◌}

abbrev pub name_max : ℕ
name_max = 30

pub data NodeType : Type 0 where
  null inner int float str : NodeType

-- _db_fl_node_private_data_t: three uint8_t
pub record FlData : Type 0 where
  pub sub_idx : ℕ
  pub is_root : ℕ
  pub fl_idx : ℕ

-- _db_ps_node_private_data_t
pub record PsData : Type 0 where
  pub pid : ℕ
  pub is_root : ℕ

-- _db_saul_node_private_data_t
pub record SaulData : Type 0 where
  pub dev : ℕ
  pub is_root : ℕ

-- _db_netif_node_private_data_t
pub record NetifData : Type 0 where
  pub iface : ℕ
  pub is_root : ℕ

-- `uninit` is a node variable that nothing has written yet.
pub data Node : Type 0 where
  null_node : Node
  root_node : ℕ → Node
  fl_node : FlData → Node
  ps_node : PsData → Node
  saul_node : SaulData → Node
  netif_node : NetifData → Node
  uninit : Node

-- `c < n` for an int8_t that is kept as its bit pattern
abbrev pub int8_lt : ℕ → ℕ → Bool
int8_lt c n = ltb c n || leb 128 c
