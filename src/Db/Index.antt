-- ===== src/Db/Index.antt =====
-- The tables of db.c, over the entry types of db_fl.h.
pub mod Typed
use dca.Common.{Text, Buffer, codes, ℕ, ℤ, List, [], ◌∷◌, ◌++◌, if◌then◌else◌}
use dca.Riot.{Riot}
use dca.State.{Cmd, pure}
use dca.Node.{NodeType, int, float, str, Node}
use dca.Board
use dca.Runtime
use dca.Ps
use dca.Saul
use dca.Netif

-- A value function by the type that it is cast from.
pub data Getter : Type 0 where
  int_fn : Cmd ℤ → Getter
  float_fn : Cmd ℕ → Getter
  str_fn : (Buffer → ℕ → Cmd (Buffer × ℕ)) → Getter

-- db_fl_static_entry_t
pub record StaticEntry : Type 0 where
  pub name : Text
  pub type : NodeType
  pub get_value : Getter

-- db_fl_dynamic_entry_t
pub record DynamicEntry : Type 0 where
  pub name : Text
  pub get_node : Cmd Node

-- db_fl_entry_t; the counts are the lengths of the lists
pub record FlEntry : Type 0 where
  pub branch_name : Text
  pub static_entries : List StaticEntry
  pub dynamic_entries : List DynamicEntry

abbrev static_entry : Text → NodeType → Getter → StaticEntry
static_entry s t f = record { name = s; type = t; get_value = f }

abbrev int_entry : Text → Cmd ℤ → StaticEntry
int_entry s f = static_entry s int (int_fn f)

abbrev str_entry : Text → (Buffer → ℕ → Cmd (Buffer × ℕ)) → StaticEntry
str_entry s f = static_entry s str (str_fn f)

module _ (r : Riot) where
  -- _board_static_entries
  abbrev pub board_static_entries : List StaticEntry
  board_static_entries =
      str_entry (codes "name") (Board.get_name r)
      ∷ str_entry (codes "mcu") (Board.get_mcu r)
      ∷ int_entry (codes "ram") (pure (Board.get_ram r))
      ∷ int_entry (codes "clock") (pure (Board.get_clock r))
      ∷ int_entry (codes "nonvolatile") (pure (Board.get_nonvolatile r))
      ∷ []

  -- _runtime_static_entries
  abbrev pub runtime_static_entries : List StaticEntry
  runtime_static_entries =
      int_entry (codes "cpu_load") (pure (Runtime.get_cpu_load r))
      ∷ static_entry (codes "cpu_util") float (float_fn (pure (Runtime.get_cpu_util r)))
      ∷ int_entry (codes "num_processes") (pure (Runtime.get_num_processes r))
      ∷ int_entry (codes "stack_used") (pure (Runtime.get_stack_used r))
      ∷ int_entry (codes "heap") (pure (Runtime.get_heap r))
      ∷ []

  -- _runtime_dynamic_entries
  abbrev pub runtime_dynamic_entries : List DynamicEntry
  runtime_dynamic_entries =
      if r.config.dca_ps
      then record { name = codes "ps"; get_node = pure (Ps.new_ps_node r) } ∷ []
      else []

  -- _saul_static_entries
  abbrev pub saul_static_entries : List StaticEntry
  saul_static_entries =
      int_entry (codes "num_sensors") (Saul.get_num_sensors r)
      ∷ int_entry (codes "num_actuators") (Saul.get_num_actuators r)
      ∷ []

  -- _saul_dynamic_entries
  abbrev pub saul_dynamic_entries : List DynamicEntry
  saul_dynamic_entries =
      record { name = codes "devices"; get_node = pure (Saul.new_saul_node r) } ∷ []

  -- _network_static_entries
  abbrev pub network_static_entries : List StaticEntry
  network_static_entries = int_entry (codes "num_ifaces") (Runtime.get_num_ifaces r) ∷ []

  -- _network_dynamic_entries
  abbrev pub network_dynamic_entries : List DynamicEntry
  network_dynamic_entries = record { name = codes "netif"; get_node = Netif.new_netif_node r } ∷ []

  abbrev pub branch : Text → List StaticEntry → List DynamicEntry → FlEntry
  branch s es ds = record { branch_name = s; static_entries = es; dynamic_entries = ds }

  -- db_index
  unfoldable pub db_index : List FlEntry
  db_index =
      branch (codes "board") board_static_entries []
        ∷ branch (codes "runtime") runtime_static_entries runtime_dynamic_entries
        ∷ (if r.config.dca_network
            then branch (codes "network") network_static_entries network_dynamic_entries ∷ []
            else [])
      ++ (if r.config.dca_saul
          then branch (codes "saul") saul_static_entries saul_dynamic_entries ∷ []
          else [])
