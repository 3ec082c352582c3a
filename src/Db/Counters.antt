-- ===== src/Db/Counters.antt =====
-- The counters of ps.c, saul_devices.c and netif.c under the iteration over children. Each one is
-- the index of a table of names. The one of a neighbour's measurements leaves its table, by one where
-- the measurements end; a call on an interface raises it without a test.
use dca.Common.{All, ◌+◌, ◌<◌, ◌≤◌, ◌≡◌, ok}
use dca.Riot.{Riot}
use dca.State.{Globals, Cmd}
use dca.Node.{Node, netif_node}
use dca.Ps
use dca.Saul
use dca.Netif
use dca.Netif.Names
use dca.Db.Fl
use dca.Db.Index.{DynamicEntry, FlEntry}

pub record InRange (g : Globals) : Type 0 where
  pub field : g.field_count < Ps.count
  pub saul_field : g.saul_field_count < Saul.count
  pub netif_field : g.netif_field_count < Netif.count
  pub netif_sub_field : 0 < g.netif_sub_field_count
  pub netif_sub_field_end : g.netif_sub_field_count ≤ Netif.Names.qos_count + 1

-- A call on the fields of an interface finds `_netif_sub_field_count` at a number that has a name.
abbrev pub Below : Node → Globals → Type 0
Below (netif_node d) g = d.is_root ≡ 2 → g.netif_sub_field_count ≤ Netif.Names.qos_count
Below _ g = Unit

-- A command that returns keeps the counters in range.
abbrev pub Keeps : {A : Type 0} → Cmd A → Type 0
Keeps {A} m = (g g' : Globals) (a : A) → m g ≡ ok (a, g') → InRange g → InRange g'

module _ (r : Riot) where
  abbrev EntryKeeps : FlEntry → Type 0
  EntryKeeps e = All (λ (dy : DynamicEntry). Keeps dy.get_node) e.dynamic_entries
