-- ===== src/Netif/Children.antt =====
-- netif.c: the iteration over the children and the siblings of a node.
pub mod Counters
use dca.Common.{
  ℕ, zero, suc, ◌+◌, ◌-◌, ◌%◌, ◌^◌, ◌&&◌, ◌||◌, not, Option, none, some, Text, codes, Buffer,
  c_string, ℤ, pos, negsuc, Result, ok, fault, no_fuel, ltb, leb, ◌==◌, if◌then◌else◌, length,
  int32, strncpy, strcpy, clear, replicate, List, [], ◌∷◌,
}
use dca.Riot.{Riot}
use dca.LinkedList
use dca.LinkedList.{Neighbor}
use dca.State.{Cmd, pure, lift, gets, modify, assert, ◌>>=◌, ◌>>◌}
use dca.Node.{name_max, NodeType, inner, int, float, str, Node, NetifData, null_node, netif_node}
use dca.Netif.Names.{count, qos_count, netif_data, init, u8, dec8, set_sub_field, get_ip}

module _ (r : Riot) where
  -- the branch `is_root == 4` of _netif_node_getnext_child
  next_iface : NetifData → Node → Cmd (NetifData × Node)
  next_iface d next_child =
      if d.iface == 0
      then pure (d, null_node)
      else pure (record d { iface = r.netif_iter d.iface }, init d.iface 3)

  -- the branch `is_root == 3`
  first_field : NetifData → Node → Cmd (NetifData × Node)
  first_field d next_child = do
    c ← gets (λ g. g.netif_field_count)
    (if not (d.iface == 0) && ltb c count
        then pure (netif_data (r.netif_iter d.iface) 2, init d.iface 2)
        else pure (d, next_child))

  -- the branch `is_root == 2`
  next_field : NetifData → Node → Cmd (NetifData × Node)
  next_field d next_child = do
    c ← gets (λ g. g.netif_field_count)
    n ← gets (λ g. g.num_neighbours)
    s ← gets (λ g. g.netif_sub_field_count)
    (if c == count - 1 && not (d.iface == 0) && ltb 0 n
        then (do set_sub_field (u8 (s + 1)); pure (record d { is_root = 1 }, init d.iface 1))
        else if ltb c (count - 1)
        then (do modify (λ g. record g { netif_field_count = u8 (c + 1) }); pure (d, next_child))
        else pure (d, null_node))

  -- The end of one neighbour's measurements, in the branches 1 and 0; `again` is the recursive
  -- call.
  next_neighbour :
      (NetifData → Node → Cmd (NetifData × Node)) → NetifData → Node → Cmd (NetifData × Node)
  next_neighbour again d next_child = do
    n ← gets (λ g. g.num_neighbours)
    modify (λ g. record g { num_neighbours = dec8 n; netif_sub_field_count = 1 })
    (if dec8 n == 0 then pure (d, null_node) else again (record d { is_root = 1 }) next_child)

  -- the branch `is_root == 1`
  neighbour_child :
      (NetifData → Node → Cmd (NetifData × Node)) → NetifData → Node → Cmd (NetifData × Node)
  neighbour_child again d next_child = do
    n ← gets (λ g. g.num_neighbours)
    s ← gets (λ g. g.netif_sub_field_count)
    (if n == 0
        then (do set_sub_field 1; pure (d, null_node))
        else if s == 1
        then (do set_sub_field (u8 (s + 1)); pure (record d { is_root = 1 }, init d.iface 1))
        else if ltb s qos_count
        then pure (record d { is_root = 0 }, init d.iface 0)
        else next_neighbour again d next_child)

  -- the branch `is_root == 0`
  next_measurement :
      (NetifData → Node → Cmd (NetifData × Node)) → NetifData → Node → Cmd (NetifData × Node)
  next_measurement again d next_child = do
    n ← gets (λ g. g.num_neighbours)
    s ← gets (λ g. g.netif_sub_field_count)
    (if ltb s qos_count
        then (do set_sub_field (u8 (s + 1)); pure (record d { is_root = 0 }, next_child))
        else if s == qos_count && not (n == 0)
        then (do set_sub_field (u8 (s + 1)); pure (d, null_node))
        else next_neighbour again d next_child)

  -- _netif_node_getnext_child, on fuel for its recursive calls
  unfoldable pub getnext_child : ℕ → NetifData → Node → Cmd (NetifData × Node)
  unfolding next_iface first_field next_field next_neighbour neighbour_child next_measurement
  getnext_child zero d next_child = λ g. fault no_fuel
  getnext_child (suc k) d next_child =
      if d.is_root == 4
      then next_iface d next_child
      else if d.is_root == 3
      then first_field d next_child
      else if d.is_root == 2
      then next_field d next_child
      else if d.is_root == 1
      then neighbour_child (getnext_child k) d next_child
      else if d.is_root == 0
      then next_measurement (getnext_child k) d next_child
      else pure (d, next_child)

  -- _netif_node_getnext: `next` afterwards
  unfoldable pub getnext : NetifData → Node → Cmd Node
  getnext d next =
      if d.is_root == 4
      then pure null_node
      else if d.is_root == 3
      then (if d.iface == 0 then pure null_node else pure (init (r.netif_iter d.iface) 2))
      else if d.is_root == 1
      then (if d.iface == 0 then pure next else pure (init (r.netif_iter d.iface) 1))
      else (if d.iface == 0 then pure null_node else pure (init (r.netif_iter d.iface) 2))
