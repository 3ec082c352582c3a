-- ===== src/Netif/Values.antt =====
-- netif.c: the types, sizes and values of the nodes, and the list of neighbours.
pub mod Neighbours
use dca.Common.{
  ℕ, zero, suc, ◌+◌, ◌-◌, ◌%◌, ◌^◌, ◌&&◌, ◌||◌, not, Option, none, some, Text, codes, Buffer,
  c_string, ℤ, pos, negsuc, Result, ok, fault, no_fuel, ltb, leb, ◌==◌, if◌then◌else◌, length,
  int32, strncpy, strcpy, clear, replicate, List, [], ◌∷◌,
}
use dca.Riot.{Riot}
use dca.LinkedList
use dca.LinkedList.{Neighbor}
use dca.State.{Cmd, pure, lift, gets, modify, assert, ◌>>=◌, ◌>>◌}
use dca.Node.{name_max, NodeType, inner, int, float, str, Node, NetifData, null_node, netif_node}
use dca.Netif.Names.{count, qos_count, netif_data, init, u8, dec8, set_sub_field, get_ip}

module _ (r : Riot) where
  -- _netif_node_gettype
  unfoldable pub gettype : NetifData → Cmd NodeType
  gettype d = do
    c ← gets (λ g. g.netif_field_count)
    s ← gets (λ g. g.netif_sub_field_count)
    pure (
        if d.is_root == 4
        then inner
        else if d.is_root == 3
        then inner
        else if c == 0 || c == 3
        then int
        else if d.is_root == 2 && c == 1
        then str
        else if d.is_root == 2 && c == 2
        then str
        else if d.is_root == 2 && c == 4
        then inner
        else if d.is_root == 1
        then inner
        else if s == 2 || s == 3 || s == 4
        then float
        else str)

  -- _netif_get_ipv6_addr: the buffer afterwards and the length
  unfoldable pub get_ipv6_addr : ℕ → Buffer → Result (Buffer × ℕ)
  get_ipv6_addr iface addr = elim (r.netif_ipv6_addr iface) [
    | none ↦ elim (clear addr r.ipv6_addr_max_str_len) [
      | ok addr ↦ ok (addr, 0)
      | fault f ↦ fault f
    ]
    | some v6addr ↦ elim (strcpy addr (r.ipv6_addr_to_str v6addr)) [
      | ok addr ↦ ok (addr, length (c_string addr))
      | fault f ↦ fault f
    ]
  ]

  -- _netif_get_link_type
  unfoldable pub get_link_type : ℕ → Buffer → Result (Buffer × ℕ)
  get_link_type iface link =
      elim (strcpy link (if r.netif_is_wired iface == 1 then codes "wired" else codes "wireless")) [
        | ok link ↦ ok (link, length (c_string link))
        | fault f ↦ fault f
      ]

  -- _netif_node_getsize
  unfoldable pub getsize : NetifData → Cmd ℕ
  unfolding get_ipv6_addr
  getsize d = do
    c ← gets (λ g. g.netif_field_count)
    s ← gets (λ g. g.netif_sub_field_count)
    (if d.is_root == 4
        then pure 2
        else if d.is_root == 3
        then pure 2
        else if d.is_root == 2 && c == 2
        then pure 4
        else if d.is_root == 0 && ltb s qos_count
        then pure 4
        else do
          (addr, len) ← lift (get_ipv6_addr d.iface (replicate r.ipv6_addr_max_str_len 0))
          pure len)

  -- _netif_node_getstr_value: `value` afterwards and the size returned
  unfoldable pub getstr_value : NetifData → Buffer → Cmd (Buffer × ℕ)
  unfolding get_ipv6_addr get_link_type get_ip
  getstr_value d value = do
    assert (not (d.iface == 0))
    c ← gets (λ g. g.netif_field_count)
    s ← gets (λ g. g.netif_sub_field_count)
    (if c == 1
        then lift (get_ipv6_addr d.iface value)
        else if c == 2
        then lift (get_link_type d.iface value)
        else if s == 1
        then get_ip r value
        else pure (value, 88))

  -- linked_list_read of the current neighbour, read as an int32_t
  measured : ℕ → Cmd ℤ
  measured s = do
    n ← gets (λ g. g.num_neighbours)
    head ← gets (λ g. g.head)
    v ← lift (LinkedList.read s n head)
    pure (int32 v)

  -- _netif_get_latency: half the round trip in milliseconds
  get_latency : ℕ → Cmd ℕ
  unfolding measured
  get_latency s = do
    lat ← measured s
    pure (r.float_div (r.float_of_i32 lat) (r.float_of_i32 (pos 2000)))

  -- _netif_get_packetloss and _netif_get_throughput
  get_count : ℕ → Cmd ℕ
  unfolding measured
  get_count s = do val ← measured s; pure (r.float_of_i32 val)

  -- a float result that is cast to int32_t and returned as float
  abbrev pub truncated : ℕ → ℕ
  truncated x = r.float_of_i32 (r.float_to_i32 x)

  -- _netif_node_getfloat_value
  unfoldable pub getfloat_value : NetifData → Cmd ℕ
  unfolding get_latency get_count
  getfloat_value d = do
    assert (not (d.iface == 0))
    s ← gets (λ g. g.netif_sub_field_count)
    (if s == 2
        then (do x ← get_latency s; pure (truncated x))
        else if s == 3
        then (do x ← get_count s; pure (truncated x))
        else if s == 4
        then (do x ← get_count s; pure (truncated x))
        else pure (r.float_of_i32 (pos 0)))

  -- _netif_node_add_list
  unfoldable pub add_list : ℕ → List Neighbor → List Neighbor
  add_list ip_addr head =
      if LinkedList.node_exists r.ipv6_addr_equal ip_addr head == 0
      then head
      else LinkedList.insert_node
          (record { addr = ip_addr; latency = 0; packet_loss = 0; throughput = 0 }) head

  -- The loop over the neighbour cache in _netif_node_getint_value: the addresses still to come.
  unfoldable pub add_neighbours : List ℕ → Cmd (Unit {0})
  unfolding add_list
  add_neighbours [] = pure tt
  add_neighbours (ip ∷ rest) = do
    modify (λ g. record g { num_neighbours = u8 (g.num_neighbours + 1); head = add_list ip g.head })
    add_neighbours rest

  -- _netif_node_getint_value
  unfoldable pub getint_value : NetifData → Cmd ℤ
  unfolding add_neighbours
  getint_value d = do
    c ← gets (λ g. g.netif_field_count)
    (if c == 0
        then pure (int32 (r.netif_id d.iface))
        else if c == 3
        then (do
          modify (λ g. record g { num_neighbours = 0 })
          add_neighbours (r.nib_neighbors (r.netif_id d.iface))
          n ← gets (λ g. g.num_neighbours)
          pure (pos n))
        else pure (negsuc 0))
