-- ===== src/Netif/Names.antt =====
-- netif.c: the data of a node, the counters' tables of names, and the name of a node.
use dca.Common.{
  ℕ, ◌+◌, ◌%◌, ◌^◌, ◌&&◌, not, Option, none, some, Text, codes, Buffer, c_string, ltb, leb, ◌==◌,
  if◌then◌else◌, length, strncpy, strcpy,
}
use dca.Riot.{Riot}
use dca.LinkedList
use dca.LinkedList.{Neighbor}
use dca.State.{Cmd, pure, lift, gets, modify, assert, ◌>>=◌, ◌>>◌}
use dca.Node.{name_max, Node, NetifData, netif_node}

-- device_property_t and qos_property_t
abbrev pub count : ℕ
count = 5

abbrev pub qos_count : ℕ
qos_count = 4

abbrev pub field_name : ℕ → Option Text
field_name i =
    if i == 0
    then some (codes "pid")
    else if i == 1
    then some (codes "inet6 addr")
    else if i == 2
    then some (codes "Link type")
    else if i == 3
    then some (codes "num_neighbours")
    else if i == 4
    then some (codes "neighbours")
    else none

-- `_netif_sub_field_count` counts from 1
abbrev pub sub_field_name : ℕ → Option Text
sub_field_name i =
    if i == 1
    then some (codes "ip")
    else if i == 2
    then some (codes "latency")
    else if i == 3
    then some (codes "packet_loss")
    else if i == 4
    then some (codes "throughput")
    else none

abbrev pub netif_data : ℕ → ℕ → NetifData
netif_data iface is_root = record { iface = iface; is_root = is_root }

-- _netif_node_init
abbrev pub init : ℕ → ℕ → Node
init iface is_root = netif_node (netif_data iface is_root)

abbrev pub u8 : ℕ → ℕ
u8 n = n % 2 ^ 8

-- x-- on a uint8_t
abbrev pub dec8 : ℕ → ℕ
dec8 n = (n + 255) % 2 ^ 8

abbrev pub set_sub_field : ℕ → Cmd (Unit {0})
set_sub_field n = modify (λ g. record g { netif_sub_field_count = n })

abbrev write_name : Option Text → Buffer → Cmd Buffer
write_name none name = pure name
write_name (some s) name = lift (strncpy name s name_max)

module _ (r : Riot) where
  -- db_new_netif_node
  unfoldable pub new_netif_node : Cmd Node
  new_netif_node = do
    modify (λ g. record g { netif_field_count = 0; netif_sub_field_count = 1 })
    pure (init (r.netif_iter 0) 4)

  -- _netif_node_get_field_name
  unfoldable pub get_field_name : NetifData → Buffer → Cmd Buffer
  get_field_name d name = do
    assert (not (d.iface == 0))
    c ← gets (λ g. g.netif_field_count)
    write_name (field_name c) name

  -- _netif_node_get_sub_field_name
  unfoldable pub get_sub_field_name : Buffer → Cmd Buffer
  get_sub_field_name name = do
    c ← gets (λ g. g.netif_sub_field_count)
    write_name (sub_field_name c) name

  -- _netif_get_ip: the buffer afterwards and its length as a string
  unfoldable pub get_ip : Buffer → Cmd (Buffer × ℕ)
  get_ip addr_str = do
    n ← gets (λ g. g.num_neighbours)
    head ← gets (λ g. g.head)
    (code, addr_str) ← lift (LinkedList.read_ip r.ipv6_addr_to_str n addr_str head)
    pure (addr_str, length (c_string addr_str))

  -- _netif_node_getname
  unfoldable pub getname : NetifData → Buffer → Cmd Buffer
  unfolding get_field_name get_sub_field_name get_ip
  getname d name = do
    c ← gets (λ g. g.netif_field_count)
    s ← gets (λ g. g.netif_sub_field_count)
    (if d.is_root == 4
        then lift (strncpy name (codes "netif") name_max)
        else if d.is_root == 3
        then (do assert (not (d.iface == 0)); lift (strcpy name (r.netif_name d.iface)))
        else if d.is_root == 2 && ltb c count
        then (do name ← get_field_name d name; lift (strncpy name (c_string name) name_max))
        else if d.is_root == 1
        then (do (name, len) ← get_ip name; pure name)
        else if d.is_root == 0 && leb s qos_count
        then (do name ← get_sub_field_name name; lift (strncpy name (c_string name) name_max))
        else pure name)
