-- ===== src/LinkedList.antt =====
-- linked_list.c: the neighbours that QoS was measured for. The list is the chain of nodes from
-- `head`, in order; each node that the program inserts is freshly allocated, so no node is shared.
pub mod Read
pub mod Lookup
pub mod Upsert
use dca.Common.{
  strcpy, Buffer, ℕ, zero, suc, ◌-◌, List, [], ◌∷◌, Bool, Text, Result, ok, fault, null_deref, ◌==◌,
  if◌then◌else◌,
}

-- struct neighbor_entryl, without its link
pub record Neighbor : Type 0 where
  pub addr : ℕ
  pub latency : ℕ
  pub packet_loss : ℕ
  pub throughput : ℕ

-- linked_list_insert_node
unfoldable pub insert_node : Neighbor → List Neighbor → List Neighbor
insert_node node head = node ∷ head

-- The loop `ptr = ptr->next`, so many times.
unfoldable pub advance : ℕ → List Neighbor → Result (List Neighbor)
advance zero ptr = ok ptr
advance (suc n) [] = fault null_deref
advance (suc n) (x ∷ ptr) = advance n ptr

module _ (ipv6_addr_to_str : ℕ → Text) where
  written : Result Buffer → Result (ℕ × Buffer)
  written (ok addr_str) = ok (0, addr_str)
  written (fault f) = fault f

  read_ip_at : Result (List Neighbor) → Buffer → Result (ℕ × Buffer)
  unfolding written
  read_ip_at (ok []) addr_str = ok (1, addr_str)
  read_ip_at (ok (x ∷ ptr)) addr_str = written (strcpy addr_str (ipv6_addr_to_str x.addr))
  read_ip_at (fault f) addr_str = fault f

  -- linked_list_read_ip: the return code, and `addr_str` afterwards. The loop counts to
  -- `num_neighbours - 1` as an int, so 0 makes no round, as the truncated `-` does.
  unfoldable pub read_ip : ℕ → Buffer → List Neighbor → Result (ℕ × Buffer)
  unfolding read_ip_at advance
  read_ip num_neighbours addr_str [] = ok (1, addr_str)
  read_ip num_neighbours addr_str (x ∷ head) =
      read_ip_at (advance (num_neighbours - 1) (x ∷ head)) addr_str

-- The `switch` of linked_list_read.
unfoldable pub subfield : ℕ → Neighbor → ℕ
subfield subfield_count x =
    if subfield_count == 2
    then x.latency
    else if subfield_count == 3
    then x.packet_loss
    else if subfield_count == 4
    then x.throughput
    else 1

read_at : ℕ → Result (List Neighbor) → Result ℕ
read_at subfield_count (ok []) = ok 1
read_at subfield_count (ok (x ∷ ptr)) = ok (subfield subfield_count x)
read_at subfield_count (fault f) = fault f

-- linked_list_read: `value` is an int32_t between two uint32_t, which keeps the bit pattern.
unfoldable pub read : ℕ → ℕ → List Neighbor → Result ℕ
unfolding read_at subfield advance
read subfield_count num_neighbours [] = ok 1
read subfield_count num_neighbours (x ∷ head) =
    read_at subfield_count (advance (num_neighbours - 1) (x ∷ head))

module _ (ipv6_addr_equal : ℕ → ℕ → Bool) where
  -- linked_list_node_exists: 0 if the address is in the list
  unfoldable pub node_exists : ℕ → List Neighbor → ℕ
  node_exists ip_cache [] = 1
  node_exists ip_cache (x ∷ ptr) =
      let rest = node_exists ip_cache ptr in if ipv6_addr_equal x.addr ip_cache then 0 else rest

  -- linked_list_update_latency: the return code and the list
  unfoldable pub update_latency : Neighbor → List Neighbor → ℕ × List Neighbor
  update_latency node [] = (1, [])
  update_latency node (x ∷ ptr) =
      let rest = update_latency node ptr in
      if ipv6_addr_equal x.addr node.addr
      then (0, record x { latency = node.latency; packet_loss = node.packet_loss } ∷ ptr)
      else (rest.0, x ∷ rest.1)

  -- linked_list_update_throughput
  unfoldable pub update_throughput : Neighbor → List Neighbor → ℕ × List Neighbor
  update_throughput node [] = (1, [])
  update_throughput node (x ∷ ptr) =
      let rest = update_throughput node ptr in
      if ipv6_addr_equal x.addr node.addr
      then (0, record x { throughput = node.throughput } ∷ ptr)
      else (rest.0, x ∷ rest.1)
