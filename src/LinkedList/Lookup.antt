-- ===== src/LinkedList/Lookup.antt =====
-- The list as a map from addresses to measurements, and the updates of linked_list.c on it.
use dca.Common.{
  ℕ, ◌≡◌, ◌↔◌, refl, Bool, true, Option, none, some, List, [], ◌∷◌, arith, if◌then◌else◌,
}
use dca.LinkedList.{Neighbor, node_exists, update_latency, update_throughput}

module _ (equal : ℕ → ℕ → Bool) where
  -- the measurements of an address: the first node that has it
  unfoldable pub lookup : ℕ → List Neighbor → Option Neighbor
  lookup a [] = none
  lookup a (x ∷ l) = let rest = lookup a l in if equal x.addr a then some x else rest

  -- no address stands in two nodes
  abbrev pub AddrsNodup : List Neighbor → Type 0
  AddrsNodup [] = Unit
  AddrsNodup (x ∷ l) = (lookup x.addr l ≡ none) × AddrsNodup l

abbrev pub set_latency : Neighbor → Option Neighbor → Option Neighbor
set_latency node none = none
set_latency node (some x) =
    some (record x { latency = node.latency; packet_loss = node.packet_loss })

abbrev pub set_throughput : Neighbor → Option Neighbor → Option Neighbor
set_throughput node none = none
set_throughput node (some x) = some (record x { throughput = node.throughput })

abbrev pub is_none : Option Neighbor → ℕ
is_none none = 1
is_none (some x) = 0

-- `ipv6_addr_equal` decides equality of addresses.
abbrev pub Decides : (ℕ → ℕ → Bool) → Type 0
Decides equal = (a b : ℕ) → (equal a b ≡ true) ↔ (a ≡ b)

module _ (equal : ℕ → ℕ → Bool) (decides : Decides equal) where
  -- Where the equality of addresses is decided, linked_list_node_exists returns 0 exactly if the address has a node, and 1 otherwise.
  pub node_exists-lookup :
      (a : ℕ) (l : List Neighbor) → node_exists equal a l ≡ is_none (lookup equal a l)
  unfolding node_exists lookup
  node_exists-lookup a [] = refl
  node_exists-lookup a (x ∷ l) = ground (arith, node_exists-lookup a l)

  -- Where the equality of addresses is decided, linked_list_update_latency changes latency and loss of the address it is given, there is no
  -- other change that a lookup can see, and it returns 0 exactly if the address has a node.
  pub lookup-update_latency :
      (node : Neighbor) (l : List Neighbor) (a : ℕ)
      → (lookup equal a (update_latency equal node l).1
          ≡ (if equal node.addr a then set_latency node (lookup equal a l) else lookup equal a l))
        × ((update_latency equal node l).0 ≡ is_none (lookup equal node.addr l))
  unfolding update_latency lookup
  lookup-update_latency node [] a = ground arith
  lookup-update_latency node (x ∷ l) a = ground (
    arith,
    lookup-update_latency node l a,
    decides x.addr node.addr,
    decides x.addr a,
    decides node.addr a,
  )

  -- Where the equality of addresses is decided, linked_list_update_throughput changes the throughput of the address it is given, there is no
  -- other change that a lookup can see, and it returns 0 exactly if the address has a node.
  pub lookup-update_throughput :
      (node : Neighbor) (l : List Neighbor) (a : ℕ)
      → (lookup equal a (update_throughput equal node l).1 ≡ (
          if equal node.addr a then set_throughput node (lookup equal a l) else lookup equal a l))
        × ((update_throughput equal node l).0 ≡ is_none (lookup equal node.addr l))
  unfolding update_throughput lookup
  lookup-update_throughput node [] a = ground arith
  lookup-update_throughput node (x ∷ l) a = ground (
    arith,
    lookup-update_throughput node l a,
    decides x.addr node.addr,
    decides x.addr a,
    decides node.addr a,
  )
