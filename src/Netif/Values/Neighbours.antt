-- ===== src/Netif/Values/Neighbours.antt =====
-- The loop of _netif_node_getint_value that copies the neighbour cache into the list of neighbours.
use dca.Common.{
  if◌then◌else◌, refl, pos, ℕ, ◌+◌, ◌%◌, ◌<◌, ◌≡◌, Bool, true, false, Option, none, some, List, [],
  ◌∷◌, arith, length, ok,
}
use dca.Riot.{Riot}
use dca.State.{Globals}
use dca.LinkedList.{Neighbor, insert_node}
use dca.LinkedList.Lookup.{lookup, AddrsNodup, Decides, node_exists-lookup}
use dca.Node.{NetifData}
use dca.Netif.Values.{add_list, add_neighbours, getint_value}

abbrev pub unmeasured : ℕ → Neighbor
unmeasured a = record { addr = a; latency = 0; packet_loss = 0; throughput = 0 }

-- the measurements that are there stay, and a new address starts without any
abbrev pub or_unmeasured : Bool → ℕ → Option Neighbor → Option Neighbor
or_unmeasured b a (some x) = some x
or_unmeasured true a none = some (unmeasured a)
or_unmeasured false a none = none

module _ (r : Riot) where
  -- the list after a run of the loop
  unfoldable pub add_all : List ℕ → List Neighbor → List Neighbor
  add_all [] head = head
  add_all (ip ∷ ips) head = add_all ips (add_list r ip head)

module _ (r : Riot) (decides : Decides r.ipv6_addr_equal) where
  abbrev look : ℕ → List Neighbor → Option Neighbor
  look = lookup r.ipv6_addr_equal

  -- Where the equality of addresses is decided, adding an address keeps every measurement, and
  -- gives the address a node without measurements if it has none.
  pub lookup-add_list :
      (ip a : ℕ) (l : List Neighbor)
      → look a (add_list r ip l) ≡ or_unmeasured (r.ipv6_addr_equal ip a) ip (look a l)
  unfolding add_list lookup insert_node
  lookup-add_list ip a l =
      ground (arith, node_exists-lookup r.ipv6_addr_equal decides ip l, decides ip a)

  add_list-AddrsNodup :
      (ip : ℕ) (l : List Neighbor)
      → AddrsNodup r.ipv6_addr_equal l
      → AddrsNodup r.ipv6_addr_equal (add_list r ip l)
  unfolding add_list insert_node
  add_list-AddrsNodup ip l h = ground (arith, node_exists-lookup r.ipv6_addr_equal decides ip l)

  -- whether an address is among those of the neighbour cache
  unfoldable pub cached : ℕ → List ℕ → Bool
  cached a [] = false
  cached a (ip ∷ ips) = let rest = cached a ips in if r.ipv6_addr_equal ip a then true else rest

  lookup-add_all :
      (ips : List ℕ) (a : ℕ) (l : List Neighbor)
      → look a (add_all r ips l) ≡ or_unmeasured (cached a ips) a (look a l)
  unfolding add_all cached
  lookup-add_all [] a l = ground arith
  lookup-add_all (ip ∷ ips) a l =
      ground (arith, lookup-add_all ips a (add_list r ip l), lookup-add_list ip a l, decides ip a)

  add_all-AddrsNodup :
      (ips : List ℕ) (l : List Neighbor)
      → AddrsNodup r.ipv6_addr_equal l
      → AddrsNodup r.ipv6_addr_equal (add_all r ips l)
  unfolding add_all
  add_all-AddrsNodup [] l h = h
  add_all-AddrsNodup (ip ∷ ips) l h =
      add_all-AddrsNodup ips (add_list r ip l) (add_list-AddrsNodup ip l h)

  add_neighbours-add_all :
      (ips : List ℕ) (g : Globals)
      → g.num_neighbours < 256
      → add_neighbours r ips g
        ≡ ok (
          tt,
          record g {
            num_neighbours = (g.num_neighbours + length ips) % 256;
            head = add_all r ips g.head;
          },
        )
  unfolding add_neighbours add_all
  add_neighbours-add_all [] g h = ground arith
  add_neighbours-add_all (ip ∷ ips) g h = ground (
    arith,
    add_neighbours-add_all ips
        (record g { num_neighbours = (g.num_neighbours + 1) % 256; head = add_list r ip g.head }),
  )

  -- what reading the field `num_neighbours` leaves behind
  pub record Copied (ips : List ℕ) (g g' : Globals) : Type 0 where
    pub counted : g'.num_neighbours ≡ length ips % 256
    pub looked_up : (a : ℕ) → look a g'.head ≡ or_unmeasured (cached a ips) a (look a g.head)
    pub nodup : AddrsNodup r.ipv6_addr_equal g'.head
    pub same_field : g'.netif_field_count ≡ g.netif_field_count

  -- Where the equality of addresses is decided, reading the field `num_neighbours` of an interface
  -- (field 3), on a list without duplicates, returns the number of its cached neighbours modulo
  -- 256, gives each of them that has no node a node without measurements, keeps every measurement
  -- made before, and leaves the list without duplicates.
  pub getint_value-Copied :
      (d : NetifData) (g : Globals)
      → g.netif_field_count ≡ 3
      → AddrsNodup r.ipv6_addr_equal g.head
      → (g' : Globals) × (getint_value r d g
          ≡ ok (pos (length (r.nib_neighbors (r.netif_id d.iface)) % 256), g'))
        × Copied (r.nib_neighbors (r.netif_id d.iface)) g g'
  unfolding getint_value
  getint_value-Copied d g third nodup =
      let ips = r.nib_neighbors (r.netif_id d.iface) in
      (
        record g { num_neighbours = length ips % 256; head = add_all r ips g.head },
        ground (arith, add_neighbours-add_all ips (record g { num_neighbours = 0 })),
        record {
          counted = refl;
          looked_up = λ a. lookup-add_all ips a g.head;
          nodup = add_all-AddrsNodup ips g.head nodup;
          same_field = refl;
        },
      )
