-- ===== src/Throughput/Store.antt =====
-- What db_measure_network_throughput does to the list of neighbours, as a map from addresses to
-- measurements.
use dca.Common.{ℕ, ◌≡◌, refl, ap, ◌∙◌, true, Option, List, [], ◌∷◌, ok, if◌then◌else◌, All}
use dca.Riot.{Riot}
use dca.Net.{Net}
use dca.State.{Globals, ◌>>=◌}
use dca.LinkedList.{Neighbor, update_throughput}
use dca.LinkedList.Lookup.{lookup, set_throughput, Decides, lookup-update_throughput}
use dca.LinkedList.Upsert.{upsert, lookup-upsert}
use dca.Throughput.Client.{
  Exchange, exchange, store_throughput, connect, neighbour_loop, db_measure_network_throughput,
}

lookup-store_throughput :
    (r : Riot) (node : Neighbor) (g : Globals) (a : ℕ)
    → Decides r.ipv6_addr_equal
    → lookup r.ipv6_addr_equal a (store_throughput r node g).head ≡ (
        if r.ipv6_addr_equal node.addr a
        then upsert node set_throughput (lookup r.ipv6_addr_equal a g.head)
        else lookup r.ipv6_addr_equal a g.head)
unfolding store_throughput
lookup-store_throughput r node g a decides =
    lookup-upsert r.ipv6_addr_equal decides node g.head
      (update_throughput r.ipv6_addr_equal node g.head).1 set_throughput a
      (lookup-update_throughput r.ipv6_addr_equal decides node g.head a).0

-- the node of a measurement
abbrev pub rated : ℕ → ℕ → Neighbor
rated addr throughput = record {
  addr = addr;
  latency = 0;
  packet_loss = 0;
  throughput = throughput;
}

module _ (r : Riot) (net : Net) (exchanges : ℕ → Exchange) where
  -- what is known of an address behind the measurement of these neighbours, in order
  abbrev pub measurements : List ℕ → ℕ → Option Neighbor → Option Neighbor
  measurements [] a known = known
  measurements (neigh ∷ cache) a known = measurements cache a (
      if r.ipv6_addr_equal neigh a
      then upsert (rated neigh (exchange (exchanges neigh))) set_throughput known
      else known)

  neighbour_loop-measurements :
      (cache : List ℕ) (g : Globals) (a : ℕ)
      → Decides r.ipv6_addr_equal
      → All (λ neigh. (g : Globals) → connect r net exchanges neigh g ≡ ok (true, g)) cache
      → (g' : Globals) × (neighbour_loop r net exchanges cache g ≡ ok (0, g'))
        × (lookup r.ipv6_addr_equal a g'.head
            ≡ measurements cache a (lookup r.ipv6_addr_equal a g.head))
  unfolding neighbour_loop
  neighbour_loop-measurements [] g a decides ready = (g, refl, refl)
  neighbour_loop-measurements (neigh ∷ cache) g a decides ready =
      let node = rated neigh (exchange (exchanges neigh)) in
      let (g', e, found) =
        neighbour_loop-measurements cache (store_throughput r node g) a decides ready.1 in
      (
        g',
        rw (◌>>=◌, ready.0 g) e,
        found ∙ ap (measurements cache a) (lookup-store_throughput r node g a decides),
      )

  -- Where each neighbour of the cache can be connected to and the equality of addresses is decided,
  -- db_measure_network_throughput returns 0. Then an address of the cache has the throughput of its
  -- exchange (the last one, if it stands there repeatedly), with the latency and the packet loss
  -- that were known before, and no other address changes in the list.
  pub db_measure_network_throughput-measurements :
      (g : Globals) (a : ℕ)
      → Decides r.ipv6_addr_equal
      → All
          (λ neigh. (g : Globals) → connect r net exchanges neigh g ≡ ok (true, g))
          (r.nib_neighbors 0)
      → (g' : Globals) × (db_measure_network_throughput r net exchanges g ≡ ok (0, g'))
        × (lookup r.ipv6_addr_equal a g'.head
            ≡ measurements (r.nib_neighbors 0) a (lookup r.ipv6_addr_equal a g.head))
  unfolding db_measure_network_throughput
  db_measure_network_throughput-measurements g a decides ready =
      neighbour_loop-measurements (r.nib_neighbors 0) g a decides ready
