-- ===== src/Netif/Children/Counters.antt =====
-- _netif_node_getnext_child: its recursion, and the counters that it moves.
use dca.Common.{
  ◌≢◌, fault, no_fuel, ℕ, suc, ◌≡◌, false, arith, ◌==◌, if◌then◌else◌, ok, inl, inr, Bool-cases,
}
use dca.Riot.{Riot}
use dca.State.{Globals, Cmd, pure}
use dca.Node.{Node, NetifData}
use dca.Netif.Names.{init, dec8}
use dca.Netif.Children.{
  next_iface, first_field, next_field, getnext_child, neighbour_child, next_measurement,
  next_neighbour,
}

module _ (r : Riot) where
  -- At the next neighbour, with a neighbour left, the call does not recur.
  again_once :
      (k n : ℕ) (d : NetifData) (child : Node) (g : Globals)
      → (n == 0) ≡ false
      → getnext_child r
          (suc k)
          (record d { is_root = 1 })
          child
          (record g { num_neighbours = n; netif_sub_field_count = 1 })
        ≡ ok (
          (record d { is_root = 1 }, init d.iface 1),
          record g { num_neighbours = n; netif_sub_field_count = 2 },
        )
  unfolding getnext_child
  again_once k n d child g h = rw h

  next_neighbour_once :
      (k : ℕ) (d : NetifData) (child : Node) (g : Globals)
      → next_neighbour r (getnext_child r (suc k)) d child g
        ≡ next_neighbour r (getnext_child r 1) d child g
  unfolding next_neighbour
  next_neighbour_once k d child g = elim (Bool-cases (dec8 g.num_neighbours == 0)) [
    | inl end ↦ rw end
    | inr more ↦ rw (
      more,
      again_once k (dec8 g.num_neighbours) d child g more,
      again_once 0 (dec8 g.num_neighbours) d child g more,
    )
  ]

  neighbour_child_once :
      (k : ℕ) (d : NetifData) (child : Node) (g : Globals)
      → neighbour_child r (getnext_child r (suc k)) d child g
        ≡ neighbour_child r (getnext_child r 1) d child g
  unfolding neighbour_child
  neighbour_child_once k d child g = ground (arith, next_neighbour_once k d child g)

  next_measurement_once :
      (k : ℕ) (d : NetifData) (child : Node) (g : Globals)
      → next_measurement r (getnext_child r (suc k)) d child g
        ≡ next_measurement r (getnext_child r 1) d child g
  unfolding next_measurement
  next_measurement_once k d child g = ground (arith, next_neighbour_once k d child g)

  -- The branches at levels 4, 3 and 2 make no recursive call; those at 1 and 0 are the two above.
  dispatch : (NetifData → Node → Cmd (NetifData × Node)) → NetifData → Node → Cmd (NetifData × Node)
  dispatch again d child =
      if d.is_root == 4
      then next_iface r d child
      else if d.is_root == 3
      then first_field r d child
      else if d.is_root == 2
      then next_field r d child
      else if d.is_root == 1
      then neighbour_child r again d child
      else if d.is_root == 0
      then next_measurement r again d child
      else pure (d, child)

  dispatch_once :
      (k : ℕ) (d : NetifData) (child : Node) (g : Globals)
      → dispatch (getnext_child r (suc k)) d child g ≡ dispatch (getnext_child r 1) d child g
  unfolding dispatch
  dispatch_once k d child g =
      ground (arith, neighbour_child_once k d child g, next_measurement_once k d child g)

  enough :
      (d : NetifData) (child : Node) (g : Globals) → getnext_child r 2 d child g ≢ fault no_fuel
  unfolding getnext_child
  enough d child g h = ground arith

  -- _netif_node_getnext_child calls itself at most once on top of the first call: two rounds of
  -- fuel are enough in every state, and any further fuel gives the same outcome.
  pub getnext_child_fuel :
      (k : ℕ) (d : NetifData) (child : Node) (g : Globals)
      → (getnext_child r (suc (suc k)) d child g ≡ getnext_child r 2 d child g)
        × (getnext_child r 2 d child g ≢ fault no_fuel)
  getnext_child_fuel k d child g =
      (unfold getnext_child in unfold dispatch in dispatch_once k d child g, enough d child g)
