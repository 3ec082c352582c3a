-- ===== src/Latency/Store.antt =====
-- What _finish does to the list of neighbours, as a map from addresses to measurements.
use dca.Common.{ℕ, ◌≡◌, if◌then◌else◌}
use dca.Riot.{Riot}
use dca.State.{Globals}
use dca.LinkedList.{Neighbor, update_latency}
use dca.LinkedList.Lookup.{lookup, set_latency, Decides, lookup-update_latency}
use dca.LinkedList.Upsert.{upsert, lookup-upsert}
use dca.Latency.Finish.{store_latency}

-- Where the equality of addresses is decided, _finish gives the host the measured latency and
-- packet loss, whether its address was in the list or not: a throughput that was measured before is
-- kept, and no other address changes.
pub lookup-store_latency :
    (r : Riot) (node : Neighbor) (g : Globals) (a : ℕ)
    → Decides r.ipv6_addr_equal
    → lookup r.ipv6_addr_equal a (store_latency r node g).head ≡ (
        if r.ipv6_addr_equal node.addr a
        then upsert node set_latency (lookup r.ipv6_addr_equal a g.head)
        else lookup r.ipv6_addr_equal a g.head)
unfolding store_latency
lookup-store_latency r node g a decides =
    lookup-upsert r.ipv6_addr_equal decides node g.head
      (update_latency r.ipv6_addr_equal node g.head).1 set_latency a
      (lookup-update_latency r.ipv6_addr_equal decides node g.head a).0
