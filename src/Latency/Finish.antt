-- ===== src/Latency/Finish.antt =====
-- _finish of latency.c: packet loss and latency, stored in the list of neighbours.
use dca.Common.{
  ℕ, ◌+◌, ◌-◌, ◌*◌, ◌/◌, ◌%◌, ◌^◌, ◌==◌, if◌then◌else◌, Result, ok, fault, div_by_zero,
}
use dca.Riot.{Riot}
use dca.State.{Globals, Cmd, pure, lift, modify, ◌>>=◌, ◌>>◌}
use dca.LinkedList.{Neighbor, node_exists, update_latency, insert_node}
use dca.Latency.Types.{Ping, uint_max}

unfoldable pub packet_loss : ℕ → ℕ → ℕ
packet_loss sent recv =
    if sent == 0 then 0 else (sent + 2 ^ 32 - recv) % 2 ^ 32 * 100 % 2 ^ 32 / sent

-- `tavg`
unfoldable pub average : Ping → Result ℕ
average d =
    let n = (d.num_recv + d.num_rept) % 2 ^ 32 in
    if d.tmin == uint_max
    then ok 0
    else if n == 0
    then fault div_by_zero
    else ok (d.tsum / n % 2 ^ 32)

unfoldable pub filled : Ping → Result ℕ → Result Neighbor
unfolding packet_loss
filled d (ok tavg) = ok (record {
  addr = d.host;
  latency = tavg;
  packet_loss = packet_loss d.num_sent d.num_recv;
  throughput = 0;
})
filled d (fault f) = fault f

-- the node that _finish fills in
unfoldable pub measured_node : Ping → Result Neighbor
unfolding average filled
measured_node d = filled d (average d)

module _ (r : Riot) where
  unfoldable pub store_latency : Neighbor → Globals → Globals
  store_latency node g = record g {
    head =
        if node_exists r.ipv6_addr_equal node.addr g.head == 0
        then (update_latency r.ipv6_addr_equal node g.head).1
        else insert_node node g.head;
  }

  -- _finish; the malloc of the node is taken to succeed
  unfoldable pub finish : Ping → Cmd ℕ
  unfolding measured_node store_latency
  finish d = do
    node ← lift (measured_node d)
    modify (store_latency node)
    pure (if d.num_recv == 0 then 1 else 0)
