-- ===== src/Throughput/Client.antt =====
-- db_measure_network_throughput of udp_throughput.c.
use dca.Common.{
  ℕ, zero, suc, ◌+◌, Bool, true, false, ◌&&◌, ◌==◌, if◌then◌else◌, Option, none, some, List, [],
  ◌∷◌, Buffer, set, take, null_deref,
}
use dca.Riot.{Riot}
use dca.Net.{Net}
use dca.State.{Globals, Cmd, pure, fail, modify, ◌>>=◌, ◌>>◌}
use dca.LinkedList.{Neighbor, node_exists, update_throughput, insert_node}
use dca.Throughput.Data.{
  start_test, test_ack, success, udp_packet_count, udp_packet_size, id, packet_count, throughput,
  set_id, set_throughput, received,
}

-- What the sockets do while one neighbour is measured: sock_udp_create, the sending of the request,
-- its answer, the sending of the payloads, the result (none: an error or a timeout); `memory` is
-- what malloc returns.
pub record Exchange : Type 0 where
  pub created : Bool
  pub memory : Buffer
  pub start_sent : Bool
  pub ack : Option Buffer
  pub payload_sent : ℕ → Bool
  pub result : Option Buffer

-- `*udp_packet` as the client fills it in
unfoldable pub start_packet : Buffer → Buffer
start_packet memory =
    set_throughput 0 (set (set (set_id start_test memory) 1 udp_packet_count) 2 udp_packet_size)

-- the datagram of the request: sizeof(udp_packet) is that of the pointer, four bytes
unfoldable pub start_datagram : Buffer → Buffer
unfolding start_packet
start_datagram memory = take 4 (start_packet memory)

-- the loop over the payloads: whether all are sent
unfoldable pub payload_loop : (ℕ → Bool) → ℕ → ℕ → Bool
payload_loop sent zero i = true
payload_loop sent (suc n) i =
    let rest = payload_loop sent n (i + 1) in if sent i then rest else false

-- on the result
unfoldable pub on_result : Buffer → Option Buffer → ℕ
on_result p none = 0
on_result p (some bytes) = let q = received bytes p in if id q == success then throughput q else 0

-- on the answer to the request
unfoldable pub on_ack : Exchange → Buffer → Option Buffer → ℕ
unfolding on_result payload_loop
on_ack x p none = 0
on_ack x p (some bytes) =
    let q = received bytes p in
    if id q == test_ack && payload_loop x.payload_sent (packet_count q) 0
    then on_result q x.result
    else 0

-- `node->throughput` at `finish`
unfoldable pub exchange : Exchange → ℕ
unfolding on_ack
exchange x = if x.start_sent then on_ack x (start_packet x.memory) x.ack else 0

module _ (r : Riot) where
  unfoldable pub store_throughput : Neighbor → Globals → Globals
  store_throughput node g = record g {
    head =
        if node_exists r.ipv6_addr_equal node.addr g.head == 0
        then (update_throughput r.ipv6_addr_equal node g.head).1
        else insert_node node g.head;
  }

module _ (r : Riot) (net : Net) (exchanges : ℕ → Exchange) where
  -- with the address that ipv6_addr_from_str reads: whether the neighbour can be measured; the
  -- interface of a link-local address is read through a pointer
  unfoldable pub connect_to : ℕ → Option ℕ → Cmd Bool
  connect_to neigh none = pure false
  connect_to neigh (some remote) =
      if net.ipv6_addr_is_link_local remote && net.gnrc_netif_iter 0 == 0
      then fail null_deref
      else pure (exchanges neigh).created

  -- up to the socket
  unfoldable pub connect : ℕ → Cmd Bool
  unfolding connect_to
  connect neigh = connect_to neigh (net.ipv6_addr_from_str (r.ipv6_addr_to_str neigh))

  -- the loop over the neighbours, and the return code
  unfoldable pub neighbour_loop : List ℕ → Cmd ℕ
  unfolding connect exchange store_throughput
  neighbour_loop [] = pure 0
  neighbour_loop (neigh ∷ cache) = do
    connected ← connect neigh
    elim connected [
      | false ↦ pure 1
      | true ↦ (do
        modify (
            store_throughput r (record {
              addr = neigh;
              latency = 0;
              packet_loss = 0;
              throughput = exchange (exchanges neigh);
            }))
        neighbour_loop cache)
    ]

  -- db_measure_network_throughput
  unfoldable pub db_measure_network_throughput : Cmd ℕ
  unfolding neighbour_loop
  db_measure_network_throughput = neighbour_loop (r.nib_neighbors 0)

  -- _throughput, the shell command `dcatp`
  unfoldable pub throughput_cmd : Cmd ℕ
  unfolding db_measure_network_throughput
  throughput_cmd = db_measure_network_throughput
