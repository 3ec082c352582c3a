-- ===== src/Latency.antt =====
-- latency.c: echo requests to the neighbours of the cache. `unsigned` and `unsigned long` have 32
-- bits, as on RIOT's MCUs, and `tsum` has 64; debug output is left out.
pub mod Types
pub mod Pinger
pub mod Reply
pub mod Finish
pub mod Drain
pub mod Queue
pub mod Reach
pub mod Counts
pub mod Times
pub mod Invariant
pub mod Statistics
pub mod Store
pub mod Session
pub mod Neighbour
pub mod Neighbours
pub mod RoundTrip
pub mod Forged
use dca.Common.{
  ℕ, ◌%◌, ◌^◌, Bool, true, false, not, ◌&&◌, ◌==◌, ltb, Option, none, some, Text, List, [], ◌∷◌,
  ◌++◌, if◌then◌else◌,
}
use Prim.Native.Nat.{bit_and, bit_xor}
use dca.Riot.{Riot}
use dca.Net.{Net, Sending, Arrival, Visit, Msg, rcv, event}
use dca.State.{Cmd, pure, ◌>>=◌}
use Types.{Ping, send_next_ping, ping_finish, default_count, default_datalen, default_id, uint_max}
use Pinger.{pinger}
use Reply.{handle_reply}
use Finish.{finish}
use Drain.{drain}

module _ (net : Net) where
  -- the initializer of `data`
  unfoldable pub new_ping : Ping
  new_ping = record {
    sched = none;
    host = 0;
    hostname = [];
    num_sent = 0;
    num_recv = 0;
    num_rept = 0;
    tsum = 0;
    tmin = uint_max;
    tmax = 0;
    count = default_count;
    datalen = default_datalen;
    cktab = λ i. false;
    timeout = net.us_per_sec;
    interval = net.us_per_sec;
    netif = 0;
    id = default_id;
    hoplimit = 0;
    pattern = default_id;
  }

  -- _netif_get on NULL: the first interface, and whether there are more
  unfoldable pub netif_get : ℕ × Bool
  netif_get =
      let netif = net.gnrc_netif_iter 0 in
      (netif, not net.gnrc_netif_highlander && not (net.gnrc_netif_iter netif == 0))

  unfoldable select_netif : Option Text → ℕ
  unfolding netif_get
  select_netif none = if netif_get.1 then 0 else netif_get.0
  select_netif (some iface) = net.gnrc_netif_get_by_pid (net.atoi iface)

-- The result of ipv6_addr_from_str: the return code of _configure, and the host.
unfoldable pub set_host : Ping → Option ℕ → ℕ × Ping
set_host d none = (1, d)
set_host d (some host) = (0, record d { host = host })

module _ (r : Riot) (net : Net) where
  -- _configure at a time: the return code and the state
  unfoldable pub configure : ℕ → Ping → ℕ → ℕ × Ping
  unfolding select_netif set_host
  configure neigh d now =
      let name = net.ipv6_addr_split_iface (r.ipv6_addr_to_str neigh) in
      set_host
        (record d {
          hostname = name.0;
          netif = select_netif net name.1;
          id = bit_xor d.id (bit_and now 0xffff);
        })
        (net.ipv6_addr_from_str name.0)

  -- One round, on what msg_receive returns: the state, and whether the measurement goes to `finish`.
  -- A message of another type is sent to the thread again, and comes back as an arrival of its own.
  unfoldable pub on_msg : Ping → Msg → ℕ → Sending → Ping × Bool
  unfolding handle_reply pinger
  on_msg d (rcv pkt) now s = (handle_reply r net d pkt now, false)
  on_msg d (event type) now s =
      if type == send_next_ping then ((pinger net d now s).0, false) else (d, type == ping_finish)

  -- The do-while loop; none where msg_receive still waits behind the last arrival.
  unfoldable pub receive_loop : Ping → List Arrival → Option Ping
  unfolding on_msg
  receive_loop d [] = none
  receive_loop d (a ∷ inbox) =
      let next = on_msg d a.msg a.now a.sending in
      let rest = receive_loop next.0 inbox in
      if next.1 then some next.0 else if ltb next.0.num_recv next.0.count then rest else some next.0

-- How the visit of a neighbour ends: db_measure_network_latency returns with a code, the loop still
-- waits, or it goes on to the next neighbour with a result, and a queue that is left.
pub data Visited : Type 0 where
  early : ℕ → Visited
  waiting : Visited
  measured : ℕ → List Msg → Visited

-- How db_measure_network_latency ends: it waits, or returns a code, with the queues that the visits left.
pub data Measured : Type 0 where
  blocked : Measured
  returned : ℕ → List (List Msg) → Measured

module _ (r : Riot) (net : Net) where
  unfoldable pub finish_visit : Option Ping → List Msg → Cmd Visited
  unfolding finish drain
  finish_visit none queue = pure waiting
  finish_visit (some d) queue = do res ← finish r d; pure (measured res (drain queue))

  -- the body of the loop over the neighbours
  unfoldable pub visit_neighbour : ℕ → Cmd Visited
  unfolding finish_visit new_ping configure receive_loop pinger
  visit_neighbour neigh =
      let v = net.visit neigh in
      let conf = configure r net neigh (new_ping net) v.configured in
      if conf.0 == 0
      then (let first = (pinger net conf.1 v.first_now v.first).0 in
          finish_visit (receive_loop r net first v.inbox) v.queue)
      else pure (early conf.0)

  -- the loop over the neighbours
  unfoldable pub neighbour_loop : List ℕ → ℕ → List (List Msg) → Cmd Measured
  unfolding visit_neighbour
  neighbour_loop [] res queues = pure (returned res queues)
  neighbour_loop (neigh ∷ cache) res queues = do
    v ← visit_neighbour neigh
    elim v [
      | early res ↦ pure (returned res queues)
      | waiting ↦ pure blocked
      | measured res queue ↦ neighbour_loop cache res (queues ++ (queue ∷ []))
    ]

  -- db_measure_network_latency
  unfoldable pub db_measure_network_latency : Cmd Measured
  unfolding neighbour_loop
  db_measure_network_latency = neighbour_loop (r.nib_neighbors 0) 0 []

  -- _latency, the shell command `dcalat`
  unfoldable pub latency : Cmd Measured
  unfolding db_measure_network_latency
  latency = db_measure_network_latency
