-- ===== src/Tests/Measuring.antt =====
-- The theorems on the measurements of the small network.
use dca.Common.{
  ℕ, ◌≤◌, ◌≡◌, ◌≢◌, refl, ap, arith, Buffer, replicate, true, false, ==_iff, ◌==◌, some, [], ◌∷◌,
  List, length, inl, inr, none, ok, fault, div_by_zero,
}
use mathlib.Core.Option.{some-injective}
use dca.State.{Globals}
use dca.Net.{Echo, Packet, rcv}
use dca.LinkedList.{Neighbor}
use dca.LinkedList.Lookup.{lookup}
use dca.Latency.{receive_loop, returned, db_measure_network_latency, on_msg, new_ping, configure}
use dca.Latency.Types.{Ping, uint_max}
use dca.Latency.Pinger.{pinger, send, request, next_event}
use dca.Latency.Reply.{handle_reply, handle_snips, print_reply, accepted, add_time, count_reply}
use dca.Latency.Finish.{packet_loss, measured_node}
use dca.Latency.Drain.{drain}
use dca.Latency.Queue.{after_rounds, drain-after_rounds, drain_half}
use dca.Latency.Reach.{begin, Reach, first, next, IsHonest}
use dca.Latency.Counts.{Counts}
use dca.Latency.Times.{Times}
use dca.Latency.Invariant.{Reach-Inv}
use dca.Latency.Statistics.{statistics, measured_node-statistics}
use dca.Latency.Neighbours.{Reached, last_code, store_all, db_measure_network_latency-statistics}
use dca.Latency.Forged.{reply_from, receive_loop-packet_loss}
use dca.Latency.RoundTrip.{answer, handle_reply-pinger}
use dca.Throughput.Data.{id, received}
use dca.Throughput.Server.{
  Event, Server, again, server_round, server_start, on_recv, on_datagram, db_start_udp_server,
}
use dca.Throughput.Client.{
  Exchange, exchange, start_datagram, connect, connect_to, db_measure_network_throughput,
}
use dca.Throughput.Test.{packet, arrived, rate, server_round-exchange, server_round-div_by_zero}
use dca.Throughput.Running.{started, Serves-db_start_udp_server}
use dca.Throughput.Store.{measurements, db_measure_network_throughput-measurements}
use dca.Tests.Demo.{demo, start}
use dca.Tests.Network.{net, queue, reply_to, at_time, inbox, all_sent, server, exchange_1000}

drain-after_rounds_example :
    (k : ℕ) × (k ≤ 3) × (drain queue ≡ after_rounds k queue []) × (length (drain queue) ≤ k)
drain-after_rounds_example = drain-after_rounds queue

drain_half_example :
    length (drain (rcv (reply_to 0 0) ∷ rcv (reply_to 1 0) ∷ rcv (reply_to 1 0) ∷ [])) ≡ 1
drain_half_example =
    drain_half (rcv (reply_to 0 0) ∷ rcv (reply_to 1 0) ∷ rcv (reply_to 1 0) ∷ [])
      (refl, (refl, (refl, tt)))

abbrev replied : Ping
replied = (on_msg demo net (begin demo net 2) (rcv (reply_to 0 1000)) 1500 all_sent).0

same_seq : {a b : Echo} (e : some a ≡ some b) → a.seq ≡ b.seq
same_seq {a} {b} e = ap (λ x. x.seq) (some-injective a b e)

replied-Reach : Reach demo net 2 1 replied
unfolding begin pinger configure new_ping
replied-Reach =
    next first (at_time 1500 (rcv (reply_to 0 1000)))
      (λ e is same. let q = same_seq is in omega arith)

Reach-Inv_example : Counts replied × Times 1 replied
Reach-Inv_example = Reach-Inv demo net (omega arith) replied-Reach

measured_node-statistics_example :
    (measured_node replied ≡ ok (statistics replied))
    × ((statistics replied).packet_loss ≤ 100)
    × (replied.tmin ≢ uint_max
        → (replied.tmin ≤ (statistics replied).latency)
          × ((statistics replied).latency ≤ replied.tmax))
measured_node-statistics_example =
    measured_node-statistics demo net 2 1 replied (omega arith) replied-Reach

abbrev echo_of : ℕ → Echo
echo_of seq = record { size = 12; type = 129; id = 0x53; seq = seq; stamp = 1000 }

receive_loop-packet_loss_example :
    (d : Ping) × (receive_loop demo net (begin demo net 2) (
        reply_from 2 (echo_of 0) 1500 all_sent
        ∷ reply_from 2 (echo_of 1) 1600 all_sent
        ∷ reply_from 2 (echo_of 2) 1700 all_sent
        ∷ [])
      ≡ some d)
    × (packet_loss d.num_sent d.num_recv ≡ 4294967096)
unfolding begin pinger configure new_ping accepted
receive_loop-packet_loss_example =
    receive_loop-packet_loss demo net 2 2 (echo_of 0) (echo_of 1) (echo_of 2) 1500 1600 1700
      all_sent [] refl refl refl (omega arith) (omega arith) (omega arith)

inbox-IsHonest : (neigh : ℕ) → IsHonest demo net (begin demo net neigh) inbox
unfolding begin pinger configure new_ping on_msg handle_reply handle_snips print_reply accepted
    next_event add_time count_reply
inbox-IsHonest neigh = (
  λ e is same. let q = same_seq is in omega arith,
  (λ e. refl, (λ e is same. let q = same_seq is in omega arith, (λ e. refl, (λ e. e, tt)))),
)

db_measure_network_latency-statistics_example :
    (ds : List Ping) × Reached demo net (2 ∷ 3 ∷ []) ds
    × (db_measure_network_latency demo net start
        ≡ ok (
          returned (last_code demo net 0 ds) (drain queue ∷ drain queue ∷ []),
          store_all demo net ds start,
        ))
db_measure_network_latency-statistics_example =
    db_measure_network_latency-statistics demo net start (
      (2, refl, inbox-IsHonest 2, omega arith, omega arith),
      ((2, refl, inbox-IsHonest 3, omega arith, omega arith), tt),
    )

abbrev near : Neighbor
near = record { addr = 2; latency = 600; packet_loss = 33; throughput = 0 }

abbrev known : Globals
known = record start {
  head = record { addr = 2; latency = 0; packet_loss = 0; throughput = 5 } ∷ [];
}

abbrev configured : Ping
configured = (configure demo net 2 (new_ping net) 0).1

abbrev reply : Packet
reply = answer demo net (request configured 1000)

abbrev answered_once : Ping
answered_once = handle_reply demo net (pinger net configured 1000 all_sent).0 reply 1500

abbrev answered_twice : Ping
answered_twice = handle_reply demo net answered_once reply 1900

handle_reply-pinger_example :
    (answered_once.num_recv ≡ 1)
    × (answered_once.num_rept ≡ 0)
    × (answered_once.tsum ≡ 500)
    × (answered_twice.num_recv ≡ answered_once.num_recv)
    × (answered_twice.num_rept ≡ 1)
unfolding pinger send configure new_ping
handle_reply-pinger_example =
    handle_reply-pinger demo net configured 1000 1500 all_sent (request configured 1000) refl refl
      (omega arith) refl (omega arith) (omega arith) 1900

abbrev memory : Buffer
memory = packet 1 1 1 1 1 1 1 1

abbrev payload : Buffer
payload = replicate 128 0

abbrev timed_out : Event
timed_out = record { datagram = none; now = 1001200; end_now = 1001200 }

server_round-exchange_example :
    (v' : Server) × (acked : Buffer) × (result : Buffer) × (server_round 1000000 server (
        arrived (start_datagram memory) 0 0
        ∷ arrived payload 1000 1000
        ∷ arrived payload 1200 1200
        ∷ timed_out
        ∷ [])
      ≡ ok (again v' []))
    × (v'.sent ≡ acked ∷ result ∷ [])
    × ((x : Exchange)
        → x.memory ≡ memory
        → x.start_sent ≡ true
        → ((i : ℕ) → x.payload_sent i ≡ true)
        → x.ack ≡ some acked
        → x.result ≡ some result
        → exchange x ≡ rate 2 1000 1001200)
server_round-exchange_example =
    server_round-exchange 1 1 1 1 1 1 1 1 9 9 9 9 9 9 9 9 server payload 0 0 1000 1000 1001200
      (arrived payload 1200 1200 ∷ []) (timed_out ∷ []) [] refl ((payload, refl), tt)
      (inr (timed_out, omega arith, refl, refl, refl)) (omega arith) (omega arith)

server_round-div_by_zero_example :
    server_round 1000000 server (
      arrived (start_datagram memory) 0 0
      ∷ arrived payload 1000 1000
      ∷ arrived payload 1050 1050
      ∷ arrived payload 1100 1100
      ∷ [])
    ≡ fault div_by_zero
server_round-div_by_zero_example =
    server_round-div_by_zero 1 1 1 1 1 1 1 1 9 9 9 9 9 9 9 9 server payload 0 0 1000 1000 1100
      (arrived payload 1050 1050 ∷ arrived payload 1100 1100 ∷ []) [] [] refl
      ((payload, refl), ((payload, refl), tt)) (inl (refl, refl, refl)) refl

abbrev running : Server
running = record server { server_running = true }

abbrev stopped : Server
stopped = record running { udp_packet = 1 ∷ 9 ∷ 9 ∷ 9 ∷ 9 ∷ 9 ∷ 9 ∷ 9 ∷ [] }

Serves-db_start_udp_server_example : db_start_udp_server true stopped ≡ (true, false)
unfolding server_start server_round on_recv on_datagram id received
Serves-db_start_udp_server_example =
    Serves-db_start_udp_server 1000000 server running running stopped (arrived (1 ∷ []) 0 0 ∷ [])
      true refl (started (arrived (1 ∷ []) 0 0 ∷ [])) refl

db_measure_network_throughput-measurements_example :
    (g : Globals) × (db_measure_network_throughput demo net (λ a. exchange_1000) known ≡ ok (0, g))
    × (lookup ◌==◌ 2 g.head
        ≡ measurements demo net (λ a. exchange_1000) (2 ∷ 3 ∷ []) 2 (lookup ◌==◌ 2 known.head))
unfolding connect connect_to
db_measure_network_throughput-measurements_example =
    db_measure_network_throughput-measurements demo net (λ a. exchange_1000) known 2 ==_iff
      ((λ g. refl), ((λ g. refl), tt))
