-- ===== src/Tests/Runs.antt =====
-- Runs of the commands on the small system.
use dca.Common.{
  List, Option, none, some, Result, fault, no_fuel, ◌≡◌, refl, codes, [], ◌∷◌, ok, pos,
}
use dca.Riot.{fresh}
use dca.Coap.{dca_handler, not_found}
use dca.Shell.{dcaq}
use dca.Db.Find.{find_node_by_path, search_child}
use dca.Db.Ops.{is_null, get_next_child, get_name, get_int_value}
use dca.Db.Index.{db_index}
use dca.Db.Fl
use dca.Db.Value.{value_to_str}
use dca.Runtime.{get_num_processes, get_cpu_load}
use dca.Net.{Arrival, rcv}
use dca.LinkedList.{Neighbor}
use dca.Latency.{receive_loop, configure, new_ping}
use dca.Latency.Types.{Ping}
use dca.Latency.Finish.{measured_node}
use dca.Latency.Reach.{begin}
use dca.Tests.Network.{net, at_time, reply_to, inbox}
use dca.Tests.Demo.{demo, start}

dcaq_field :
    dcaq demo (codes "dcaq") (codes "runtime/num_processes" ∷ []) start
    ≡ ok ((codes "2\n", 0), start)
unfolding dcaq find_node_by_path is_null search_child get_next_child Fl.root_next_child db_index
    Fl.gettype get_name Fl.getname fresh Fl.getnext_child value_to_str get_int_value Fl.getint_value
    get_num_processes
dcaq_field = refl

handler_short : dca_handler demo (codes "/dca") 4 100 start ≡ ok (not_found, start)
unfolding dca_handler
handler_short = refl

load_of_two : get_cpu_load demo ≡ pos 2
unfolding get_cpu_load
load_of_two = refl

-- Three replies that nothing was sent for, all with the identifier, end the measurement behind its
-- first request: the packet loss wraps.
abbrev forged : List Arrival
forged =
    at_time 1500 (rcv (reply_to 0 1000))
    ∷ at_time 1600 (rcv (reply_to 1 1000))
    ∷ at_time 1700 (rcv (reply_to 2 1000))
    ∷ []

abbrev outcome : Option Ping → Result Neighbor
outcome none = fault no_fuel
outcome (some d) = measured_node d

forged_loss :
    outcome (receive_loop demo net (begin demo net 2) forged)
    ≡ ok (record { addr = 2; latency = 600; packet_loss = 4294967096; throughput = 0 })
unfolding receive_loop begin configure new_ping measured_node
forged_loss = refl

-- two replies, of which one comes within 700 microseconds and one within 500
honest_loss :
    outcome (receive_loop demo net (begin demo net 2) inbox)
    ≡ ok (record { addr = 2; latency = 600; packet_loss = 33; throughput = 0 })
unfolding receive_loop begin configure new_ping measured_node
honest_loss = refl
