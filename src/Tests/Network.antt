-- ===== src/Tests/Network.antt =====
-- The network of the small system: neighbour 2 answers two of three requests.
use dca.Common.{ℕ, true, false, none, some, List, [], ◌∷◌, ◌==◌, if◌then◌else◌, replicate}
use dca.Net.{Net, Sending, Packet, Msg, rcv, event, Arrival, Visit}
use dca.Latency.Types.{send_next_ping, ping_finish}
use dca.Throughput.Server.{Server}
use dca.Throughput.Client.{Exchange}

abbrev pub all_sent : Sending
all_sent = record { echo_built = true; ipv6_built = true; netif_built = true; dispatched = true }

-- the identifier is 0x53 xor the clock at the start, 0
abbrev pub reply_to : ℕ → ℕ → Packet
reply_to seq stamp = record {
  is_icmpv6 = true;
  ipv6_src = some 2;
  icmpv6 = some (record { size = 12; type = 129; id = 0x53; seq = seq; stamp = stamp });
}

abbrev pub at_time : ℕ → Msg → Arrival
at_time now msg = record { msg = msg; now = now; sending = all_sent }

abbrev pub inbox : List Arrival
inbox =
    at_time 1500 (rcv (reply_to 0 1000))
    ∷ at_time 1001000 (event send_next_ping)
    ∷ at_time 1001700 (rcv (reply_to 1 1001000))
    ∷ at_time 2001000 (event send_next_ping)
    ∷ at_time 3001000 (event ping_finish)
    ∷ []

abbrev pub queue : List Msg
queue = rcv (reply_to 1 1001000) ∷ event 7 ∷ rcv (reply_to 0 1000) ∷ []

abbrev pub visit : Visit
visit = record { configured = 0; first_now = 1000; first = all_sent; inbox = inbox; queue = queue }

abbrev pub net : Net
net = record {
  us_per_sec = 1000000;
  sizeof_icmpv6_echo = 8;
  icmpv6_echo_rep = 129;
  ipv6_addr_from_str = λ s. some 2;
  ipv6_addr_split_iface = λ s. (s, none);
  atoi = λ s. 0;
  ipv6_addr_is_multicast = λ a. false;
  ipv6_addr_is_link_local = λ a. true;
  gnrc_netif_get_by_pid = λ p. p;
  gnrc_netif_iter = λ i. if i == 0 then 6 else 0;
  gnrc_netif_highlander = true;
  visit = λ a. visit;
}

abbrev pub server : Server
server = record {
  server_running = false;
  start_timer = 0;
  end_timer = 0;
  udp_packet = 9 ∷ 9 ∷ 9 ∷ 9 ∷ 9 ∷ 9 ∷ 9 ∷ 9 ∷ [];
  sent = [];
}

-- the acknowledgement, and a result of 1000 bytes in a second
abbrev pub exchange_1000 : Exchange
exchange_1000 = record {
  created = true;
  memory = replicate 8 0;
  start_sent = true;
  ack = some (3 ∷ 3 ∷ 128 ∷ 0 ∷ 0 ∷ 0 ∷ 0 ∷ 0 ∷ []);
  payload_sent = λ i. true;
  result = some (4 ∷ 3 ∷ 128 ∷ 0 ∷ 0xe8 ∷ 3 ∷ 0 ∷ 0 ∷ []);
}
