-- ===== src/Throughput/Server.antt =====
-- _udp_server_thread and db_start_udp_server of udp_throughput.c.
use dca.Common.{
  ℕ, zero, suc, ◌+◌, ◌-◌, ◌*◌, ◌/◌, ◌%◌, ◌^◌, Bool, true, false, ◌==◌, ltb, if◌then◌else◌, Option,
  none, some, List, [], ◌∷◌, ◌++◌, Buffer, Result, ok, fault, div_by_zero,
}
use dca.Throughput.Data.{
  start_test, test_ack, success, packet_timeout, id, packet_count, packet_size, set_id,
  set_throughput, received,
}

-- A return of sock_udp_recv: the datagram (none: an error or a timeout), and the clock when
-- `start_timer` and when `end_timer` would be set behind it.
pub record Event : Type 0 where
  pub datagram : Option Buffer
  pub now : ℕ
  pub end_now : ℕ

-- The globals of the server, `*udp_packet`, and the datagrams it sent.
pub record Server : Type 0 where
  pub server_running : Bool
  pub start_timer : ℕ
  pub end_timer : ℕ
  pub udp_packet : Buffer
  pub sent : List Buffer

-- How a round of the loop ends: sock_udp_recv still waits, the thread returns, or the next round.
pub data Round : Type 0 where
  waiting : Round
  ended : Server → Round
  again : Server → List Event → Round

-- How the loop over the packets of a test ends: it waits, or with the number of packets,
-- `start_timer` and the clock.
pub data Counted : Type 0 where
  unfinished : Counted
  counted : ℕ → ℕ → ℕ → List Event → Counted

-- A return of sock_udp_recv in the loop: `break`, or the next round.
unfoldable pub on_packet : Option Buffer → Counted → Counted → Counted
on_packet none break rest = break
on_packet (some bytes) break rest = rest

-- The loop, with the packets that are left, `i`, `start_timer` and the clock.
unfoldable pub packet_loop : ℕ → ℕ → ℕ → ℕ → List Event → Counted
unfolding on_packet
packet_loop zero i start at events = counted i start at events
packet_loop (suc n) i start at [] = unfinished
packet_loop (suc n) i start at (e ∷ events) =
    let rest = packet_loop n (i + 1) (if i == 0 then e.now else start) e.end_now events in
    on_packet e.datagram (counted i start e.end_now events) rest

-- `end_timer`
unfoldable pub end_time : ℕ → ℕ → ℕ → ℕ
end_time i count at =
    let t = (at % 2 ^ 32 + 2 ^ 32 - 100) % 2 ^ 32 in
    if ltb i count then (t + 2 ^ 32 - packet_timeout) % 2 ^ 32 else t

-- `end_timer - start_timer`
unfoldable pub duration : ℕ → ℕ → ℕ
duration start end' = (end' + 2 ^ 32 - start % 2 ^ 32) % 2 ^ 32

module _ (us_per_sec : ℕ) where
  -- behind the loop over the packets
  unfoldable pub send_result : Server → Counted → Result Round
  unfolding end_time duration
  send_result v unfinished = ok waiting
  send_result v (counted i start at events) =
      let end' = end_time i (packet_count v.udp_packet) at in
      let d = duration start end' in
      if d == 0
      then fault div_by_zero
      else (let p = set_id success (
            set_throughput (packet_size v.udp_packet * i * us_per_sec % 2 ^ 32 / d) v.udp_packet) in
          ok (
            again
              (record v {
                start_timer = start;
                end_timer = end';
                udp_packet = p;
                sent = v.sent ++ (p ∷ []);
              })
              events))

  -- on a datagram with bytes
  unfoldable pub on_datagram : Server → Buffer → ℕ → List Event → Result Round
  unfolding send_result packet_loop
  on_datagram v bytes at events =
      let p = received bytes v.udp_packet in
      if id p == start_test
      then (let ack = set_id test_ack p in
          send_result (record v { udp_packet = ack; sent = v.sent ++ (ack ∷ []) })
            (packet_loop (packet_count ack) 0 v.start_timer at events))
      else ok (ended (record v { udp_packet = p }))

  -- the branches of a round on what sock_udp_recv returns
  unfoldable pub on_recv : Server → Option Buffer → ℕ → List Event → Result Round
  unfolding on_datagram
  on_recv v none at events = ok (again v events)
  on_recv v (some []) at events = ok (again v events)
  on_recv v (some (b ∷ bytes)) at events = on_datagram v (b ∷ bytes) at events

  -- a round of `while (1)`
  unfoldable pub server_round : Server → List Event → Result Round
  unfolding on_recv
  server_round v [] = ok waiting
  server_round v (e ∷ events) = on_recv v e.datagram e.end_now events

-- The thread up to its loop: none if it returns because there is no socket.
unfoldable pub server_start : Bool → Server → Option Server
server_start created v = if created then some (record v { server_running = true }) else none

-- db_start_udp_server: whether it returns 0, and whether it started a thread, where `created` says
-- if thread_create succeeds.
unfoldable pub db_start_udp_server : Bool → Server → Bool × Bool
db_start_udp_server created v =
    if v.server_running then (true, false) else if created then (true, true) else (false, false)
