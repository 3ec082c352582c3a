-- ===== src/Throughput/Test.antt =====
-- A test between the client and the server.
use dca.Common.{
  All, inl, inr, length, ◌*◌, ◌%◌, ℕ, zero, suc, ◌+◌, ◌-◌, ◌/◌, ◌^◌, ◌≤◌, ◌<◌, ◌≡◌, refl, Bool,
  true, false, ◌==◌, some, List, [], ◌∷◌, ◌++◌, Buffer, ok, fault, div_by_zero, arith,
}
use mathlib.Core.List.{append_assoc}
use native.Mathlib.Nat.{div-le_self}
use dca.Throughput.Data.{
  test_ack, success, udp_packet_count, udp_packet_size, id, packet_count, packet_size, throughput,
  set_id, set_throughput, received,
}
use dca.Throughput.Server.{Event, Server, again, end_time, server_round}
use dca.Throughput.Packets.{
  IsPacket, last_time, EndsAt, allowance, packet_loop-counted, duration-end_time, no_duration,
}
use dca.Throughput.Client.{
  Exchange, start_packet, start_datagram, payload_loop, on_result, on_ack, exchange,
}

-- the bytes of a 32-bit number and back
throughput-set_throughput :
    (v a b c d e f g h : ℕ)
    → v < 2 ^ 32
    → throughput (set_throughput v (a ∷ b ∷ c ∷ d ∷ e ∷ f ∷ g ∷ h ∷ [])) ≡ v
unfolding throughput set_throughput
throughput-set_throughput v a b c d e f g h small = omega arith

-- the eight bytes of a packet
abbrev pub packet : ℕ → ℕ → ℕ → ℕ → ℕ → ℕ → ℕ → ℕ → Buffer
packet a b c d e f g h = a ∷ b ∷ c ∷ d ∷ e ∷ f ∷ g ∷ h ∷ []

abbrev pub arrived : Buffer → ℕ → ℕ → Event
arrived bytes now end_now = record { datagram = some bytes; now = now; end_now = end_now }

-- 128 bytes, k times, a million microseconds in a second
abbrev pub rate : ℕ → ℕ → ℕ → ℕ
rate k start end' = 128000000 * k / (end' - start - 100 - allowance k)

-- what the server's buffer holds behind the request: four bytes of the client's, and four of its own
abbrev acknowledged : ℕ → ℕ → ℕ → ℕ → ℕ → Buffer
acknowledged c q4 q5 q6 q7 = packet test_ack udp_packet_count udp_packet_size c q4 q5 q6 q7

abbrev answered : ℕ → Buffer → Buffer
answered v p = set_id success (set_throughput v p)

few_packets : {at k end' : ℕ} {tail rest : List Event} → EndsAt at k tail end' rest → k ≤ 3
few_packets (inl (k, e1, e2)) = omega arith
few_packets (inr (e, k, lost, e1, e2)) = omega arith

rate_word : (k t end' : ℕ) → k ≤ 3 → rate k t end' < 2 ^ 32
rate_word k t end' h =
    let le : rate k t end' ≤ 128000000 * k =
      div-le_self (128000000 * k) (end' - t - 100 - allowance k) in
    omega arith

payload_loop_all :
    (sent : ℕ → Bool) (n i : ℕ) → ((j : ℕ) → sent j ≡ true) → payload_loop sent n i ≡ true
unfolding payload_loop
payload_loop_all sent zero i h = refl
payload_loop_all sent (suc n) i h = rw (h i, payload_loop_all sent n (i + 1) h)

module _ (m0 m1 m2 m3 m4 m5 m6 m7 : ℕ) (q0 q1 q2 q3 q4 q5 q6 q7 : ℕ) where
  abbrev memory : Buffer
  memory = packet m0 m1 m2 m3 m4 m5 m6 m7

  abbrev ack : Buffer
  ack = acknowledged m3 q4 q5 q6 q7

  server_round-test :
      (v : Server) (b : Buffer) (t0 t0' t t' end' : ℕ) (packets tail rest : List Event)
      → v.udp_packet ≡ packet q0 q1 q2 q3 q4 q5 q6 q7
      → All IsPacket packets
      → EndsAt (last_time t' packets) (1 + length packets) tail end' rest
      → t + 100 + allowance (1 + length packets) < end'
      → end' - t < 2 ^ 32
      → server_round 1000000 v
          (arrived (start_datagram memory) t0 t0' ∷ arrived b t t' ∷ packets ++ tail)
        ≡ ok (
            again
              (record v {
                start_timer = t;
                end_timer = end_time (1 + length packets) 3 end';
                udp_packet = answered (rate (1 + length packets) t end') ack;
                sent =
                    v.sent ++ (ack ∷ []) ++ (answered (rate (1 + length packets) t end') ack ∷ []);
              })
              rest)
  unfolding server_round start_datagram received id packet_count packet_size set_id set_throughput
  server_round-test v b t0 t0' t t' end' packets tail rest e all ends more near =
      let n = length packets in
      let k : 1 + n ≤ 3 = few_packets ends in
      let counted = packet_loop-counted 2 0 t t' packets tail rest end' (omega arith) all ends in
      let d = duration-end_time (1 + n) t end' more near in
      let nz : (end' - t - 100 - allowance (1 + n) == 0) ≡ false = ground arith in
      let bytes : 128 * (1 + n) * 1000000 % 2 ^ 32 ≡ 128000000 * (1 + n) = omega arith in
      rw (e, counted, d, nz, bytes)

  throughput_answered : (v : ℕ) → v < 2 ^ 32 → throughput (answered v ack) ≡ v
  unfolding throughput set_throughput set_id
  throughput_answered v small = omega arith

  exchange-test :
      (x : Exchange) (v : ℕ)
      → v < 2 ^ 32
      → x.memory ≡ memory
      → x.start_sent ≡ true
      → ((i : ℕ) → x.payload_sent i ≡ true)
      → x.ack ≡ some ack
      → x.result ≡ some (answered v ack)
      → exchange x ≡ v
  unfolding exchange on_ack on_result start_packet received id packet_count set_id set_throughput
  exchange-test x v small mem start sent acked res = rw (
    start,
    mem,
    acked,
    payload_loop_all x.payload_sent 3 0 sent,
    res,
    throughput_answered v small,
  )

  -- A test of which k of three packets arrive, k at least 1, either all or the first ones before a
  -- timeout: the server, whatever its buffer and the client's memory held, answers the request
  -- with an acknowledgement and then with a result, and waits for the next request. A client that
  -- gets the two and sent its payloads measures 128 k bytes in the time from the first packet to
  -- the end of the test, less 100 microseconds and, where packets are lost, less the timeout of a
  -- second. That time is above 0 with these taken off, and below 2^32 with them.
  pub server_round-exchange :
      (v : Server) (b : Buffer) (t0 t0' t t' end' : ℕ) (packets tail rest : List Event)
      → v.udp_packet ≡ packet q0 q1 q2 q3 q4 q5 q6 q7
      → All IsPacket packets
      → EndsAt (last_time t' packets) (1 + length packets) tail end' rest
      → t + 100 + allowance (1 + length packets) < end'
      → end' - t < 2 ^ 32
      → (v' : Server) × (acked : Buffer) × (result : Buffer) × (server_round 1000000 v
            (arrived (start_datagram memory) t0 t0' ∷ arrived b t t' ∷ packets ++ tail)
          ≡ ok (again v' rest))
        × (v'.sent ≡ v.sent ++ (acked ∷ result ∷ []))
        × ((x : Exchange)
            → x.memory ≡ memory
            → x.start_sent ≡ true
            → ((i : ℕ) → x.payload_sent i ≡ true)
            → x.ack ≡ some acked
            → x.result ≡ some result
            → exchange x ≡ rate (1 + length packets) t end')
  server_round-exchange v b t0 t0' t t' end' packets tail rest e all ends more near =
      let w = rate (1 + length packets) t end' in
      (
        _,
        ack,
        answered w ack,
        server_round-test v b t0 t0' t t' end' packets tail rest e all ends more near,
        append_assoc v.sent (ack ∷ []) (answered w ack ∷ []),
        λ x. exchange-test x w (rate_word (1 + length packets) t end' (few_packets ends)),
      )

  -- The server divides by zero on a test of which k of three packets arrive, k at least 1, either all
  -- or the first ones before a timeout, where the time from the first packet to the end is what is
  -- taken off it: 100 microseconds and, where packets are lost, a second. It does so whatever its
  -- buffer and the client's memory held.
  pub server_round-div_by_zero :
      (v : Server) (b : Buffer) (t0 t0' t t' end' : ℕ) (packets tail rest : List Event)
      → v.udp_packet ≡ packet q0 q1 q2 q3 q4 q5 q6 q7
      → All IsPacket packets
      → EndsAt (last_time t' packets) (1 + length packets) tail end' rest
      → end' ≡ t + 100 + allowance (1 + length packets)
      → server_round 1000000 v
          (arrived (start_datagram memory) t0 t0' ∷ arrived b t t' ∷ packets ++ tail)
        ≡ fault div_by_zero
  unfolding server_round start_datagram received id packet_count packet_size set_id set_throughput
  server_round-div_by_zero v b t0 t0' t t' end' packets tail rest e all ends at =
      let counted = packet_loop-counted 2 0 t t' packets tail rest end' (omega arith) all ends in
      let d = no_duration (1 + length packets) t in rw (e, counted, at, d)
