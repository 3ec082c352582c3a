-- ===== src/Latency/RoundTrip.antt =====
-- A request that GNRC takes, echoed by the host and handled.
use dca.Common.{
  ℕ, ◌+◌, ◌-◌, ◌%◌, ◌^◌, ◌≤◌, ◌<◌, ◌≡◌, refl, sym, ap, ◌∙◌, true, false, Option, none, some, length,
  length-replicate, arith,
}
use dca.Riot.{Riot}
use dca.Net.{Net, Sending, Packet, Echo}
use dca.Latency.Types.{Ping, cktab_size}
use dca.Latency.Pinger.{pinger, send, request, Request, dispatched, bf_put}
use dca.Latency.Reply.{
  handle_reply, handle_snips, print_reply, count_reply, add_time, accepted, triptime,
}

abbrev pub stamp_of : Option ℕ → ℕ
stamp_of none = 0
stamp_of (some t) = t

module _ (r : Riot) (net : Net) where
  -- the reply to a request: RFC 4443 sends identifier, sequence number and data back
  abbrev pub echo : Request → Echo
  echo req = record {
    size = length req.payload + net.sizeof_icmpv6_echo;
    type = net.icmpv6_echo_rep;
    id = req.id;
    seq = req.seq;
    stamp = stamp_of req.stamp;
  }

  abbrev pub answer : Request → Packet
  answer req = record { is_icmpv6 = true; ipv6_src = some req.host; icmpv6 = some (echo req) }

  send-request :
      (d : Ping) (t : ℕ) (s : Sending) (req : Request)
      → send d t s ≡ dispatched req
      → request d t ≡ req
  unfolding send
  send-request d t s req h = ground arith

  accepted-echo :
      (d : Ping) (t : ℕ)
      → r.ipv6_addr_equal d.host d.host ≡ true
      → accepted r net d (echo (request d t)) d.host ≡ true
  unfolding accepted request
  accepted-echo d t same = let l = length-replicate d.datalen d.pattern in ground arith

  triptime-echo :
      (d : Ping) (t t' : ℕ)
      → d.datalen ≡ 4
      → t ≤ t'
      → t' - t < 2 ^ 32
      → triptime t' (echo (request d t)) ≡ t' - t
  unfolding triptime request
  triptime-echo d t t' len before near = rw len (omega arith)

  print_reply-accepted :
      (d : Ping) (e : Echo) (from now t i : ℕ)
      → accepted r net d e from ≡ true
      → d.datalen ≡ 4
      → triptime now e ≡ t
      → e.seq % cktab_size ≡ i
      → print_reply r net d e from now ≡ count_reply (add_time d t) i
  unfolding print_reply
  print_reply-accepted d e from now t i acc len trip at = rw (acc, len, trip, at)

  module _ (d : Ping) (t t' : ℕ) (s : Sending) (req : Request) (len : d.datalen ≡ 4)
      (same : r.ipv6_addr_equal d.host d.host ≡ true) (small : d.num_sent < cktab_size)
      (taken : (pinger net d t s).1 ≡ dispatched req) (before : t ≤ t')
      (near : t' - t < 2 ^ 32) where
    abbrev waiting : Ping
    waiting = (pinger net d t s).0

    is_request : req ≡ request d t
    unfolding pinger
    is_request = sym (send-request d t s req taken)

    answered :
        (w : Ping) (now : ℕ)
        → w.datalen ≡ 4
        → accepted r net w (echo (request d t)) d.host ≡ true
        → handle_reply r net w (answer req) now
          ≡ count_reply (add_time w (triptime now (echo (request d t)))) d.num_sent
    unfolding handle_reply handle_snips request
    answered w now len4 acc = rw is_request (
        print_reply-accepted w (echo (request d t)) d.host now _ d.num_sent acc len4 refl
          (omega arith))

    handle_reply-echo :
        handle_reply r net waiting (answer req) t'
        ≡ count_reply (add_time waiting (t' - t)) d.num_sent
    unfolding pinger accepted
    handle_reply-echo =
        answered waiting t' len (accepted-echo d t same)
        ∙ ap (λ x. count_reply (add_time waiting x) d.num_sent)
            (triptime-echo d t t' len before near)

    abbrev replied : Ping
    replied = record (add_time waiting (t' - t)) {
      cktab = bf_put waiting.cktab d.num_sent true;
      num_recv = (d.num_recv + 1) % 2 ^ 32;
    }

    handle_reply-replied : handle_reply r net waiting (answer req) t' ≡ replied
    unfolding count_reply pinger add_time
    handle_reply-replied =
        let clear : waiting.cktab d.num_sent ≡ false = ground arith in handle_reply-echo ∙ rw clear

    handle_reply-again :
        (t'' : ℕ)
        → handle_reply r net replied (answer req) t''
          ≡ record (add_time replied (triptime t'' (echo (request d t)))) {
            num_rept = (d.num_rept + 1) % 2 ^ 32;
          }
    unfolding count_reply pinger add_time accepted
    handle_reply-again t'' =
        let marked : replied.cktab d.num_sent ≡ true = ground arith in
        answered replied t'' len (accepted-echo d t same) ∙ rw marked

    -- A reply to a request that GNRC took is counted once and its time is measured: with the
    -- identifier, the number and the data sent back, the first reply adds one to the received
    -- packets and the time since the request to the sum, and a second one is counted as a
    -- duplicate only. The request is one of the first 512, the payload has four bytes, the address
    -- of the host equals itself, and the reply comes within 2^32 microseconds.
    pub handle_reply-pinger :
        (t'' : ℕ)
        → let first = handle_reply r net waiting (answer req) t' in
          let second = handle_reply r net first (answer req) t'' in
          (first.num_recv ≡ (d.num_recv + 1) % 2 ^ 32)
          × (first.num_rept ≡ d.num_rept)
          × (first.tsum ≡ (d.tsum + (t' - t)) % 2 ^ 64)
          × (second.num_recv ≡ first.num_recv)
          × (second.num_rept ≡ (d.num_rept + 1) % 2 ^ 32)
    unfolding pinger add_time
    handle_reply-pinger t'' =
        rw (handle_reply-replied, handle_reply-again t'') (refl, refl, refl, refl, refl)
