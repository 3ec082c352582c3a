-- ===== src/Latency/Reply.antt =====
-- _handle_reply and _print_reply of latency.c: the statistics of an echo reply.
use dca.Common.{
  ℕ, ◌+◌, ◌-◌, ◌%◌, ◌^◌, Bool, true, not, ◌&&◌, ◌||◌, ◌==◌, ltb, leb, Option, none, some,
  if◌then◌else◌,
}
use dca.Riot.{Riot}
use dca.Net.{Net, Echo, Packet}
use dca.Latency.Types.{Ping, cktab_size}
use dca.Latency.Pinger.{bf_put}

-- the round-trip time, as a uint32_t
unfoldable pub triptime : ℕ → Echo → ℕ
triptime now e = (now % 2 ^ 32 + 2 ^ 32 - e.stamp) % 2 ^ 32

-- `tsum`, `tmin` and `tmax`
unfoldable pub add_time : Ping → ℕ → Ping
add_time d t = record d {
  tsum = (d.tsum + t) % 2 ^ 64;
  tmin = if ltb t d.tmin then t else d.tmin;
  tmax = if ltb d.tmax t then t else d.tmax;
}

-- `cktab`, `num_recv` and `num_rept`
unfoldable pub count_reply : Ping → ℕ → Ping
count_reply d i =
    if d.cktab i
    then record d { num_rept = (d.num_rept + 1) % 2 ^ 32 }
    else record d { cktab = bf_put d.cktab i true; num_recv = (d.num_recv + 1) % 2 ^ 32 }

module _ (r : Riot) (net : Net) where
  -- the early returns of _print_reply
  unfoldable pub accepted : Ping → Echo → ℕ → Bool
  accepted d e from =
      not (ltb e.size (d.datalen + net.sizeof_icmpv6_echo))
      && e.type == net.icmpv6_echo_rep
      && e.id == d.id
      && (net.ipv6_addr_is_multicast d.host || r.ipv6_addr_equal from d.host)

  -- _print_reply
  unfoldable pub print_reply : Ping → Echo → ℕ → ℕ → Ping
  unfolding accepted add_time count_reply triptime
  print_reply d e from now =
      if accepted d e from
      then (count_reply (if leb 4 d.datalen then add_time d (triptime now e) else d)
          (e.seq % cktab_size))
      else d

  -- with the snips that gnrc_pktsnip_search_type finds
  unfoldable pub handle_snips : Ping → Option ℕ → Option Echo → ℕ → Ping
  unfolding print_reply
  handle_snips d (some from) (some e) now = print_reply d e from now
  handle_snips d (some from) none now = d
  handle_snips d none icmpv6 now = d

  -- _handle_reply
  unfoldable pub handle_reply : Ping → Packet → ℕ → Ping
  unfolding handle_snips
  handle_reply d pkt now = handle_snips d pkt.ipv6_src pkt.icmpv6 now
