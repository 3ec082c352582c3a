-- ===== src/Net.antt =====
-- What latency.c and udp_throughput.c take from RIOT's network stack, sockets and clock, as
-- parameters. An address is a number, a pointer to an interface is a number with NULL = 0.
use dca.Common.{ℕ, Bool, Option, List, Text}

-- How far GNRC gets with a packet: the packet buffer holds the ICMPv6 snip, the IPv6 header and the
-- interface header, and somebody takes the packet that is dispatched.
pub record Sending : Type 0 where
  pub echo_built : Bool
  pub ipv6_built : Bool
  pub netif_built : Bool
  pub dispatched : Bool

-- The ICMPv6 snip of a packet: its size, the fields of icmpv6_echo_t in host order, and the 32-bit
-- word behind them.
pub record Echo : Type 0 where
  pub size : ℕ
  pub type : ℕ
  pub id : ℕ
  pub seq : ℕ
  pub stamp : ℕ

-- A received packet: whether its first snip is ICMPv6, the source address of its IPv6 snip and its
-- ICMPv6 snip, where it has them.
pub record Packet : Type 0 where
  pub is_icmpv6 : Bool
  pub ipv6_src : Option ℕ
  pub icmpv6 : Option Echo

-- A message: a packet (GNRC_NETAPI_MSG_TYPE_RCV), or one of another type.
pub data Msg : Type 0 where
  rcv : Packet → Msg
  event : ℕ → Msg

-- A message that msg_receive returns, with the time at which it is handled and, should a packet be
-- sent then, how far it gets.
pub record Arrival : Type 0 where
  pub msg : Msg
  pub now : ℕ
  pub sending : Sending

-- What happens while one neighbour is measured: the time at _configure, the time and the fate of
-- the first request, what msg_receive returns in order, and the queue of the thread afterwards.
pub record Visit : Type 0 where
  pub configured : ℕ
  pub first_now : ℕ
  pub first : Sending
  pub inbox : List Arrival
  pub queue : List Msg

pub record Net : Type 0 where
  -- US_PER_SEC, sizeof(icmpv6_echo_t), ICMPV6_ECHO_REP
  pub us_per_sec : ℕ
  pub sizeof_icmpv6_echo : ℕ
  pub icmpv6_echo_rep : ℕ
  -- ipv6_addr_from_str (none: NULL); ipv6_addr_split_iface: the text that is left of its argument,
  -- and the interface behind `%`; atoi
  pub ipv6_addr_from_str : Text → Option ℕ
  pub ipv6_addr_split_iface : Text → Text × Option Text
  pub atoi : Text → ℕ
  pub ipv6_addr_is_multicast : ℕ → Bool
  pub ipv6_addr_is_link_local : ℕ → Bool
  -- gnrc_netif_get_by_pid, gnrc_netif_iter (0 gives the first interface, and 0 ends the list),
  -- gnrc_netif_highlander
  pub gnrc_netif_get_by_pid : ℕ → ℕ
  pub gnrc_netif_iter : ℕ → ℕ
  pub gnrc_netif_highlander : Bool
  -- by the address of the neighbour
  pub visit : ℕ → Visit
