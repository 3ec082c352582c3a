-- ===== src/Throughput/Data.antt =====
-- _udp_data and the constants of udp_throughput.c. A packet is kept as the eight bytes of the
-- structure in memory: id, packet_count, packet_size, a byte of padding, throughput (little endian).
use dca.Common.{
  ℕ, ◌+◌, ◌*◌, ◌/◌, ◌%◌, ◌^◌, ◌++◌, Option, none, some, Buffer, length, take, drop, get_elem?, set,
}

-- START_TEST, TEST_ACK, SUCCESS
abbrev pub start_test : ℕ
start_test = 0

abbrev pub test_ack : ℕ
test_ack = 3

abbrev pub success : ℕ
success = 4

-- PACKET_TIMEOUT, UDP_PACKET_COUNT, UDP_PACKET_SIZE
abbrev pub packet_timeout : ℕ
packet_timeout = 1000000

abbrev pub udp_packet_count : ℕ
udp_packet_count = 3

abbrev pub udp_packet_size : ℕ
udp_packet_size = 128

abbrev byte_or_zero : Option ℕ → ℕ
byte_or_zero none = 0
byte_or_zero (some b) = b

abbrev byte : Buffer → ℕ → ℕ
byte p i = byte_or_zero (get_elem? p i)

-- the fields of _udp_data
unfoldable pub id : Buffer → ℕ
id p = byte p 0

unfoldable pub packet_count : Buffer → ℕ
packet_count p = byte p 1

unfoldable pub packet_size : Buffer → ℕ
packet_size p = byte p 2

unfoldable pub throughput : Buffer → ℕ
throughput p = byte p 4 + 2 ^ 8 * byte p 5 + 2 ^ 16 * byte p 6 + 2 ^ 24 * byte p 7

unfoldable pub set_id : ℕ → Buffer → Buffer
set_id v p = set p 0 v

unfoldable pub set_throughput : ℕ → Buffer → Buffer
set_throughput v p =
    set (set (set (set p 4 (v % 2 ^ 8)) 5 (v / 2 ^ 8 % 2 ^ 8)) 6 (v / 2 ^ 16 % 2 ^ 8)) 7
      (v / 2 ^ 24 % 2 ^ 8)

-- What is in a buffer after sock_udp_recv wrote the bytes of a datagram to its front; a datagram
-- that is longer than the buffer is an error of sock_udp_recv.
unfoldable pub received : Buffer → Buffer → Buffer
received bytes p = take (length p) bytes ++ drop (length bytes) p
