-- ===== src/Throughput.antt =====
-- udp_throughput.c: a server that counts the bytes it gets, and a client that measures the
-- neighbours of the cache. `int` and `unsigned` have 32 bits; what sockets and the clock return is
-- given as a script.
pub mod Data
pub mod Server
pub mod Client
pub mod Packets
pub mod Test
pub mod Running
pub mod Store
