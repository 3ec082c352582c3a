-- ===== src/Lib.antt =====
-- The data base of a RIOT node (DoRIoT DCA): a tree of nodes that describes the board, the running
-- system, its sensors and its network, and the ways to read it.
--
-- The program. A node of the tree (db_node.c) is a table of operations and a few bytes of state. The
-- root (db.c) leads to the branches `board`, `runtime`, `network` and `saul` (db_fl.c), whose static
-- entries are functions of board.c, runtime.c, network.c and saul_node.c, and whose dynamic entries
-- are the subtrees of the threads (ps.c), the sensors and actuators (saul_devices.c) and the network
-- interfaces (netif.c, with the neighbours of linked_list.c). The tree is read by the shell commands
-- (shell_cmds.c), as files (fs.c) and by CoAP (coap.c): each searches a node by its path
-- (db_node.c), iterates over its children or turns its value into text. The list of neighbours is
-- filled by measurements: latency.c pings the neighbours of the cache, and udp_throughput.c sends
-- packets to a server that runs on each of them.
--
-- The model, file by file:
--   Riot         what the program takes from RIOT and the C library, one record: the scheduler's
--                tables, the SAUL registry, the interfaces, the formatting of numbers, float
--                operations, and the configuration
--   State        the global variables (ps.c, saul_devices.c, netif.c, linked_list.c), and commands
--                over a state that can fault: an assertion, a NULL pointer, an array index, fuel
--   Node         the nodes: a constructor for each table of operations, with the private data; a
--                node variable that was not written is `uninit`
--   LinkedList   linked_list.c; the list is a value, its first node first
--   Ps           ps.c
--   Saul         saul_devices.c and saul_node.c
--   Netif        netif.c: Netif/Names, Netif/Children, Netif/Values
--   Board        board.c
--   Runtime      runtime.c and network.c
--   Db/Index     the tables of db.c
--   Db/Fl        db_fl.c, and the root node of db.c
--   Db/Ops       the operations called through a node (db_node.c), and _fl_node_getsize of db_fl.c
--   Db/Value     db_node_value_to_str of db_node.c
--   Db/Find      db_find_node_by_path of db_node.c
--   Fs           fs.c
--   Shell        shell_cmds.c; the output is a text. Shell/Dump/Shows: a description of a branch by the
--                texts of its entries, and what it looks like when it is printed
--   Coap         the request handler of coap.c; Coap/Link: its link encoder
--   Net          what latency.c and udp_throughput.c take from the network stack, the sockets and the
--                clock, one record; the messages that arrive are a script
--   Latency      latency.c: Latency/Pinger (_pinger), Latency/Reply (_handle_reply, _print_reply),
--                Latency/Finish (_finish), Latency/Drain (the loop that empties the queue)
--   Throughput   udp_throughput.c: Throughput/Server (the thread), Throughput/Client
--   Vfs          examples/vfs/main.c: Vfs/Cat (_cat), Vfs/Tree (_tree, _tree_r), over the operations of
--                RIOT's VFS; Vfs/Tree/Serves: what a file system that holds a tree promises
--   Startup      examples/*/main.c: main of the three examples, and the command mock_saul
--   Common       lists over native numbers, byte texts, integers, faults, C string functions
-- An operation that changes its node or its output array returns the new one. A child that an
-- operation leaves unwritten is returned as it was. The files below a file hold its theorems; Tests
-- holds a small system, runs on it and the theorems applied to it.
--
-- Numbers. Counters of uint8_t and int8_t are kept below 256 with their wrap-around; int32_t results
-- are the low 32 bits read as a signed number; float operations are parameters on numbers. An array
-- is the list of its bytes, a text has no NUL; where the shell or CoAP read an array as a text and it
-- has no NUL, the read is a fault. off_t has a largest value, a field of Riot, and a sum in lseek that
-- is larger is a fault.
--
-- Bounds. Loops over pids run as often as the table has pids. The recursion of netif.c has fuel 2,
-- which is enough, and the loop over the folders of a path has the length of the path plus one,
-- which is enough too. The loops over children, interfaces and registry entries run on `fuel` of
-- the record Riot, since they end only if the chains of RIOT do; the theorems about them say how
-- much they need. The loops of examples/vfs run on `fuel` of the record Vfs, since they end only if
-- the file system does.
--
-- Measurements. The state of latency.c is a record, and each message that msg_receive returns comes
-- with the time at which it is handled and with how far GNRC gets with a packet that is sent then.
-- A message that is sent to the thread again comes back as one of the script. `unsigned` and
-- `unsigned long` have 32 bits. The server of udp_throughput.c takes a script of what sock_udp_recv
-- returns, the client the outcome of each call; a packet of it is its eight bytes. The theorems on
-- whole measurements of latency.c suppose that a packet with the identifier of the measurement
-- carries the number of a request that was sent, and that the timer sends what it was set to; one
-- theorem is about replies of which the first does not hold.
--
-- Not modelled: registration of the file system, of the shell commands and of the CoAP resource, which
-- are tables that RIOT reads; the debug output of the measurements; doriot_dca.c, which is empty; the
-- fields of a SAUL driver that are NULL in the example. The memory that linked_list_insert_node
-- allocates and drops has no effect on the list, and malloc in latency.c and udp_throughput.c is taken
-- to succeed.
pub mod Common
pub mod Riot
pub mod LinkedList
pub mod State
pub mod Node
pub mod Ps
pub mod Saul
pub mod Net
pub mod Netif
pub mod Latency
pub mod Throughput
pub mod Vfs
pub mod Board
pub mod Runtime
pub mod Db
pub mod Fs
pub mod Shell
pub mod Startup
pub mod Coap
mod Tests
