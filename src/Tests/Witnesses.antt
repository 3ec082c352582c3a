-- ===== src/Tests/Witnesses.antt =====
-- The theorems on the small system.
use dca.Common.{
  List, ℕ, ◌+◌, ◌≡◌, refl, arith, Text, Buffer, codes, [], ◌∷◌, ◌++◌, ok, fault, null_deref, pos,
  ==_iff, length, take, drop, get_elem?, padded, some, c_string, zeros,
}
use dca.Riot.{fresh}
use dca.State.{Globals}
use dca.Node.{Node, name_max, uninit, int, float}
use dca.LinkedList.{Neighbor, read, read_ip}
use dca.LinkedList.Read.{read_past}
use dca.Ps
use dca.Ps.{get_next_pid}
use dca.Ps.Pids.{IsNextPid, get_next_pid-IsNextPid}
use dca.Ps.Step.{at, fields, nth}
use dca.Netif
use dca.Netif.Names.{netif_data}
use dca.Netif.Values.Neighbours.{Copied, getint_value-Copied}
use dca.Runtime.{get_num_processes, get_cpu_util}
use dca.Db.Fl
use dca.Db.Fl.{root}
use dca.Db.Index.{FlEntry, board_static_entries, db_index}
use dca.Db.Find.Branches.{first_branch, found_branch, find_node_by_path-branch}
use dca.Db.Find.Entries.{first_entry, find_node_by_path-entry}
use dca.Db.Ops.{is_null, get_name, done, get_next_child, get_type, get_int_value, get_float_value}
use dca.Db.Value.{value_to_str}
use dca.Db.Value.Numbers.{number_text, value_to_str-int}
use dca.Db.Find.{search_child, find_node_by_path}
use dca.Db.Find.Walk.{components, walk, find_node_by_path-walk}
use dca.Fs
use dca.Fs.{File, readdir}
use dca.Fs.Reading.{read-read}
use dca.Fs.Threads.{readdir-thread}
use dca.Shell.{newline}
use dca.Shell.Branches.{branch_names, query-root}
use dca.Shell.Threads.{lines}
use dca.Coap.{dca_handler, answer, content}
use dca.Shell.Names.{ended_by}
use dca.Coap.Names.{query-answer}
use dca.Tests.Demo.{demo, start}

abbrev nested_path : Text
nested_path = codes "//runtime/ps//main/"

find_node_by_path-walk_example :
    find_node_by_path demo nested_path
    ≡ walk demo (components nested_path) root uninit (fresh demo name_max)
find_node_by_path-walk_example = find_node_by_path-walk demo nested_path

get_next_pid-IsNextPid_example : (q : ℕ) × (get_next_pid demo 1 ≡ ok q) × IsNextPid demo 1 q
get_next_pid-IsNextPid_example =
    get_next_pid-IsNextPid demo 1 (omega arith) (omega arith) (omega arith)

abbrev far : Neighbor
far = record { addr = 2; latency = 900; packet_loss = 1; throughput = 5 }

abbrev near : Neighbor
near = record { addr = 3; latency = 40; packet_loss = 0; throughput = 70 }

read_past_example :
    (read 2 4 (far ∷ near ∷ []) ≡ fault null_deref)
    × (read_ip demo.ipv6_addr_to_str 4 (zeros 46) (far ∷ near ∷ []) ≡ fault null_deref)
read_past_example =
    read_past demo.ipv6_addr_to_str 2 4 (zeros 46) (far ∷ near ∷ []) (λ e. absurd (cc))
      (omega arith)

abbrev counting : Globals
counting = record start { netif_field_count = 3 }

getint_value-Copied_example :
    (g' : Globals) × (Netif.getint_value demo (netif_data 6 2) counting ≡ ok (pos 2, g'))
    × Copied demo ==_iff (2 ∷ 3 ∷ []) counting g'
getint_value-Copied_example = getint_value-Copied demo ==_iff (netif_data 6 2) counting refl tt

-- the field `stack_size` of the thread main
abbrev size_node : Node
size_node = Ps.init 3 0

abbrev at_size : Globals
at_size = at start 3

abbrev size_bytes : Buffer
size_bytes = codes "1536" ++ drop 4 (fresh demo Fs.max_str_len)

size_contents : Fs.contents demo size_node at_size ≡ ok (done (size_bytes, 4), at_size)
unfolding Fs.contents get_type Ps.gettype get_int_value Ps.getint_value fresh
size_contents = refl

abbrev size_file : ℕ → File
size_file off = record { node = size_node; offset = off }

read-read_example :
    (f₁ : File) × (f₂ : File) × (a' : Buffer) × (b' : Buffer) × (c' : Buffer) × (i : ℕ) × (j : ℕ)
    × (Fs.read demo (size_file 1) (zeros 2) 2 at_size ≡ ok (done (f₁, a', i), at_size))
    × (Fs.read demo f₁ (zeros 5) 5 at_size ≡ ok (done (f₂, b', j), at_size))
    × (Fs.read demo (size_file 1) (zeros 7) 7 at_size ≡ ok (done (f₂, c', i + j), at_size))
    × (take i a' ++ take j b' ≡ take (i + j) c')
unfolding fresh
read-read_example =
    read-read demo (size_file 1) size_bytes 4 at_size (zeros 2) (zeros 5) (zeros 7) 2 5
      size_contents (omega arith) (omega arith) (omega arith) (omega arith)

readdir-thread_example :
    (dir : Node) × (readdir demo (Ps.init 3 1) (zeros 32) (at start 1)
      ≡ ok ((dir, some (padded name_max (nth fields 1) ++ drop name_max (zeros 32))), at start 1))
    × (readdir demo dir (zeros 32) (at start 1) ≡ fault null_deref)
readdir-thread_example =
    readdir-thread demo 3 1 start (zeros 32) (zeros 32) (omega arith) (omega arith) (omega arith)
      (omega arith) (omega arith)

size_is_int : get_type demo size_node at_size ≡ ok (int, at_size)
unfolding get_type Ps.gettype
size_is_int = refl

size_value : get_int_value demo size_node at_size ≡ ok (pos 1536, at_size)
unfolding get_int_value get_type Ps.gettype Ps.getint_value
size_value = refl

value_to_str-int_example :
    (b : Buffer) × (value_to_str demo size_node (zeros 4) 4 at_size
      ≡ ok (done (b, length (number_text (codes "1536") 4) + 1), at_size))
    × (c_string b ≡ number_text (codes "1536") 4)
    × (length b ≡ 4)
value_to_str-int_example =
    value_to_str-int demo size_node (zeros 4) at_size at_size at_size (pos 1536) size_is_int
      size_value (ground arith) (omega arith)

abbrev util_node : Node
util_node = Fl.init 1 1 0

util_is_float : get_type demo util_node start ≡ ok (float, start)
unfolding get_type Fl.gettype db_index
util_is_float = refl

util_value : get_float_value demo util_node start ≡ ok (100, start)
unfolding get_float_value get_type Fl.gettype db_index Fl.getfloat_value get_cpu_util
util_value = refl

handler_run :
    dca_handler demo (codes "/dca/runtime/num_processes") 26 100 start
    ≡ ok (content (codes "2" ++ 0 ∷ []), start)
unfolding dca_handler find_node_by_path is_null search_child get_next_child Fl.root_next_child
    db_index Fl.gettype get_name Fl.getname fresh Fl.getnext_child answer value_to_str get_int_value
    Fl.getint_value get_num_processes
handler_run = refl

abbrev ram_path : Text
ram_path = codes "/board//ram"

abbrev board_entry : FlEntry
board_entry = record {
  branch_name = codes "board";
  static_entries = board_static_entries demo;
  dynamic_entries = [];
}

ram_components : components ram_path ≡ codes "board" ∷ codes "ram" ∷ []
unfolding components
ram_components = refl

board_first : first_branch (codes "board") 0 (db_index demo) ≡ some 0
unfolding first_branch db_index
board_first = refl

board_at : get_elem? (db_index demo) 0 ≡ some board_entry
unfolding db_index
board_at = refl

ram_first : first_entry (codes "ram") 0 (board_static_entries demo) ≡ some 2
unfolding first_entry
ram_first = refl

find_node_by_path-entry_example :
    find_node_by_path demo ram_path start ≡ ok (done (Fl.init 0 2 0), start)
find_node_by_path-entry_example =
    find_node_by_path-entry demo ram_path (codes "board") (codes "ram") 0 2 board_entry start
      ram_components board_first board_at ram_first (omega arith) (omega arith) (omega arith)

initial_component : components (codes "b/") ≡ codes "b" ∷ []
unfolding components
initial_component = refl

find_node_by_path-branch_example :
    find_node_by_path demo (codes "b/") start
    ≡ ok (found_branch (first_branch (codes "b") 0 (db_index demo)), start)
find_node_by_path-branch_example =
    find_node_by_path-branch demo (codes "b/") (codes "b") start initial_component (omega arith)
      (omega arith)

query-answer_example :
    (ns : List Text) × (lines (branch_names (db_index demo)) ≡ ended_by newline ns)
    × (answer demo root start ≡ ok (done (ended_by (codes " ") ns), start))
unfolding get_type branch_names db_index
query-answer_example =
    query-answer demo (codes "/") root start start (lines (branch_names (db_index demo))) refl
      (query-root demo (codes "/") start (omega arith)) (omega arith)
