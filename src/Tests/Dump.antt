-- ===== src/Tests/Dump.antt =====
-- The whole data base of the small system, compiled without the network.
use dca.Common.{
  ◌<◌, ◌≤◌, fault, out_of_bounds, replicate, ◌==◌, if◌then◌else◌, assertion, none, some, get_elem?,
  zeros, padded, ℕ, zero, suc, ◌+◌, ◌/◌, ◌%◌, ◌≡◌, refl, true, false, arith, Text, codes, NoNul, ℤ,
  pos, negsuc, [], ◌∷◌, ◌++◌, ok, ltb, inl, inr, Bool-cases,
}
use dca.Riot.{Riot}
use dca.Ps.{state_name}
use dca.Board.{get_ram, get_clock, get_nonvolatile}
use dca.Runtime.{get_cpu_load, get_cpu_util, get_num_processes, get_stack_used, get_heap, load_loop}
use dca.Saul.Registry.{of_category}
use dca.Ps.Table.{threads, fold, fold_from, keep}
use dca.State.{pure}
use dca.Ps
use dca.Node.{int, Node, uninit, fl_node}
use dca.Db.Siblings.{get_next-last_thread, get_next-entry}
use dca.Db.Index.{
  StaticEntry, FlEntry, int_fn, branch, runtime_static_entries, runtime_dynamic_entries, db_index,
}
use dca.Db.Fl.{init, fl_data}
use dca.Db.Ops.{done, get_name, get_next, get_next_child, is_null}
use dca.Db.Find.{find_node_by_path}
use dca.Db.Find.Listed.{path_of, find_node_by_path-path_of}
use dca.Shell.Entries.{dcaq-path_of}
use dca.Coap.{answer}
use dca.Coap.Unterminated.{query-answer_unterminated}
use dca.Shell.Threads.{lines}
use dca.Shell.Processes.{thread_names, query_processes}
use dca.Shell.{dcaq, dcadump, query}
use dca.Shell.Dump.Database.{blocks, dcadump-Shows}
use dca.Shell.Dump.System.{
  Printable, branches, counters_at_0, branches-db_index, branches-Shows, dcadump-Printable,
}
use dca.Shell.Dump.Shows.{branch_block, joined}
use dca.Shell.Dump.Entries.{entry_lines, entry_line}
use dca.Db.Value.Numbers.{number_text}
use dca.Shell.{indent}
use dca.Shell.Dump.Processes.{thread_blocks, thread_block}
use dca.Shell.Dump.Devices.{device_block, device_blocks}
use dca.Shell.Dump.Fields.{field_line, field_lines}
use dca.Vfs.Cat.{cat}
use dca.Vfs.Cat.Entries.{cat-dcaq}
use dca.Tests.Files.{Opened, dcafs, open_at, is_full, dcafs-Mounted}
use dca.Tests.Demo.{demo, config, idle, button, led, start, digits, decimal}

abbrev quiet : Riot
quiet = record demo { config = record config { dca_network = false } }

NoNul-append : (s t : Text) → NoNul s → NoNul t → NoNul (s ++ t)
NoNul-append [] t a b = b
NoNul-append (c ∷ s) t a b = (a.0, NoNul-append s t a.1 b)

digits-NoNul : (k n : ℕ) → NoNul (digits k n)
digits-NoNul zero n = tt
digits-NoNul (suc k) n = elim (Bool-cases (ltb n 10)) [
  | inl e ↦ rw e (omega arith, tt)
  | inr e ↦ rw e (
      NoNul-append (digits k (n / 10)) ((48 + n % 10) ∷ []) (digits-NoNul k (n / 10))
        (omega arith, tt))
]

decimal-NoNul : (n : ℤ) → NoNul (decimal n)
decimal-NoNul (pos n) = digits-NoNul 12 n
decimal-NoNul (negsuc n) = (omega arith, digits-NoNul 12 (n + 1))

quiet-Printable : Printable quiet idle (button ∷ led ∷ [])
unfolding threads
quiet-Printable = record {
  with_ps = refl;
  with_saul = refl;
  no_network = refl;
  decimal = decimal-NoNul;
  util = digits-NoNul 12 (get_cpu_util quiet);
  board = (ground arith, omega arith);
  mcu = (ground arith, omega arith);
  positive = omega arith;
  some_pid = omega arith;
  live = refl;
  named = ground arith;
  registered = (refl, refl, (refl, refl, refl));
  classed = (
    ((ground arith, omega arith), ground arith, omega arith),
    (((ground arith, omega arith), ground arith, omega arith), tt),
  );
  differ = λ h. absurd (omega (arith, h));
  fuel = omega arith;
  threads_fit = omega arith;
  devices_fit = omega arith;
}

dcadump-Printable_example :
    dcadump quiet (counters_at_0 start)
    ≡ ok (
      (codes "- //\n" ++ blocks quiet true (branches quiet (button ∷ led ∷ [])), 0),
      counters_at_0 start,
    )
dcadump-Printable_example = dcadump-Printable quiet idle (button ∷ led ∷ []) quiet-Printable start

dcadump-Shows_example :
    dcadump quiet (counters_at_0 start)
    ≡ ok (
      (codes "- //\n" ++ blocks quiet true (branches quiet (button ∷ led ∷ [])), 0),
      counters_at_0 start,
    )
dcadump-Shows_example =
    dcadump-Shows quiet (counters_at_0 start) (branches quiet (button ∷ led ∷ [])) (omega arith)
      (branches-db_index quiet idle (button ∷ led ∷ []) quiet-Printable)
      (branches-Shows quiet idle (button ∷ led ∷ []) quiet-Printable start)

blocks_text :
    blocks quiet true (branches quiet (button ∷ led ∷ []))
    ≡ codes "  - board/\n    - name: nrf52840dk\n    - mcu: nrf52\n    - ram: 32768\n"
      ++ codes "    - clock: 64000000\n    - nonvolatile: 196608\n  - runtime/\n"
      ++ codes "    - cpu_load: 2\n    - cpu_util: 100\n    - num_processes: 2\n"
      ++ codes "    - stack_used: 1292\n    - heap: 0\n    - ps/\n      - idle/\n"
      ++ codes "        - pid: 1\n        - state: pending\n        - priority: 15\n"
      ++ codes "        - total stack: 256\n        - stack used: 156\n      - main/\n"
      ++ codes "        - pid: 3\n        - state: running\n        - priority: 7\n"
      ++ codes "        - total stack: 1536\n        - stack used: 1136\n  - saul/\n"
      ++ codes "    - num_sensors: 1\n    - num_actuators: 1\n    - devices/\n      - btn/\n"
      ++ codes "        - class: SENSE_BTN\n      - led/\n        - class: ACT_SWITCH\n"
unfolding blocks branch_block entry_lines entry_line joined indent number_text thread_blocks
    thread_block device_block device_blocks threads fold fold_from keep field_lines field_line
    state_name get_ram get_clock get_nonvolatile get_cpu_load get_cpu_util get_num_processes
    get_stack_used get_heap load_loop of_category
blocks_text = refl

abbrev runtime : FlEntry
runtime = branch demo (codes "runtime") (runtime_static_entries demo) (runtime_dynamic_entries demo)

abbrev num_processes : StaticEntry
num_processes = record {
  name = codes "num_processes";
  type = int;
  get_value = int_fn (pure (get_num_processes demo));
}

runtime_at : get_elem? (db_index demo) 1 ≡ some runtime
unfolding db_index
runtime_at = refl

find_node_by_path-path_of_example :
    (find_node_by_path demo (path_of runtime num_processes) start ≡ ok (done (init 1 2 0), start))
    × (get_name demo (init 1 2 0) (zeros 30) start ≡ ok (padded 30 (codes "num_processes"), start))
find_node_by_path-path_of_example =
    find_node_by_path-path_of demo 1 2 runtime num_processes (zeros 30) start runtime_at refl
      (omega arith) refl

dcaq-path_of_example :
    dcaq demo (codes "dcaq") (path_of runtime num_processes ∷ []) start
    ≡ ok ((number_text (decimal (get_num_processes demo)) 128 ++ codes "\n", 0), start)
dcaq-path_of_example =
    dcaq-path_of demo (codes "dcaq") [] 1 2 runtime num_processes
      (number_text (decimal (get_num_processes demo)) 128) start runtime_at refl
      (get_num_processes demo, refl, decimal-NoNul (get_num_processes demo), refl) (omega arith)

two_text : decimal (get_num_processes demo) ≡ 50 ∷ []
unfolding get_num_processes
two_text = refl

cat-dcaq_example :
    (s' : Opened) × (cat dcafs
        (codes "cat")
        ((codes "/dca" ++ path_of runtime num_processes) ∷ [])
        (start, none)
      ≡ ok ((50 ∷ [] ++ codes "\n", pos 0), s'))
    × (s'.0 ≡ start)
    × (dcaq demo (codes "dcaq") (path_of runtime num_processes ∷ []) start
        ≡ ok ((50 ∷ [] ++ codes "\n", 0), start))
cat-dcaq_example =
    cat-dcaq demo dcafs (codes "/dca") (λ s. s.0) open_at is_full dcafs-Mounted refl refl
      (codes "cat") (codes "dcaq") [] 1 2 runtime num_processes (pure (get_num_processes demo))
      (get_num_processes demo) 50 [] (start, none) runtime_at refl refl refl two_text
      (omega arith, tt) ((λ h. absurd (omega (arith, h))), tt) (omega arith) (omega arith) refl
      (omega arith)

no_thread : (i : ℕ) → 3 < i → i ≤ 4 → demo.sched_threads i ≡ none
no_thread i above within = ground (arith, above)

get_next-last_thread_example :
    (get_next demo (Ps.init 3 1) uninit start ≡ ok (Ps.init 5 1, start))
    × (is_null demo (Ps.init 5 1) start ≡ ok (false, start))
    × (get_name demo (Ps.init 5 1) (zeros 30) start ≡ fault assertion)
get_next-last_thread_example =
    get_next-last_thread demo start 3 uninit (zeros 30) (omega arith) (omega arith) (omega arith)
      no_thread

get_next-entry_example :
    (c : Node) × (node : Node) × (get_next demo (init 1 2 0) uninit start ≡ ok (c, start))
    × (get_next_child demo (fl_node (fl_data 1 3 1)) uninit start ≡ ok ((node, c), start))
get_next-entry_example =
    get_next-entry demo start 1 2 runtime uninit uninit runtime_at (omega arith) (inl (omega arith))

abbrev long_named : Riot
long_named = record demo {
  sched_threads = λ i. if i == 1 then some (record idle { name = replicate 30 97 }) else none;
}

query-answer_unterminated_example :
    (query long_named (codes "/runtime/ps") (Ps.new_ps_node long_named) start ≡ fault out_of_bounds)
    × (answer long_named (Ps.new_ps_node long_named) start ≡ fault out_of_bounds)
query-answer_unterminated_example =
    query-answer_unterminated long_named (codes "/runtime/ps")
      (record idle { name = replicate 30 97 }) start (omega arith) (omega arith) refl (ground arith)
      (omega arith) (omega arith)

query_processes_example :
    query demo (codes "/runtime/ps") (Ps.new_ps_node demo) start
    ≡ ok ((lines (thread_names (threads demo 1)), 0), start)
unfolding threads
query_processes_example =
    query_processes demo (codes "/runtime/ps") idle start (omega arith) (omega arith) refl
      (ground arith) (omega arith)
