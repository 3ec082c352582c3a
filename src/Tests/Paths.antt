-- ===== src/Tests/Paths.antt =====
-- The search of a thread, on the small system.
use dca.Common.{
  ℕ, zero, suc, ◌≤◌, ◌<◌, ◌≡◌, refl, none, some, false, drop, Text, codes, [], ◌∷◌, ok, arith,
}
use mathlib.Core.Option.{some-injective}
use dca.Riot.{Thread, fresh}
use dca.Db.Ops.{done, error, enoent, is_null, get_next_child, get_type, get_name}
use dca.Db.Fl
use dca.Db.Find.Fields.{first_field, find_node_by_path-field}
use dca.Shell.{dcaq}
use dca.Shell.Threads.{lines}
use dca.Shell.Paths.{dcaq-thread}
use dca.Ps.Step.{at, fields}
use dca.Db.Index.{db_index, runtime_static_entries}
use dca.Db.Find.{find_node_by_path, search_child}
use dca.Db.Find.Walk.{components}
use dca.Db.Find.Branches.{begins, first_branch}
use dca.Db.Find.Entries.{first_entry}
use dca.Db.Find.Threads.{IsFirst}
use dca.Db.Find.Processes.{LeadsTo, find_node_by_path-thread}
use dca.Ps
use dca.Tests.Demo.{demo, start, idle, main, threads}

abbrev main_path : Text
main_path = codes "/run//ps/ma/"

main_components : components main_path ≡ codes "run" ∷ codes "ps" ∷ codes "ma" ∷ []
unfolding components
main_components = refl

run_first : first_branch (codes "run") 0 (db_index demo) ≡ some 1
unfolding first_branch db_index
run_first = refl

ps_no_entry : first_entry (codes "ps") 0 (runtime_static_entries demo) ≡ none
unfolding first_entry
ps_no_entry = refl

before_main :
    (i : ℕ) (t : Thread) → 1 ≤ i → i < 3 → threads i ≡ some t → begins (codes "ma") t.name ≡ false
before_main zero t lo hi at = absurd (omega arith)
before_main (suc zero) t lo hi at = rw (← some-injective idle t at) refl
before_main (suc (suc zero)) t lo hi at = absurd (cc)
before_main (suc (suc (suc i))) t lo hi at = absurd (omega arith)

main-IsFirst : IsFirst demo (codes "ma") 1 3
main-IsFirst = record {
  thread = main;
  inside = omega arith;
  there = refl;
  named = refl;
  others = before_main;
}

main-LeadsTo : LeadsTo demo (codes "run") (codes "ps") (codes "ma") 3
main-LeadsTo = record {
  compiled = refl;
  branch = run_first;
  no_entry = ps_no_entry;
  processes = refl;
  first = main-IsFirst;
  positive = omega arith;
  thread = idle;
  starts = refl;
  behind = omega arith;
  short₁ = omega arith;
  short₂ = omega arith;
  short₃ = omega arith;
  rounds = omega arith;
  pids = omega arith;
}

find_node_by_path-thread_example :
    find_node_by_path demo main_path start ≡ ok (done (Ps.init 3 1), start)
find_node_by_path-thread_example =
    find_node_by_path-thread demo (codes "run") (codes "ps") (codes "ma") 3 main-LeadsTo main_path
      start main_components

dcaq-thread_example :
    dcaq demo (codes "dcaq") (main_path ∷ []) (at start 2)
    ≡ ok ((lines (drop 2 fields), 0), at start 0)
dcaq-thread_example =
    dcaq-thread demo (codes "run") (codes "ps") (codes "ma") (codes "dcaq") main_path [] 3 2 start
      main-LeadsTo main_components (omega arith)

abbrev field_path : Text
field_path = codes "run/ps/ma/stack"

field_components :
    components field_path ≡ codes "run" ∷ codes "ps" ∷ codes "ma" ∷ codes "stack" ∷ []
unfolding components
field_components = refl

find_node_by_path-field_example :
    find_node_by_path demo field_path (at start 1) ≡ ok (done (Ps.init 3 0), at start 4)
unfolding first_field
find_node_by_path-field_example =
    find_node_by_path-field demo (codes "run") (codes "ps") (codes "ma") (codes "stack") field_path
      3 1 start main-LeadsTo field_components (omega arith) (omega arith)

-- The field `pid` is not found behind the search of the field `stack used`.
pid_lost :
    find_node_by_path demo (codes "runtime/ps/main/pid") (at start 4)
    ≡ ok (error enoent, at start 0)
unfolding find_node_by_path is_null search_child get_next_child get_type get_name Fl.root_next_child
    db_index Fl.gettype Fl.getname fresh Fl.getnext_child Ps.getnext_child Ps.getname Ps.gettype
    Ps.new_ps_node
pid_lost = refl
