-- ===== src/Db/Find/Processes.antt =====
-- The search of a thread by its path, and of what lies below it.
use dca.Common.{
  List, ℕ, suc, ◌+◌, ◌≤◌, ◌<◌, ◌≡◌, refl, ◌∙◌, true, false, none, some, arith, Text, Buffer, ok,
  codes, [], ◌∷◌, ◌-◌, get_elem?, length, padded, length-padded, strncpy-padded,
}
use dca.Riot.{Riot, Thread, fresh, length-fresh}
use dca.State.{Globals, ◌>>=◌}
use dca.Node.{Node, name_max, fl_node, uninit}
use dca.Ps.{ps_data, init, new_ps_node}
use dca.Db.Fl
use dca.Ps
use dca.Db.Ops.{done, is_null, get_next_child, get_name}
use dca.Db.Ops.Null.{is_null-ps}
use dca.Db.Find.Rounds.{Child, search_child-hit}
use dca.Db.Index.{FlEntry, db_index, runtime_static_entries, runtime_dynamic_entries}
use dca.Db.Fl.{new_fl_node, fl_data}
use dca.Db.Find.Walk.{components, walk, find_node_by_path-walk}
use dca.Db.Find.Branches.{
  begins, first_branch, few_branches, search_branch, is_null-root, is_null-branch,
}
use dca.Db.Find.Entries.{first_entry}
use dca.Db.Find.Threads.{IsFirst, search_thread}
use dca.Db.Find.Missed.{search_missed}
use dca.Db.Find.{enter, find_step, find_node_by_path}

abbrev runtime : Riot → FlEntry
runtime r = record {
  branch_name = codes "runtime";
  static_entries = runtime_static_entries r;
  dynamic_entries = runtime_dynamic_entries r;
}

module _ (r : Riot) where
  -- The child behind the static entries of `runtime` is the branch of the threads.
  runtime_at : get_elem? (db_index r) 1 ≡ some (runtime r)
  unfolding db_index
  runtime_at = refl

  processes_next :
      (child : Node) (g : Globals)
      → r.config.dca_ps ≡ true
      → get_next_child r (fl_node (fl_data 1 5 1)) child g
        ≡ ok ((fl_node (fl_data 1 6 1), new_ps_node r), g)
  unfolding get_next_child Fl.getnext_child db_index
  processes_next child g on = rw (◌>>=◌, on)

  processes_not_null : (g : Globals) → is_null r (new_ps_node r) g ≡ ok (false, g)
  unfolding new_ps_node
  processes_not_null g = is_null-ps r g (ps_data r.pid_first 2)

  processes_named :
      (buf : Buffer) (g : Globals)
      → length buf ≡ name_max
      → get_name r (new_ps_node r) buf g ≡ ok (padded name_max (codes "ps"), g)
  unfolding new_ps_node get_name Ps.getname
  processes_named buf g full = rw (◌>>=◌, strncpy-padded name_max buf (codes "ps") full)

  processes-Child :
      (child : Node) (g : Globals)
      → r.config.dca_ps ≡ true
      → Child r
          (fl_node (fl_data 1 5 1))
          child
          (fl_node (fl_data 1 6 1))
          (new_ps_node r)
          (codes "ps")
          g
          g
  processes-Child child g on = record {
    next = processes_next child g on;
    not_null = processes_not_null g;
    named = λ buf full. processes_named buf g full;
  }

-- Three folders lead to the thread of pid q: the first one finds the branch `runtime`, the second
-- one is a prefix of "ps" and of no static entry before it, and the thread is the first one by its
-- pid whose name begins with the third. They have at most DB_NODE_NAME_MAX bytes each. The threads
-- are compiled in, pids are positive, the first pid has a thread, and the fuel allows seven rounds
-- and one more than there are pids up to q.
pub record LeadsTo (r : Riot) (t₁ t₂ t₃ : Text) (q : ℕ) : Type 0 where
  pub compiled : r.config.dca_ps ≡ true
  pub branch : first_branch t₁ 0 (db_index r) ≡ some 1
  pub no_entry : first_entry t₂ 0 (runtime_static_entries r) ≡ none
  pub processes : begins t₂ (codes "ps") ≡ true
  pub first : IsFirst r t₃ r.pid_first q
  pub positive : 0 < r.pid_first
  pub thread : Thread
  pub starts : r.sched_threads r.pid_first ≡ some thread
  pub behind : r.pid_first ≤ q
  pub short₁ : length t₁ ≤ name_max
  pub short₂ : length t₂ ≤ name_max
  pub short₃ : length t₃ ≤ name_max
  pub rounds : 6 < r.fuel
  pub pids : q < r.pid_first + r.fuel

module _ (r : Riot) (t₁ t₂ t₃ : Text) (q : ℕ) (leads : LeadsTo r t₁ t₂ t₃ q) where
  -- The walk along the first three folders goes on at the thread.
  pub walk-LeadsTo :
      (path : Text) (ts : List Text) (g : Globals)
      → components path ≡ t₁ ∷ t₂ ∷ t₃ ∷ ts
      → (buf : Buffer) × (length buf ≡ name_max)
        × (find_node_by_path r path g ≡ walk r ts (init q 1) (init q 1) buf g)
  unfolding walk find_step enter new_ps_node
  walk-LeadsTo path ts g three =
      let (buf, size, found) =
        search_branch r (λ child name_buf. walk r (t₂ ∷ t₃ ∷ ts) child child name_buf) r.fuel 0 t₁
          (db_index r) uninit (fresh r name_max) g refl
          (omega (arith, few_branches r, leads.rounds)) leads.short₁ (length-fresh r name_max) in
      let k = r.fuel - 6 in
      let (child', buf', size', passed) =
        search_missed r 1 (runtime r) (runtime_at r) r.fuel (suc k) 0 t₂ (runtime_static_entries r)
          (new_fl_node 1) buf g refl (omega arith) leads.no_entry (omega (arith, leads.rounds))
          leads.short₂ size in
      let hit =
        search_child-hit r k t₂ (fl_node (fl_data 1 5 1)) child' (fl_node (fl_data 1 6 1))
          (new_ps_node r) (codes "ps") buf' g g (processes-Child r child' g leads.compiled)
          leads.short₂ size' leads.processes in
      let (buf₃, size₃, reached) =
        search_thread r (λ child name_buf. walk r ts child child name_buf) t₃ q r.fuel r.pid_first
          leads.thread (new_ps_node r) (padded name_max (codes "ps")) g leads.positive (omega arith)
          leads.behind leads.starts leads.first leads.pids leads.short₃
          (length-padded name_max (codes "ps")) in
      (
        buf₃,
        size₃,
        rw (find_node_by_path-walk r path, three, ◌>>=◌, is_null-root)
            (found
              ∙ rw
                  (
                    leads.branch,
                    ◌>>=◌,
                    is_null-branch,
                    passed,
                    hit,
                    is_null-ps r g (ps_data r.pid_first 2),
                  )
                  reached),
      )

  -- A path of three folders that lead to a thread finds the thread, and changes no variable. The
  -- first folder finds the branch `runtime`, the second one is a prefix of "ps" and of no static
  -- entry there, and the thread is the first one by its pid whose name begins with the third; each
  -- has at most DB_NODE_NAME_MAX bytes. The threads are compiled in, pids are positive, the first pid
  -- has a thread, and the fuel allows seven rounds and one more than there are pids up to the thread.
  pub find_node_by_path-thread :
      (path : Text) (g : Globals)
      → components path ≡ t₁ ∷ t₂ ∷ t₃ ∷ []
      → find_node_by_path r path g ≡ ok (done (init q 1), g)
  unfolding walk
  find_node_by_path-thread path g three = (walk-LeadsTo path [] g three).2
