-- ===== src/Shell/Dump/Processes.antt =====
-- What `dcadump` prints for the threads: _tree_r on the branch of ps.c.
use dca.Common.{
  ℕ, zero, suc, ◌+◌, ◌≤◌, ◌<◌, ◌≡◌, refl, sym, ap, ◌∙◌, some, arith, Text, codes, Bool, List, [],
  ◌∷◌, ◌++◌, All, ok, length, c_string-padded, has_nul-padded, strncpy-padded,
}
use mathlib.Core.List.{append_assoc, append-nil}
use mathlib.Core.Path.{subst}
use dca.Riot.{Riot, Thread, fresh, length-fresh}
use dca.State.{Globals, and_then, ◌>>=◌}
use dca.Node.{name_max, ps_node, uninit}
use dca.Ps
use dca.Ps.{ps_data, init, gettype, new_ps_node, get_next_pid}
use dca.Ps.Pids.{IsNextPid, get_next_pid-IsNextPid}
use dca.Ps.Step.{at, thread_next}
use dca.Ps.Table.{
  fold, fold-some, fold_past, fold-IsNextPid, threads, threads-some, threads-IsNextPid, next_thread,
  no_thread,
}
use dca.Db.Ops.{get_type, get_name, get_next_child}
use dca.Db.Ops.Null.{is_null-ps}
use dca.Shell.{print_node_name, indent, tree_r, tree_children}
use dca.Shell.Processes.{Named, getname_thread, next_process, no_process}
use dca.Shell.Dump.{Decimal, tree_children-end}
use dca.Shell.Dump.Fields.{field_lines, tree_children-fields}

-- What is printed for a thread: its name, and the five fields one level deeper.
unfoldable pub thread_block : Riot → ℕ → Bool → ℕ → Thread → Text
thread_block r depth b p t =
    indent r depth ++ codes "- " ++ t.name ++ codes "/\n" ++ field_lines r (depth + 1) b p t 4 0

unfoldable add_block : Riot → ℕ → Bool → ℕ → Thread → Text → Text
add_block r depth b p t rest = thread_block r depth b p t ++ rest

-- the blocks of the threads of the scheduler's table from a pid on, by rising pid
unfoldable pub thread_blocks : Riot → ℕ → Bool → ℕ → Text
unfolding add_block
thread_blocks r depth b p = fold (add_block r depth b) [] r p

-- The blocks from a thread on are its own and those of the next pid.
thread_blocks-next :
    (r : Riot) (depth : ℕ) (b : Bool) (p q : ℕ) (t : Thread) (out : Text)
    → p ≤ r.pid_last
    → r.sched_threads p ≡ some t
    → IsNextPid r p q
    → out ++ thread_block r depth b p t ++ thread_blocks r depth b q
      ≡ out ++ thread_blocks r depth b p
unfolding thread_blocks add_block
thread_blocks-next r depth b p q t out h live n = rw (
  fold-some (add_block r depth b) [] r p t h live,
  fold-IsNextPid (add_block r depth b) [] r p q n,
  append_assoc out (thread_block r depth b p t) (fold (add_block r depth b) [] r q),
)

thread_blocks_past :
    (r : Riot) (depth : ℕ) (b : Bool) (q : ℕ) → r.pid_last < q → thread_blocks r depth b q ≡ []
unfolding thread_blocks
thread_blocks_past r depth b q h = fold_past (add_block r depth b) [] r q h

module _ (r : Riot) (p : ℕ) (t : Thread) (g : Globals) (h : p ≤ r.pid_last)
    (live : r.sched_threads p ≡ some t) (decimal : Decimal r) where
  pub tree_r-thread :
      (depth : ℕ) (b : Bool) (k q : ℕ)
      → Named t
      → get_next_pid r p ≡ ok q
      → 6 ≤ r.fuel
      → tree_r r (suc (suc k)) depth b (init p 1) (at g 0)
        ≡ ok ((thread_block r depth b p t, ps_node (ps_data q 0)), at g 0)
  unfolding tree_r thread_block print_node_name get_name get_type gettype get_next_child
  tree_r-thread depth b k q named next fuel = rw (
    ◌>>=◌,
    getname_thread r p t (fresh r name_max) (at g 0) h live (length-fresh r name_max),
    has_nul-padded name_max t.name named.0 named.1,
    c_string-padded name_max t.name named.0 (omega (arith, named.1)),
    thread_next r g p q 0 uninit h (omega arith) next,
    tree_children-fields r p t g h live decimal (depth + 1) b q k 4 0 r.fuel
        (indent r depth ++ codes "- " ++ t.name ++ codes "/\n") (omega arith) fuel,
  )

module _ (r : Riot) (depth : ℕ) (b : Bool) (g : Globals) (decimal : Decimal r) (fuel : 6 ≤ r.fuel)
    (pos : 0 < r.pid_first) where
  -- One round of the loop over the threads.
  tree_children-thread :
      (k j p q q' : ℕ) (t : Thread) (out : Text)
      → p ≤ r.pid_last
      → r.sched_threads p ≡ some t
      → Named t
      → get_next_pid r p ≡ ok q'
      → tree_children r
          (tree_r r (suc (suc j)) depth b)
          (suc k)
          (ps_node (ps_data q 2))
          (init p 1)
          out
          (at g 0)
        ≡ and_then
            (get_next_child r (ps_node (ps_data q 2)) (ps_node (ps_data q' 0)) (at g 0))
            (λ s.
              tree_children r
                (tree_r r (suc (suc j)) depth b)
                k
                s.0
                s.1
                (out ++ thread_block r depth b p t))
  unfolding tree_children
  tree_children-thread k j p q q' t out h live named next =
      rw (is_null-ps, ◌>>=◌, tree_r-thread r p t g h live decimal depth b j q' named next fuel)

  tree_children-threads :
      (k j p q : ℕ) (t : Thread) (ts : List Thread) (out : Text)
      → r.pid_first ≤ p
      → p ≤ r.pid_last
      → r.sched_threads p ≡ some t
      → IsNextPid r p q
      → get_next_pid r p ≡ ok q
      → threads r q ≡ ts
      → All Named (t ∷ ts)
      → length ts + 1 < k
      → (last : ℕ) × (tree_children r
            (tree_r r (suc (suc j)) depth b)
            k
            (ps_node (ps_data q 2))
            (init p 1)
            out
            (at g 0)
          ≡ ok ((out ++ thread_blocks r depth b p, ps_node (ps_data last 2)), at g 0))
  tree_children-threads zero j p q t ts out lo hi live n found e named f = absurd (omega arith)
  tree_children-threads (suc zero) j p q t ts out lo hi live n found e named f =
      absurd (omega arith)
  tree_children-threads (suc (suc k)) j p q t [] out lo hi live n found e named f = (
    q,
    tree_children-thread (suc k) j p q q t out hi live named.0 found
        ∙ rw
            (
              no_process r q (ps_node (ps_data q 0)) (at g 0) (no_thread r p q n e),
              tree_children-end r (at g 0) (tree_r r (suc (suc j)) depth b) (suc k)
                  (ps_node (ps_data q 2)) (out ++ thread_block r depth b p t) (omega arith),
            )
            (rw (
              ← thread_blocks-next r depth b p q t out hi live n,
              thread_blocks_past r depth b q (no_thread r p q n e),
              append-nil,
            )),
  )
  tree_children-threads (suc (suc k)) j p q t (t' ∷ ts) out lo hi live n found e (named, rest) f =
      let (hi', live', e') = next_thread r p q t' ts n e in
      let lo' : r.pid_first ≤ q = omega (arith, n.above) in
      let (q', found', n') = get_next_pid-IsNextPid r q pos lo' hi' in
      let (last, tail) =
        tree_children-threads (suc k) j q q' t' ts (out ++ thread_block r depth b p t) lo' hi' live'
          n' found' (sym (threads-IsNextPid r q q' n') ∙ e') rest (omega arith) in
      (
        last,
        tree_children-thread (suc k) j p q q t out hi live named found
            ∙ rw (next_process r q q' (ps_node (ps_data q 0)) (at g 0) hi' found') (
                tail
                ∙ ap (λ s. ok ((s, ps_node (ps_data last 2)), at g 0))
                    (thread_blocks-next r depth b p q t out hi live n)),
      )

module _ (r : Riot) (g : Globals) where
  print_node_name-new_ps_node :
      (depth : ℕ)
      → print_node_name r depth (new_ps_node r) (at g 0)
        ≡ ok (indent r depth ++ codes "- " ++ codes "ps", at g 0)
  unfolding print_node_name get_name new_ps_node Ps.getname
  print_node_name-new_ps_node depth =
      rw (◌>>=◌, strncpy-padded name_max (fresh r name_max) (codes "ps") (length-fresh r name_max))
        refl

  -- For _tree_r on the branch of the threads, from any depth and with or without values: it prints
  -- the name of the branch, and for every thread of the scheduler's table, by rising pid, its name
  -- one level deeper and its five fields two levels deeper, and with values the pid, the state, the
  -- priority, the size of the stack and the bytes used of it. `_field_count` starts and ends at 0.
  -- Pids are positive, the first pid has a thread, names and decimal numbers are C strings, the names
  -- are shorter than DB_NODE_NAME_MAX, and the loops have fuel for the fields and the threads.
  pub tree_r-new_ps_node :
      (depth : ℕ) (b : Bool) (k : ℕ) (t : Thread)
      → Decimal r
      → 6 ≤ r.fuel
      → 0 < r.pid_first
      → r.pid_first ≤ r.pid_last
      → r.sched_threads r.pid_first ≡ some t
      → All Named (threads r r.pid_first)
      → length (threads r r.pid_first) < r.fuel
      → (end' : ℕ) × (tree_r r (suc (suc (suc k))) depth b (new_ps_node r) (at g 0)
          ≡ ok (
            (
              indent r depth
                  ++ codes "- "
                  ++ codes "ps"
                  ++ codes "/\n"
                  ++ thread_blocks r (depth + 1) b r.pid_first,
              init end' 2,
            ),
            at g 0,
          ))
  unfolding tree_r get_type gettype new_ps_node
  tree_r-new_ps_node depth b k t decimal fuel pos some_pid live named rounds =
      let p = r.pid_first in
      let (q, found, n) = get_next_pid-IsNextPid r p pos (omega arith) some_pid in
      let all : threads r p ≡ t ∷ threads r q =
        threads-some r p t some_pid live ∙ rw (threads-IsNextPid r p q n) in
      let named' = subst (All Named) all named in
      let (last, e) =
        tree_children-threads r (depth + 1) b g decimal fuel pos r.fuel k p q t (threads r q)
          (indent r depth ++ codes "- " ++ codes "ps" ++ codes "/\n") (omega arith) some_pid live n
          found refl named' (ground (arith, all)) in
      (
        last,
        rw
            (
              ◌>>=◌,
              print_node_name-new_ps_node depth,
              next_process r p q uninit (at g 0) some_pid found,
            )
            e,
      )
