-- ===== src/Shell/Processes.antt =====
-- What `dcaq` prints for the branch of the threads.
use dca.Common.{
  ℕ, zero, suc, ◌+◌, ◌≤◌, ◌<◌, ◌≡◌, refl, ◌∙◌, sym, some, arith, Text, Buffer, NoNul, All, List, [],
  ◌∷◌, ◌++◌, ok, length, padded, length-padded, c_string-padded, has_nul-padded, le→leb,
  strncpy-padded,
}
use mathlib.Core.List.{append_assoc}
use mathlib.Core.Path.{subst}
use dca.Riot.{Riot, Thread, fresh, length-fresh}
use dca.State.{Globals, and_then, ◌>>=◌}
use dca.Node.{Node, name_max, null_node, ps_node, uninit}
use dca.Ps
use dca.Ps.{ps_data, init, get_next_pid, new_ps_node, gettype}
use dca.Ps.Pids.{IsNextPid, get_next_pid-IsNextPid}
use dca.Ps.Table.{threads, threads-some, threads-IsNextPid, next_thread, no_thread}
use dca.Ps.Step.{branch_next, branch_end}
use dca.Db.Ops.{get_type, get_name, get_next_child}
use dca.Db.Ops.Null.{is_null-ps}
use dca.Shell.{list_children, query, newline}
use dca.Shell.Devices.{list_end}
use dca.Shell.Threads.{lines}

-- A thread's name is a C string and fits the array that it is copied into,
-- with its NUL.
abbrev pub Named : Thread → Type 0
Named t = NoNul t.name × (length t.name < name_max)

unfoldable pub thread_names : List Thread → List Text
thread_names [] = []
thread_names (t ∷ ts) = t.name ∷ thread_names ts

module _ (r : Riot) where
  pub getname_thread :
      (p : ℕ) (t : Thread) (buf : Buffer) (g : Globals)
      → p ≤ r.pid_last
      → r.sched_threads p ≡ some t
      → length buf ≡ name_max
      → Ps.getname r (ps_data p 1) buf g ≡ ok (padded name_max t.name, g)
  unfolding Ps.getname
  getname_thread p t buf g h at full =
      rw (◌>>=◌, le→leb p r.pid_last h, at, strncpy-padded name_max buf t.name full)

  -- One round, for the thread of pid p.
  list_thread :
      (k p q : ℕ) (t : Thread) (buf : Buffer) (out : Text) (g : Globals)
      → p ≤ r.pid_last
      → r.sched_threads p ≡ some t
      → Named t
      → length buf ≡ name_max
      → list_children r (suc k) (ps_node (ps_data q 2)) (init p 1) buf out g
        ≡ and_then
            (get_next_child r (ps_node (ps_data q 2)) (init p 1) g)
            λ s. list_children r k s.0 s.1 (padded name_max t.name) (out ++ t.name ++ newline)
  unfolding list_children get_name
  list_thread k p q t buf out g h at named full = rw (
    is_null-ps,
    ◌>>=◌,
    getname_thread p t buf g h at full,
    has_nul-padded name_max t.name named.0 named.1,
    c_string-padded name_max t.name named.0 (omega (arith, named.1)),
  )

  pub next_process :
      (p q : ℕ) (child : Node) (g : Globals)
      → p ≤ r.pid_last
      → get_next_pid r p ≡ ok q
      → get_next_child r (ps_node (ps_data p 2)) child g ≡ ok ((ps_node (ps_data q 2), init p 1), g)
  unfolding get_next_child
  next_process p q child g h e = rw (◌>>=◌, branch_next r g p q child h e)

  pub no_process :
      (p : ℕ) (child : Node) (g : Globals)
      → r.pid_last < p
      → get_next_child r (ps_node (ps_data p 2)) child g
        ≡ ok ((ps_node (ps_data p 2), null_node), g)
  unfolding get_next_child
  no_process p child g h = rw (◌>>=◌, branch_end r g p child h)

  list_threads :
      (k p q : ℕ) (t : Thread) (ts : List Thread) (buf : Buffer) (out : Text) (g : Globals)
      → 0 < r.pid_first
      → r.pid_first ≤ p
      → p ≤ r.pid_last
      → r.sched_threads p ≡ some t
      → IsNextPid r p q
      → threads r q ≡ ts
      → All Named (t ∷ ts)
      → length ts + 1 < k
      → length buf ≡ name_max
      → list_children r k (ps_node (ps_data q 2)) (init p 1) buf out g
        ≡ ok (out ++ lines (thread_names (t ∷ ts)), g)
  unfolding thread_names
  list_threads zero p q t ts buf out g pos lo hi at n e named fuel full = absurd (omega arith)
  list_threads (suc zero) p q t ts buf out g pos lo hi at n e named fuel full = absurd (omega arith)
  list_threads (suc (suc k)) p q t [] buf out g pos lo hi at n e named fuel full =
      list_thread (suc k) p q t buf out g hi at named.0 full
      ∙ rw (no_process q (init p 1) g (no_thread r p q n e)) (
          list_end r (suc k) (ps_node (ps_data q 2)) (padded name_max t.name)
            (out ++ t.name ++ newline) g (omega arith)
          ∙ simp append_assoc)
  list_threads (suc (suc k)) p q t (t' ∷ ts) buf out g pos lo hi at n e (named, rest) fuel full =
      let (hi', at', e') = next_thread r p q t' ts n e in
      let lo' : r.pid_first ≤ q = omega (arith, n.above) in
      let (q', found, n') = get_next_pid-IsNextPid r q pos lo' hi' in
      list_thread (suc k) p q t buf out g hi at named full
      ∙ rw (next_process q q' (init p 1) g hi' found) (
          list_threads (suc k) q q' t' ts (padded name_max t.name) (out ++ t.name ++ newline) g pos
            lo' hi' at' n' (sym (threads-IsNextPid r q q' n') ∙ e') rest (omega arith)
            (length-padded name_max t.name)
          ∙ simp append_assoc)

  -- On the branch of the threads `dcaq` prints the name of every thread of the scheduler's table, by
  -- rising pid, and changes no variable. Pids are positive, the first pid has a thread, each name is
  -- a C string shorter than DB_NODE_NAME_MAX, and there are fewer threads r than there is fuel.
  pub query_processes :
      (path : Text) (t : Thread) (g : Globals)
      → 0 < r.pid_first
      → r.pid_first ≤ r.pid_last
      → r.sched_threads r.pid_first ≡ some t
      → All Named (threads r r.pid_first)
      → length (threads r r.pid_first) < r.fuel
      → query r path (new_ps_node r) g ≡ ok ((lines (thread_names (threads r r.pid_first)), 0), g)
  unfolding query get_type gettype new_ps_node
  query_processes path t g pos some_pid at named fuel =
      let p = r.pid_first in
      let (q, found, n) = get_next_pid-IsNextPid r p pos (omega arith) some_pid in
      let all : threads r p ≡ t ∷ threads r q =
        threads-some r p t some_pid at ∙ rw (threads-IsNextPid r p q n) in
      let named' = subst (All Named) all named in
      rw (
        ◌>>=◌,
        next_process p q uninit g some_pid found,
        all,
        list_threads r.fuel p q t (threads r q) (fresh r name_max) [] g pos (omega arith) some_pid
            at n refl named' (ground (arith, all)) (length-fresh r name_max),
      )
