-- ===== src/Coap/Unterminated.antt =====
-- A thread whose name fills the array that ps.c copies it into, in the listings of `dcaq` and CoAP.
use dca.Common.{
  ℕ, zero, suc, [], ◌≤◌, ◌<◌, ◌≡◌, false, some, arith, Text, Buffer, NoNul, has_nul, padded, fault,
  out_of_bounds, length, has_nul-full,
}
use dca.Riot.{Riot, Thread, fresh, length-fresh}
use dca.State.{Globals, ◌>>=◌}
use dca.Node.{name_max, ps_node, uninit}
use dca.Ps.{ps_data, init, new_ps_node, gettype}
use dca.Ps.Pids.{get_next_pid-IsNextPid}
use dca.Db.Ops.{get_type, get_name}
use dca.Db.Ops.Null.{is_null-ps}
use dca.Shell.{list_children, query}
use dca.Shell.Processes.{getname_thread, next_process}
use dca.Coap.{list_names, answer}

module _ (r : Riot) (p q : ℕ) (t : Thread) (g : Globals) (h : p ≤ r.pid_last)
    (live : r.sched_threads p ≡ some t) (full : has_nul (padded name_max t.name) ≡ false) where
  list_children-unterminated :
      (k : ℕ) (buf : Buffer) (out : Text)
      → 0 < k
      → length buf ≡ name_max
      → list_children r k (ps_node (ps_data q 2)) (init p 1) buf out g ≡ fault out_of_bounds
  unfolding list_children get_name
  list_children-unterminated zero buf out fuel size = absurd (omega arith)
  list_children-unterminated (suc k) buf out fuel size =
      rw (is_null-ps, ◌>>=◌, getname_thread r p t buf g h live size, full)

  list_names-unterminated :
      (k : ℕ) (buf : Buffer) (val : Text)
      → 0 < k
      → length buf ≡ name_max
      → list_names r k (ps_node (ps_data q 2)) (init p 1) buf val g ≡ fault out_of_bounds
  unfolding list_names get_name
  list_names-unterminated zero buf val fuel size = absurd (omega arith)
  list_names-unterminated (suc k) buf val fuel size =
      rw (is_null-ps, ◌>>=◌, getname_thread r p t buf g h live size, full)

-- Where the first thread of the scheduler's table has a name of DB_NODE_NAME_MAX bytes or more, the
-- listing of the branch of the threads reads past the end of the array of the name, which has no NUL:
-- so do `dcaq` and the CoAP handler. Pids are positive, and the fuel allows one round.
pub query-answer_unterminated :
    (r : Riot) (path : Text) (t : Thread) (g : Globals)
    → 0 < r.pid_first
    → r.pid_first ≤ r.pid_last
    → r.sched_threads r.pid_first ≡ some t
    → NoNul t.name
    → name_max ≤ length t.name
    → 0 < r.fuel
    → (query r path (new_ps_node r) g ≡ fault out_of_bounds)
      × (answer r (new_ps_node r) g ≡ fault out_of_bounds)
unfolding query answer get_type gettype new_ps_node
query-answer_unterminated r path t g pos some_pid live nul long fuel =
    let p = r.pid_first in
    let (q, found, n) = get_next_pid-IsNextPid r p pos (omega arith) some_pid in
    let full = has_nul-full name_max name_max t.name nul long in
    let size = length-fresh r name_max in
    (
      rw (
        ◌>>=◌,
        next_process r p q uninit g some_pid found,
        list_children-unterminated r p q t g some_pid live full r.fuel (fresh r name_max) [] fuel
            size,
      ),
      rw (
        ◌>>=◌,
        next_process r p q uninit g some_pid found,
        list_names-unterminated r p q t g some_pid live full r.fuel (fresh r name_max) [] fuel size,
      ),
    )
