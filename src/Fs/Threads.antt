-- ===== src/Fs/Threads.antt =====
-- dcafs_readdir on the directory of a thread.
use dca.Common.{
  ℕ, ◌≤◌, ◌<◌, ◌≡◌, some, arith, Buffer, ◌++◌, ok, fault, null_deref, length, drop, padded,
}
use dca.Riot.{Riot}
use dca.State.{Globals, ◌>>=◌}
use dca.Node.{Node, name_max, ps_node, uninit}
use dca.Ps.{ps_data, init}
use dca.Ps.Pids.{get_next_pid-IsNextPid}
use dca.Ps.Step.{at, fields, nth, thread_next, field_next, getname_field}
use dca.Db.Ops.{is_null, get_type, get_name, get_next_child}
use dca.Db.Ops.Null.{is_null-ps}
use dca.Fs.{readdir}

-- The first dcafs_readdir of a thread's directory writes the name of the field that `_field_count`
-- gives. Unless that is the last field, the second one leaves its new child variable unwritten and
-- reads the operations through it, which C leaves undefined. The thread may be any pid of the
-- table, pids are positive, and the name buffer has at least 30 bytes.
pub readdir-thread :
    (r : Riot) (p c : ℕ) (g : Globals) (d_name d_name' : Buffer)
    → 0 < r.pid_first
    → r.pid_first ≤ p
    → p ≤ r.pid_last
    → c < 4
    → name_max ≤ length d_name
    → (dir : Node) × (readdir r (init p 1) d_name (at g c)
        ≡ ok ((dir, some (padded name_max (nth fields c) ++ drop name_max d_name)), at g c))
      × (readdir r dir d_name' (at g c) ≡ fault null_deref)
unfolding readdir get_next_child get_name
readdir-thread r p c g d_name d_name' pos lo hi few room =
    let (q, found, next) = get_next_pid-IsNextPid r p pos lo hi in
    (
      ps_node (ps_data q 0),
      rw (
        ◌>>=◌,
        thread_next r g p q c uninit hi (omega arith) found,
        is_null-ps,
        getname_field r g p c d_name hi (omega arith) room,
      ),
      unfold is_null get_type in rw (◌>>=◌, field_next r g q c uninit few),
    )
