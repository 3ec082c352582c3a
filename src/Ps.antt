-- ===== src/Ps.antt =====
-- ps.c: the branch `runtime/ps`, which lists the threads and five fields of each. A node carries a
-- pid and its level (2: the branch, 1: a thread, 0: a field); which field a field node is stands in
-- the global `_field_count`.
pub mod Pids
pub mod Step
pub mod Table
use dca.Common.{
  strncpy, ℕ, zero, suc, ◌+◌, ◌-◌, ◌%◌, ◌^◌, ◌&&◌, Option, none, some, Text, codes, Buffer,
  c_string, ℤ, negsuc, int32, Result, ok, fault, assertion, out_of_bounds, no_fuel, leb, ◌==◌,
  if◌then◌else◌,
}
use dca.Riot.{Riot, Thread, Status}
use dca.State.{Cmd, pure, lift, gets, modify, assert, assert_some, ◌>>=◌, ◌>>◌}
use dca.Node.{name_max, NodeType, inner, int, str, Node, PsData, null_node, ps_node, int8_lt}

-- thread_property_t
abbrev pub count : ℕ
count = 5

abbrev pub field_name : ℕ → Option Text
field_name i =
    if i == 0
    then some (codes "pid")
    else if i == 1
    then some (codes "state")
    else if i == 2
    then some (codes "priority")
    else if i == 3
    then some (codes "total stack")
    else if i == 4
    then some (codes "stack used")
    else none

unfoldable pub state_name : Status → Text
state_name Status.stopped = codes "stopped"
state_name Status.zombie = codes "zombie"
state_name Status.sleeping = codes "sleeping"
state_name Status.mutex_blocked = codes "bl mutex"
state_name Status.receive_blocked = codes "bl rx"
state_name Status.send_blocked = codes "bl send"
state_name Status.reply_blocked = codes "bl reply"
state_name Status.flag_blocked_any = codes "bl anyfl"
state_name Status.flag_blocked_all = codes "bl allfl"
state_name Status.mbox_blocked = codes "bl mbox"
state_name Status.cond_blocked = codes "bl cond"
state_name Status.running = codes "running"
state_name Status.pending = codes "pending"

abbrev pub ps_data : ℕ → ℕ → PsData
ps_data pid is_root = record { pid = pid; is_root = is_root }

-- _ps_node_init
abbrev pub init : ℕ → ℕ → Node
init pid is_root = ps_node (ps_data pid is_root)

module _ (r : Riot) where
  -- sched_threads[pid]; the array ends at KERNEL_PID_LAST
  abbrev pub thread_at : ℕ → Result (Option Thread)
  thread_at pid = if leb pid r.pid_last then ok (r.sched_threads pid) else fault out_of_bounds

  -- The do-while loop of _get_next_pid, on fuel.
  next_pid_loop : ℕ → ℕ → Result ℕ
  next_pid_loop zero pid = fault no_fuel
  next_pid_loop (suc k) pid =
      let rest = next_pid_loop k (pid + 1) in
      if pid + 1 == r.pid_last + 1 then ok (r.pid_last + 1) else elim (thread_at (pid + 1)) [
        | fault f ↦ fault f
        | ok none ↦ if leb (pid + 1) r.pid_last then rest else ok (pid + 1)
        | ok (some t) ↦ ok (pid + 1)
      ]

  -- _get_next_pid. A kernel_pid_t is an int16_t, and KERNEL_PID_LAST + 2 fits.
  unfoldable pub get_next_pid : ℕ → Result ℕ
  unfolding next_pid_loop
  get_next_pid pid =
      if leb r.pid_first pid && leb pid (r.pid_last + 1)
      then next_pid_loop (r.pid_last + 1) pid
      else fault assertion

  -- db_new_ps_node
  unfoldable pub new_ps_node : Node
  new_ps_node = init r.pid_first 2

  -- assert(pid <= KERNEL_PID_LAST); p = sched_threads[pid]; assert(p != NULL);
  abbrev pub thread_of : PsData → Cmd Thread
  thread_of d = do assert (leb d.pid r.pid_last); p ← lift (thread_at d.pid); assert_some p

  -- `strncpy(name, field_names[..])` under a `switch` without a default
  abbrev write_name : Option Text → Buffer → Cmd Buffer
  write_name none name = pure name
  write_name (some s) name = lift (strncpy name s name_max)

  -- _ps_node_get_field_name
  unfoldable pub get_field_name : PsData → Buffer → Cmd Buffer
  get_field_name d name = do
    assert (leb d.pid r.pid_last)
    c ← gets (λ g. g.field_count)
    write_name (field_name c) name

  -- _ps_node_getname. The copy of `name` onto itself pads it again.
  unfoldable pub getname : PsData → Buffer → Cmd Buffer
  unfolding get_field_name
  getname d name =
      if d.is_root == 2
      then lift (strncpy name (codes "ps") name_max)
      else if d.is_root == 1
      then (do p ← thread_of d; lift (strncpy name p.name name_max))
      else do
        c ← gets (λ g. g.field_count)
        (if d.is_root == 0 && int8_lt c count
            then (do name ← get_field_name d name; lift (strncpy name (c_string name) name_max))
            else pure name)

  -- _ps_node_getnext_child: the node and `next_child` afterwards
  unfoldable pub getnext_child : PsData → Node → Cmd (PsData × Node)
  unfolding get_next_pid
  getnext_child d next_child =
      if d.is_root == 2
      then (if leb d.pid r.pid_last
          then (do pid ← lift (get_next_pid d.pid); pure (record d { pid = pid }, init d.pid 1))
          else pure (d, null_node))
      else if d.is_root == 1
      then (do
        c ← gets (λ g. g.field_count)
        (if leb d.pid r.pid_last && int8_lt c count
            then (do pid ← lift (get_next_pid d.pid); pure (ps_data pid 0, init d.pid 0))
            else pure (d, next_child)))
      else do
        c ← gets (λ g. g.field_count)
        (if c == count - 1
            then (do modify (λ g. record g { field_count = 0 }); pure (d, null_node))
            else do modify (λ g. record g { field_count = (c + 1) % 2 ^ 8 }); pure (d, next_child))

  -- _ps_node_getnext: `next` afterwards
  unfoldable pub getnext : PsData → Cmd Node
  unfolding get_next_pid
  getnext d =
      if d.is_root == 2
      then pure null_node
      else if leb d.pid r.pid_last
      then (do pid ← lift (get_next_pid d.pid); pure (init pid (if d.is_root == 1 then 1 else 0)))
      else pure null_node

  -- _ps_node_gettype
  unfoldable pub gettype : PsData → Cmd NodeType
  gettype d =
      if d.is_root == 2
      then pure inner
      else if d.is_root == 1
      then pure inner
      else do c ← gets (λ g. g.field_count); pure (if c == 1 then str else int)

  -- _ps_node_getsize
  unfoldable pub getsize : PsData → Cmd ℕ
  getsize d = if d.is_root == 2 then pure 0 else if d.is_root == 1 then pure 0 else pure 4

  -- what `case 4` computes: an int difference
  abbrev pub stack_used : Thread → ℤ
  stack_used t = int32 (t.stack_size + (2 ^ 32 - r.measure_stack_free t.stack_start % 2 ^ 32))

  -- _ps_node_getint_value
  unfoldable pub getint_value : PsData → Cmd ℤ
  getint_value d = do
    assert (leb d.pid r.pid_last)
    c ← gets (λ g. g.field_count)
    (if c == 0
        then pure (int32 d.pid)
        else if c == 2
        then (do p ← thread_of d; pure (int32 p.priority))
        else if c == 3
        then (do p ← thread_of d; pure (int32 p.stack_size))
        else if c == 4
        then (do p ← thread_of d; pure (stack_used p))
        else pure (negsuc 0))

  -- _ps_node_getstr_value: `value` afterwards and the size returned
  unfoldable pub getstr_value : PsData → Buffer → Cmd (Buffer × ℕ)
  unfolding state_name
  getstr_value d value = do
    p ← thread_of d
    c ← gets (λ g. g.field_count)
    value ← (if c == 1 then lift (strncpy value (state_name p.status) name_max) else pure value)
    pure (value, 88)
