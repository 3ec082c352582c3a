-- ===== src/Runtime.antt =====
-- runtime.c: the values of the branch `runtime`, computed over the scheduler's table; and
-- network.c: the number of network interfaces.
pub mod Totals
use dca.Common.{
  ℕ, zero, suc, ◌+◌, ◌-◌, ◌%◌, ◌^◌, Bool, true, false, Option, none, some, ℤ, pos, int32, codes,
  bytes_eq, fault, no_fuel, ◌==◌, if◌then◌else◌,
}
use dca.Riot.{Riot, Thread, Status}
use dca.State.{Cmd, pure, ◌>>=◌}

abbrev pub is_active : Status → Bool
is_active Status.running = true
is_active Status.pending = true
is_active _ = false

module _ (r : Riot) where
  -- the rounds of `for (i = KERNEL_PID_FIRST; i <= KERNEL_PID_LAST; i++)`
  abbrev pub num_pids : ℕ
  num_pids = r.pid_last + 1 - r.pid_first

  -- what one round of runtime_get_cpu_load adds
  abbrev pub load_of : Option Thread → ℕ
  load_of none = 0
  load_of (some p) = if is_active p.status then 1 else 0

  unfoldable pub load_loop : ℕ → ℕ → ℕ → ℕ
  load_loop zero i load = load
  load_loop (suc n) i load = load_loop n (i + 1) (load + load_of (r.sched_threads i))

  -- runtime_get_cpu_load
  unfoldable pub get_cpu_load : ℤ
  unfolding load_loop
  get_cpu_load = int32 (load_loop num_pids r.pid_first 0)

  abbrev pub is_idle : Option Thread → Bool
  is_idle none = false
  is_idle (some p) = bytes_eq p.name (codes "idle")

  abbrev pub ticks_of : ℕ → Option Thread → ℕ
  ticks_of i none = 0
  ticks_of i (some p) = r.runtime_ticks i

  -- `rt_idle` and `rt_sum` are uint64_t
  util_loop : ℕ → ℕ → ℕ → ℕ → ℕ × ℕ
  util_loop zero i rt_idle rt_sum = (rt_idle, rt_sum)
  util_loop (suc n) i rt_idle rt_sum =
      util_loop n (i + 1) (if is_idle (r.sched_threads i) then r.runtime_ticks i else rt_idle)
        ((rt_sum + ticks_of i (r.sched_threads i)) % 2 ^ 64)

  -- runtime_get_cpu_util
  unfoldable pub get_cpu_util : ℕ
  unfolding util_loop
  get_cpu_util =
      let (rt_idle, rt_sum) = util_loop num_pids r.pid_first 0 0 in
      r.float_mul
        (r.float_sub (r.float_of_i32 (pos 1))
          (r.float_div (r.float_of_u64 rt_idle) (r.float_of_u64 rt_sum)))
        (r.float_of_i32 (pos 100))

  -- runtime_get_num_processes
  unfoldable pub get_num_processes : ℤ
  get_num_processes = int32 r.sched_num_threads

  -- what one round of runtime_get_stack_used adds, as a 32-bit pattern
  abbrev pub used_of : Option Thread → ℕ
  used_of none = 0
  used_of (some p) = p.stack_size + (2 ^ 32 - r.measure_stack_free p.stack_start % 2 ^ 32)

  stack_loop : ℕ → ℕ → ℕ → ℕ
  stack_loop zero i stack_used = stack_used
  stack_loop (suc n) i stack_used =
      stack_loop n (i + 1) ((stack_used + used_of (r.sched_threads i)) % 2 ^ 32)

  -- runtime_get_stack_used
  unfoldable pub get_stack_used : ℤ
  unfolding stack_loop
  get_stack_used = int32 (stack_loop num_pids r.pid_first 0)

  -- runtime_get_heap
  unfoldable pub get_heap : ℤ
  get_heap = pos 0

  -- The loop of network_get_num_ifaces, on fuel.
  unfoldable pub iface_loop : ℕ → ℕ → ℕ → Cmd ℕ
  iface_loop zero netif res = λ g. fault no_fuel
  iface_loop (suc k) netif res =
      if r.netif_iter netif == 0 then pure res else iface_loop k (r.netif_iter netif) (res + 1)

  -- network_get_num_ifaces
  unfoldable pub get_num_ifaces : Cmd ℤ
  unfolding iface_loop
  get_num_ifaces = do res ← iface_loop r.fuel 0 0; pure (int32 res)
