-- ===== src/Runtime/Totals.antt =====
-- What the loops of runtime.c and network.c add up.
use dca.Common.{
  ℕ, zero, suc, ◌+◌, ◌≤◌, ◌<◌, ◌≡◌, ◌∙◌, ap, false, some, none, Option, arith, List, [], ◌∷◌, ok,
  int32, ◌==◌, if◌then◌else◌, length,
}
use dca.Riot.{Riot, Thread}
use dca.State.{Globals, ◌>>=◌}
use dca.Runtime.{load_of, is_active, num_pids, load_loop, get_cpu_load, iface_loop, get_num_ifaces}

module _ (r : Riot) where
  -- From `netif` on, netif_iter gives these interfaces and then NULL.
  abbrev pub Follows : ℕ → List ℕ → Type 0
  Follows netif [] = r.netif_iter netif ≡ 0
  Follows netif (i ∷ is) = (r.netif_iter netif ≡ i) × ((i == 0) ≡ false) × Follows i is

  iface_loop-Follows :
      (k netif res m : ℕ) (is : List ℕ) (g : Globals)
      → Follows netif is
      → length is < k
      → res + length is ≡ m
      → iface_loop r k netif res g ≡ ok (m, g)
  unfolding iface_loop
  iface_loop-Follows zero netif res m is g h f e = absurd (omega arith)
  iface_loop-Follows (suc k) netif res m [] g h f e = rw h (ground arith)
  iface_loop-Follows (suc k) netif res m (i ∷ is) g (next_is, nz, next) f e =
      rw (next_is, nz) (iface_loop-Follows k i (res + 1) m is g next (omega arith) (omega arith))

  -- On fewer interfaces than there is fuel, network_get_num_ifaces returns their number, as an
  -- int32_t.
  pub get_num_ifaces-Follows :
      (is : List ℕ) (g : Globals)
      → Follows 0 is
      → length is < r.fuel
      → get_num_ifaces r g ≡ ok (int32 (length is), g)
  unfolding get_num_ifaces
  get_num_ifaces-Follows is g h f =
      rw (◌>>=◌, iface_loop-Follows r.fuel 0 0 (length is) is g h f (omega arith))

keep_active : Option Thread → List Thread → List Thread
keep_active none rest = rest
keep_active (some p) rest = if is_active p.status then p ∷ rest else rest

module _ (r : Riot) where
  -- the threads of n pids from i on that run or wait to run
  unfoldable pub active_threads : ℕ → ℕ → List Thread
  unfolding keep_active
  active_threads zero i = []
  active_threads (suc n) i = keep_active (r.sched_threads i) (active_threads n (i + 1))

  length-keep_active :
      (o : Option Thread) (rest : List Thread)
      → (length (keep_active o rest) ≡ load_of r o + length rest) × (load_of r o ≤ 1)
  unfolding keep_active
  length-keep_active none rest = (omega arith, omega arith)
  length-keep_active (some p) rest = (ground arith, ground arith)

  length-active_threads : (n i : ℕ) → length (active_threads n i) ≤ n
  unfolding active_threads
  length-active_threads zero i = omega arith
  length-active_threads (suc n) i =
      let (e, small) = length-keep_active (r.sched_threads i) (active_threads n (i + 1)) in
      omega (arith, length-active_threads n (i + 1))

  load_loop-active : (n i load : ℕ) → load_loop r n i load ≡ load + length (active_threads n i)
  unfolding load_loop active_threads
  load_loop-active zero i load = omega arith
  load_loop-active (suc n) i load =
      let (e, small) = length-keep_active (r.sched_threads i) (active_threads n (i + 1)) in
      load_loop-active n (i + 1) (load + load_of r (r.sched_threads i)) ∙ omega arith

  -- runtime_get_cpu_load returns how many threads of the table run or wait to run, as an int32_t:
  -- a number of threads, at most the number of pids of the table.
  pub get_cpu_load-number :
      (get_cpu_load r ≡ int32 (length (active_threads (num_pids r) r.pid_first)))
      × (length (active_threads (num_pids r) r.pid_first) ≤ num_pids r)
  unfolding get_cpu_load
  get_cpu_load-number = (
    ap int32 (load_loop-active (num_pids r) r.pid_first 0 ∙ omega arith),
    length-active_threads (num_pids r) r.pid_first,
  )
