-- ===== src/Ps/Pids.antt =====
-- _get_next_pid: the walk over the scheduler's table.
use dca.Common.{
  ℕ, zero, suc, ◌+◌, ◌≤◌, ◌<◌, ◌≡◌, inl, inr, ◌∙◌, Bool, true, false, Option, none, some, arith, ok,
  ltb, ◌==◌, Option-cases, Bool-cases,
}
use dca.Riot.{Riot, Thread}
use dca.Ps.{next_pid_loop, get_next_pid}

abbrev pub is_live : Option Thread → Bool
is_live none = false
is_live (some t) = true

module _ (r : Riot) where
  -- `q` is the first pid above `p` that has a thread, or KERNEL_PID_LAST + 1 if there is none.
  pub record IsNextPid (p q : ℕ) : Type 0 where
    pub above : p < q
    pub within : q ≤ r.pid_last + 1
    pub skipped : (i : ℕ) → p < i → i < q → r.sched_threads i ≡ none
    pub live : q ≤ r.pid_last → is_live (r.sched_threads q) ≡ true

module _ (r : Riot) (k p : ℕ) where
  loop_end : p ≡ r.pid_last → next_pid_loop r (suc k) p ≡ ok (r.pid_last + 1)
  unfolding next_pid_loop
  loop_end h = ground arith

  loop_live :
      (t : Thread)
      → p < r.pid_last
      → r.sched_threads (p + 1) ≡ some t
      → next_pid_loop r (suc k) p ≡ ok (p + 1)
  unfolding next_pid_loop
  loop_live t h e = ground arith

  loop_skip :
      p < r.pid_last
      → r.sched_threads (p + 1) ≡ none
      → next_pid_loop r (suc k) p ≡ next_pid_loop r k (p + 1)
  unfolding next_pid_loop
  loop_skip h e = ground arith

module _ (r : Riot) where
  IsNextPid-end : (p : ℕ) → p ≡ r.pid_last → IsNextPid r p (r.pid_last + 1)
  IsNextPid-end p h = record {
    above = omega arith;
    within = omega arith;
    skipped = λ i a b. absurd (omega arith);
    live = λ h. absurd (omega arith);
  }

  IsNextPid-live :
      (p : ℕ) (t : Thread)
      → p < r.pid_last
      → r.sched_threads (p + 1) ≡ some t
      → IsNextPid r p (p + 1)
  IsNextPid-live p t h e = record {
    above = omega arith;
    within = omega arith;
    skipped = λ i a b. absurd (omega arith);
    live = λ h. rw e;
  }

  -- every pid above `p` is `p + 1` or above that
  split_above :
      (p i : ℕ)
      → p < i
      → r.sched_threads (p + 1) ≡ none
      → (p + 1 < i → r.sched_threads i ≡ none)
      → r.sched_threads i ≡ none
  split_above p i above first rest = elim (Bool-cases (i == p + 1)) [
    | inl e ↦ (let e' : i ≡ p + 1 = ground arith in rw e' first)
    | inr e ↦ rest (ground arith)
  ]

  IsNextPid-skip :
      (p q : ℕ) → r.sched_threads (p + 1) ≡ none → IsNextPid r (p + 1) q → IsNextPid r p q
  IsNextPid-skip p q e n = record {
    above = omega (arith, n.above);
    within = n.within;
    skipped = λ i a b. split_above p i a e (λ a'. n.skipped i a' b);
    live = n.live;
  }

  next_pid_loop-IsNextPid :
      (k p : ℕ)
      → p ≤ r.pid_last
      → r.pid_last < k + p
      → (q : ℕ) × (next_pid_loop r k p ≡ ok q) × IsNextPid r p q
  next_pid_loop-IsNextPid zero p h fuel = absurd (omega arith)
  next_pid_loop-IsNextPid (suc k) p h fuel = elim (Bool-cases (ltb p r.pid_last)) [
    | inr last ↦ (r.pid_last + 1, loop_end r k p (ground arith), IsNextPid-end p (ground arith))
    | inl below ↦ elim (Option-cases (r.sched_threads (p + 1))) [
      | inr (t, e) ↦
          (p + 1, loop_live r k p t (ground arith) e, IsNextPid-live p t (ground arith) e)
      | inl e ↦
          (let (q, found, next) = next_pid_loop-IsNextPid k (p + 1) (ground arith) (omega arith) in
            (q, loop_skip r k p (ground arith) e ∙ found, IsNextPid-skip p q e next))
    ]
  ]

  -- For a pid of the table, where pids are positive, _get_next_pid ends and returns the first pid
  -- above it that has a thread, or KERNEL_PID_LAST + 1 if there is none.
  pub get_next_pid-IsNextPid :
      (p : ℕ)
      → 0 < r.pid_first
      → r.pid_first ≤ p
      → p ≤ r.pid_last
      → (q : ℕ) × (get_next_pid r p ≡ ok q) × IsNextPid r p q
  unfolding get_next_pid
  get_next_pid-IsNextPid p h lo hi =
      let (q, found, next) = next_pid_loop-IsNextPid (r.pid_last + 1) p hi (omega arith) in
      (q, ground (arith, found), next)
