-- ===== src/Ps/Table.antt =====
-- The threads of the scheduler's table in the order of their pids.
use dca.Common.{
  leb, Bool-cases, ◌≢◌, ℕ, zero, suc, ◌+◌, ◌-◌, ◌≤◌, ◌<◌, ◌≡◌, ◌∙◌, sym, Option, some, none, arith,
  List, [], ◌∷◌, Option-cases, inl, inr,
}
use dca.Riot.{Riot, Thread}
use dca.Ps.Pids.{IsNextPid}

-- A fold over the threads of the scheduler's table from a pid on: `step` takes the pid, the thread,
-- and what the threads behind it give.
module _ {A : Type 0} (step : ℕ → Thread → A → A) (empty : A) where
  unfoldable pub keep : Option Thread → ℕ → A → A
  keep none p rest = rest
  keep (some t) p rest = step p t rest

  -- over n pids from i on
  unfoldable pub fold_from : Riot → ℕ → ℕ → A
  unfolding keep
  fold_from r zero i = empty
  fold_from r (suc n) i = keep (r.sched_threads i) i (fold_from r n (suc i))

  unfoldable pub fold : Riot → ℕ → A
  unfolding fold_from
  fold r p = fold_from r (r.pid_last + 1 - p) p

  module _ (r : Riot) where
    fold-none : (p : ℕ) → p ≤ r.pid_last → r.sched_threads p ≡ none → fold r p ≡ fold r (suc p)
    unfolding fold fold_from keep
    fold-none p h e =
        let size : r.pid_last + 1 - p ≡ suc (r.pid_last + 1 - suc p) = omega arith in rw (size, e)

    pub fold-some :
        (p : ℕ) (t : Thread)
        → p ≤ r.pid_last
        → r.sched_threads p ≡ some t
        → fold r p ≡ step p t (fold r (suc p))
    unfolding fold fold_from keep
    fold-some p t h e =
        let size : r.pid_last + 1 - p ≡ suc (r.pid_last + 1 - suc p) = omega arith in rw (size, e)

    pub fold_past : (p : ℕ) → r.pid_last < p → fold r p ≡ empty
    unfolding fold fold_from
    fold_past p h = let size : r.pid_last + 1 - p ≡ 0 = omega arith in rw size

    -- pids without a thread are passed over
    fold_skip :
        (m p q : ℕ)
        → m + p ≡ q
        → q ≤ r.pid_last + 1
        → ((i : ℕ) → p ≤ i → i < q → r.sched_threads i ≡ none)
        → fold r p ≡ fold r q
    fold_skip zero p q e within none_there = let here : p ≡ q = omega arith in rw here
    fold_skip (suc m) p q e within none_there =
        fold-none p (omega arith) (none_there p (omega arith) (omega arith))
        ∙ fold_skip m (suc p) q (omega arith) within (λ i a b. none_there i (omega arith) b)

    pub fold-IsNextPid : (p q : ℕ) → IsNextPid r p q → fold r (suc p) ≡ fold r q
    fold-IsNextPid p q n =
        fold_skip (q - suc p) (suc p) q (omega (arith, n.above)) n.within
          (λ i a b. n.skipped i (omega arith) b)

unfoldable add_thread : ℕ → Thread → List Thread → List Thread
add_thread p t ts = t ∷ ts

cons_not_nil : (t : Thread) (ts : List Thread) → t ∷ ts ≢ []
cons_not_nil t ts e = cc

module _ (r : Riot) where
  -- the threads of the table from pid p on
  unfoldable pub threads : ℕ → List Thread
  unfolding fold add_thread
  threads p = fold add_thread [] r p

  pub threads-some :
      (p : ℕ) (t : Thread)
      → p ≤ r.pid_last
      → r.sched_threads p ≡ some t
      → threads p ≡ t ∷ threads (suc p)
  unfolding threads add_thread
  threads-some p t h e = fold-some add_thread [] r p t h e

  threads_past : (p : ℕ) → r.pid_last < p → threads p ≡ []
  unfolding threads
  threads_past p h = fold_past add_thread [] r p h

  pub threads-IsNextPid : (p q : ℕ) → IsNextPid r p q → threads (suc p) ≡ threads q
  unfolding threads
  threads-IsNextPid p q n = fold-IsNextPid add_thread [] r p q n

  -- What a next pid has is the head of the threads from it on.
  pub next_thread :
      (p q : ℕ) (t : Thread) (ts : List Thread)
      → IsNextPid r p q
      → threads q ≡ t ∷ ts
      → (q ≤ r.pid_last) × (r.sched_threads q ≡ some t) × (threads (suc q) ≡ ts)
  next_thread p q t ts n e = elim (Bool-cases (leb q r.pid_last)) [
    | inr past ↦ absurd (cons_not_nil t ts (sym e ∙ threads_past q (ground arith)))
    | inl inside ↦ elim (Option-cases (r.sched_threads q)) [
      | inl gone ↦ absurd (ground (arith, n.live))
      | inr (t', there) ↦
          (let same : t' ∷ threads (suc q) ≡ t ∷ ts =
              sym (threads-some q t' (ground arith) there) ∙ e in
            (ground arith, cc, cc))
    ]
  ]

  pub no_thread : (p q : ℕ) → IsNextPid r p q → threads q ≡ [] → r.pid_last < q
  no_thread p q n e = elim (Bool-cases (leb q r.pid_last)) [
    | inr past ↦ ground arith
    | inl inside ↦ elim (Option-cases (r.sched_threads q)) [
      | inl gone ↦ absurd (ground (arith, n.live))
      | inr (t', there) ↦
          absurd
            (cons_not_nil t' (threads (suc q)) (sym (threads-some q t' (ground arith) there) ∙ e))
    ]
  ]
