-- ===== src/Db/Find/Threads.antt =====
-- The search of a thread in the branch of the threads.
use dca.Common.{
  ℕ, zero, suc, ◌+◌, ◌≤◌, ◌<◌, ◌≡◌, sym, ap, ◌∙◌, true, false, some, arith, Text, Buffer, length,
  padded, length-padded, inl, inr, le_lt_cases, Option-cases,
}
use mathlib.Core.Option.{some-injective}
use dca.Riot.{Riot, Thread}
use dca.State.{Cmd, Globals, and_then}
use dca.Node.{Node, name_max, ps_node}
use dca.Ps.{ps_data, init}
use dca.Ps.Pids.{IsNextPid, get_next_pid-IsNextPid}
use dca.Db.Ops.{Ret, get_name}
use dca.Db.Ops.Null.{is_null-ps}
use dca.Db.Find.Branches.{begins}
use dca.Db.Find.Rounds.{Child, search_child-hit, search_child-miss}
use dca.Db.Find.{enter, search_child}
use dca.Shell.Processes.{getname_thread, next_process}

-- The thread of pid q is the first one from p on whose name begins with `tok`.
pub record IsFirst (r : Riot) (tok : Text) (p q : ℕ) : Type 0 where
  pub thread : Thread
  pub inside : q ≤ r.pid_last
  pub there : r.sched_threads q ≡ some thread
  pub named : begins tok thread.name ≡ true
  pub others :
      (i : ℕ) (t : Thread) → p ≤ i → i < q → r.sched_threads i ≡ some t → begins tok t.name ≡ false

module _ (r : Riot) (tok : Text) (p p' q : ℕ) (first : IsFirst r tok p q) (n : IsNextPid r p p')
    (before : p < q) where
  -- The next pid is not behind the first match, which has a thread.
  next_le : p' ≤ q
  next_le = elim (le_lt_cases p' q) [
    | inl h ↦ h
    | inr past ↦ absurd (cc (n.skipped q before past, first.there))
  ]

  next_thread_at : (t : Thread) × (r.sched_threads p' ≡ some t)
  next_thread_at = elim (Option-cases (r.sched_threads p')) [
    | inl gone ↦ absurd (ground (arith, n.live, first.inside, next_le))
    | inr (t, there) ↦ (t, there)
  ]

  later : IsFirst r tok p' q
  later = record {
    thread = first.thread;
    inside = first.inside;
    there = first.there;
    named = first.named;
    others = λ i t lo hi at. first.others i t (omega (arith, n.above)) hi at;
  }

module _ (r : Riot) (again : Node → Buffer → Cmd (Ret Node)) (tok : Text) (q : ℕ) where
  pub search_thread :
      (k p : ℕ) (t : Thread) (child : Node) (buf : Buffer) (g : Globals)
      → 0 < r.pid_first
      → r.pid_first ≤ p
      → p ≤ q
      → r.sched_threads p ≡ some t
      → IsFirst r tok p q
      → q < p + k
      → length tok ≤ name_max
      → length buf ≡ name_max
      → (buf' : Buffer) × (length buf' ≡ name_max)
        × (and_then (search_child r k tok (ps_node (ps_data p 2)) child buf g) (enter r again)
            ≡ again (init q 1) buf' g)
  unfolding enter get_name
  search_thread zero p t child buf g pos lo hi at first fuel short full = absurd (omega arith)
  search_thread (suc k) p t child buf g pos lo hi at first fuel short full =
      let inside : p ≤ r.pid_last = omega (arith, first.inside) in
      let (p', found, n) = get_next_pid-IsNextPid r p pos lo inside in
      let c : Child r (ps_node (ps_data p 2)) child (ps_node (ps_data p' 2)) (init p 1) t.name g g =
        record {
          next = next_process r p p' child g inside found;
          not_null = is_null-ps r g (ps_data p 1);
          named = λ buf full. getname_thread r p t buf g inside at full;
        } in
      let name = padded name_max t.name in
      let size = length-padded name_max t.name in
      elim (le_lt_cases q p) [
        | inl reached ↦
            (let here : p ≡ q = omega arith in
              let same : t ≡ first.thread =
                some-injective t first.thread (sym at ∙ ap r.sched_threads here ∙ first.there) in
              let hit : begins tok t.name ≡ true = rw same first.named in
              (
                name,
                size,
                rw (
                  search_child-hit r k tok (ps_node (ps_data p 2)) child (ps_node (ps_data p' 2))
                      (init p 1) t.name buf g g c short full hit,
                  ← here,
                ),
              ))
        | inr before ↦
            (let miss : begins tok t.name ≡ false = first.others p t (omega arith) before at in
              let (t', at') = next_thread_at r tok p p' q first n before in
              let (buf', size', rest) =
                search_thread k p' t' (init p 1) name g pos (omega (arith, n.above))
                  (next_le r tok p p' q first n before) at' (later r tok p p' q first n before)
                  (omega (arith, n.above)) short size in
              (
                buf',
                size',
                ap (λ m. and_then m (enter r again))
                      (search_child-miss r k tok (ps_node (ps_data p 2)) child
                        (ps_node (ps_data p' 2)) (init p 1) t.name buf g g c short full miss)
                    ∙ rest,
              ))
      ]
