-- ===== src/Db/Siblings.antt =====
-- db_node_get_next against the iteration over the children of the parent.
use dca.Common.{
  ℕ, zero, suc, ◌+◌, ◌%◌, ◌^◌, ◌≤◌, ◌<◌, ◌≡◌, refl, inl, inr, ◌⊎◌, false, none, some, arith,
  Bool-cases, List, [], ◌∷◌, ok, fault, assertion, ltb, leb, lt→ltb, le→leb, length, get_elem?,
  All-get_elem?, Buffer,
}
use dca.Riot.{Riot}
use dca.State.{Globals, ◌>>=◌}
use dca.Node.{Node, fl_node, root_node, null_node}
use dca.Ps
use dca.Ps.Pids.{IsNextPid, get_next_pid-IsNextPid}
use dca.Db.Index.{FlEntry, db_index}
use dca.Db.Index.Typed.{WellTyped, db_index-WellTyped}
use dca.Db.Fl
use dca.Db.Fl.{fl_data, init, new_fl_node}
use dca.Db.Ops.{is_null, get_name, get_next, get_next_child}
use dca.Db.Ops.Null.{is_null-ps}
use dca.Db.Find.Branches.{next_branch, no_branch, few_branches}
use dca.Db.Find.Entries.{next_entry}

elem_at {ℓ} :
    {A : Type ℓ} (xs : List A) (i : ℕ) → i < length xs → (x : A) × (get_elem? xs i ≡ some x)
elem_at [] i h = absurd (omega arith)
elem_at (x ∷ xs) zero h = (x, refl)
elem_at (x ∷ xs) (suc i) h = elem_at xs i (omega arith)

module _ (r : Riot) (g : Globals) where
  -- The next sibling of a branch, null behind the last one, is the child of the root that follows it.
  pub get_next-branch :
      (i : ℕ) (next child : Node)
      → i < length (db_index r)
      → (c : Node) × (node : Node) × (get_next r (new_fl_node i) next g ≡ ok (c, g))
        × (get_next_child r (root_node (suc i)) child g ≡ ok ((node, c), g))
  unfolding get_next Fl.getnext
  get_next-branch i next child h =
      let (ent, at) = elem_at (db_index r) i h in
      let place : (i + 1) % 2 ^ 8 ≡ suc i = omega (arith, few_branches r) in
      elim (Bool-cases (ltb (i + 1) (length (db_index r)))) [
        | inl more ↦ (
          new_fl_node (suc i),
          root_node (suc (suc i)),
          rw (◌>>=◌, at, more, place),
          next_branch r (suc i) child g (ground arith),
        )
        | inr end' ↦ (
          null_node,
          root_node (suc i),
          rw (◌>>=◌, at, end'),
          no_branch r (suc i) child g (ground arith),
        )
      ]

  -- The next sibling of a static entry is the child of the branch that follows it, null behind the
  -- last one, where another static entry follows or the branch has no dynamic entries.
  pub get_next-entry :
      (i j : ℕ) (ent : FlEntry) (next child : Node)
      → get_elem? (db_index r) i ≡ some ent
      → j < length ent.static_entries
      → (suc j < length ent.static_entries) ⊎ (ent.dynamic_entries ≡ [])
      → (c : Node) × (node : Node) × (get_next r (init i j 0) next g ≡ ok (c, g))
        × (get_next_child r (fl_node (fl_data i (suc j) 1)) child g ≡ ok ((node, c), g))
  unfolding get_next Fl.getnext get_next_child Fl.getnext_child Fl.dynamic_child
  get_next-entry i j ent next child at below more =
      let (types, few) = All-get_elem? WellTyped (db_index r) i ent (db_index-WellTyped r) at in
      let place : (j + 1) % 2 ^ 8 ≡ suc j = omega (arith, few) in
      elim (Bool-cases (ltb (suc j) (length ent.static_entries))) [
        | inl inside ↦ (
          init i (suc j) 0,
          fl_node (fl_data i (suc (suc j)) 1),
          rw (◌>>=◌, at, lt→ltb j (length ent.static_entries) below, place, inside),
          next_entry r i ent at (suc j) child g (ground arith),
        )
        | inr end' ↦ elim more [
          | inl inside ↦ absurd (ground (arith, inside))
          | inr no_dynamic ↦ (
            null_node,
            fl_node (fl_data i (suc j) 1),
            rw (◌>>=◌, at, lt→ltb j (length ent.static_entries) below, place, end'),
            rw (◌>>=◌, at, end', no_dynamic),
          )
        ]
      ]

  past_last : (q : ℕ) → leb q r.pid_last ≡ false → r.pid_last < q
  past_last q h = ground arith

  none_behind :
      (p q : ℕ)
      → p ≤ r.pid_last
      → IsNextPid r p q
      → ((i : ℕ) → p < i → i ≤ r.pid_last → r.sched_threads i ≡ none)
      → q ≡ r.pid_last + 1
  none_behind p q hi n last = elim (Bool-cases (leb q r.pid_last)) [
    | inl inside ↦ absurd (ground (arith, n.live, last q n.above (ground arith)))
    | inr past ↦ omega (arith, n.within, past_last q past)
  ]

  -- The next sibling of the thread with the highest pid is not the null node: it is a node for the pid
  -- behind the table, it is not null, and its name cannot be read, since the assertion on the pid
  -- fails. Pids are positive, the thread's pid lies in the table, and no pid above it has a thread.
  pub get_next-last_thread :
      (p : ℕ) (next : Node) (buf : Buffer)
      → 0 < r.pid_first
      → r.pid_first ≤ p
      → p ≤ r.pid_last
      → ((i : ℕ) → p < i → i ≤ r.pid_last → r.sched_threads i ≡ none)
      → (get_next r (Ps.init p 1) next g ≡ ok (Ps.init (r.pid_last + 1) 1, g))
        × (is_null r (Ps.init (r.pid_last + 1) 1) g ≡ ok (false, g))
        × (get_name r (Ps.init (r.pid_last + 1) 1) buf g ≡ fault assertion)
  unfolding get_next Ps.getnext get_name Ps.getname
  get_next-last_thread p next buf pos lo hi last =
      let (q, found, n) = get_next_pid-IsNextPid r p pos lo hi in
      let past : q ≡ r.pid_last + 1 = none_behind p q hi n last in
      let gone : leb (r.pid_last + 1) r.pid_last ≡ false = ground arith in
      (
        rw (◌>>=◌, le→leb p r.pid_last hi, found, past),
        is_null-ps r g (Ps.ps_data (r.pid_last + 1) 1),
        rw (◌>>=◌, gone),
      )
