-- ===== src/Shell/Branches.antt =====
-- What `dcaq` prints for the root node.
use dca.Common.{
  ℕ, zero, suc, ◌+◌, ◌≤◌, ◌<◌, ◌≡◌, refl, ◌∙◌, arith, Text, Buffer, NoNul, All, All-if, All-append,
  List, [], ◌∷◌, ◌++◌, ok, length, drop, padded, length-padded, c_string-padded, has_nul-padded,
}
use mathlib.Core.List.{append_assoc}
use dca.Riot.{Riot, fresh, length-fresh}
use dca.State.{Globals, and_then, ◌>>=◌}
use dca.Node.{name_max, root_node, uninit}
use dca.Db.Index.{FlEntry, db_index}
use dca.Db.Fl.{new_fl_node, root}
use dca.Db.Ops.{get_type, get_next_child}
use dca.Db.Find.Branches.{
  drop-cons, drop-nil, few_branches, next_branch, no_branch, is_null-branch, name_of_branch,
}
use dca.Shell.{list_children, query, newline}
use dca.Shell.Devices.{list_end}
use dca.Shell.Threads.{lines}

unfoldable pub branch_names : List FlEntry → List Text
branch_names [] = []
branch_names (e ∷ es) = e.branch_name ∷ branch_names es

-- the name of a branch is a C string that fits its array with its NUL
abbrev pub BranchNamed : FlEntry → Type 0
BranchNamed e = NoNul e.branch_name × (length e.branch_name < name_max)

module _ (r : Riot) where
  pub db_index-BranchNamed : All BranchNamed (db_index r)
  unfolding db_index
  db_index-BranchNamed = (
    (ground arith, omega arith),
    (
      (ground arith, omega arith),
      All-append BranchNamed _ _
          (All-if BranchNamed r.config.dca_network _ ((ground arith, omega arith), tt))
          (All-if BranchNamed r.config.dca_saul _ ((ground arith, omega arith), tt)),
    ),
  )

  -- One round, for the branch number i.
  list_branch :
      (k i : ℕ) (e : FlEntry) (es : List FlEntry) (buf : Buffer) (out : Text) (g : Globals)
      → drop i (db_index r) ≡ e ∷ es
      → BranchNamed e
      → length buf ≡ name_max
      → list_children r (suc k) (root_node (suc i)) (new_fl_node i) buf out g
        ≡ and_then (get_next_child r (root_node (suc i)) (new_fl_node i) g) λ q.
          list_children r k q.0 q.1
            (padded name_max e.branch_name)
            (out ++ e.branch_name ++ newline)
  unfolding list_children
  list_branch k i e es buf out g h (text, short) full =
      let (at, next, below) = drop-cons (db_index r) i e es h in
      rw (
        ◌>>=◌,
        is_null-branch,
        name_of_branch r i e buf g at full,
        has_nul-padded name_max e.branch_name text short,
        c_string-padded name_max e.branch_name text (omega (arith, short)),
      )

  list_branches :
      (k i : ℕ) (e : FlEntry) (es : List FlEntry) (buf : Buffer) (out : Text) (g : Globals)
      → drop i (db_index r) ≡ e ∷ es
      → All BranchNamed (e ∷ es)
      → length es + 1 < k
      → length buf ≡ name_max
      → list_children r k (root_node (suc i)) (new_fl_node i) buf out g
        ≡ ok (out ++ lines (branch_names (e ∷ es)), g)
  unfolding branch_names
  list_branches zero i e es buf out g h named fuel full = absurd (omega arith)
  list_branches (suc zero) i e es buf out g h named fuel full = absurd (omega arith)
  list_branches (suc (suc k)) i e [] buf out g h named fuel full =
      let (at, next, below) = drop-cons (db_index r) i e [] h in
      list_branch (suc k) i e [] buf out g h named.0 full
      ∙ rw (no_branch r (suc i) (new_fl_node i) g (drop-nil (db_index r) (suc i) next)) (
          list_end r (suc k) (root_node (suc i)) (padded name_max e.branch_name)
            (out ++ e.branch_name ++ newline) g (omega arith)
          ∙ simp append_assoc)
  list_branches (suc (suc k)) i e (e' ∷ es) buf out g h (named, rest) fuel full =
      let (at, next, below) = drop-cons (db_index r) i e (e' ∷ es) h in
      let (at', next', below') = drop-cons (db_index r) (suc i) e' es next in
      list_branch (suc k) i e (e' ∷ es) buf out g h named full
      ∙ rw (next_branch r (suc i) (new_fl_node i) g below') (
          list_branches (suc k) (suc i) e' es (padded name_max e.branch_name)
            (out ++ e.branch_name ++ newline) g next rest (omega arith)
            (length-padded name_max e.branch_name)
          ∙ simp append_assoc)

  list_root :
      (es : List FlEntry) (path : Text) (g : Globals)
      → db_index r ≡ es
      → All BranchNamed es
      → length es < r.fuel
      → query r path root g ≡ ok ((lines (branch_names es), 0), g)
  unfolding query get_type branch_names
  list_root [] path g h named fuel =
      let none_left : length (db_index r) ≤ 0 = rw h (omega arith) in
      rw (
        ◌>>=◌,
        no_branch r 0 uninit g none_left,
        list_end r r.fuel root (fresh r name_max) [] g fuel,
      )
  list_root (e ∷ es) path g h named fuel =
      let (at, next, below) = drop-cons (db_index r) 0 e es h in
      rw (
        ◌>>=◌,
        next_branch r 0 uninit g below,
        list_branches r.fuel 0 e es (fresh r name_max) [] g h named (omega arith)
            (length-fresh r name_max),
      )

  -- On the root `dcaq` prints the names of the branches of db_index in their order, in every
  -- configuration, and changes no variable. The fuel has to allow five rounds.
  pub query-root :
      (path : Text) (g : Globals)
      → 4 < r.fuel
      → query r path root g ≡ ok ((lines (branch_names (db_index r)), 0), g)
  query-root path g fuel =
      list_root (db_index r) path g refl db_index-BranchNamed (omega (arith, few_branches r))
