-- ===== src/Shell/Dump/Branches.antt =====
-- What `dcadump` prints for a branch: its static entries, and the subtree of its dynamic entry.
use dca.Common.{
  ℕ, zero, suc, ◌+◌, ◌-◌, ◌%◌, ◌^◌, ◌≤◌, ◌<◌, ◌≡◌, refl, sym, ap, ◌∙◌, Bool, false, some, none,
  arith, Text, codes, List, [], ◌∷◌, ◌++◌, map, All, All-zip, length-map, All-get_elem?, ok, length,
  get_elem?, c_string-padded, has_nul-padded, ltb,
}
use mathlib.Core.List.{append-nil}
use mathlib.Core.Path.{subst}
use dca.Riot.{Riot, fresh, length-fresh}
use dca.State.{Globals, ◌>>=◌}
use dca.Node.{Node, name_max, fl_node, uninit, null_node}
use dca.Db.Index.{DynamicEntry, FlEntry, db_index}
use dca.Db.Fl
use dca.Db.Fl.{fl_data, new_fl_node}
use dca.Db.Ops.{is_null, get_type, get_next_child}
use dca.Db.Ops.Null.{is_null-null}
use dca.Db.Find.Branches.{name_of_branch}
use dca.Shell.{print_node_name, indent, tree_r, tree_children}
use dca.Shell.Branches.{BranchNamed, db_index-BranchNamed}
use dca.Shell.Dump.{tree_children-end}
use dca.Shell.Dump.Entries.{Named, ValueText, entry_lines, go_on, go_on-entries}
use dca.Shell.Dump.Shows.{
  Branch, Shows, Subtree, joined, branch_block, EntriesNamed, db_index-EntriesNamed,
}

module _ (r : Riot) (g : Globals) (i : ℕ) (ent : FlEntry)
    (found : get_elem? (db_index r) i ≡ some ent) where
  no_dynamic :
      (s d : ℕ) (child : Node)
      → s ≡ length ent.static_entries + d
      → get_elem? ent.dynamic_entries d ≡ none
      → get_next_child r (fl_node (fl_data i s 1)) child g
        ≡ ok ((fl_node (fl_data i s 1), null_node), g)
  unfolding get_next_child Fl.getnext_child Fl.dynamic_child
  no_dynamic s d child h e =
      let past : ltb s (length ent.static_entries) ≡ false = ground arith in
      let place : s - length ent.static_entries ≡ d = omega arith in
      rw (◌>>=◌, found, past, place, e)

  next_dynamic :
      (s d : ℕ) (dy : DynamicEntry) (node child : Node)
      → s ≡ length ent.static_entries + d
      → s < 255
      → get_elem? ent.dynamic_entries d ≡ some dy
      → dy.get_node g ≡ ok (node, g)
      → get_next_child r (fl_node (fl_data i s 1)) child g
        ≡ ok ((fl_node (fl_data i (suc s) 1), node), g)
  unfolding get_next_child Fl.getnext_child Fl.dynamic_child
  next_dynamic s d dy node child h small e made =
      let past : ltb s (length ent.static_entries) ≡ false = ground arith in
      let place : s - length ent.static_entries ≡ d = omega arith in
      let advanced : (s + 1) % 2 ^ 8 ≡ suc s = omega arith in
      rw (◌>>=◌, found, past, place, e, made, advanced)

  -- the last child but the null node
  tree_children-one :
      (j k : ℕ) (b : Bool) (node node' : Node) (s : ℕ) (text out : Text)
      → is_null r node g ≡ ok (false, g)
      → tree_r r j 2 b node g ≡ ok ((text, node'), g)
      → 1 < k
      → get_next_child r (fl_node (fl_data i (suc s) 1)) node' g
        ≡ ok ((fl_node (fl_data i (suc s) 1), null_node), g)
      → tree_children r (tree_r r j 2 b) k (fl_node (fl_data i (suc s) 1)) node out g
        ≡ ok ((out ++ text, fl_node (fl_data i (suc s) 1)), g)
  unfolding tree_children
  tree_children-one j (suc (suc k)) b node node' s text out live shown fuel ended =
      rw (◌>>=◌, live, shown, ended, is_null-null)
  tree_children-one j zero b node node' s text out live shown fuel ended = absurd (omega arith)
  tree_children-one j (suc zero) b node node' s text out live shown fuel ended =
      absurd (omega arith)

  -- Behind the static entries the loop goes through the dynamic entry, if there is one, and ends.
  go_on-subtrees :
      (j k : ℕ) (b : Bool) (ts : List (DynamicEntry × Text)) (n : ℕ) (child : Node) (out : Text)
      → map (λ t. t.0) ts ≡ ent.dynamic_entries
      → length ent.static_entries ≡ n
      → n ≤ 5
      → length ent.dynamic_entries ≤ 1
      → All (Subtree r g j b) ts
      → 1 < k
      → (last : Node) × (go_on r i (tree_r r j 2 b) k n child out g
          ≡ ok ((out ++ joined ts, last), g))
  unfolding get_next_child Fl.getnext_child Fl.dynamic_child joined
  go_on-subtrees j k b [] n child out h size few one all fuel =
      let none_left : get_elem? ent.dynamic_entries 0 ≡ none = rw (← h) refl in
      (
        fl_node (fl_data i n 1),
        rw (
          ◌>>=◌,
          no_dynamic n 0 child (omega arith) none_left,
          tree_children-end r g (tree_r r j 2 b) k (fl_node (fl_data i n 1)) out (omega arith),
          append-nil,
        ),
      )
  go_on-subtrees j k b ((dy, text) ∷ []) n child out h size few one
        ((node, node', made, live, shown), rest) fuel =
      let here : get_elem? ent.dynamic_entries 0 ≡ some dy = rw (← h) refl in
      let none_left : get_elem? ent.dynamic_entries 1 ≡ none = rw (← h) refl in
      (
        fl_node (fl_data i (suc n) 1),
        rw (◌>>=◌, next_dynamic n 0 dy node child (omega arith) (omega arith) here made, append-nil)
            (tree_children-one j k b node node' n text out live shown (omega arith)
              (no_dynamic (suc n) 1 node' (omega arith) none_left)),
      )
  go_on-subtrees j k b (t ∷ t' ∷ ts) n child out h size few one all fuel =
      absurd (omega (arith, one, ap length h))

-- The branch number i of db_index, whose description is x.
module _ (r : Riot) (g : Globals) (k : ℕ) (b : Bool) (i : ℕ) (x : Branch)
    (found : get_elem? (db_index r) i ≡ some x.ent) (shows : Shows r g (suc k) b x)
    (fuel : 6 < r.fuel) where
  print_node_name-branch :
      BranchNamed x.ent
      → print_node_name r 1 (new_fl_node i) g
        ≡ ok (indent r 1 ++ codes "- " ++ x.ent.branch_name, g)
  unfolding print_node_name
  print_node_name-branch named = rw (
    ◌>>=◌,
    name_of_branch r i x.ent (fresh r name_max) g found (length-fresh r name_max),
    has_nul-padded name_max x.ent.branch_name named.0 named.1,
    c_string-padded name_max x.ent.branch_name named.0 (omega (arith, named.1)),
  )

  go_on-branch :
      (out : Text)
      → (last : Node) × (go_on r i (tree_r r (suc k) 2 b) r.fuel 0 uninit out g
          ≡ ok ((out ++ entry_lines r 2 b x.rows ++ joined x.subtrees, last), g))
  go_on-branch out =
      let (names, few, one) =
        All-get_elem? EntriesNamed (db_index r) i x.ent (db_index-EntriesNamed r) found in
      let count : length x.rows ≡ length x.ent.static_entries =
        sym (length-map (λ row. row.0) x.rows) ∙ ap length shows.entries in
      let m = r.fuel - length x.rows in
      let (child, first) =
        go_on-entries r i x.ent found g k 2 b x.rows r.fuel m 0 (length x.ent.static_entries) uninit
          out (sym shows.entries)
          (All-zip Named (λ row. ValueText r g row.0.get_value row.1) x.rows
            (subst (All Named) (sym shows.entries) names) shows.values)
          (omega arith) (omega arith) in
      let (last, rest) =
        go_on-subtrees r g i x.ent found (suc k) m b x.subtrees (length x.ent.static_entries) child
          (out ++ entry_lines r 2 b x.rows) shows.dynamic refl few one shows.below (omega arith) in
      (last, first ∙ rest)

  -- _tree_r on a branch prints its block.
  pub tree_r-branch :
      (last : Node) × (tree_r r (suc (suc k)) 1 b (new_fl_node i) g
        ≡ ok ((branch_block r b x, last), g))
  unfolding tree_r get_type Fl.gettype branch_block
  tree_r-branch =
      let named = All-get_elem? BranchNamed (db_index r) i x.ent (db_index-BranchNamed r) found in
      let (last, e) = go_on-branch (indent r 1 ++ codes "- " ++ x.ent.branch_name ++ codes "/\n") in
      (last, rw (◌>>=◌, print_node_name-branch named) e)
