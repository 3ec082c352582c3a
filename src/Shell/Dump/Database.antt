-- ===== src/Shell/Dump/Database.antt =====
-- What `dcadump` prints: the whole data base.
use dca.Common.{
  ℕ, zero, suc, ◌-◌, ◌<◌, ◌≡◌, refl, sym, ap, ◌∙◌, Bool, true, arith, Text, codes, List, [], ◌∷◌,
  ◌++◌, map, All, ok, length, length-map, drop, strncpy-padded,
}
use mathlib.Core.List.{append_assoc, append-nil}
use mathlib.Core.Path.{subst}
use dca.Riot.{Riot, fresh, length-fresh}
use dca.State.{Globals, Cmd, ◌>>=◌}
use dca.Node.{name_max, Node, root_node, uninit}
use dca.Db.Index.{db_index}
use dca.Db.Fl.{root, root_name}
use dca.Db.Ops.{get_type, get_name, get_next_child}
use dca.Db.Find.Walk.{walk, components, find_node_by_path-walk}
use dca.Db.Find.Branches.{drop-cons, drop-nil, few_branches, next_branch, no_branch, is_null-branch}
use dca.Shell.{print_node_name, indent, tree_r, tree_children, tree, dcadump}
use dca.Shell.Dump.{tree_children-end}
use dca.Shell.Dump.Shows.{Branch, Shows, branch_block}
use dca.Shell.Dump.Branches.{tree_r-branch}

-- the blocks of branches, one behind the other
unfoldable pub blocks : Riot → Bool → List Branch → Text
blocks r b [] = []
blocks r b (x ∷ xs) = branch_block r b x ++ blocks r b xs

module _ (r : Riot) (g : Globals) (k : ℕ) (b : Bool) (fuel : 6 < r.fuel) where
  abbrev go_on : ℕ → ℕ → Node → Text → Cmd (Text × Node)
  go_on j i child out = do
    p ← get_next_child r (root_node i) child
    tree_children r (tree_r r (suc (suc k)) 1 b) j p.0 p.1 out

  -- The rounds over the branches from number i on print their blocks.
  go_on-branches :
      (xs : List Branch) (j i : ℕ) (child : Node) (out : Text)
      → drop i (db_index r) ≡ map (λ x. x.ent) xs
      → All (Shows r g (suc k) b) xs
      → length xs < j
      → (last : Node) × (go_on j i child out g ≡ ok ((out ++ blocks r b xs, last), g))
  unfolding tree_children blocks
  go_on-branches [] j i child out h shows rounds = (
    root_node i,
    rw (
      ◌>>=◌,
      no_branch r i child g (drop-nil (db_index r) i h),
      tree_children-end r g (tree_r r (suc (suc k)) 1 b) j (root_node i) out rounds,
      append-nil,
    ),
  )
  go_on-branches (x ∷ xs) zero i child out h shows rounds = absurd (omega arith)
  go_on-branches (x ∷ xs) (suc j) i child out h (shown, shows) rounds =
      let (found, next, below) = drop-cons (db_index r) i x.ent (map (λ x. x.ent) xs) h in
      let (node, printed) = tree_r-branch r g k b i x found shown fuel in
      let (last, rest) =
        go_on-branches xs j (suc i) node (out ++ branch_block r b x) next shows (omega arith) in
      (
        last,
        rw (◌>>=◌, next_branch r i child g below, is_null-branch, printed)
            (rest
              ∙ ap (λ t. ok ((t, last), g))
                  (append_assoc out (branch_block r b x) (blocks r b xs))),
      )

module _ (r : Riot) (g : Globals) where
  print_node_name-root : print_node_name r 0 root g ≡ ok (codes "- /", g)
  unfolding print_node_name get_name root_name indent
  print_node_name-root =
      rw (◌>>=◌, strncpy-padded name_max (fresh r name_max) (codes "/") (length-fresh r name_max))
        refl

  tree_r-root :
      (k : ℕ) (b : Bool) (xs : List Branch)
      → 6 < r.fuel
      → map (λ x. x.ent) xs ≡ db_index r
      → All (Shows r g (suc k) b) xs
      → (last : Node) × (tree_r r (suc (suc (suc k))) 0 b root g
          ≡ ok ((codes "- //\n" ++ blocks r b xs, last), g))
  unfolding tree_r get_type
  tree_r-root k b xs fuel h shows =
      let few : length xs < r.fuel =
        omega (arith, fuel, few_branches r, ap length h, length-map (λ x. x.ent) xs) in
      let (last, e) =
        go_on-branches r g k b fuel xs r.fuel 0 uninit (codes "- //\n") (sym h) shows few in
      (last, rw (◌>>=◌, print_node_name-root) e)

  -- In every configuration `dcadump` prints the root's name, and for each branch of db_index, in
  -- their order, its name, a line for each static entry with the text of its value, and the subtree
  -- of its dynamic entry, and returns 0. The values are those that the functions of the entries
  -- return without changing a variable, numbers as the decimal text of RIOT or "---" where it is
  -- longer than the buffer; the subtree is what _tree_r prints for the node of the dynamic entry,
  -- where it changes no variable. The fuel has to allow seven rounds.
  pub dcadump-Shows :
      (xs : List Branch)
      → 6 < r.fuel
      → map (λ x. x.ent) xs ≡ db_index r
      → All (Shows r g (r.fuel - 2) true) xs
      → dcadump r g ≡ ok ((codes "- //\n" ++ blocks r true xs, 0), g)
  unfolding dcadump tree walk components
  dcadump-Shows xs fuel h shows =
      let k = r.fuel - 3 in
      let below : r.fuel - 2 ≡ suc k = omega arith in
      let deep : r.fuel ≡ suc (suc (suc k)) = omega arith in
      let (last, e) =
        tree_r-root k true xs fuel h (subst (λ n. All (Shows r g n true) xs) below shows) in
      let printed : tree_r r r.fuel 0 true root g
          ≡ ok ((codes "- //\n" ++ blocks r true xs, last), g) =
        subst (λ n. tree_r r n 0 true root g ≡ ok ((codes "- //\n" ++ blocks r true xs, last), g))
          (sym deep) e in
      rw (find_node_by_path-walk r (codes "/"), ◌>>=◌, printed)
