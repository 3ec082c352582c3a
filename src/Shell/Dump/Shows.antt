-- ===== src/Shell/Dump/Shows.antt =====
-- A description of a branch: what `dcadump` is to print for its entries.
use dca.Common.{
  ℕ, ◌≤◌, ◌≡◌, Bool, true, false, arith, Text, codes, List, [], ◌∷◌, ◌++◌, map, All, All-if,
  All-append, ok, length, if◌then◌else◌,
}
use dca.Riot.{Riot}
use dca.State.{Globals}
use dca.Node.{Node}
use dca.Db.Index.{StaticEntry, DynamicEntry, FlEntry, db_index}
use dca.Db.Ops.{is_null}
use dca.Shell.{indent, tree_r}
use dca.Shell.Dump.Entries.{Named, ValueText, entry_lines}

-- A branch, the texts of the values of its static entries, and the subtrees of its dynamic ones.
pub record Branch : Type 0 where
  pub ent : FlEntry
  pub rows : List (StaticEntry × Text)
  pub subtrees : List (DynamicEntry × Text)

unfoldable pub joined : List (DynamicEntry × Text) → Text
joined [] = []
joined ((dy, text) ∷ ts) = text ++ joined ts

-- what is printed for a branch
unfoldable pub branch_block : Riot → Bool → Branch → Text
branch_block r b x =
    indent r 1
    ++ codes "- "
    ++ x.ent.branch_name
    ++ codes "/\n"
    ++ entry_lines r 2 b x.rows
    ++ joined x.subtrees

-- what _tree_r prints for the node of a dynamic entry, where it changes no variable
abbrev pub Subtree : Riot → Globals → ℕ → Bool → DynamicEntry × Text → Type 0
Subtree r g k b t =
    (node : Node) × (node' : Node) × (t.0.get_node g ≡ ok (node, g))
    × (is_null r node g ≡ ok (false, g))
    × (tree_r r k 2 b node g ≡ ok ((t.1, node'), g))

-- The rows are the static entries with the texts of their values, and the subtrees are those of the
-- dynamic entries.
pub record Shows (r : Riot) (g : Globals) (k : ℕ) (b : Bool) (x : Branch) : Type 0 where
  pub entries : map (λ row. row.0) x.rows ≡ x.ent.static_entries
  pub dynamic : map (λ t. t.0) x.subtrees ≡ x.ent.dynamic_entries
  pub values : All (λ row. ValueText r g row.0.get_value row.1) x.rows
  pub below : All (Subtree r g k b) x.subtrees

abbrev pub EntriesNamed : FlEntry → Type 0
EntriesNamed e =
    All Named e.static_entries × (length e.static_entries ≤ 5) × (length e.dynamic_entries ≤ 1)

module _ (r : Riot) where
  one_subtree : (b : Bool) (dy : DynamicEntry) → length (if b then dy ∷ [] else []) ≤ 1
  one_subtree true dy = omega arith
  one_subtree false dy = omega arith

  pub db_index-EntriesNamed : All EntriesNamed (db_index r)
  unfolding db_index
  db_index-EntriesNamed = (
    (
      (
        (ground arith, omega arith),
        (
          (ground arith, omega arith),
          (
            (ground arith, omega arith),
            ((ground arith, omega arith), ((ground arith, omega arith), tt)),
          ),
        ),
      ),
      omega arith,
      omega arith,
    ),
    (
      (
        (
          (ground arith, omega arith),
          (
            (ground arith, omega arith),
            (
              (ground arith, omega arith),
              ((ground arith, omega arith), ((ground arith, omega arith), tt)),
            ),
          ),
        ),
        omega arith,
        one_subtree r.config.dca_ps _,
      ),
      All-append EntriesNamed _ _
          (All-if EntriesNamed r.config.dca_network _
            ((((ground arith, omega arith), tt), omega arith, omega arith), tt))
          (All-if EntriesNamed r.config.dca_saul _ (
            (
              ((ground arith, omega arith), ((ground arith, omega arith), tt)),
              omega arith,
              omega arith,
            ),
            tt,
          )),
    ),
  )
