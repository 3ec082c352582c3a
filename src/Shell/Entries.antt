-- ===== src/Shell/Entries.antt =====
-- What `dcaq` prints for a static entry.
use dca.Common.{ℕ, ◌<◌, ◌≡◌, true, false, some, Text, List, ◌∷◌, ◌++◌, ok, get_elem?, arith}
use dca.Riot.{Riot, fresh, length-fresh}
use dca.State.{Globals, ◌>>=◌}
use dca.Node.{NodeType, name_max}
use dca.Db.Index.{StaticEntry, FlEntry, db_index}
use dca.Db.Ops.{is_inner}
use dca.Db.Find.Listed.{path_of, find_node_by_path-path_of}
use dca.Shell.{dcaq, query, is_leaf, newline}
use dca.Shell.Dump.Entries.{ValueText, print_value-entry, get_type-entry}

leaf_not_inner : (t : NodeType) → is_leaf t ≡ true → is_inner t ≡ false
leaf_not_inner t h = ground arith

module _ (r : Riot) where
  -- In every configuration, `dcaq` on the path that is made of the names of a branch and of one of
  -- its static entries prints the text of the value that the function of the entry returns, and a
  -- newline, returns 0 and changes no variable, when that function changes none. The fuel allows six
  -- rounds.
  pub dcaq-path_of :
      (command : Text) (rest : List Text) (i j : ℕ) (ent : FlEntry) (e : StaticEntry) (text : Text)
      (g : Globals)
      → get_elem? (db_index r) i ≡ some ent
      → get_elem? ent.static_entries j ≡ some e
      → ValueText r g e.get_value text
      → 5 < r.fuel
      → dcaq r command (path_of ent e ∷ rest) g ≡ ok ((text ++ newline, 0), g)
  unfolding dcaq query
  dcaq-path_of command rest i j ent e text g at there value fuel =
      let found =
        find_node_by_path-path_of r i j ent e (fresh r name_max) g at there fuel
          (length-fresh r name_max) in
      let (type, leaf) = get_type-entry r i ent at g j e there in
      rw (
        ◌>>=◌,
        found.0,
        type,
        leaf_not_inner e.type leaf,
        leaf,
        print_value-entry r i ent at g j e text there value,
      )
