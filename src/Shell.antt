-- ===== src/Shell.antt =====
-- shell_cmds.c: the commands `dcaq` and `dcadump`. What a command prints is the text that it
-- appends to the output; a text that is read from an array without a NUL is a fault.
pub mod Branches
pub mod Processes
pub mod Devices
pub mod Threads
pub mod Names
pub mod Dump
pub mod Entries
pub mod Paths
use dca.Common.{
  ℕ, zero, suc, ◌+◌, Bool, true, false, Text, Buffer, codes, c_text, List, [], ◌∷◌, ◌++◌, no_fuel,
  if◌then◌else◌,
}
use dca.Riot.{Riot, fresh}
use dca.State.{Cmd, pure, lift, fail, ◌>>=◌}
use dca.Node.{name_max, NodeType, null, inner, int, float, str, Node, uninit}
use dca.Db.Ops.{done, error, is_null, get_name, get_next_child, get_type, is_inner}
use dca.Db.Value.{value_to_str}
use dca.Db.Find.{find_node_by_path}

abbrev pub newline : Text
newline = codes "\n"

abbrev pub strbuf_size : ℕ
strbuf_size = 128

-- What is printed, and the return code.
abbrev pub Output : Type 0
Output = Text × ℕ

abbrev not_found : Text → Output
not_found path = (codes "The path " ++ path ++ codes " does not exist\n", 1)

-- the type test of the source: a leaf, an inner node, or neither
abbrev is_leaf : NodeType → Bool
is_leaf t = elim t [ int ↦ true | float ↦ true | str ↦ true | inner ↦ false | null ↦ false ]

module _ (r : Riot) where
  -- The loop of _dcaq over the children, on fuel: it starts with the child that was read last,
  -- and the text printed so far is `out`.
  unfoldable pub list_children : ℕ → Node → Node → Buffer → Text → Cmd Text
  list_children zero node child name out = λ g. fail no_fuel g
  list_children (suc k) node child name out = do
    ended ← is_null r child
    (if ended then pure out else do
      name ← get_name r child name
      s ← lift (c_text name)
      p ← get_next_child r node child
      list_children k p.0 p.1 name (out ++ s ++ newline))

  unfoldable print_value : Node → Cmd Text
  print_value node = do
    v ← value_to_str r node (fresh r strbuf_size) strbuf_size
    lift (elim v [ done p ↦ c_text p.0 | error e ↦ c_text (fresh r strbuf_size) ])

  -- _dcaq, from the node that was found
  unfoldable pub query : Text → Node → Cmd Output
  unfolding list_children print_value
  query path node = do
    t ← get_type r node
    (if is_inner t
        then (do
          p ← get_next_child r node uninit
          out ← list_children r.fuel p.0 p.1 (fresh r name_max) []
          pure (out, 0))
        else if is_leaf t
        then (do s ← print_value node; pure (s ++ newline, 0))
        else pure (codes "node " ++ path ++ codes " has invalid type\n", 0))

  -- _dcaq, for the arguments behind the command's name
  unfoldable pub dcaq : Text → List Text → Cmd Output
  unfolding query
  dcaq command [] = pure (codes "Usage: " ++ command ++ codes "<path>\nquery the DCA database\n", 1)
  dcaq command (path ∷ _) = do
    found ← find_node_by_path r path
    elim found [ done node ↦ query path node | error e ↦ pure (not_found path) ]

  unfoldable pub indent : ℕ → Text
  indent zero = []
  indent (suc n) = codes "  " ++ indent n

  -- _print_node_name
  unfoldable print_node_name : ℕ → Node → Cmd Text
  unfolding indent
  print_node_name depth node = do
    name ← get_name r node (fresh r name_max)
    s ← lift (c_text name)
    pure (indent depth ++ codes "- " ++ s)

  -- The loop of _tree_r over the children, on fuel. `tree` is the recursive call on a child: what
  -- it prints, and the child afterwards.
  unfoldable tree_children : (Node → Cmd (Text × Node)) → ℕ → Node → Node → Text → Cmd (Text × Node)
  tree_children tree zero node child out = λ g. fail no_fuel g
  tree_children tree (suc k) node child out = do
    ended ← is_null r child
    (if ended then pure (out, node) else do
      q ← tree child
      p ← get_next_child r node q.1
      tree_children tree k p.0 p.1 (out ++ q.0))

  -- _tree_r, on fuel for its depth: what it prints and the node afterwards. It returns 0 on every
  -- path, so no error is passed up.
  unfoldable pub tree_r : ℕ → ℕ → Bool → Node → Cmd (Text × Node)
  unfolding print_node_name print_value tree_children
  tree_r zero depth print_contents node = λ g. fail no_fuel g
  tree_r (suc k) depth print_contents node = do
    head ← print_node_name depth node
    t ← get_type r node
    (if is_leaf t
        then (if print_contents
            then (do s ← print_value node; pure (head ++ codes ": " ++ s ++ newline, node))
            else pure (head ++ newline, node))
        else if is_inner t
        then (do
          p ← get_next_child r node uninit
          tree_children (tree_r k (depth + 1) print_contents) r.fuel p.0 p.1 (head ++ codes "/\n"))
        else pure (head, node))

  -- _tree
  unfoldable pub tree : Text → Bool → Cmd Output
  unfolding tree_r
  tree path print_contents = do
    found ← find_node_by_path r path
    elim found [
      | done node ↦ (do q ← tree_r r.fuel 0 print_contents node; pure (q.0, 0))
      | error e ↦ pure (not_found path)
    ]

  -- _dcadump
  unfoldable pub dcadump : Cmd Output
  unfolding tree
  dcadump = tree (codes "/") true
