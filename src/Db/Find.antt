-- ===== src/Db/Find.antt =====
-- db_find_node_by_path of db_node.c.
pub mod Walk
pub mod Branches
pub mod Entries
pub mod Listed
pub mod Rounds
pub mod Missed
pub mod Threads
pub mod Processes
pub mod Fields
use dca.Common.{
  ℕ, zero, suc, ◌+◌, Bool, not, Option, none, some, Text, Buffer, [], ◌∷◌, Result, ok, fault,
  no_fuel, out_of_bounds, leb, ◌==◌, if◌then◌else◌, length, take, bytes_eq,
}
use dca.Riot.{Riot, fresh}
use dca.State.{Cmd, pure, lift, assert, ◌>>=◌, ◌>>◌}
use dca.Node.{name_max, Node, uninit}
use dca.Db.Ops.{Ret, done, error, enoent, is_null, get_name, get_next_child}
use dca.Db.Fl.{root}

abbrev pub slash : ℕ
slash = b'/'

-- while (*tok == '/') tok += 1;
abbrev pub skip_slashes : Text → Text
skip_slashes [] = []
skip_slashes (c ∷ tok) = let rest = skip_slashes tok in if c == slash then rest else c ∷ tok

-- The text from tok to s_pos, and the text from s_pos on.
abbrev pub segment : Text → Text
segment [] = []
segment (c ∷ tok) = let rest = segment tok in if c == slash then [] else c ∷ rest

abbrev pub after_segment : Text → Text
after_segment [] = []
after_segment (c ∷ tok) = let rest = after_segment tok in if c == slash then c ∷ tok else rest

-- memcmp(tok, name_buf, len) == 0, where both regions have to hold len bytes
abbrev pub name_matches : Text → Buffer → Result Bool
name_matches tok name_buf =
    if leb (length tok) (length name_buf)
    then ok (bytes_eq tok (take (length tok) name_buf))
    else fault out_of_bounds

module _ (r : Riot) where
  -- One round of the do-while loop over the children; `again` is the next round. `none` is the
  -- return of -ENOENT.
  unfoldable pub search_step :
      (Node → Node → Buffer → Cmd (Option (Node × Node × Buffer)))
      → Text
      → Node
      → Node
      → Buffer
      → Cmd (Option (Node × Node × Buffer))
  search_step again tok node child name_buf = do
    p ← get_next_child r node child
    ended ← is_null r p.1
    (if ended then pure none else do
      name_buf ← get_name r p.1 name_buf
      found ← lift (name_matches tok name_buf)
      (if found then pure (some (p.0, p.1, name_buf)) else again p.0 p.1 name_buf))

  -- The do-while loop on fuel: the node, the child and the name found.
  unfoldable pub search_child :
      ℕ → Text → Node → Node → Buffer → Cmd (Option (Node × Node × Buffer))
  unfolding search_step
  search_child zero tok node child name_buf = λ g. fault no_fuel
  search_child (suc k) tok node child name_buf =
      search_step (search_child k tok) tok node child name_buf

  -- what follows the search for a folder: `again` goes on in the child
  unfoldable pub enter :
      (Node → Buffer → Cmd (Ret Node)) → Option (Node × Node × Buffer) → Cmd (Ret Node)
  enter again none = pure (error enoent)
  enter again (some (node, child, name_buf)) = again child name_buf

  -- One round of the loop over the folders of the path, for the folder named `tok`.
  unfoldable pub find_step :
      (Node → Buffer → Cmd (Ret Node)) → Text → Node → Node → Buffer → Cmd (Ret Node)
  unfolding enter
  find_step again tok node child name_buf = do
    ended ← is_null r node
    assert (not ended)
    found ← search_child r.fuel tok node child name_buf
    enter again found

  -- The loop over the folders of the path, on fuel: the node found.
  unfoldable pub find_loop : ℕ → Text → Node → Node → Buffer → Cmd (Ret Node)
  unfolding find_step
  find_loop zero tok node child name_buf = λ g. fault no_fuel
  find_loop (suc k) [] node child name_buf = pure (done node)
  find_loop (suc k) (c ∷ tok) node child name_buf =
      find_step
        (λ child name_buf.
          find_loop k (skip_slashes (after_segment (c ∷ tok))) child child name_buf)
        (segment (c ∷ tok)) node child name_buf

  -- db_find_node_by_path
  unfoldable pub find_node_by_path : Text → Cmd (Ret Node)
  unfolding find_loop
  find_node_by_path path =
      find_loop (length path + 1) (skip_slashes path) root uninit (fresh r name_max)
