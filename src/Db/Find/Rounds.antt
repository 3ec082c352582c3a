-- ===== src/Db/Find/Rounds.antt =====
-- One round of the loop over the children in db_find_node_by_path.
use dca.Common.{
  ℕ, suc, ◌≤◌, ◌≡◌, true, false, some, arith, Text, Buffer, ok, leb, length, padded, length-padded,
  le→leb,
}
use dca.Riot.{Riot}
use dca.State.{Globals, ◌>>=◌}
use dca.Node.{Node, name_max}
use dca.Db.Ops.{is_null, get_name, get_next_child}
use dca.Db.Find.Branches.{begins}
use dca.Db.Find.{search_step, search_child}

-- The next child of a node, and its name; g' are the variables behind the call.
pub record Child (r : Riot) (node child node' child' : Node) (name : Text) (g g' : Globals)
    : Type 0 where
  pub next : get_next_child r node child g ≡ ok ((node', child'), g')
  pub not_null : is_null r child' g' ≡ ok (false, g')
  pub named :
      (buf : Buffer)
      → length buf ≡ name_max
      → get_name r child' buf g' ≡ ok (padded name_max name, g')

module _ (r : Riot) (k : ℕ) (tok : Text) (node child node' child' : Node) (name : Text)
    (buf : Buffer) (g g' : Globals) (c : Child r node child node' child' name g g')
    (short : length tok ≤ name_max) (full : length buf ≡ name_max) where
  enough : leb (length tok) (length (padded name_max name)) ≡ true
  enough =
      le→leb (length tok) (length (padded name_max name))
        (omega (arith, length-padded name_max name))

  pub search_child-hit :
      begins tok name ≡ true
      → search_child r (suc k) tok node child buf g
        ≡ ok (some (node', child', padded name_max name), g')
  unfolding search_child search_step
  search_child-hit hit = rw (◌>>=◌, c.next, c.not_null, c.named buf full, enough, hit)

  pub search_child-miss :
      begins tok name ≡ false
      → search_child r (suc k) tok node child buf g
        ≡ search_child r k tok node' child' (padded name_max name) g'
  unfolding search_child search_step
  search_child-miss miss = rw (◌>>=◌, c.next, c.not_null, c.named buf full, enough, miss)
