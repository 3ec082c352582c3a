-- ===== src/Db/Find/Walk.antt =====
-- The search by path as a walk along the folders that the path names.
use mathlib.Core.Path.{fun_ext}
use dca.Common.{
  ℕ, zero, suc, ◌+◌, ◌≤◌, ◌<◌, ◌≡◌, refl, ◌∙◌, ap, false, arith, Text, Buffer, List, [], ◌∷◌, ◌==◌,
  if◌then◌else◌, length,
}
use dca.Riot.{Riot, fresh}
use dca.State.{Cmd, pure}
use dca.Node.{Node, name_max, uninit}
use dca.Db.Ops.{Ret, done}
use dca.Db.Fl.{root}
use dca.Db.Find.{
  slash, skip_slashes, segment, after_segment, find_step, find_loop, find_node_by_path,
}

on_head : ℕ → List Text → List Text
on_head c [] = []
on_head c (w ∷ ws) = (c ∷ w) ∷ ws

-- a byte in front of a path: it begins a new folder name, or goes in front of the first one
add_byte : ℕ → Text → List Text → List Text
unfolding on_head
add_byte c [] ws = (c ∷ []) ∷ ws
add_byte c (d ∷ t) ws = if d == slash then (c ∷ []) ∷ ws else on_head c ws

-- The folder names of a path: its longest parts without a slash.
unfoldable pub components : Text → List Text
unfolding add_byte
components [] = []
components (c ∷ t) = let rest = components t in if c == slash then rest else add_byte c t rest

-- Starting from the root, each name is searched among the children of the node reached so far.
module _ (r : Riot) where
  unfoldable pub walk : List Text → Node → Node → Buffer → Cmd (Ret Node)
  walk [] node child name_buf = pure (done node)
  walk (s ∷ ss) node child name_buf =
      find_step r (λ child name_buf. walk ss child child name_buf) s node child name_buf

components-skip : (t : Text) → components (skip_slashes t) ≡ components t
unfolding components
components-skip [] = refl
components-skip (c ∷ t) = ground (arith, components-skip t)

abbrev NoLead : Text → Type 0
NoLead [] = Unit
NoLead (c ∷ t) = (c == slash) ≡ false

skip-NoLead : (t : Text) → NoLead (skip_slashes t)
skip-NoLead [] = tt
skip-NoLead (c ∷ t) = ground (arith, skip-NoLead t)

pub components-segment :
    (c : ℕ) (t : Text)
    → (c == slash) ≡ false
    → components (c ∷ t) ≡ segment (c ∷ t) ∷ components (after_segment (c ∷ t))
unfolding components
components-segment c [] h = ground arith
components-segment c (d ∷ t) h = ground (arith, components-segment d t)

length-after_segment : (t : Text) → length (after_segment t) ≤ length t
length-after_segment [] = omega arith
length-after_segment (c ∷ t) = ground (arith, length-after_segment t)

length-skip_slashes : (t : Text) → length (skip_slashes t) ≤ length t
length-skip_slashes [] = omega arith
length-skip_slashes (c ∷ t) = ground (arith, length-skip_slashes t)

rest_shorter :
    (c : ℕ) (t : Text)
    → (c == slash) ≡ false
    → length (skip_slashes (after_segment (c ∷ t))) ≤ length t
rest_shorter c t h = ground (arith, length-after_segment t, length-skip_slashes (after_segment t))

module _ (r : Riot) where
  find_loop-walk :
      (k : ℕ) (tok : Text) (node child : Node) (name_buf : Buffer)
      → NoLead tok
      → length tok < k
      → find_loop r k tok node child name_buf ≡ walk r (components tok) node child name_buf
  unfolding find_loop walk
  find_loop-walk zero tok node child name_buf lead fuel = absurd (omega arith)
  find_loop-walk (suc k) [] node child name_buf lead fuel = unfold components in refl
  find_loop-walk (suc k) (c ∷ t) node child name_buf lead fuel =
      let rest = skip_slashes (after_segment (c ∷ t)) in
      rw (components-segment c t lead, ← components-skip (after_segment (c ∷ t)))
        (ap
          (λ (again : Node → Buffer → Cmd (Ret Node)).
            find_step r again (segment (c ∷ t)) node child name_buf)
          (fun_ext λ child'. fun_ext λ buf'.
            find_loop-walk k rest child' child' buf' (skip-NoLead (after_segment (c ∷ t)))
              (omega (arith, rest_shorter c t lead))))

  -- db_find_node_by_path, with its pointers into the path, is the walk along the folder names of
  -- the path, in order and from the root: leading, trailing and repeated slashes make no
  -- difference, and the rounds that it is given are enough for every path.
  pub find_node_by_path-walk :
      (path : Text)
      → find_node_by_path r path ≡ walk r (components path) root uninit (fresh r name_max)
  unfolding find_node_by_path
  find_node_by_path-walk path =
      find_loop-walk (length path + 1) (skip_slashes path) root uninit (fresh r name_max)
        (skip-NoLead path) (omega (arith, length-skip_slashes path))
      ∙ rw (components-skip path)
