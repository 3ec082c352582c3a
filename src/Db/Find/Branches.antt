-- ===== src/Db/Find/Branches.antt =====
-- The search of a first-level branch by its name.
use dca.Common.{
  ℕ, zero, suc, ◌+◌, ◌%◌, ◌^◌, ◌≤◌, ◌<◌, ◌≡◌, refl, ◌∙◌, Bool, true, false, Option, none, some,
  arith, Text, Buffer, List, [], ◌∷◌, ok, leb, if◌then◌else◌, length, take, drop, get_elem?,
  bytes_eq, padded, length-padded, strncpy-padded, le→leb, lt→ltb, Bool-cases, inl, inr,
}
use dca.Riot.{Riot, fresh, length-fresh}
use dca.State.{Globals, Cmd, pure, and_then, ◌>>=◌}
use dca.Node.{Node, name_max, root_node, null_node, uninit}
use dca.Db.Index.{FlEntry, db_index}
use dca.Db.Fl
use dca.Db.Fl.{new_fl_node, root}
use dca.Db.Ops.{Ret, done, error, enoent, is_null, get_type, get_name, get_next_child}
use dca.Db.Ops.Null.{is_null-null}
use dca.Db.Find.Walk.{components, walk, find_node_by_path-walk}
use dca.Db.Find.{enter, find_step, search_step, search_child, find_node_by_path}

-- The memcmp over the bytes of `tok` with the array that the name was copied into: the name begins
-- with `tok`.
abbrev pub begins : Text → Text → Bool
begins tok name = bytes_eq tok (take (length tok) (padded name_max name))

-- the place of the first branch whose name begins with `tok`, counted from i
unfoldable pub first_branch : Text → ℕ → List FlEntry → Option ℕ
first_branch tok i [] = none
first_branch tok i (e ∷ es) =
    let rest = first_branch tok (suc i) es in if begins tok e.branch_name then some i else rest

-- What follows the search for a branch, with an array that holds its name.
abbrev pub go_on : (Node → Buffer → Cmd (Ret Node)) → Buffer → Option ℕ → Cmd (Ret Node)
go_on again buf none = pure (error enoent)
go_on again buf (some i) = again (new_fl_node i) buf

module _ {ℓ} {A : Type ℓ} where
  pub drop-cons :
      (xs : List A) (i : ℕ) (y : A) (ys : List A)
      → drop i xs ≡ y ∷ ys
      → (get_elem? xs i ≡ some y) × (drop (suc i) xs ≡ ys) × (i < length xs)
  drop-cons [] zero y ys h = absurd (cc)
  drop-cons [] (suc i) y ys h = absurd (cc)
  drop-cons (x ∷ xs) zero y ys h = (cc, cc, omega arith)
  drop-cons (x ∷ xs) (suc i) y ys h = let (a, b, c) = drop-cons xs i y ys h in (a, b, omega arith)

  pub drop-nil : (xs : List A) (i : ℕ) → drop i xs ≡ [] → length xs ≤ i
  drop-nil [] i h = omega arith
  drop-nil (x ∷ xs) zero h = absurd (cc)
  drop-nil (x ∷ xs) (suc i) h = omega (arith, drop-nil xs i h)

abbrev pub found_branch : Option ℕ → Ret Node
found_branch none = error enoent
found_branch (some i) = done (new_fl_node i)

-- the rest of the search when the folder is the last one of the path
abbrev pub stop : Node → Buffer → Cmd (Ret Node)
stop child buf = pure (done child)

go_on-stop :
    (buf : Buffer) (o : Option ℕ) (g : Globals) → go_on stop buf o g ≡ ok (found_branch o, g)
go_on-stop buf none g = refl
go_on-stop buf (some i) g = refl

module _ (r : Riot) where
  pub few_branches : length (db_index r) ≤ 4
  unfolding db_index
  few_branches = ground arith

  pub next_branch :
      (i : ℕ) (child : Node) (g : Globals)
      → i < length (db_index r)
      → get_next_child r (root_node i) child g ≡ ok ((root_node (suc i), new_fl_node i), g)
  unfolding get_next_child Fl.root_next_child
  next_branch i child g h =
      let e : (i + 1) % 2 ^ 8 ≡ suc i = omega (arith, few_branches) in
      rw (◌>>=◌, lt→ltb i (length (db_index r)) h, e)

  pub no_branch :
      (i : ℕ) (child : Node) (g : Globals)
      → length (db_index r) ≤ i
      → get_next_child r (root_node i) child g ≡ ok ((root_node i, null_node), g)
  unfolding get_next_child Fl.root_next_child
  no_branch i child g h = ground arith

  pub is_null-branch : (i : ℕ) (g : Globals) → is_null r (new_fl_node i) g ≡ ok (false, g)
  unfolding is_null get_type Fl.gettype
  is_null-branch i g = refl

  pub name_of_branch :
      (i : ℕ) (e : FlEntry) (buf : Buffer) (g : Globals)
      → get_elem? (db_index r) i ≡ some e
      → length buf ≡ name_max
      → get_name r (new_fl_node i) buf g ≡ ok (padded name_max e.branch_name, g)
  unfolding get_name Fl.getname
  name_of_branch i e buf g h full = rw (◌>>=◌, h, strncpy-padded name_max buf e.branch_name full)

  pub search_branch :
      (again : Node → Buffer → Cmd (Ret Node)) (k i : ℕ) (tok : Text) (es : List FlEntry)
      (child : Node) (buf : Buffer) (g : Globals)
      → drop i (db_index r) ≡ es
      → length es < k
      → length tok ≤ name_max
      → length buf ≡ name_max
      → (buf' : Buffer) × (length buf' ≡ name_max)
        × (and_then (search_child r k tok (root_node i) child buf g) (enter r again)
            ≡ go_on again buf' (first_branch tok i es) g)
  unfolding search_child search_step enter first_branch
  search_branch again zero i tok es child buf g h fuel short full = absurd (omega arith)
  search_branch again (suc k) i tok [] child buf g h fuel short full =
      (buf, full, rw (◌>>=◌, no_branch i child g (drop-nil (db_index r) i h), is_null-null))
  search_branch again (suc k) i tok (e ∷ es) child buf g h fuel short full =
      let (at, next, below) = drop-cons (db_index r) i e es h in
      let name = padded name_max e.branch_name in
      let size = length-padded name_max e.branch_name in
      let enough : leb (length tok) (length name) ≡ true =
        le→leb (length tok) (length name) (omega (arith, size)) in
      let step = name_of_branch i e buf g at full in
      elim (Bool-cases (begins tok e.branch_name)) [
        | inl hit ↦
            (name, size, rw (◌>>=◌, next_branch i child g below, is_null-branch, step, enough, hit))
        | inr miss ↦
            (let (buf', size', rest) =
                search_branch again k (suc i) tok es (new_fl_node i) name g next (omega arith) short
                  size in
              (
                buf',
                size',
                rw (◌>>=◌, next_branch i child g below, is_null-branch, step, enough, miss) rest,
              ))
      ]

  pub is_null-root : (g : Globals) → is_null r root g ≡ ok (false, g)
  unfolding is_null get_type
  is_null-root g = refl

  -- A path that names one folder, of at most DB_NODE_NAME_MAX bytes, finds the first branch of
  -- db_index whose name begins with it, and where no name does the search returns -ENOENT. The fuel
  -- has to allow five rounds.
  pub find_node_by_path-branch :
      (path tok : Text) (g : Globals)
      → components path ≡ tok ∷ []
      → length tok ≤ name_max
      → 4 < r.fuel
      → find_node_by_path r path g ≡ ok (found_branch (first_branch tok 0 (db_index r)), g)
  unfolding walk find_step
  find_node_by_path-branch path tok g one short fuel =
      let (buf, size, found) =
        search_branch stop r.fuel 0 tok (db_index r) uninit (fresh r name_max) g refl
          (omega (arith, few_branches)) short (length-fresh r name_max) in
      rw (find_node_by_path-walk r path, one, ◌>>=◌, is_null-root)
        (found ∙ go_on-stop buf (first_branch tok 0 (db_index r)) g)
