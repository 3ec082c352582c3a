-- ===== src/Db/Find/Listed.antt =====
-- The search by the names of a branch and of a static entry, as they are listed.
use dca.Common.{
  ℕ, zero, suc, ◌+◌, ◌<◌, ◌≡◌, refl, Bool, true, false, some, arith, Text, Buffer, padded, codes,
  List, [], ◌∷◌, ◌++◌, ok, get_elem?, length, ◌≤◌, if◌then◌else◌,
}
use mathlib.Core.Path.{subst}
use mathlib.Core.Option.{some-injective}
use dca.Riot.{Riot}
use dca.State.{Globals}
use dca.Node.{name_max}
use dca.Db.Index.{
  StaticEntry, FlEntry, db_index, branch, board_static_entries, runtime_static_entries,
  runtime_dynamic_entries, network_static_entries, network_dynamic_entries, saul_static_entries,
  saul_dynamic_entries,
}
use dca.Db.Fl.{init}
use dca.Db.Ops.{done, get_name}
use dca.Db.Find.Walk.{components}
use dca.Db.Find.Branches.{first_branch}
use dca.Db.Find.Entries.{first_entry, name_of_entry, find_node_by_path-entry}
use dca.Db.Find.{find_node_by_path}

-- A property of each element and its place, counted from s.
abbrev AllAt : {A : Type 0} → (ℕ → A → Type 0) → ℕ → List A → Type 0
AllAt P s [] = Unit
AllAt P s (x ∷ xs) = P s x × AllAt P (suc s) xs

AllAt-get :
    {A : Type 0} (P : ℕ → A → Type 0) (s i n : ℕ) (xs : List A) (x : A)
    → AllAt P s xs
    → get_elem? xs i ≡ some x
    → s + i ≡ n
    → P n x
AllAt-get P s i n [] x h e place = absurd (cc)
AllAt-get P s zero n (y ∷ xs) x h e place =
    let here : s ≡ n = omega arith in
    subst (λ m. P m x) here (subst (P s) (some-injective y x e) h.0)
AllAt-get P s (suc i) n (y ∷ xs) x h e place = AllAt-get P (suc s) i n xs x h.1 e (omega arith)

-- the path of an entry
abbrev pub path_of : FlEntry → StaticEntry → Text
path_of ent e = codes "/" ++ ent.branch_name ++ codes "/" ++ e.name

-- Both names are folders of the path, and the entry is the first one with its name.
abbrev EntryFound : FlEntry → ℕ → StaticEntry → Type 0
EntryFound ent j e =
    (components (path_of ent e) ≡ ent.branch_name ∷ e.name ∷ [])
    × (first_entry e.name 0 ent.static_entries ≡ some j)
    × (length e.name ≤ name_max)

abbrev BranchFound : List FlEntry → ℕ → FlEntry → Type 0
BranchFound index i ent =
    (first_branch ent.branch_name 0 index ≡ some i)
    × (length ent.branch_name ≤ name_max)
    × AllAt (EntryFound ent) 0 ent.static_entries

module _ (r : Riot) where
  abbrev board : FlEntry
  board = branch r (codes "board") (board_static_entries r) []

  abbrev runtime : FlEntry
  runtime = branch r (codes "runtime") (runtime_static_entries r) (runtime_dynamic_entries r)

  abbrev network : FlEntry
  network = branch r (codes "network") (network_static_entries r) (network_dynamic_entries r)

  abbrev saul : FlEntry
  saul = branch r (codes "saul") (saul_static_entries r) (saul_dynamic_entries r)

  board-EntryFound : AllAt (EntryFound board) 0 (board_static_entries r)
  unfolding components first_entry
  board-EntryFound = (
    (refl, refl, omega arith),
    (
      (refl, refl, omega arith),
      ((refl, refl, omega arith), ((refl, refl, omega arith), ((refl, refl, omega arith), tt))),
    ),
  )

  runtime-EntryFound : AllAt (EntryFound runtime) 0 (runtime_static_entries r)
  unfolding components first_entry
  runtime-EntryFound = (
    (refl, refl, omega arith),
    (
      (refl, refl, omega arith),
      ((refl, refl, omega arith), ((refl, refl, omega arith), ((refl, refl, omega arith), tt))),
    ),
  )

  network-EntryFound : AllAt (EntryFound network) 0 (network_static_entries r)
  unfolding components first_entry
  network-EntryFound = ((refl, refl, omega arith), tt)

  saul-EntryFound : AllAt (EntryFound saul) 0 (saul_static_entries r)
  unfolding components first_entry
  saul-EntryFound = ((refl, refl, omega arith), ((refl, refl, omega arith), tt))

  -- the tables of db_index, by what is compiled in
  abbrev index : Bool → Bool → List FlEntry
  index with_network with_saul =
      board ∷ runtime ∷ (if with_network then network ∷ [] else [])
      ++ (if with_saul then saul ∷ [] else [])

  index-BranchFound : (n s : Bool) → AllAt (BranchFound (index n s)) 0 (index n s)
  unfolding first_branch
  index-BranchFound true true = (
    (refl, omega arith, board-EntryFound),
    (
      (refl, omega arith, runtime-EntryFound),
      ((refl, omega arith, network-EntryFound), ((refl, omega arith, saul-EntryFound), tt)),
    ),
  )
  index-BranchFound true false = (
    (refl, omega arith, board-EntryFound),
    ((refl, omega arith, runtime-EntryFound), ((refl, omega arith, network-EntryFound), tt)),
  )
  index-BranchFound false true = (
    (refl, omega arith, board-EntryFound),
    ((refl, omega arith, runtime-EntryFound), ((refl, omega arith, saul-EntryFound), tt)),
  )
  index-BranchFound false false =
      ((refl, omega arith, board-EntryFound), ((refl, omega arith, runtime-EntryFound), tt))

  db_index-BranchFound : AllAt (BranchFound (db_index r)) 0 (db_index r)
  unfolding db_index
  db_index-BranchFound = index-BranchFound r.config.dca_network r.config.dca_saul

  -- In every configuration, the path that is made of the name of a branch of db_index and the name
  -- of one of its static entries, with a slash in front of each, finds the node of this entry, and
  -- the name that db_node_get_name copies from this node into an array of DB_NODE_NAME_MAX bytes is
  -- the one of the entry. The fuel allows six rounds.
  pub find_node_by_path-path_of :
      (i j : ℕ) (ent : FlEntry) (e : StaticEntry) (buf : Buffer) (g : Globals)
      → get_elem? (db_index r) i ≡ some ent
      → get_elem? ent.static_entries j ≡ some e
      → 5 < r.fuel
      → length buf ≡ name_max
      → (find_node_by_path r (path_of ent e) g ≡ ok (done (init i j 0), g))
        × (get_name r (init i j 0) buf g ≡ ok (padded name_max e.name, g))
  find_node_by_path-path_of i j ent e buf g at there fuel full =
      let (first, short, entries) =
        AllAt-get (BranchFound (db_index r)) 0 i i (db_index r) ent db_index-BranchFound at
          (omega arith) in
      let (two, first', short') =
        AllAt-get (EntryFound ent) 0 j j ent.static_entries e entries there (omega arith) in
      (
        find_node_by_path-entry r (path_of ent e) ent.branch_name e.name i j ent g two first at
            first' short short' fuel,
        name_of_entry r i ent at j e buf g there full,
      )
