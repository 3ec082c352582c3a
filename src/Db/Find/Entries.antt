-- ===== src/Db/Find/Entries.antt =====
-- The search of a static entry below a branch.
use dca.Common.{
  ℕ, zero, suc, ◌+◌, ◌%◌, ◌^◌, ◌≤◌, ◌<◌, ◌≡◌, refl, ◌∙◌, true, false, Option, none, some, arith,
  Text, Buffer, List, [], ◌∷◌, ok, leb, if◌then◌else◌, length, drop, get_elem?, padded,
  length-padded, strncpy-padded, le→leb, lt→ltb, Bool-cases, inl, inr, All-get_elem?,
}
use dca.Riot.{Riot, fresh, length-fresh}
use dca.State.{Globals, and_then, ◌>>=◌}
use dca.Node.{Node, NodeType, name_max, fl_node, uninit}
use dca.Db.Index.{Getter, StaticEntry, FlEntry, db_index}
use dca.Db.Index.Typed.{typed, WellTyped, db_index-WellTyped}
use dca.Db.Fl
use dca.Db.Fl.{new_fl_node, fl_data, init, root}
use dca.Db.Ops.{done, is_null, is_null_type, get_type, get_name, get_next_child}
use dca.Db.Find.Walk.{components, walk, find_node_by_path-walk}
use dca.Db.Find.Branches.{
  begins, first_branch, stop, drop-cons, few_branches, search_branch, is_null-root, is_null-branch,
}
use dca.Db.Find.{enter, find_step, search_step, search_child, find_node_by_path}

-- the place of the first static entry whose name begins with `tok`, counted from s
unfoldable pub first_entry : Text → ℕ → List StaticEntry → Option ℕ
first_entry tok s [] = none
first_entry tok s (e ∷ es) =
    let rest = first_entry tok (suc s) es in if begins tok e.name then some s else rest

typed_not_null : (t : NodeType) (f : Getter) → typed t f ≡ true → is_null_type t ≡ false
typed_not_null t f h = ground arith

module _ (r : Riot) (i : ℕ) (ent : FlEntry) (found : get_elem? (db_index r) i ≡ some ent) where
  pub next_entry :
      (s : ℕ) (child : Node) (g : Globals)
      → s < length ent.static_entries
      → get_next_child r (fl_node (fl_data i s 1)) child g
        ≡ ok ((fl_node (fl_data i (suc s) 1), init i s 0), g)
  unfolding get_next_child Fl.getnext_child
  next_entry s child g h =
      let (types, few) = All-get_elem? WellTyped (db_index r) i ent (db_index-WellTyped r) found in
      let e : (s + 1) % 2 ^ 8 ≡ suc s = omega arith in
      rw (◌>>=◌, found, lt→ltb s (length ent.static_entries) h, e)

  pub name_of_entry :
      (s : ℕ) (e : StaticEntry) (buf : Buffer) (g : Globals)
      → get_elem? ent.static_entries s ≡ some e
      → length buf ≡ name_max
      → get_name r (init i s 0) buf g ≡ ok (padded name_max e.name, g)
  unfolding get_name Fl.getname
  name_of_entry s e buf g at full = rw (◌>>=◌, found, at, strncpy-padded name_max buf e.name full)

  pub is_null-entry :
      (s : ℕ) (e : StaticEntry) (g : Globals)
      → get_elem? ent.static_entries s ≡ some e
      → is_null r (init i s 0) g ≡ ok (false, g)
  unfolding is_null get_type Fl.gettype
  is_null-entry s e g at =
      let (types, few) = All-get_elem? WellTyped (db_index r) i ent (db_index-WellTyped r) found in
      let e_typed =
        All-get_elem? (λ (s : StaticEntry). typed s.type s.get_value ≡ true) ent.static_entries s e
          types at in
      rw (◌>>=◌, found, at, typed_not_null e.type e.get_value e_typed)

  search_entry :
      (k s j : ℕ) (tok : Text) (es : List StaticEntry) (child : Node) (buf : Buffer) (g : Globals)
      → drop s ent.static_entries ≡ es
      → first_entry tok s es ≡ some j
      → length es < k
      → length tok ≤ name_max
      → length buf ≡ name_max
      → and_then (search_child r k tok (fl_node (fl_data i s 1)) child buf g) (enter r stop)
        ≡ ok (done (init i j 0), g)
  unfolding search_child search_step enter first_entry
  search_entry zero s j tok es child buf g h hit fuel short full = absurd (omega arith)
  search_entry (suc k) s j tok [] child buf g h hit fuel short full = absurd (cc)
  search_entry (suc k) s j tok (e ∷ es) child buf g h first fuel short full =
      let (at, next, below) = drop-cons ent.static_entries s e es h in
      let name = padded name_max e.name in
      let size = length-padded name_max e.name in
      let enough : leb (length tok) (length name) ≡ true =
        le→leb (length tok) (length name) (omega (arith, size)) in
      elim (Bool-cases (begins tok e.name)) [
        | inl hit ↦
            (let here : s ≡ j = ground arith in
              rw (
                ◌>>=◌,
                next_entry s child g below,
                is_null-entry s e g at,
                name_of_entry s e buf g at full,
                enough,
                hit,
                here,
              ))
        | inr miss ↦
            rw
              (
                ◌>>=◌,
                next_entry s child g below,
                is_null-entry s e g at,
                name_of_entry s e buf g at full,
                enough,
                miss,
              )
              (search_entry k (suc s) j tok es (init i s 0) name g next (ground arith) (omega arith)
                short size)
      ]

module _ (r : Riot) where
  -- A path that names two folders, of at most DB_NODE_NAME_MAX bytes each, finds the static entry
  -- number j of the branch number i, if i is the first branch whose name begins with the first folder
  -- and j the first of its static entries whose name begins with the second one. The fuel has to
  -- allow six rounds.
  pub find_node_by_path-entry :
      (path t₁ t₂ : Text) (i j : ℕ) (ent : FlEntry) (g : Globals)
      → components path ≡ t₁ ∷ t₂ ∷ []
      → first_branch t₁ 0 (db_index r) ≡ some i
      → get_elem? (db_index r) i ≡ some ent
      → first_entry t₂ 0 ent.static_entries ≡ some j
      → length t₁ ≤ name_max
      → length t₂ ≤ name_max
      → 5 < r.fuel
      → find_node_by_path r path g ≡ ok (done (init i j 0), g)
  unfolding walk find_step
  find_node_by_path-entry path t₁ t₂ i j ent g two branch at entry short₁ short₂ fuel =
      let (types, few) = All-get_elem? WellTyped (db_index r) i ent (db_index-WellTyped r) at in
      let (buf, size, found) =
        search_branch r (λ child name_buf. walk r (t₂ ∷ []) child child name_buf) r.fuel 0 t₁
          (db_index r) uninit (fresh r name_max) g refl (omega (arith, few_branches r)) short₁
          (length-fresh r name_max) in
      rw (find_node_by_path-walk r path, two, ◌>>=◌, is_null-root)
        (found
          ∙ rw (branch, ◌>>=◌, is_null-branch)
              (search_entry r i ent at r.fuel 0 j t₂ ent.static_entries (new_fl_node i) buf g refl
                entry (omega arith) short₂ size))
