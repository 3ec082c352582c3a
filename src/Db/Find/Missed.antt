-- ===== src/Db/Find/Missed.antt =====
-- The search below a branch where no static entry has the name.
use dca.Common.{
  ℕ, zero, suc, ◌+◌, ◌≤◌, ◌≡◌, ◌∙◌, none, some, arith, Text, Buffer, List, [], ◌∷◌, length, drop,
  get_elem?, padded, length-padded, Bool-cases, inl, inr,
}
use dca.Riot.{Riot}
use dca.State.{Globals}
use dca.Node.{Node, name_max, fl_node}
use dca.Db.Index.{StaticEntry, FlEntry, db_index}
use dca.Db.Fl.{fl_data, init}
use dca.Db.Find.Branches.{begins, drop-cons, drop-nil}
use dca.Db.Find.Entries.{first_entry, next_entry, name_of_entry, is_null-entry}
use dca.Db.Find.Rounds.{Child, search_child-miss}
use dca.Db.Find.{search_child}

module _ (r : Riot) (i : ℕ) (ent : FlEntry) (found : get_elem? (db_index r) i ≡ some ent) where
  -- The rounds over the static entries from number s on: k' rounds are left.
  pub search_missed :
      (k k' s : ℕ) (tok : Text) (es : List StaticEntry) (child : Node) (buf : Buffer) (g : Globals)
      → drop s ent.static_entries ≡ es
      → s ≤ length ent.static_entries
      → first_entry tok s es ≡ none
      → k ≡ length es + k'
      → length tok ≤ name_max
      → length buf ≡ name_max
      → (child' : Node) × (buf' : Buffer) × (length buf' ≡ name_max)
        × (search_child r k tok (fl_node (fl_data i s 1)) child buf g
            ≡ search_child r k' tok
                (fl_node (fl_data i (length ent.static_entries) 1))
                child'
                buf'
                g)
  unfolding first_entry
  search_missed k k' s tok [] child buf g h within miss fuel short full =
      let here : s ≡ length ent.static_entries = omega (arith, drop-nil ent.static_entries s h) in
      let all : k ≡ k' = omega arith in (child, buf, full, rw (all, here))
  search_missed zero k' s tok (e ∷ es) child buf g h within miss fuel short full =
      absurd (omega arith)
  search_missed (suc k) k' s tok (e ∷ es) child buf g h within miss fuel short full =
      let (at, next, below) = drop-cons ent.static_entries s e es h in
      let name = padded name_max e.name in
      let c : Child r (fl_node (fl_data i s 1)) child (fl_node (fl_data i (suc s) 1)) (init i s 0)
          e.name g g =
        record {
          next = next_entry r i ent found s child g below;
          not_null = is_null-entry r i ent found s e g at;
          named = λ buf full. name_of_entry r i ent found s e buf g at full;
        } in
      elim (Bool-cases (begins tok e.name)) [
        | inl hit ↦ absurd (ground arith)
        | inr other ↦
            (let (child', buf', size', rest) =
                search_missed k k' (suc s) tok es (init i s 0) name g next (omega arith)
                  (ground arith) (omega arith) short (length-padded name_max e.name) in
              (
                child',
                buf',
                size',
                search_child-miss r k tok (fl_node (fl_data i s 1)) child
                      (fl_node (fl_data i (suc s) 1)) (init i s 0) e.name buf g g c short full other
                    ∙ rest,
              ))
      ]
