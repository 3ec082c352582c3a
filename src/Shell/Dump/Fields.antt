-- ===== src/Shell/Dump/Fields.antt =====
-- What `dcadump` prints for the fields of a thread.
use dca.Common.{
  ℕ, zero, suc, ◌+◌, ◌≤◌, ◌<◌, ◌≡◌, refl, ◌∙◌, some, arith, Text, codes, Bool, true, false, ◌++◌,
  ok, drop_all,
}
use mathlib.Core.List.{append_assoc, append-nil}
use dca.Riot.{Riot, Thread, fresh, length-fresh}
use dca.State.{Globals, ◌>>=◌}
use dca.Node.{NodeType, int, str, name_max, ps_node}
use dca.Ps.{ps_data, init, gettype}
use dca.Ps.Step.{
  at, fields, nth, field_next, field_end, getname_field, has_nul-padded_field,
  c_string-padded_field,
}
use dca.Db.Ops.{get_type, get_name, get_next_child}
use dca.Db.Ops.Null.{is_null-ps, is_null-null}
use dca.Shell.{print_node_name, indent, tree_r, tree_children, is_leaf}
use dca.Shell.Dump.{Decimal, field_text, print_value-field, leaf_line}

module _ (r : Riot) (depth : ℕ) (print_contents : Bool) where
  unfoldable pub field_line : ℕ → Thread → ℕ → Text
  field_line p t c =
      leaf_line print_contents (indent r depth ++ codes "- " ++ nth fields c) (field_text r p t c)

  -- the lines of m fields behind field c, and of c itself
  unfoldable pub field_lines : ℕ → Thread → ℕ → ℕ → Text
  unfolding field_line
  field_lines p t zero c = field_line p t c
  field_lines p t (suc m) c = field_line p t c ++ field_lines p t m (suc c)

module _ (r : Riot) (p : ℕ) (t : Thread) (g : Globals) (h : p ≤ r.pid_last)
    (live : r.sched_threads p ≡ some t) (decimal : Decimal r) where
  print_node_name-field :
      (depth c : ℕ)
      → c < 5
      → print_node_name r depth (init p 0) (at g c)
        ≡ ok (indent r depth ++ codes "- " ++ nth fields c, at g c)
  unfolding print_node_name get_name
  print_node_name-field depth c few = rw (
    ◌>>=◌,
    getname_field r g p c (fresh r name_max) h few (omega (arith, length-fresh r name_max)),
    drop_all name_max (fresh r name_max) (length-fresh r name_max),
    append-nil,
    has_nul-padded_field c few,
    c_string-padded_field c few,
  )

  -- a field is a leaf
  get_type-field :
      (c : ℕ)
      → c < 5
      → (ty : NodeType) × (get_type r (init p 0) (at g c) ≡ ok (ty, at g c)) × (is_leaf ty ≡ true)
  unfolding get_type gettype
  get_type-field (suc zero) few = (str, refl, refl)
  get_type-field zero few = (int, refl, refl)
  get_type-field (suc (suc c)) few = (int, ground arith, refl)

  tree_r-field :
      (depth : ℕ) (b : Bool) (k c : ℕ)
      → c < 5
      → tree_r r (suc k) depth b (init p 0) (at g c)
        ≡ ok ((field_line r depth b p t c, init p 0), at g c)
  unfolding tree_r field_line
  tree_r-field depth true k c few =
      let (ty, e, leaf) = get_type-field c few in
      rw (
        ◌>>=◌,
        print_node_name-field depth c few,
        e,
        leaf,
        print_value-field r p t g h live c few decimal,
      )
  tree_r-field depth false k c few =
      let (ty, e, leaf) = get_type-field c few in
      rw (◌>>=◌, print_node_name-field depth c few, e, leaf)

  -- One round of the loop over the fields.
  tree_children-field :
      (depth : ℕ) (b : Bool) (q k j c : ℕ) (out : Text)
      → c < 4
      → tree_children r
          (tree_r r (suc j) depth b)
          (suc k)
          (ps_node (ps_data q 0))
          (init p 0)
          out
          (at g c)
        ≡ tree_children r
            (tree_r r (suc j) depth b)
            k
            (ps_node (ps_data q 0))
            (init p 0)
            (out ++ field_line r depth b p t c)
            (at g (suc c))
  unfolding tree_children get_next_child
  tree_children-field depth b q k j c out few =
      rw (
        is_null-ps,
        ◌>>=◌,
        tree_r-field depth b j c (omega arith),
        field_next r g q c (init p 0) few,
      )

  tree_children-last :
      (depth : ℕ) (b : Bool) (q k j : ℕ) (out : Text)
      → tree_children r
          (tree_r r (suc j) depth b)
          (suc (suc k))
          (ps_node (ps_data q 0))
          (init p 0)
          out
          (at g 4)
        ≡ ok ((out ++ field_line r depth b p t 4, ps_node (ps_data q 0)), at g 0)
  unfolding tree_children get_next_child
  tree_children-last depth b q k j out = rw (
    is_null-ps,
    ◌>>=◌,
    tree_r-field depth b j 4 (omega arith),
    field_end r g q (init p 0),
    is_null-null,
  )

  pub tree_children-fields :
      (depth : ℕ) (b : Bool) (q j m c k : ℕ) (out : Text)
      → c + m ≡ 4
      → m + 2 ≤ k
      → tree_children r (tree_r r (suc j) depth b) k (ps_node (ps_data q 0)) (init p 0) out (at g c)
        ≡ ok ((out ++ field_lines r depth b p t m c, ps_node (ps_data q 0)), at g 0)
  unfolding field_lines
  tree_children-fields depth b q j m c zero out e fuel = absurd (omega arith)
  tree_children-fields depth b q j zero c (suc zero) out e fuel = absurd (omega arith)
  tree_children-fields depth b q j zero c (suc (suc k)) out e fuel =
      let e' : c ≡ 4 = omega arith in rw e' (tree_children-last depth b q k j out)
  tree_children-fields depth b q j (suc m) c (suc k) out e fuel =
      tree_children-field depth b q k j c out (omega arith)
      ∙ tree_children-fields depth b q j m (suc c) k (out ++ field_line r depth b p t c)
          (omega arith) (omega arith)
      ∙ rw append_assoc refl
