-- ===== src/Shell/Dump/Classes.antt =====
-- What `dcadump` prints for the field `class` of a SAUL device.
use dca.Common.{
  ℕ, zero, suc, ◌+◌, ◌<◌, ◌≡◌, refl, Bool, true, false, some, arith, Text, Buffer, codes, NoNul,
  ◌++◌, ok, ◌==◌, length, drop, set, padded, c_text, c_text-set, c_string-terminated, strncpy_le,
  strncpy-padded, length-padded, length-append, lt→ltb,
}
use dca.Riot.{Riot, SaulReg, fresh, length-fresh}
use dca.State.{Globals, ◌>>=◌}
use dca.Node.{name_max, saul_node}
use dca.Saul
use dca.Saul.{saul_data, init, new_saul_node, gettype}
use dca.Db.Ops.{done, get_type, get_name, get_next_child, get_str_value, str_op}
use dca.Db.Ops.Null.{is_null-saul, is_null-null}
use dca.Db.Value.{value_to_str, terminate}
use dca.Shell.{print_value, print_node_name, indent, tree_r, tree_children, strbuf_size}
use dca.Shell.Devices.{Named, c_string-copy}
use dca.Shell.Dump.{leaf_line}

-- `_saul_field_count` at 0
abbrev pub reset : Globals → Globals
reset g = record g { saul_field_count = 0 }

-- The class of a device has a name that is a C string and fits the buffer of the shell.
abbrev pub Classed : Riot → SaulReg → Type 0
Classed r p =
    Named p
    × NoNul (r.saul_class_to_str p.class)
    × (length (r.saul_class_to_str p.class) < strbuf_size)

module _ (r : Riot) (g : Globals) (dev : ℕ) (p : SaulReg) (nz : (dev == 0) ≡ false)
    (at : r.saul_at dev ≡ some p) (classed : Classed r p) where
  print_node_name-class :
      (depth : ℕ)
      → print_node_name r depth (init dev 0) (reset g)
        ≡ ok (indent r depth ++ codes "- " ++ codes "class", reset g)
  unfolding print_node_name get_name Saul.getname Saul.get_field_name
  print_node_name-class depth =
      rw
        (
          ◌>>=◌,
          nz,
          strncpy-padded name_max (fresh r name_max) (codes "class") (length-fresh r name_max),
        )
        refl

  value_to_str-class :
      (buf : Buffer)
      → length buf ≡ strbuf_size
      → (b : Buffer) × (m : ℕ) × (value_to_str r (init dev 0) buf strbuf_size (reset g)
          ≡ ok (done (b, m), reset g))
        × (c_text b ≡ ok (r.saul_class_to_str p.class))
  unfolding value_to_str terminate get_type gettype get_str_value str_op Saul.getstr_value
  value_to_str-class buf full =
      let s = r.saul_class_to_str p.class in
      let n = length s + 1 in
      let written = padded n s ++ drop n buf in
      let whole : length s < length written =
        omega (arith, length-append (padded n s) (drop n buf), length-padded n s) in
      (
        set written (length s) 0,
        length s + 1,
        rw (
          ◌>>=◌,
          nz,
          at,
          strncpy_le n buf s (omega (arith, full, classed.2)),
          c_string-copy n n s (drop n buf) classed.1 refl (omega arith),
          lt→ltb (length s) (length written) whole,
        ),
        c_text-set written (length s) s whole
            (c_string-terminated n n s (drop n buf) classed.1 (omega arith) (omega arith)),
      )

  print_value-class :
      print_value r (init dev 0) (reset g) ≡ ok (r.saul_class_to_str p.class, reset g)
  unfolding print_value
  print_value-class =
      let (b, m, written, shown) =
        value_to_str-class (fresh r strbuf_size) (length-fresh r strbuf_size) in
      rw (◌>>=◌, written, shown)

  tree_r-class :
      (k depth : ℕ) (b : Bool)
      → tree_r r (suc k) depth b (init dev 0) (reset g)
        ≡ ok (
          (
            leaf_line b
                (indent r depth ++ codes "- " ++ codes "class")
                (r.saul_class_to_str p.class),
            init dev 0,
          ),
          reset g,
        )
  unfolding tree_r get_type gettype
  tree_r-class k depth true = rw (◌>>=◌, print_node_name-class depth, print_value-class)
  tree_r-class k depth false = rw (◌>>=◌, print_node_name-class depth)

  pub tree_children-class :
      (n k q depth : ℕ) (b : Bool) (out : Text)
      → 1 < n
      → tree_children r
          (tree_r r (suc k) depth b)
          n
          (saul_node (saul_data q 0))
          (init dev 0)
          out
          (reset g)
        ≡ ok (
          (
            out
                ++ leaf_line b
                    (indent r depth ++ codes "- " ++ codes "class")
                    (r.saul_class_to_str p.class),
            saul_node (saul_data q 0),
          ),
          reset g,
        )
  unfolding tree_children get_next_child Saul.getnext_child
  tree_children-class zero k q depth b out fuel = absurd (omega arith)
  tree_children-class (suc zero) k q depth b out fuel = absurd (omega arith)
  tree_children-class (suc (suc n)) k q depth b out fuel =
      rw (is_null-saul, ◌>>=◌, tree_r-class k depth b, is_null-null)
