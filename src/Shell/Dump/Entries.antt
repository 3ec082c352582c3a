-- ===== src/Shell/Dump/Entries.antt =====
-- What `dcadump` prints for the static entries of a branch.
use dca.Common.{
  ℕ, zero, suc, ◌+◌, ◌-◌, ◌<◌, ◌≡◌, refl, ap, ◌∙◌, Bool, true, false, some, arith, Text, Buffer,
  codes, NoNul, ℤ, List, [], ◌∷◌, ◌++◌, map, All, All-get_elem?, ok, length, set, drop, get_elem?,
  c_string, c_text, c_text-set, c_string-padded, has_nul-padded, lt→ltb,
}
use mathlib.Core.List.{append_assoc, append-nil}
use dca.Riot.{Riot, fresh, length-fresh}
use dca.State.{Globals, Cmd, ◌>>=◌}
use dca.Node.{NodeType, int, float, str, Node, name_max, fl_node}
use dca.Db.Index.{Getter, int_fn, float_fn, str_fn, StaticEntry, FlEntry, db_index}
use dca.Db.Index.Typed.{typed, WellTyped, db_index-WellTyped}
use dca.Db.Fl
use dca.Db.Fl.{fl_data, init}
use dca.Db.Ops.{
  done, get_type, get_next_child, get_int_value, get_float_value, get_str_value, int_op, float_op,
  str_op,
}
use dca.Db.Value.{value_to_str, terminate, float_prescision}
use dca.Db.Value.Numbers.{number_text, value_to_str-int, value_to_str-float}
use dca.Db.Find.Branches.{drop-cons}
use dca.Db.Find.Entries.{next_entry, name_of_entry, is_null-entry}
use dca.Shell.{print_value, print_node_name, indent, tree_r, tree_children, strbuf_size, is_leaf}
use dca.Shell.Dump.{leaf_line, c_text-number_text}

-- What is printed for the value that a function returns: a number as text, or what a function of
-- texts leaves in the array, up to the NUL that is put behind it.
abbrev pub ValueText : Riot → Globals → Getter → Text → Type 0
ValueText r g (int_fn f) s =
    (v : ℤ) × (f g ≡ ok (v, g))
    × NoNul (r.fmt_s32_dec v)
    × (s ≡ number_text (r.fmt_s32_dec v) strbuf_size)
ValueText r g (float_fn f) s =
    (v : ℕ) × (f g ≡ ok (v, g))
    × NoNul (r.fmt_float v float_prescision)
    × (s ≡ number_text (r.fmt_float v float_prescision) strbuf_size)
ValueText r g (str_fn f) s =
    (buf : Buffer)
    → length buf ≡ strbuf_size
    → (b : Buffer) × (n : ℕ) × (f buf (strbuf_size - 1) g ≡ ok ((b, n), g))
      × (n < length b)
      × (c_string (set b n 0) ≡ s)

-- the name of an entry is a C string that fits its array with its NUL
abbrev pub Named : StaticEntry → Type 0
Named e = NoNul e.name × (length e.name < name_max)

typed_leaf : (t : NodeType) (f : Getter) → typed t f ≡ true → is_leaf t ≡ true
typed_leaf t f h = ground arith

module _ (r : Riot) (depth : ℕ) (b : Bool) where
  unfoldable pub entry_line : StaticEntry → Text → Text
  entry_line e text = leaf_line b (indent r depth ++ codes "- " ++ e.name) text

  -- the lines of entries with the texts of their values
  unfoldable pub entry_lines : List (StaticEntry × Text) → Text
  unfolding entry_line
  entry_lines [] = []
  entry_lines ((e, text) ∷ rows) = entry_line e text ++ entry_lines rows

-- The loop of _tree_r over the children of the branch number i, before it reads child number s.
abbrev pub go_on : Riot → ℕ → (Node → Cmd (Text × Node)) → ℕ → ℕ → Node → Text → Cmd (Text × Node)
go_on r i tree k s child out = do
  p ← get_next_child r (fl_node (fl_data i s 1)) child
  tree_children r tree k p.0 p.1 out

module _ (r : Riot) (i : ℕ) (ent : FlEntry) (found : get_elem? (db_index r) i ≡ some ent)
    (g : Globals) where
  value_to_str-text :
      (s : ℕ) (e : StaticEntry) (f : Buffer → ℕ → Cmd (Buffer × ℕ)) (text : Text) (buf : Buffer)
      → get_elem? ent.static_entries s ≡ some e
      → e.type ≡ str
      → e.get_value ≡ str_fn f
      → ValueText r g (str_fn f) text
      → length buf ≡ strbuf_size
      → (b : Buffer) × (m : ℕ) × (value_to_str r (init i s 0) buf strbuf_size g
          ≡ ok (done (b, m), g))
        × (c_text b ≡ ok text)
  unfolding value_to_str terminate get_type Fl.gettype get_str_value str_op Fl.getstr_value
      Fl.call_str
  value_to_str-text s e f text buf at type getter value full =
      let (b, m, written, below, shown) = value buf full in
      (
        set b m 0,
        m + 1,
        rw (◌>>=◌, found, at, type, found, at, type, getter, written, lt→ltb m (length b) below),
        c_text-set b m text below shown,
      )

  -- what the operations of an entry give, by its type and its function
  value_to_str-entry :
      (s : ℕ) (e : StaticEntry) (t : NodeType) (f : Getter) (text : Text) (n : ℕ) (buf : Buffer)
      → get_elem? ent.static_entries s ≡ some e
      → e.type ≡ t
      → e.get_value ≡ f
      → typed t f ≡ true
      → ValueText r g f text
      → length buf ≡ n
      → n ≡ strbuf_size
      → (b : Buffer) × (m : ℕ) × (value_to_str r (init i s 0) buf n g ≡ ok (done (b, m), g))
        × (c_text b ≡ ok text)
  unfolding get_type Fl.gettype get_int_value get_float_value int_op float_op Fl.getint_value
      Fl.getfloat_value Fl.call_int Fl.call_float
  value_to_str-entry s e int (int_fn f) text n buf at type getter h (v, value, decimal, shown) full
        size =
      let w =
        value_to_str-int r (init i s 0) buf g g g v (rw (◌>>=◌, found, at, type))
          (rw (◌>>=◌, found, at, type, getter) value) decimal (omega (arith, full, size)) in
      (
        w.0,
        length (number_text (r.fmt_s32_dec v) n) + 1,
        rw full at w.1,
        c_text-number_text w.0 (r.fmt_s32_dec v) text n (omega (arith, size))
            (omega (arith, full, size, w.3)) (rw full at w.2) (rw size shown),
      )
  value_to_str-entry s e float (float_fn f) text n buf at type getter h (v, value, decimal, shown)
        full size =
      let w =
        value_to_str-float r (init i s 0) buf g g g v (rw (◌>>=◌, found, at, type))
          (rw (◌>>=◌, found, at, type, getter) value) decimal (omega (arith, full, size)) in
      (
        w.0,
        length (number_text (r.fmt_float v float_prescision) n) + 1,
        rw full at w.1,
        c_text-number_text w.0 (r.fmt_float v float_prescision) text n (omega (arith, size))
            (omega (arith, full, size, w.3)) (rw full at w.2) (rw size shown),
      )
  value_to_str-entry s e str (str_fn f) text n buf at type getter h value full size =
      let w = value_to_str-text s e f text buf at type getter value (full ∙ size) in
      (w.0, w.1, rw size w.2, w.3)
  value_to_str-entry s e t f text n buf at type getter h value full size = absurd (cc)

  pub print_value-entry :
      (s : ℕ) (e : StaticEntry) (text : Text)
      → get_elem? ent.static_entries s ≡ some e
      → ValueText r g e.get_value text
      → print_value r (init i s 0) g ≡ ok (text, g)
  unfolding print_value
  print_value-entry s e text at value =
      let (types, few) = All-get_elem? WellTyped (db_index r) i ent (db_index-WellTyped r) found in
      let typed' =
        All-get_elem? (λ (s : StaticEntry). typed s.type s.get_value ≡ true) ent.static_entries s e
          types at in
      let (b, m, written, shown) =
        value_to_str-entry s e e.type e.get_value text strbuf_size (fresh r strbuf_size) at refl
          refl typed' value (length-fresh r strbuf_size) refl in
      rw (◌>>=◌, written, shown)

  -- an entry is a leaf
  pub get_type-entry :
      (s : ℕ) (e : StaticEntry)
      → get_elem? ent.static_entries s ≡ some e
      → (get_type r (init i s 0) g ≡ ok (e.type, g)) × (is_leaf e.type ≡ true)
  unfolding get_type Fl.gettype
  get_type-entry s e at =
      let (types, few) = All-get_elem? WellTyped (db_index r) i ent (db_index-WellTyped r) found in
      let typed' =
        All-get_elem? (λ (s : StaticEntry). typed s.type s.get_value ≡ true) ent.static_entries s e
          types at in
      (rw (◌>>=◌, found, at), typed_leaf e.type e.get_value typed')

  print_node_name-entry :
      (s : ℕ) (e : StaticEntry) (depth : ℕ)
      → get_elem? ent.static_entries s ≡ some e
      → Named e
      → print_node_name r depth (init i s 0) g ≡ ok (indent r depth ++ codes "- " ++ e.name, g)
  unfolding print_node_name
  print_node_name-entry s e depth at named = rw (
    ◌>>=◌,
    name_of_entry r i ent found s e (fresh r name_max) g at (length-fresh r name_max),
    has_nul-padded name_max e.name named.0 named.1,
    c_string-padded name_max e.name named.0 (omega (arith, named.1)),
  )

  tree_r-entry :
      (k s depth : ℕ) (b : Bool) (e : StaticEntry) (text : Text)
      → get_elem? ent.static_entries s ≡ some e
      → Named e
      → ValueText r g e.get_value text
      → tree_r r (suc k) depth b (init i s 0) g ≡ ok ((entry_line r depth b e text, init i s 0), g)
  unfolding tree_r entry_line
  tree_r-entry k s depth true e text at named value =
      let (type, leaf) = get_type-entry s e at in
      rw (
        ◌>>=◌,
        print_node_name-entry s e depth at named,
        type,
        leaf,
        print_value-entry s e text at value,
      )
  tree_r-entry k s depth false e text at named value =
      let (type, leaf) = get_type-entry s e at in
      rw (◌>>=◌, print_node_name-entry s e depth at named, type, leaf)

  -- The rounds over the static entries from number s on print their lines.
  pub go_on-entries :
      (j depth : ℕ) (b : Bool) (rows : List (StaticEntry × Text)) (k m s n : ℕ) (child : Node)
      (out : Text)
      → drop s ent.static_entries ≡ map (λ row. row.0) rows
      → All (λ row. Named row.0 × ValueText r g row.0.get_value row.1) rows
      → k ≡ length rows + m
      → s + length rows ≡ n
      → (child' : Node) × (go_on r i (tree_r r (suc j) depth b) k s child out g
          ≡ go_on r i (tree_r r (suc j) depth b) m n child' (out ++ entry_lines r depth b rows) g)
  unfolding entry_lines tree_children
  go_on-entries j depth b [] k m s n child out h all size place =
      let k' : k ≡ m = omega arith in
      let s' : s ≡ n = omega arith in (child, rw (k', s', append-nil) refl)
  go_on-entries j depth b ((e, text) ∷ rows) zero m s n child out h all size place =
      absurd (omega arith)
  go_on-entries j depth b ((e, text) ∷ rows) (suc k) m s n child out h ((named, value), all) size
        place =
      let (at, next, below) = drop-cons ent.static_entries s e (map (λ row. row.0) rows) h in
      let (child', rest) =
        go_on-entries j depth b rows k m (suc s) n (init i s 0) (out ++ entry_line r depth b e text)
          next all (omega arith) (omega arith) in
      (
        child',
        rw
            (
              ◌>>=◌,
              next_entry r i ent found s child g below,
              is_null-entry r i ent found s e g at,
              tree_r-entry j s depth b e text at named value,
            )
            (rest
              ∙ ap (λ t. go_on r i (tree_r r (suc j) depth b) m n child' t g)
                  (append_assoc out (entry_line r depth b e text) (entry_lines r depth b rows))),
      )
