-- ===== src/Shell/Dump.antt =====
-- What `dcadump` prints for the value of a field of a thread.
pub mod Fields
pub mod Entries
pub mod Branches
pub mod Devices
pub mod System
pub mod Shows
pub mod Rows
pub mod Classes
pub mod Database
pub mod Processes
use dca.Common.{
  ℕ, zero, suc, ◌+◌, ◌≤◌, ◌<◌, ◌≡◌, refl, sym, ap, ◌∙◌, some, arith, Text, Buffer, codes, NoNul, ℤ,
  List, [], ◌∷◌, ◌++◌, ok, length, set, padded, length-padded, c_string, c_text, c_text-set,
  c_text-short, le→leb, lt→ltb, strncpy_le, int32, drop, ◌≢◌, length-append, length-drop, Bool,
  true, false,
}
use mathlib.Core.List.{append_assoc, append-nil}
use dca.Riot.{Riot, Thread, Status, fresh, length-fresh}
use dca.State.{Globals, Cmd, ◌>>=◌}
use dca.Node.{Node, name_max, int, str, ps_node, null_node}
use dca.Ps
use dca.Ps.{ps_data, init, gettype, getint_value, getstr_value, state_name, stack_used}
use dca.Ps.Step.{at, fields, nth, getname_field, c_string-padded_field}
use dca.Db.Ops.{done, get_type, get_name, get_int_value, get_str_value, int_op, str_op}
use dca.Db.Ops.Null.{is_null-null}
use dca.Db.Value.{value_to_str, terminate}
use dca.Db.Value.Numbers.{number_text, value_to_str-int}
use dca.Shell.{print_value, tree_children, strbuf_size, newline}

-- A line of a leaf, with its value where that is asked for.
abbrev pub leaf_line : Bool → Text → Text → Text
leaf_line true head value = head ++ codes ": " ++ value ++ newline
leaf_line false head value = head ++ newline

-- The loop of _tree_r ends at the null node.
pub tree_children-end :
    (r : Riot) (g : Globals) (tree : Node → Cmd (Text × Node)) (k : ℕ) (node : Node) (out : Text)
    → 0 < k
    → tree_children r tree k node null_node out g ≡ ok ((out, node), g)
unfolding tree_children
tree_children-end r g tree zero node out f = absurd (omega arith)
tree_children-end r g tree (suc k) node out f = rw (◌>>=◌, is_null-null)

-- the number in a field of a thread; `state` is a text
abbrev pub field_number : Riot → ℕ → Thread → ℕ → ℤ
field_number r p t zero = int32 p
field_number r p t (suc zero) = int32 0
field_number r p t (suc (suc zero)) = int32 t.priority
field_number r p t (suc (suc (suc zero))) = int32 t.stack_size
field_number r p t (suc (suc (suc (suc c)))) = stack_used r t

-- the text of a field of a thread
abbrev pub field_text : Riot → ℕ → Thread → ℕ → Text
field_text r p t (suc zero) = state_name t.status
field_text r p t c = number_text (r.fmt_s32_dec (field_number r p t c)) strbuf_size

length-number_text : (s : Text) (n : ℕ) → 4 ≤ n → length (number_text s n) < n
unfolding number_text
length-number_text s n h = ground arith

-- an array with the text of a number is longer than it
pub c_text-number_text :
    (b : Buffer) (s text : Text) (n : ℕ)
    → 4 ≤ n
    → length b ≡ n
    → c_string b ≡ number_text s n
    → text ≡ number_text s n
    → c_text b ≡ ok text
c_text-number_text b s text n room full e shown =
    c_text-short b text (rw shown (omega (arith, full, length-number_text s n room)))
      (e ∙ sym shown)

-- the decimal numbers that RIOT writes are C strings
abbrev pub Decimal : Riot → Type 0
Decimal r = (n : ℤ) → NoNul (r.fmt_s32_dec n)

c_string-state :
    (st : Status) (rest : Buffer)
    → c_string (set (padded name_max (state_name st) ++ rest) 88 0) ≡ state_name st
unfolding state_name
c_string-state Status.stopped rest = refl
c_string-state Status.zombie rest = refl
c_string-state Status.sleeping rest = refl
c_string-state Status.mutex_blocked rest = refl
c_string-state Status.receive_blocked rest = refl
c_string-state Status.send_blocked rest = refl
c_string-state Status.reply_blocked rest = refl
c_string-state Status.flag_blocked_any rest = refl
c_string-state Status.flag_blocked_all rest = refl
c_string-state Status.mbox_blocked rest = refl
c_string-state Status.cond_blocked rest = refl
c_string-state Status.running rest = refl
c_string-state Status.pending rest = refl

module _ (r : Riot) (p : ℕ) (t : Thread) (g : Globals) (h : p ≤ r.pid_last)
    (live : r.sched_threads p ≡ some t) where
  get_type-number : (c : ℕ) → c < 5 → c ≢ 1 → get_type r (init p 0) (at g c) ≡ ok (int, at g c)
  unfolding get_type gettype
  get_type-number c few other = ground arith

  get_int_value-number :
      (c : ℕ)
      → c < 5
      → c ≢ 1
      → get_int_value r (init p 0) (at g c) ≡ ok (field_number r p t c, at g c)
  unfolding get_int_value int_op getint_value get_type gettype
  get_int_value-number zero few other = rw (◌>>=◌, le→leb p r.pid_last h)
  get_int_value-number (suc zero) few other = absurd (other refl)
  get_int_value-number (suc (suc zero)) few other = rw (◌>>=◌, le→leb p r.pid_last h, live)
  get_int_value-number (suc (suc (suc zero))) few other = rw (◌>>=◌, le→leb p r.pid_last h, live)
  get_int_value-number (suc (suc (suc (suc zero)))) few other =
      rw (◌>>=◌, le→leb p r.pid_last h, live)
  get_int_value-number (suc (suc (suc (suc (suc c))))) few other = absurd (omega arith)

  -- the text of the state, in an array with room for it
  value_to_str-state :
      (n : ℕ) (buf : Buffer)
      → length buf ≡ n
      → 88 < n
      → (b : Buffer) × (value_to_str r (init p 0) buf n (at g 1) ≡ ok (done (b, 89), at g 1))
        × (c_text b ≡ ok (state_name t.status))
  unfolding value_to_str terminate get_type gettype get_str_value str_op getstr_value
  value_to_str-state n buf full room =
      let written = padded name_max (state_name t.status) ++ drop name_max buf in
      let whole : 88 < length written = omega (
        arith,
        length-append (padded name_max (state_name t.status)) (drop name_max buf),
        length-padded name_max (state_name t.status),
        length-drop name_max buf,
      ) in
      (
        set written 88 0,
        rw (
          ◌>>=◌,
          le→leb 4 n (omega arith),
          le→leb p r.pid_last h,
          live,
          strncpy_le name_max buf (state_name t.status) (omega arith),
          lt→ltb 88 (length written) whole,
        ),
        c_text-set written 88 (state_name t.status) whole
            (c_string-state t.status (drop name_max buf)),
      )

  value_to_str-number :
      (n c : ℕ) (buf : Buffer)
      → length buf ≡ n
      → 4 ≤ n
      → c < 5
      → c ≢ 1
      → Decimal r
      → (b : Buffer) × (m : ℕ) × (value_to_str r (init p 0) buf n (at g c)
          ≡ ok (done (b, m), at g c))
        × (c_text b ≡ ok (number_text (r.fmt_s32_dec (field_number r p t c)) n))
  value_to_str-number n c buf full room few other decimal =
      let v =
        value_to_str-int r (init p 0) buf (at g c) (at g c) (at g c) (field_number r p t c)
          (get_type-number c few other) (get_int_value-number c few other)
          (decimal (field_number r p t c)) (omega arith) in
      (
        v.0,
        length (number_text (r.fmt_s32_dec (field_number r p t c)) n) + 1,
        rw full at v.1,
        c_text-number_text v.0 (r.fmt_s32_dec (field_number r p t c))
            (number_text (r.fmt_s32_dec (field_number r p t c)) n) n room (omega (arith, full, v.3))
            (rw full at v.2) refl,
      )

  print_value-state : print_value r (init p 0) (at g 1) ≡ ok (state_name t.status, at g 1)
  unfolding print_value
  print_value-state =
      let v =
        value_to_str-state strbuf_size (fresh r strbuf_size) (length-fresh r strbuf_size)
          (omega arith) in
      rw (◌>>=◌, v.1, v.2)

  print_value-number :
      (c : ℕ)
      → c < 5
      → c ≢ 1
      → Decimal r
      → print_value r (init p 0) (at g c)
        ≡ ok (number_text (r.fmt_s32_dec (field_number r p t c)) strbuf_size, at g c)
  unfolding print_value
  print_value-number c few other decimal =
      let v =
        value_to_str-number strbuf_size c (fresh r strbuf_size) (length-fresh r strbuf_size)
          (omega arith) few other decimal in
      rw (◌>>=◌, v.2, v.3)

  -- what is printed for the value of a field
  pub print_value-field :
      (c : ℕ)
      → c < 5
      → Decimal r
      → print_value r (init p 0) (at g c) ≡ ok (field_text r p t c, at g c)
  print_value-field zero few decimal = print_value-number 0 few (omega arith) decimal
  print_value-field (suc zero) few decimal = print_value-state
  print_value-field (suc (suc c)) few decimal =
      print_value-number (suc (suc c)) few (omega arith) decimal
