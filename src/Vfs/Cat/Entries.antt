-- ===== src/Vfs/Cat/Entries.antt =====
-- examples/vfs/main.c, `cat`, against shell_cmds.c, `dcaq`, on a static entry with an integer value.
use dca.Common.{
  ℕ, ◌<◌, ◌≤◌, ◌≡◌, ◌≢◌, refl, sym, ◌∙◌, Bool, true, false, Option, some, Text, codes, NoNul, All,
  List, [], ◌∷◌, ◌++◌, ℤ, pos, ok, ◌==◌, length, drop, bit_and, arith, get_elem?, All-get_elem?,
  le→leb, lt→ltb, take-append, length-append,
}
use mathlib.Core.Path.{subst}
use dca.Riot.{Riot, fresh, length-fresh}
use dca.State.{Globals, Cmd, ◌>>=◌}
use dca.Node.{NodeType, int, name_max}
use dca.Db.Index.{StaticEntry, FlEntry, int_fn, db_index}
use dca.Db.Index.Typed.{typed, WellTyped, db_index-WellTyped}
use dca.Db.Fl
use dca.Db.Fl.{init}
use dca.Db.Ops.{done, get_type, get_int_value, int_op}
use dca.Db.Value.Numbers.{number_text}
use dca.Db.Find.Listed.{path_of, find_node_by_path-path_of}
use dca.Fs.{File, contents, write_data, max_str_len}
use dca.Shell.{dcaq, newline, strbuf_size}
use dca.Shell.Dump.Entries.{ValueText}
use dca.Shell.Entries.{dcaq-path_of}
use dca.Vfs.{Vfs}
use dca.Vfs.Cat.{cat}
use dca.Vfs.Cat.Reads.{last, ended}
use dca.Vfs.Cat.Dcafs.{Mounted, cat-contents}

-- a function of integers stands in an entry of integers
typed_int : (t : NodeType) (f : Cmd ℤ) → typed t (int_fn f) ≡ true → t ≡ int
typed_int t f h = ground arith

last_other : (b : ℕ) (t : Text) → All (λ c. c ≢ 10) (b ∷ t) → (last b t == 10) ≡ false
last_other b [] h = let other : b ≢ 10 = h.0 in ground (arith, other)
last_other b (c ∷ t) h = last_other c t h.1

-- a text without a newline gets one
ended-newline : (b : ℕ) (t : Text) → All (λ c. c ≢ 10) (b ∷ t) → ended b t ≡ b ∷ t ++ newline
ended-newline b t h = rw (last_other b t h) refl

number_text-short : (t : Text) → length t < strbuf_size → number_text t strbuf_size ≡ t
unfolding number_text
number_text-short t h = rw (lt→ltb (length t) strbuf_size h) refl

module _ (r : Riot) (i j : ℕ) (ent : FlEntry) (e : StaticEntry) (f : Cmd ℤ) (v : ℤ) (g : Globals)
    (at : get_elem? (db_index r) i ≡ some ent) (there : get_elem? ent.static_entries j ≡ some e)
    (getter : e.get_value ≡ int_fn f) (value : f g ≡ ok (v, g)) where
  -- what dcafs_read copies from
  contents-entry :
      length (r.fmt_s32_dec v) ≤ max_str_len
      → contents r (init i j 0) g
        ≡ ok (
          done (
            r.fmt_s32_dec v ++ drop (length (r.fmt_s32_dec v)) (fresh r max_str_len),
            length (r.fmt_s32_dec v),
          ),
          g,
        )
  unfolding contents write_data get_type Fl.gettype get_int_value int_op Fl.getint_value Fl.call_int
  contents-entry short =
      let (types, few) = All-get_elem? WellTyped (db_index r) i ent (db_index-WellTyped r) at in
      let typed' =
        All-get_elem? (λ (s : StaticEntry). typed s.type s.get_value ≡ true) ent.static_entries j e
          types there in
      let type = typed_int e.type f (rw getter at typed') in
      rw (
        ◌>>=◌,
        at,
        there,
        type,
        at,
        there,
        type,
        getter,
        value,
        length-fresh r max_str_len,
        le→leb (length (r.fmt_s32_dec v)) max_str_len short,
      )

module _ {S D : Type 0} (r : Riot) (v : Vfs S D) (mount : Text) (vars : S → Globals)
    (file : S → ℕ → Option File) (full : S → Bool) (mounted : Mounted r v mount vars file full)
    (low : v.newlib ≡ false) (rdonly : bit_and r.o_rdonly r.o_accmode ≡ r.o_rdonly) where
  -- The same entry through the two ways to read it: for a static entry of db_index whose function
  -- returns an integer without changing a variable, `cat`, compiled with the low-level calls, on the
  -- path of the entry below the mount point of dcafs and `dcaq` on that path print the same text,
  -- which is the decimal text of the number and a newline, return 0 and change no variable. The text
  -- of the number is a C string of at least one and less than 128 bytes, none of them a newline; a
  -- descriptor is free, O_RDONLY lies in O_ACCMODE, and the loops have fuel for the bytes and for six
  -- rounds.
  pub cat-dcaq :
      (command command' : Text) (args : List Text) (i j : ℕ) (ent : FlEntry) (e : StaticEntry)
      (f : Cmd ℤ) (n : ℤ) (b : ℕ) (t : Text) (s : S)
      → get_elem? (db_index r) i ≡ some ent
      → get_elem? ent.static_entries j ≡ some e
      → e.get_value ≡ int_fn f
      → f (vars s) ≡ ok (n, vars s)
      → r.fmt_s32_dec n ≡ b ∷ t
      → NoNul (b ∷ t)
      → All (λ c. c ≢ 10) (b ∷ t)
      → length (b ∷ t) < 128
      → length (b ∷ t) < v.fuel
      → full s ≡ false
      → 5 < r.fuel
      → (s' : S) × (cat v command ((mount ++ path_of ent e) ∷ args) s
          ≡ ok ((b ∷ t ++ newline, pos 0), s'))
        × (vars s' ≡ vars s)
        × (dcaq r command' (path_of ent e ∷ args) (vars s) ≡ ok ((b ∷ t ++ newline, 0), vars s))
  cat-dcaq command command' args i j ent e f n b t s at there getter value text nul other short
        rounds free fuel =
      let found =
        find_node_by_path-path_of r i j ent e (fresh r name_max) (vars s) at there fuel
          (length-fresh r name_max) in
      let read =
        contents-entry r i j ent e f n (vars s) at there getter value (rw text (omega arith)) in
      let (s', printed, kept) =
        cat-contents r v mount vars file full mounted command
          (ent.branch_name ++ codes "/" ++ e.name) args (init i j 0) b
          (t ++ drop (length (b ∷ t)) (fresh r max_str_len)) (length t) (vars s) s low (omega arith)
          rdonly free found.0 (rw text at read)
          (omega (arith, length-append t (drop (length (b ∷ t)) (fresh r max_str_len)))) in
      (
        s',
        printed
            ∙ rw
                (
                  take-append (length t) t (drop (length (b ∷ t)) (fresh r max_str_len)) refl,
                  ended-newline b t other,
                )
                refl,
        kept,
        dcaq-path_of r command' args i j ent e (b ∷ t) (vars s) at there
            (subst (λ h. ValueText r (vars s) h (b ∷ t)) (sym getter)
              (n, value, rw text nul, rw text (sym (number_text-short (b ∷ t) short))))
            fuel,
      )
