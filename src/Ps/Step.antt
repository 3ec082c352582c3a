-- ===== src/Ps/Step.antt =====
-- One call of _ps_node_getnext_child and of _ps_node_getname, at each level.
use dca.Common.{
  ◌++◌, [], drop, length, List, strncpy_le, strncpy-strncpy, lt→ltb, le→leb, ℕ, zero, suc, ◌≤◌, ◌<◌,
  ◌≡◌, refl, some, arith, Text, Buffer, codes, ◌∷◌, ok, padded, c_string, has_nul, true,
}
use mathlib.Core.List.{append-nil}
use dca.Riot.{Riot}
use dca.State.{Globals}
use dca.Node.{Node, name_max, null_node}
use dca.Ps.{field_name, ps_data, init, get_next_pid, getnext_child, getname}

-- the globals with another value of `_field_count`
abbrev pub at : Globals → ℕ → Globals
at g c = record g { field_count = c }

abbrev pub fields : List Text
fields =
    codes "pid" ∷ codes "state" ∷ codes "priority" ∷ codes "total stack" ∷ codes "stack used" ∷ []

abbrev pub nth : List Text → ℕ → Text
nth [] c = []
nth (x ∷ xs) zero = x
nth (x ∷ xs) (suc c) = nth xs c

field_name-nth : (c : ℕ) → c < 5 → field_name c ≡ some (nth fields c)
field_name-nth zero h = refl
field_name-nth (suc zero) h = refl
field_name-nth (suc (suc zero)) h = refl
field_name-nth (suc (suc (suc zero))) h = refl
field_name-nth (suc (suc (suc (suc zero)))) h = refl
field_name-nth (suc (suc (suc (suc (suc c))))) h = absurd (omega arith)

pub c_string-field :
    (c : ℕ) (rest : Buffer)
    → c < 5
    → c_string (padded name_max (nth fields c) ++ rest) ≡ nth fields c
c_string-field zero rest h = refl
c_string-field (suc zero) rest h = refl
c_string-field (suc (suc zero)) rest h = refl
c_string-field (suc (suc (suc zero))) rest h = refl
c_string-field (suc (suc (suc (suc zero)))) rest h = refl
c_string-field (suc (suc (suc (suc (suc c))))) rest h = absurd (omega arith)

module _ (r : Riot) (g : Globals) where
  pub branch_next :
      (p q : ℕ) (child : Node)
      → p ≤ r.pid_last
      → get_next_pid r p ≡ ok q
      → getnext_child r (ps_data p 2) child g ≡ ok ((ps_data q 2, init p 1), g)
  unfolding getnext_child
  branch_next p q child h e = ground (arith, e)

  pub branch_end :
      (p : ℕ) (child : Node)
      → r.pid_last < p
      → getnext_child r (ps_data p 2) child g ≡ ok ((ps_data p 2, null_node), g)
  unfolding getnext_child
  branch_end p child h = ground arith

  pub thread_next :
      (p q c : ℕ) (child : Node)
      → p ≤ r.pid_last
      → c < 5
      → get_next_pid r p ≡ ok q
      → getnext_child r (ps_data p 1) child (at g c) ≡ ok ((ps_data q 0, init p 0), at g c)
  unfolding getnext_child
  thread_next p q c child h f e = ground (arith, e)

  pub field_next :
      (p c : ℕ) (child : Node)
      → c < 4
      → getnext_child r (ps_data p 0) child (at g c) ≡ ok ((ps_data p 0, child), at g (suc c))
  unfolding getnext_child
  field_next p c child h = ground arith

  pub field_end :
      (p : ℕ) (child : Node)
      → getnext_child r (ps_data p 0) child (at g 4) ≡ ok ((ps_data p 0, null_node), at g 0)
  unfolding getnext_child
  field_end p child = refl

  pub getname_field :
      (p c : ℕ) (buf : Buffer)
      → p ≤ r.pid_last
      → c < 5
      → name_max ≤ length buf
      → getname r (ps_data p 0) buf (at g c)
        ≡ ok (padded name_max (nth fields c) ++ drop name_max buf, at g c)
  unfolding getname
  getname_field p c buf h f room = rw (
    lt→ltb c 5 f,
    le→leb p r.pid_last h,
    field_name-nth c f,
    strncpy_le name_max buf (nth fields c) room,
    c_string-field c (drop name_max buf) f,
    strncpy-strncpy name_max buf (nth fields c) (nth fields c),
  )

pub has_nul-padded_field : (c : ℕ) → c < 5 → has_nul (padded name_max (nth fields c)) ≡ true
has_nul-padded_field zero h = refl
has_nul-padded_field (suc zero) h = refl
has_nul-padded_field (suc (suc zero)) h = refl
has_nul-padded_field (suc (suc (suc zero))) h = refl
has_nul-padded_field (suc (suc (suc (suc zero)))) h = refl
has_nul-padded_field (suc (suc (suc (suc (suc c))))) h = absurd (omega arith)

pub c_string-padded_field :
    (c : ℕ) → c < 5 → c_string (padded name_max (nth fields c)) ≡ nth fields c
c_string-padded_field c h =
    rw (← append-nil (padded name_max (nth fields c))) (c_string-field c [] h)
