-- ===== src/Shell/Names.antt =====
-- The listing of `dcaq` against an enumeration of the children's names.
use dca.Common.{
  ℕ, zero, suc, ◌≡◌, refl, ap, sym, inl, inr, true, false, Text, Buffer, c_text, c_string, has_nul,
  Bool-cases, List, [], ◌∷◌, ◌++◌, length, length-append, ok, fault, no_fuel, if◌then◌else◌, arith,
}
use mathlib.Core.List.{append_assoc, append-nil}
use dca.Riot.{Riot, fresh}
use dca.State.{Globals, Cmd, pure, lift, and_then, ◌>>=◌, Result-cases}
use dca.Node.{name_max, inner, Node, uninit}
use dca.Db.Ops.{is_null, get_name, get_next_child, get_type}
use dca.Shell.{list_children, query, newline}

-- names, each with a byte behind it
abbrev pub ended_by : Text → List Text → Text
ended_by sep [] = []
ended_by sep (n ∷ ns) = n ++ sep ++ ended_by sep ns

pub append_assoc_four : (a b c d : Text) → a ++ b ++ c ++ d ≡ a ++ (b ++ c ++ d)
append_assoc_four a b c d =
    rw (append_assoc (a ++ b) c d, append_assoc a b (c ++ d), append_assoc b c d)

pub length-ended_by :
    (a b : ℕ) (ns : List Text) → length (ended_by (a ∷ []) ns) ≡ length (ended_by (b ∷ []) ns)
length-ended_by a b [] = refl
length-ended_by a b (n ∷ ns) = omega (
  arith,
  length-append (n ++ (a ∷ [])) (ended_by (a ∷ []) ns),
  length-append n (a ∷ []),
  length-append (n ++ (b ∷ [])) (ended_by (b ∷ []) ns),
  length-append n (b ∷ []),
  length-ended_by a b ns,
)

module _ (r : Riot) where
  -- the names of the children from `child` on, on fuel
  unfoldable pub names_from : ℕ → Node → Node → Buffer → Cmd (List Text)
  names_from zero node child name = λ g. fault no_fuel
  names_from (suc k) node child name = do
    ended ← is_null r child
    (if ended then pure [] else do
      name ← get_name r child name
      s ← lift (c_text name)
      p ← get_next_child r node child
      rest ← names_from k p.0 p.1 name
      pure (s ∷ rest))

  pub list_children-names_from :
      (k : ℕ) (node child : Node) (name : Buffer) (out : Text) (g : Globals)
      → list_children r k node child name out g
        ≡ and_then (names_from k node child name g) (λ ns. pure (out ++ ended_by newline ns))
  unfolding list_children names_from
  list_children-names_from zero node child name out g = refl
  list_children-names_from (suc k) node child name out g = elim (Result-cases (is_null r child g)) [
    | inr (f, e) ↦ rw (◌>>=◌, e)
    | inl (true, g1, e) ↦ rw (◌>>=◌, e) (ap (λ t. pure t g1) (sym (append-nil out)))
    | inl (false, g1, e) ↦
        rw (◌>>=◌, e)
          (elim (Result-cases (get_name r child name g1)) [
            | inr (f, e1) ↦ rw (◌>>=◌, e1)
            | inl (name', g2, e1) ↦
                rw (◌>>=◌, e1)
                  (elim (Bool-cases (has_nul name')) [
                    | inr none ↦ rw (◌>>=◌, none)
                    | inl nul ↦
                        rw (◌>>=◌, nul)
                          (elim (Result-cases (get_next_child r node child g2)) [
                            | inr (f, e2) ↦ rw (◌>>=◌, e2)
                            | inl (p, g3, e2) ↦
                                rw (◌>>=◌, e2)
                                  (elim (Result-cases (names_from k p.0 p.1 name' g3)) [
                                    | inr (f, e3) ↦
                                        rw
                                          (list_children-names_from k p.0 p.1 name' _ g3, ◌>>=◌, e3)
                                    | inl (ns, g4, e3) ↦
                                        rw
                                          (list_children-names_from k p.0 p.1 name' _ g3, ◌>>=◌, e3)
                                          (ap (λ t. pure t g4)
                                            (append_assoc_four out (c_string name') newline
                                              (ended_by newline ns)))
                                  ])
                          ])
                  ])
          ])
  ]

  unfoldable pub all_names : Node → Cmd (List Text)
  unfolding names_from
  all_names node = do p ← get_next_child r node uninit; names_from r.fuel p.0 p.1 (fresh r name_max)

  pub query-all_names :
      (path : Text) (node : Node) (g : Globals)
      → get_type r node g ≡ ok (inner, g)
      → query r path node g ≡ and_then (all_names node g) (λ ns. pure (ended_by newline ns, 0))
  unfolding query all_names
  query-all_names path node g type =
      rw (◌>>=◌, type)
        (elim (Result-cases (get_next_child r node uninit g)) [
          | inr (f, e) ↦ rw (◌>>=◌, e)
          | inl (p, g1, e) ↦
              rw (◌>>=◌, e, list_children-names_from r.fuel p.0 p.1 (fresh r name_max) [] g1)
                (elim (Result-cases (names_from r.fuel p.0 p.1 (fresh r name_max) g1)) [
                  | inr (f, e1) ↦ rw e1
                  | inl (ns, g2, e1) ↦ rw e1
                ])
        ])
