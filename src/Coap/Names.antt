-- ===== src/Coap/Names.antt =====
-- The listing of a node by CoAP and by `dcaq`.
use dca.Common.{
  take_all, ℕ, zero, suc, ◌+◌, ◌<◌, ◌≡◌, ◌≢◌, ap, sym, ◌∙◌, inl, inr, true, false, Text, Buffer,
  codes, c_string, has_nul, Bool-cases, List, [], ◌∷◌, ◌++◌, length, length-append, ◌-◌, Result, ok,
  fault, Fault, arith, lt→ltb,
}
use mathlib.Core.Path.{subst}
use mathlib.Core.List.{append-nil}
use dca.Riot.{Riot, fresh}
use dca.State.{Globals, pure, lift, and_then, ◌>>=◌, Result-cases}
use dca.Node.{name_max, inner, Node, uninit}
use dca.Db.Ops.{is_null, get_name, get_next_child, get_type, Ret, done}
use dca.Shell.{query, newline}
use dca.Shell.Names.{
  ended_by, append_assoc_four, length-ended_by, names_from, all_names, query-all_names,
}
use dca.Coap.{list_names, answer, strncat, strbuf_size}

strncat_fits : (val s : Text) → length val + length s < strbuf_size → strncat val s ≡ ok (val ++ s)
strncat_fits val s h =
    let e = take_all (strbuf_size - 1) s (omega arith) in
    rw (e, lt→ltb (length val + length s) strbuf_size h)

abbrev space : Text
space = codes " "

-- where the names fit into the buffer, they are what the loop of the handler returns
abbrev Agrees : Text → Result (List Text × Globals) → Result (Text × Globals) → Type 0
Agrees val (fault f) res = Unit
Agrees val (ok (ns, g)) res =
    length (val ++ ended_by space ns) < strbuf_size → res ≡ ok (val ++ ended_by space ns, g)

abbrev Answers : Result (List Text × Globals) → Result (Ret Buffer × Globals) → Type 0
Answers (fault f) res = Unit
Answers (ok (ns, g)) res =
    length (ended_by space ns) < strbuf_size → res ≡ ok (done (ended_by space ns), g)

abbrev printed_names : Result (List Text × Globals) → Result ((Text × ℕ) × Globals)
printed_names res = and_then res (λ ns. pure (ended_by newline ns, 0))

fault≢ok : {A : Type 0} {f : Fault} {a : A} → fault f ≢ ok a
fault≢ok e = cc

abbrev text_of : Result ((Text × ℕ) × Globals) → Text × Globals → Text × Globals
text_of (ok ((t, n), g)) d = (t, g)
text_of (fault f) d = d

module _ (r : Riot) where
  next_name :
      (k : ℕ) (node child : Node) (name : Buffer) (val : Text) (g2 g3 g4 : Globals)
      (p : Node × Node) (ns : List Text)
      → get_next_child r node child g2 ≡ ok (p, g3)
      → Agrees
          (val ++ c_string name ++ space)
          (ok (ns, g4))
          (list_names r k p.0 p.1 name (val ++ c_string name ++ space) g3)
      → length (val ++ ended_by space (c_string name ∷ ns)) < strbuf_size
      → (do
        val ← lift (strncat val (c_string name))
        val ← lift (strncat val space)
        p ← get_next_child r node child
        list_names r k p.0 p.1 name val)
          g2
        ≡ ok (val ++ ended_by space (c_string name ∷ ns), g4)
  next_name k node child name val g2 g3 g4 p ns e agrees fits =
      let c = c_string name in
      let rest = ended_by space ns in
      let assoc = append_assoc_four val c space rest in
      let fits' : length (val ++ c ++ space ++ rest) < strbuf_size = rw assoc fits in
      let l1 = length-append (val ++ c ++ space) rest in
      let l2 = length-append (val ++ c) space in
      let l3 = length-append val c in
      let s1 = strncat_fits val c (omega arith) in
      let s2 = strncat_fits (val ++ c) space (omega arith) in
      rw (◌>>=◌, s1, s2, e) (agrees fits' ∙ ap (λ t. pure t g4) assoc)

  list_names-names_from :
      (k : ℕ) (node child : Node) (name : Buffer) (val : Text) (g : Globals)
      → Agrees val (names_from r k node child name g) (list_names r k node child name val g)
  unfolding list_names names_from
  list_names-names_from zero node child name val g = tt
  list_names-names_from (suc k) node child name val g = elim (Result-cases (is_null r child g)) [
    | inr (f, e) ↦ rw (◌>>=◌, e) tt
    | inl (true, g1, e) ↦ rw (◌>>=◌, e) (λ fits. ap (λ t. pure t g1) (sym (append-nil val)))
    | inl (false, g1, e) ↦
        rw (◌>>=◌, e)
          (elim (Result-cases (get_name r child name g1)) [
            | inr (f, e1) ↦ rw (◌>>=◌, e1) tt
            | inl (name', g2, e1) ↦
                rw (◌>>=◌, e1)
                  (elim (Bool-cases (has_nul name')) [
                    | inr none ↦ rw (◌>>=◌, none) tt
                    | inl nul ↦
                        rw (◌>>=◌, nul)
                          (elim (Result-cases (get_next_child r node child g2)) [
                            | inr (f, e2) ↦ rw (◌>>=◌, e2) tt
                            | inl (p, g3, e2) ↦
                                rw (◌>>=◌, e2)
                                  (elim (Result-cases (names_from r k p.0 p.1 name' g3)) [
                                    | inr (f, e3) ↦ rw (◌>>=◌, e3) tt
                                    | inl (ns, g4, e3) ↦
                                        rw (◌>>=◌, e3)
                                          (next_name k node child name' val g2 g3 g4 p ns e2 (
                                            subst
                                              (λ x. Agrees (val ++ c_string name' ++ space) x (
                                                list_names r k p.0 p.1 name'
                                                  (val ++ c_string name' ++ space) g3))
                                              e3
                                              (list_names-names_from k p.0 p.1 name'
                                                (val ++ c_string name' ++ space) g3)))
                                  ])
                          ])
                  ])
          ])
  ]

  answer-all_names :
      (node : Node) (g : Globals)
      → get_type r node g ≡ ok (inner, g)
      → Answers (all_names r node g) (answer r node g)
  unfolding answer all_names
  answer-all_names node g type =
      rw (◌>>=◌, type)
        (elim (Result-cases (get_next_child r node uninit g)) [
          | inr (f, e) ↦ rw (◌>>=◌, e) tt
          | inl (p, g1, e) ↦
              rw (◌>>=◌, e)
                (elim (Result-cases (names_from r r.fuel p.0 p.1 (fresh r name_max) g1)) [
                  | inr (f, e1) ↦ rw e1 tt
                  | inl (ns, g2, e1) ↦ rw e1 (λ fits.
                      let agrees = list_names-names_from r.fuel p.0 p.1 (fresh r name_max) [] g1 in
                      let e2 =
                        subst
                          (λ x. Agrees [] x (list_names r r.fuel p.0 p.1 (fresh r name_max) [] g1))
                          e1 agrees fits in
                      rw (◌>>=◌, e2))
                ])
        ])

  -- CoAP and `dcaq` list the same children: where `dcaq` on an inner node prints the text `out` of
  -- fewer than 128 bytes, that text is a list of names, each with a newline behind it, and the CoAP
  -- handler's answer for the node from the same variables is the same names in the same order,
  -- each with a space behind it; both leave the variables alike.
  pub query-answer :
      (path : Text) (node : Node) (g g' : Globals) (out : Text)
      → get_type r node g ≡ ok (inner, g)
      → query r path node g ≡ ok ((out, 0), g')
      → length out < strbuf_size
      → (ns : List Text) × (out ≡ ended_by newline ns)
        × (answer r node g ≡ ok (done (ended_by space ns), g'))
  query-answer path node g g' out type printed short =
      let q = query-all_names r path node g type in
      let a = answer-all_names node g type in
      elim (Result-cases (all_names r node g)) [
        | inr (f, e) ↦ absurd (fault≢ok (sym (q ∙ ap printed_names e) ∙ printed))
        | inl (ns, g1, e) ↦
            (let same = ap (λ x. text_of x (out, g')) (sym (q ∙ ap printed_names e) ∙ printed) in
              let text : ended_by newline ns ≡ out = ap (λ x. x.0) same in
              let vars : g1 ≡ g' = ap (λ x. x.1) same in
              let fits : length (ended_by space ns) < strbuf_size =
                omega (arith, length-ended_by 10 32 ns, ap length text) in
              (
                ns,
                sym text,
                subst (λ x. Answers x (answer r node g)) e a fits
                    ∙ ap (λ x. ok (done (ended_by space ns), x)) vars,
              ))
      ]
