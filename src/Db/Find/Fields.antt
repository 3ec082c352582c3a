-- ===== src/Db/Find/Fields.antt =====
-- The search of a field of a thread, which begins at the field that `_field_count` gives.
use dca.Common.{
  ℕ, zero, suc, ◌+◌, ◌-◌, ◌≤◌, ◌<◌, ◌≡◌, ◌∙◌, Option, none, some, arith, Text, Buffer, [], ◌∷◌,
  Result, ok, length, padded, length-padded, drop_all, Bool-cases, inl, inr, if◌then◌else◌,
}
use mathlib.Core.List.{append-nil}
use dca.Riot.{Riot}
use dca.State.{Cmd, Globals, and_then, pure, ◌>>=◌}
use dca.Node.{Node, name_max, ps_node}
use dca.Ps.{ps_data, init, get_next_pid}
use dca.Ps.Pids.{get_next_pid-IsNextPid}
use dca.Ps.Step.{at, fields, nth, thread_next, field_next, field_end, getname_field}
use dca.Db.Ops.{Ret, done, error, enoent, get_name, get_next_child}
use dca.Db.Ops.Null.{is_null-ps, is_null-null}
use dca.Db.Find.{enter, search_child, search_step, find_step, find_node_by_path}
use dca.Db.Find.Walk.{components, walk}
use dca.Db.Find.Branches.{begins}
use dca.Db.Find.Rounds.{Child, search_child-hit, search_child-miss}
use dca.Db.Find.Processes.{LeadsTo, walk-LeadsTo}

-- the first of the m fields from number c on whose name begins with `tok`
unfoldable pub first_field : Text → ℕ → ℕ → Option ℕ
first_field tok zero c = none
first_field tok (suc m) c =
    let rest = first_field tok m (suc c) in if begins tok (nth fields c) then some c else rest

-- what the search for a field returns, and the variables behind it
abbrev pub field_found : ℕ → Globals → Option ℕ → Result (Ret Node × Globals)
field_found q g none = ok (error enoent, at g 0)
field_found q g (some j) = ok (done (init q 0), at g j)

abbrev arrive : Node → Buffer → Cmd (Ret Node)
arrive child name_buf = pure (done child)

module _ (r : Riot) (q q' : ℕ) (g : Globals) (tok : Text) (inside : q ≤ r.pid_last)
    (short : length tok ≤ name_max) where
  getname_padded :
      (c : ℕ) (buf : Buffer)
      → c < 5
      → length buf ≡ name_max
      → get_name r (init q 0) buf (at g c) ≡ ok (padded name_max (nth fields c), at g c)
  unfolding get_name
  getname_padded c buf few full =
      getname_field r g q c buf inside few (omega arith)
      ∙ rw (drop_all name_max buf full, append-nil)

  next-Child :
      (c : ℕ)
      → c < 4
      → Child r
          (ps_node (ps_data q' 0))
          (init q 0)
          (ps_node (ps_data q' 0))
          (init q 0)
          (nth fields (suc c))
          (at g c)
          (at g (suc c))
  unfolding get_next_child
  next-Child c few = record {
    next = rw (◌>>=◌, field_next r g q' c (init q 0) few);
    not_null = is_null-ps r (at g (suc c)) (ps_data q 0);
    named = λ buf full. getname_padded (suc c) buf (omega arith) full;
  }

  -- A round that reaches field c, for the rounds behind it.
  round_field :
      (k m c : ℕ) (node child : Node) (buf : Buffer) (g₀ : Globals)
      → Child r node child (ps_node (ps_data q' 0)) (init q 0) (nth fields c) g₀ (at g c)
      → length buf ≡ name_max
      → and_then
          (search_child r k tok
            (ps_node (ps_data q' 0))
            (init q 0)
            (padded name_max (nth fields c))
            (at g c))
          (enter r arrive)
        ≡ field_found q g (first_field tok m (suc c))
      → and_then (search_child r (suc k) tok node child buf g₀) (enter r arrive)
        ≡ field_found q g (first_field tok (suc m) c)
  unfolding first_field enter
  round_field k m c node child buf g₀ x full rest =
      let node' = ps_node (ps_data q' 0) in
      elim (Bool-cases (begins tok (nth fields c))) [
        | inl hit ↦ rw (
          search_child-hit r k tok node child node' (init q 0) (nth fields c) buf g₀ (at g c) x
              short full hit,
          hit,
        )
        | inr miss ↦
            rw
              (
                search_child-miss r k tok node child node' (init q 0) (nth fields c) buf g₀ (at g c)
                    x short full miss,
                miss,
              )
              rest
      ]

  fields_end :
      (k : ℕ) (buf : Buffer)
      → and_then
          (search_child r (suc k) tok (ps_node (ps_data q' 0)) (init q 0) buf (at g 4))
          (enter r arrive)
        ≡ field_found q g none
  unfolding enter search_child search_step get_next_child
  fields_end k buf = rw (◌>>=◌, field_end r g q' (init q 0), is_null-null)

  search_fields :
      (k m c : ℕ) (buf : Buffer)
      → suc c + m ≡ 5
      → m < k
      → length buf ≡ name_max
      → and_then
          (search_child r k tok (ps_node (ps_data q' 0)) (init q 0) buf (at g c))
          (enter r arrive)
        ≡ field_found q g (first_field tok m (suc c))
  search_fields zero m c buf e fuel full = absurd (omega arith)
  search_fields (suc k) zero c buf e fuel full =
      let last : c ≡ 4 = omega arith in rw last (unfold first_field in fields_end k buf)
  search_fields (suc k) (suc m) c buf e fuel full =
      round_field k m (suc c) (ps_node (ps_data q' 0)) (init q 0) buf (at g c)
        (next-Child c (omega arith)) full
        (search_fields k m (suc c) (padded name_max (nth fields (suc c))) (omega arith)
          (omega arith) (length-padded name_max (nth fields (suc c))))

  first-Child :
      (c : ℕ) (child : Node)
      → c < 5
      → get_next_pid r q ≡ ok q'
      → Child r
          (init q 1)
          child
          (ps_node (ps_data q' 0))
          (init q 0)
          (nth fields c)
          (at g c)
          (at g c)
  unfolding get_next_child
  first-Child c child few found = record {
    next = rw (◌>>=◌, thread_next r g q q' c child inside few found);
    not_null = is_null-ps r (at g c) (ps_data q 0);
    named = λ buf full. getname_padded c buf few full;
  }

  search_thread_fields :
      (k m c : ℕ) (child : Node) (buf : Buffer)
      → c + suc m ≡ 5
      → m + 1 < k
      → length buf ≡ name_max
      → get_next_pid r q ≡ ok q'
      → and_then (search_child r k tok (init q 1) child buf (at g c)) (enter r arrive)
        ≡ field_found q g (first_field tok (suc m) c)
  search_thread_fields zero m c child buf e fuel full found = absurd (omega arith)
  search_thread_fields (suc k) m c child buf e fuel full found =
      round_field k m c (init q 1) child buf (at g c) (first-Child c child (omega arith) found) full
        (search_fields k m c (padded name_max (nth fields c)) (omega arith) (omega arith)
          (length-padded name_max (nth fields c)))

-- A path of three folders that lead to a thread, as LeadsTo says, and a fourth one: it finds the first field of the
-- thread, from number `_field_count` on, whose name begins with that folder, and leaves
-- `_field_count` at its number; where no field from there on has such a name, the search returns
-- -ENOENT and leaves `_field_count` at 0. So a field is not found behind the search of a later one.
-- `_field_count` is below 5, and the folder has at most DB_NODE_NAME_MAX bytes.
pub find_node_by_path-field :
    (r : Riot) (t₁ t₂ t₃ t₄ path : Text) (q c : ℕ) (g : Globals) (leads : LeadsTo r t₁ t₂ t₃ q)
    → components path ≡ t₁ ∷ t₂ ∷ t₃ ∷ t₄ ∷ []
    → length t₄ ≤ name_max
    → c < 5
    → find_node_by_path r path (at g c) ≡ field_found q g (first_field t₄ (5 - c) c)
unfolding walk find_step
find_node_by_path-field r t₁ t₂ t₃ t₄ path q c g leads four short few =
    let inside = leads.first.inside in
    let (q', found, next) =
      get_next_pid-IsNextPid r q (omega (arith, leads.positive, leads.behind)) leads.behind
        inside in
    let (buf, size, reached) = walk-LeadsTo r t₁ t₂ t₃ q leads path (t₄ ∷ []) (at g c) four in
    let m = 4 - c in
    let rest : 5 - c ≡ suc m = omega arith in
    reached
    ∙ rw (◌>>=◌, is_null-ps r (at g c) (ps_data q 1), rest)
        (search_thread_fields r q q' g t₄ inside short r.fuel m c (init q 1) buf (omega arith)
          (omega (arith, leads.rounds)) size found)
