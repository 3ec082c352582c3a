-- ===== src/Shell/Threads.antt =====
-- What `dcaq` prints for the nodes of ps.c.
use dca.Common.{
  drop_all, ℕ, zero, suc, ◌+◌, ◌-◌, ◌≤◌, ◌<◌, ◌≡◌, ◌∙◌, arith, Text, Buffer, List, [], ◌∷◌, ◌++◌,
  ok, length, drop, padded, length-padded,
}
use mathlib.Core.List.{append-nil, append_assoc}
use dca.Riot.{Riot, fresh, length-fresh}
use dca.State.{Globals, ◌>>=◌}
use dca.Node.{name_max, ps_node, uninit}
use dca.Ps.{ps_data, init, gettype}
use dca.Ps.Pids.{get_next_pid-IsNextPid}
use dca.Ps.Step.{
  at, fields, nth, thread_next, field_next, field_end, getname_field, has_nul-padded_field,
  c_string-padded_field,
}
use dca.Db.Ops.{get_type, get_name, get_next_child}
use dca.Db.Ops.Null.{is_null-ps, is_null-null}
use dca.Shell.{list_children, query, newline}

-- the lines that a listing of names prints
abbrev pub lines : List Text → Text
lines [] = []
lines (x ∷ xs) = x ++ newline ++ lines xs

lines-drop :
    (xs : List Text) (c : ℕ) (out : Text)
    → c < length xs
    → out ++ lines (drop c xs) ≡ (out ++ nth xs c ++ newline) ++ lines (drop (suc c) xs)
lines-drop [] c out h = absurd (omega arith)
lines-drop (x ∷ xs) zero out h = simp append_assoc
lines-drop (x ∷ xs) (suc c) out h = lines-drop xs c out (omega arith)

module _ (r : Riot) (p q : ℕ) (h : p ≤ r.pid_last) (g : Globals) where
  list_field :
      (k c : ℕ) (buf : Buffer) (out : Text)
      → c < 4
      → length buf ≡ name_max
      → list_children r (suc k) (ps_node (ps_data q 0)) (init p 0) buf out (at g c)
        ≡ list_children r k
            (ps_node (ps_data q 0))
            (init p 0)
            (padded name_max (nth fields c))
            (out ++ nth fields c ++ newline)
            (at g (suc c))
  unfolding list_children get_name get_next_child
  list_field k c buf out f full = rw (
    is_null-ps,
    ◌>>=◌,
    getname_field r g p c buf h (omega arith) (omega arith),
    drop_all name_max buf full,
    append-nil,
    has_nul-padded_field c (omega arith),
    field_next r g q c (init p 0) f,
    c_string-padded_field c (omega arith),
  )

  list_last :
      (k : ℕ) (buf : Buffer) (out : Text)
      → length buf ≡ name_max
      → list_children r (suc (suc k)) (ps_node (ps_data q 0)) (init p 0) buf out (at g 4)
        ≡ ok (out ++ nth fields 4 ++ newline, at g 0)
  unfolding list_children get_name get_next_child
  list_last k buf out full = rw (
    is_null-ps,
    ◌>>=◌,
    getname_field r g p 4 buf h (omega arith) (omega arith),
    drop_all name_max buf full,
    field_end r g q (init p 0),
    is_null-null,
  )

  list_fields :
      (m c k : ℕ) (buf : Buffer) (out : Text)
      → c + m ≡ 4
      → m + 2 ≤ k
      → length buf ≡ name_max
      → list_children r k (ps_node (ps_data q 0)) (init p 0) buf out (at g c)
        ≡ ok (out ++ lines (drop c fields), at g 0)
  list_fields m c zero buf out e fuel full = absurd (omega arith)
  list_fields zero c (suc zero) buf out e fuel full = absurd (omega arith)
  list_fields zero c (suc (suc k)) buf out e fuel full =
      let e' : c ≡ 4 = omega arith in
      rw e' (list_last k buf out full ∙ rw (lines-drop fields 4 out (omega arith), append-nil))
  list_fields (suc m) c (suc k) buf out e fuel full =
      list_field k c buf out (omega arith) full
      ∙ list_fields m (suc c) k (padded name_max (nth fields c)) (out ++ nth fields c ++ newline)
          (omega arith) (omega arith) (length-padded name_max (nth fields c))
      ∙ rw (← lines-drop fields c out (omega arith))

module _ (r : Riot) where
  -- On the node of a thread `dcaq` prints the names of the fields from number `_field_count` on,
  -- and leaves that variable at 0. So it prints all five fields where the variable is 0, and misses
  -- the first ones where an earlier command left it at another value below 5. The thread may be any
  -- pid of the table, pids are positive, and the fuel has to allow six rounds.
  pub query_thread :
      (path : Text) (p c : ℕ) (g : Globals)
      → 0 < r.pid_first
      → r.pid_first ≤ p
      → p ≤ r.pid_last
      → c < 5
      → 6 ≤ r.fuel
      → query r path (init p 1) (at g c) ≡ ok ((lines (drop c fields), 0), at g 0)
  unfolding query get_type gettype get_next_child
  query_thread path p c g pos lo hi few fuel =
      let (q, found, next) = get_next_pid-IsNextPid r p pos lo hi in
      rw (
        ◌>>=◌,
        thread_next r g p q c uninit hi few found,
        list_fields r p q hi g (4 - c) c r.fuel (fresh r name_max) [] (omega arith) (omega arith)
            (length-fresh r name_max),
      )
