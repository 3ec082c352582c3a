-- ===== src/Shell/Paths.antt =====
-- `dcaq` on the path of a thread.
use dca.Common.{ℕ, ◌<◌, ◌≡◌, Text, List, [], ◌∷◌, ok, drop, arith}
use dca.Riot.{Riot}
use dca.State.{Globals, ◌>>=◌}
use dca.Ps.Step.{at, fields}
use dca.Db.Find.Walk.{components}
use dca.Db.Find.Processes.{LeadsTo, find_node_by_path-thread}
use dca.Shell.{dcaq}
use dca.Shell.Threads.{lines, query_thread}

-- `dcaq` with a path of three folders that lead to a thread, as LeadsTo says, prints the names of the fields from
-- number `_field_count` on, returns 0, and leaves that variable at 0: all five fields where it is 0,
-- and without the first ones where an earlier search left it at the number of a field. It is below 5.
pub dcaq-thread :
    (r : Riot) (t₁ t₂ t₃ command path : Text) (args : List Text) (q c : ℕ) (g : Globals)
    (leads : LeadsTo r t₁ t₂ t₃ q)
    → components path ≡ t₁ ∷ t₂ ∷ t₃ ∷ []
    → c < 5
    → dcaq r command (path ∷ args) (at g c) ≡ ok ((lines (drop c fields), 0), at g 0)
unfolding dcaq
dcaq-thread r t₁ t₂ t₃ command path args q c g leads three few =
    rw (◌>>=◌, find_node_by_path-thread r t₁ t₂ t₃ q leads path (at g c) three)
      (query_thread r path q c g leads.positive leads.behind leads.first.inside few
        (omega (arith, leads.rounds)))
