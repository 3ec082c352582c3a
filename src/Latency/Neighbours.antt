-- ===== src/Latency/Neighbours.antt =====
-- The loop of db_measure_network_latency over all neighbours of the cache.
use dca.Common.{
  ℕ, ◌^◌, ◌≤◌, ◌<◌, ◌≡◌, sym, ap, ◌∙◌, some, List, [], ◌∷◌, ◌++◌, length, ok, ◌==◌, if◌then◌else◌,
  All,
}
use mathlib.Core.List.{append_assoc, append-nil}
use dca.Riot.{Riot}
use dca.Net.{Net, Msg}
use dca.State.{Globals, ◌>>=◌}
use dca.Latency.{neighbour_loop, db_measure_network_latency, returned}
use dca.Latency.Types.{Ping}
use dca.Latency.Finish.{store_latency}
use dca.Latency.Drain.{drain}
use dca.Latency.Reach.{begin, IsHonest}
use dca.Latency.Statistics.{statistics}
use dca.Latency.Session.{timers}
use dca.Latency.Neighbour.{parsed, Measures, visit_neighbour-statistics}

module _ (r : Riot) (net : Net) where
  -- A neighbour whose address is read back, and whose messages are admissible, fewer than 2^31, with
  -- three of the timer.
  abbrev pub IsReady : ℕ → Type 0
  IsReady neigh =
      (host : ℕ) × (parsed r net neigh ≡ some host)
      × IsHonest r net (begin r net neigh) (net.visit neigh).inbox
      × (length (net.visit neigh).inbox < 2 ^ 31)
      × (3 ≤ timers (net.visit neigh).inbox)

  -- a state for each neighbour, behind the messages that its visit takes, for the host that its
  -- address is read back as
  abbrev pub Reached : List ℕ → List Ping → Type 0
  Reached [] [] = Unit
  Reached [] (d ∷ ds) = ⊥
  Reached (neigh ∷ cache) [] = ⊥
  Reached (neigh ∷ cache) (d ∷ ds) =
      (Measures r net neigh d × (parsed r net neigh ≡ some d.host)) × Reached cache ds

  -- the code of the last measurement
  abbrev pub last_code : ℕ → List Ping → ℕ
  last_code res [] = res
  last_code res (d ∷ ds) = last_code (if d.num_recv == 0 then 1 else 0) ds

  -- the statistics stored one after the other
  abbrev pub store_all : List Ping → Globals → Globals
  store_all [] g = g
  store_all (d ∷ ds) g = store_all ds (store_latency r (statistics d) g)

  abbrev pub drained : List ℕ → List (List Msg)
  drained [] = []
  drained (neigh ∷ cache) = drain (net.visit neigh).queue ∷ drained cache

  neighbour_loop-statistics :
      (cache : List ℕ) (res : ℕ) (queues : List (List Msg)) (g : Globals)
      → All IsReady cache
      → (ds : List Ping) × Reached cache ds
        × (neighbour_loop r net cache res queues g
            ≡ ok (returned (last_code res ds) (queues ++ drained cache), store_all ds g))
  unfolding neighbour_loop
  neighbour_loop-statistics [] res queues g ready =
      ([], tt, ap (λ q. ok (returned res q, g)) (sym (append-nil queues)))
  neighbour_loop-statistics (neigh ∷ cache) res queues g ready =
      let (host, parse, honest, few, enough) = ready.0 in
      let (d, measures, is, e) =
        visit_neighbour-statistics r net neigh host g parse honest few enough in
      let code = if d.num_recv == 0 then 1 else 0 in
      let queue = drain (net.visit neigh).queue in
      let (ds, reached, e') =
        neighbour_loop-statistics cache code (queues ++ (queue ∷ []))
          (store_latency r (statistics d) g) ready.1 in
      (
        d ∷ ds,
        ((measures, parse ∙ ap some (sym is)), reached),
        rw (◌>>=◌, e)
            (e'
              ∙ ap (λ q. ok (returned (last_code code ds) q, store_all (d ∷ ds) g))
                  (append_assoc queues (queue ∷ []) (drained cache))),
      )

  -- Where the address of each neighbour of the cache is read back, and its messages are
  -- admissible, fewer than 2^31, with three of the timer, db_measure_network_latency returns: it
  -- measures every neighbour in the order of the cache, for the host that its address is read back as.
  -- The state that is measured is the one behind the first messages of the neighbour's own inbox,
  -- handled one after the other, up to the first one that is the end of the waiting time or behind
  -- which as many replies are counted as were to be sent. The statistics of these states are stored one
  -- after the other, the queues are emptied as far as the loop at the end does it, and the code of the
  -- last measurement is returned, 0 if the cache is empty.
  pub db_measure_network_latency-statistics :
      (g : Globals)
      → All IsReady (r.nib_neighbors 0)
      → (ds : List Ping) × Reached (r.nib_neighbors 0) ds
        × (db_measure_network_latency r net g
            ≡ ok (returned (last_code 0 ds) (drained (r.nib_neighbors 0)), store_all ds g))
  unfolding db_measure_network_latency
  db_measure_network_latency-statistics g ready =
      neighbour_loop-statistics (r.nib_neighbors 0) 0 [] g ready
