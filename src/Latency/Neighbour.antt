-- ===== src/Latency/Neighbour.antt =====
-- One neighbour in the loop of db_measure_network_latency.
use dca.Common.{
  ℕ, List, ◌++◌, ap, length-append, ◌^◌, ◌≤◌, ◌<◌, ◌≡◌, refl, ◌∙◌, Option, some, length, ok, ◌==◌,
  if◌then◌else◌, arith,
}
use dca.Riot.{Riot}
use dca.Net.{Net, Arrival}
use dca.State.{Globals}
use dca.Latency.{new_ping, configure, set_host, finish_visit, visit_neighbour, measured}
use dca.Latency.Types.{Ping}
use dca.Latency.Pinger.{pinger}
use dca.Latency.Finish.{store_latency, finish}
use dca.Latency.Drain.{drain}
use dca.Latency.Reach.{begin, Reach, first, next, IsHonest, on_msg-Move}
use dca.Latency.Invariant.{Reach-Inv, begin_start}
use dca.Latency.Statistics.{statistics, measured_node-statistics}
use dca.Latency.Session.{timers, Takes, receive_loop-Ends, Move-kept}

module _ (r : Riot) (net : Net) where
  -- the address that _configure reads back from the text of the neighbour's address
  abbrev pub parsed : ℕ → Option ℕ
  parsed neigh = net.ipv6_addr_from_str (net.ipv6_addr_split_iface (r.ipv6_addr_to_str neigh)).0

  configure_code :
      (neigh now host : ℕ)
      → parsed neigh ≡ some host
      → (d : Ping)
      → ((configure r net neigh d now).0 ≡ 0) × ((configure r net neigh d now).1.host ≡ host)
  unfolding configure set_host
  configure_code neigh now host e d = rw e (refl, refl)

  begin-host : (neigh host : ℕ) → parsed neigh ≡ some host → (begin r net neigh).host ≡ host
  unfolding begin pinger
  begin-host neigh host e =
      (configure_code neigh (net.visit neigh).configured host e (new_ping net)).1

  Reach-host :
      {neigh n : ℕ} {d : Ping}
      → n < 2 ^ 31
      → Reach r net neigh n d
      → d.host ≡ (begin r net neigh).host
  Reach-host few first = refl
  Reach-host few (next {n} {d} reach a ad) =
      let few' : n < 2 ^ 31 = omega arith in
      let (c, t) = Reach-Inv r net few' reach in
      (Move-kept (on_msg-Move r net d a.msg a.now a.sending t.len ad) c).1 ∙ Reach-host few' reach

  finish-statistics :
      (neigh n : ℕ) (d : Ping) (g : Globals)
      → n < 2 ^ 31
      → Reach r net neigh n d
      → finish r d g ≡ ok (if d.num_recv == 0 then 1 else 0, store_latency r (statistics d) g)
  unfolding finish
  finish-statistics neigh n d g few reach =
      rw ((measured_node-statistics r net neigh n d few reach).0)

  -- d is the state behind the messages that the visit of a neighbour takes from its inbox.
  abbrev pub Measures : ℕ → Ping → Type 0
  Measures neigh d =
      (taken : List Arrival) × (rest : List Arrival) × ((net.visit neigh).inbox ≡ taken ++ rest)
      × Takes r net (begin r net neigh) taken d

  -- Where the neighbour's address is read back as `host`, all messages are admissible, fewer than
  -- 2^31, and the timer sends three of them, the measurement of the neighbour ends: the
  -- loop takes the first messages of the inbox up to the one that ends it; the statistics of the state
  -- d behind them are stored, for `host`, the result is 1 if no reply was counted and 0 otherwise, and
  -- the queue is what the loop at the end leaves of it.
  pub visit_neighbour-statistics :
      (neigh host : ℕ) (g : Globals)
      → parsed neigh ≡ some host
      → IsHonest r net (begin r net neigh) (net.visit neigh).inbox
      → length (net.visit neigh).inbox < 2 ^ 31
      → 3 ≤ timers (net.visit neigh).inbox
      → (d : Ping) × Measures neigh d
        × (d.host ≡ host)
        × (visit_neighbour r net neigh g
            ≡ ok (
              measured (if d.num_recv == 0 then 1 else 0) (drain (net.visit neigh).queue),
              store_latency r (statistics d) g,
            ))
  unfolding visit_neighbour begin finish_visit
  visit_neighbour-statistics neigh host g parse honest few enough =
      let v = net.visit neigh in
      let (count, sent) = begin_start r net neigh in
      let (d, taken, rest, split, takes, (n, count', reach), e) =
        receive_loop-Ends r net neigh 0 (begin r net neigh) v.inbox (omega arith) first honest
          (omega arith) in
      let few' : n < 2 ^ 31 = omega (arith, ap length split, length-append taken rest) in
      (
        d,
        (taken, rest, split, takes),
        Reach-host few' reach ∙ begin-host neigh host parse,
        rw (
          (configure_code neigh v.configured host parse (new_ping net)).0,
          e,
          finish-statistics neigh n d g few' reach,
        ),
      )
