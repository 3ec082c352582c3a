-- ===== src/Latency/Invariant.antt =====
-- What holds from the first request on: the invariants of the counts and of the times.
use dca.Common.{ℕ, ◌^◌, ◌<◌, ◌≡◌, refl, arith, Text, Option, none, some}
use dca.Riot.{Riot}
use dca.Net.{Net}
use dca.Latency.{new_ping, set_host, configure}
use dca.Latency.Types.{Ping}
use dca.Latency.Pinger.{pinger}
use dca.Latency.Reach.{begin, Reach, first, next, on_msg-Move}
use dca.Latency.Counts.{Counts, Move-Counts, pinger-Counts}
use dca.Latency.Times.{Times, Move-Times, pinger-Times}

module _ (r : Riot) (net : Net) where
  abbrev IsFresh : Ping → Type 0
  IsFresh d = Counts d × Times 0 d × (d.num_sent ≡ 0) × (d.count ≡ 3)

  set_host-IsFresh : (d : Ping) (o : Option ℕ) → IsFresh d → IsFresh (set_host d o).1
  unfolding set_host
  set_host-IsFresh d none h = h
  set_host-IsFresh d (some host) (c, t, z, k) = (
    record { few = c.few; small = c.small; marked = c.marked; fresh = c.fresh; due = c.due },
    record {
      handled = t.handled;
      len = t.len;
      none_yet = t.none_yet;
      word = t.word;
      sum = record { low = t.sum.low; high = t.sum.high };
    },
    z,
    k,
  )

  new_ping-IsFresh :
      (hostname : Text) (netif id : ℕ)
      → IsFresh (record (new_ping net) { hostname = hostname; netif = netif; id = id })
  unfolding new_ping
  new_ping-IsFresh hostname netif id = (
    record {
      few = omega arith;
      small = omega arith;
      marked = refl;
      fresh = λ i l. refl;
      due = λ e. omega arith;
    },
    record {
      handled = omega arith;
      len = refl;
      none_yet = λ e. refl;
      word = omega arith;
      sum = record { low = omega arith; high = omega arith };
    },
    refl,
    refl,
  )

  configure-IsFresh : (neigh now : ℕ) → IsFresh (configure r net neigh (new_ping net) now).1
  unfolding configure
  configure-IsFresh neigh now = set_host-IsFresh _ _ (new_ping-IsFresh _ _ _)

  begin-Inv : (neigh : ℕ) → Counts (begin r net neigh) × Times 0 (begin r net neigh)
  unfolding begin
  begin-Inv neigh =
      let v = net.visit neigh in
      let (c, t, z, k) = configure-IsFresh neigh v.configured in
      (
        pinger-Counts net _ v.first_now v.first (omega arith) c,
        pinger-Times net _ v.first_now v.first (omega arith) t,
      )

  -- Behind the first request.
  pub begin_start :
      (neigh : ℕ) → ((begin r net neigh).count ≡ 3) × ((begin r net neigh).num_sent ≡ 1)
  unfolding begin pinger
  begin_start neigh =
      let (c, t, z, k) = configure-IsFresh neigh (net.visit neigh).configured in
      (omega (arith, k), omega (arith, z))

  -- From the first request on, and for fewer than 2^31 messages.
  pub Reach-Inv :
      {neigh n : ℕ} {d : Ping} → n < 2 ^ 31 → Reach r net neigh n d → Counts d × Times n d
  Reach-Inv {neigh} few first = begin-Inv neigh
  Reach-Inv {neigh} few (next {n} {d} reach a ad) =
      let few' : n < 2 ^ 31 = omega arith in
      let (c, t) = Reach-Inv few' reach in
      let m = on_msg-Move r net d a.msg a.now a.sending t.len ad in
      (Move-Counts m c, Move-Times few' m t)
