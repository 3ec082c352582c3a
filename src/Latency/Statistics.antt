-- ===== src/Latency/Statistics.antt =====
-- The node that _finish fills in, behind admissible messages.
use dca.Common.{
  ℕ, zero, suc, false, le_lt_cases, sym, ◌+◌, ◌-◌, ◌*◌, ◌/◌, ◌%◌, ◌^◌, ◌≤◌, ◌<◌, ◌≡◌, ◌≢◌, refl,
  inl, inr, ◌==◌, if◌then◌else◌, arith, Bool-cases, ok,
}
use native.Mathlib.Nat.{le-div_iff_mul-le, div-le_of_le-mul}
use dca.Riot.{Riot}
use dca.Net.{Net}
use dca.LinkedList.{Neighbor}
use dca.Latency.Types.{Ping, uint_max}
use dca.Latency.Finish.{packet_loss, average, filled, measured_node}
use dca.Latency.Reach.{Reach}
use dca.Latency.Counts.{bits_le}
use dca.Latency.Times.{Times}
use dca.Latency.Invariant.{Reach-Inv}

-- the lost requests in percent
packet_loss_lem :
    (sent recv : ℕ)
    → recv ≤ sent
    → sent ≤ 512
    → (packet_loss sent recv ≡ (sent - recv) * 100 / sent) × (packet_loss sent recv ≤ 100)
unfolding packet_loss
packet_loss_lem zero recv h small = let z : recv ≡ 0 = omega arith in rw z (refl, omega arith)
packet_loss_lem (suc n) recv h small =
    let e : (suc n + 2 ^ 32 - recv) % 2 ^ 32 * 100 % 2 ^ 32 ≡ (suc n - recv) * 100 = omega arith in
    let ne : (suc n == 0) ≡ false = ground arith in
    rw (ne, e) (refl, div-le_of_le-mul (suc n) (omega arith))

-- the mean of the round-trip times, 0 without a reply
abbrev pub mean : Ping → ℕ
mean d = if d.tmin == uint_max then 0 else d.tsum / (d.num_recv + d.num_rept)

unlike : {a b : ℕ} → a ≢ b → (a == b) ≡ false
unlike {a} {b} ne = ground (arith, ne)

positive : {d : Ping} {n : ℕ} → Times n d → d.tmin ≢ uint_max → 0 < d.num_recv + d.num_rept
positive {d} t ne = elim (le_lt_cases (d.num_recv + d.num_rept) 0) [
  | inl z ↦ absurd (ne (t.none_yet (omega arith)))
  | inr l ↦ l
]

mean_bounds :
    (d : Ping) (n : ℕ)
    → Times n d
    → d.tmin ≢ uint_max
    → (d.tmin ≤ d.tsum / (d.num_recv + d.num_rept)) × (d.tsum / (d.num_recv + d.num_rept) ≤ d.tmax)
mean_bounds d n t ne =
    let pos : 0 < d.num_recv + d.num_rept = positive t ne in
    (
      (le-div_iff_mul-le pos).1 (omega (arith, t.sum.low)),
      div-le_of_le-mul (d.num_recv + d.num_rept) t.sum.high,
    )

average_lem : (d : Ping) (n : ℕ) → n < 2 ^ 31 → Times n d → average d ≡ ok (mean d)
unfolding average
average_lem d n few t = elim (Bool-cases (d.tmin == uint_max)) [
  | inl e ↦ rw e
  | inr e ↦
      (let ne : d.tmin ≢ uint_max = λ p. ground arith in
        let pos = positive t ne in
        let m : (d.num_recv + d.num_rept) % 2 ^ 32 ≡ d.num_recv + d.num_rept =
          omega (arith, t.handled) in
        let nz : (d.num_recv + d.num_rept == 0) ≡ false = ground arith in
        let w : d.tsum / (d.num_recv + d.num_rept) % 2 ^ 32 ≡ d.tsum / (d.num_recv + d.num_rept) =
          omega (arith, (mean_bounds d n t ne).1, t.word) in
        rw (e, m, nz, w))
]

-- The node that _finish stores for a measurement: the host, the mean of the times, the share of the
-- requests without a reply in percent.
abbrev pub statistics : Ping → Neighbor
statistics d = record {
  addr = d.host;
  latency = mean d;
  packet_loss = (d.num_sent - d.num_recv) * 100 / d.num_sent;
  throughput = 0;
}

-- Behind fewer than 2^31 messages, all of them admissible, the statistics of _finish do not divide
-- by zero and do not overflow: the packet loss is the share of the requests without a reply,
-- rounded down, and at most 100, and the latency is the mean of the round-trip times, which lies
-- between the least and the greatest one where a reply took less than UINT_MAX, and is 0 otherwise.
pub measured_node-statistics :
    (r : Riot) (net : Net) (neigh n : ℕ) (d : Ping)
    → n < 2 ^ 31
    → Reach r net neigh n d
    → (measured_node d ≡ ok (statistics d))
      × ((statistics d).packet_loss ≤ 100)
      × (d.tmin ≢ uint_max → (d.tmin ≤ (statistics d).latency) × ((statistics d).latency ≤ d.tmax))
unfolding measured_node filled
measured_node-statistics r net neigh n d few reach =
    let (c, t) = Reach-Inv r net few reach in
    let le = bits_le d.cktab d.num_sent in
    let (loss, bound) =
      packet_loss_lem d.num_sent d.num_recv (omega (arith, c.marked))
        (omega (arith, c.few, c.small)) in
    (
      rw (average_lem d n few t, loss),
      rw (sym loss) bound,
      λ ne. rw (unlike ne) (mean_bounds d n t ne),
    )
