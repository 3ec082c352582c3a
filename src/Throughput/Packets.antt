-- ===== src/Throughput/Packets.antt =====
-- The loop of the server over the packets of a test, some of which may be lost.
use dca.Common.{
  ℕ, zero, suc, ◌+◌, ◌-◌, ◌^◌, ◌<◌, ◌≡◌, ◌⊎◌, inl, inr, ltb, lt→ltb, le→ltb, le_lt_cases,
  if◌then◌else◌, ◌==◌, false, none, some, List, [], ◌∷◌, ◌++◌, Buffer, length, All, arith,
}
use mathlib.Core.Path.{subst}
use dca.Throughput.Server.{Event, counted, packet_loop, on_packet, end_time, duration}

abbrev pub IsPacket : Event → Type 0
IsPacket e = (bytes : Buffer) × (e.datagram ≡ some bytes)

-- the clock behind the last of these events
abbrev pub last_time : ℕ → List Event → ℕ
last_time at [] = at
last_time at (e ∷ events) = last_time e.end_now events

-- How a test of k packets ends, the clock being `at` behind the last of them: with all three
-- packets, or with an event without a datagram. The rest is for the next round.
abbrev pub EndsAt : ℕ → ℕ → List Event → ℕ → List Event → Type 0
EndsAt at k tail end' rest =
    ((k ≡ 3) × (end' ≡ at) × (tail ≡ rest))
    ⊎ ((e : Event) × (k < 3) × (e.datagram ≡ none) × (tail ≡ e ∷ rest) × (end' ≡ e.end_now))

pub packet_loop-counted :
    (n i start at : ℕ) (packets tail rest : List Event) (end' : ℕ)
    → suc i + n ≡ 3
    → All IsPacket packets
    → EndsAt (last_time at packets) (suc i + length packets) tail end' rest
    → packet_loop n (suc i) start at (packets ++ tail)
      ≡ counted (suc i + length packets) start end' rest
unfolding packet_loop on_packet
packet_loop-counted n i start at [] tail rest end' three all (inl (k, e1, e2)) =
    let z : n ≡ 0 = omega arith in let s : suc i + 0 ≡ suc i = omega arith in rw (z, e1, e2, s)
packet_loop-counted zero i start at [] tail rest end' three all (inr (e, k, lost, e1, e2)) =
    absurd (omega arith)
packet_loop-counted (suc n) i start at [] tail rest end' three all (inr (e, k, lost, e1, e2)) =
    let s : suc i + 0 ≡ suc i = omega arith in rw (e1, e2, lost, s)
packet_loop-counted zero i start at (p ∷ packets) tail rest end' three all (inl (k, e1, e2)) =
    absurd (omega arith)
packet_loop-counted zero i start at (p ∷ packets) tail rest end' three all
      (inr (e, k, lost, e1, e2)) =
    absurd (omega arith)
packet_loop-counted (suc n) i start at (p ∷ packets) tail rest end' three all ends =
    let s : suc i + suc (length packets) ≡ suc (suc i) + length packets = omega arith in
    let next : suc i + 1 ≡ suc (suc i) = omega arith in
    let later : (suc i == 0) ≡ false = ground arith in
    let rounds =
      packet_loop-counted n (suc i) start p.end_now packets tail rest end' (omega arith) all.1
        (subst (λ k. EndsAt (last_time p.end_now packets) k tail end' rest) s ends) in
    rw (all.0.1, later, next, s) rounds

-- PACKET_TIMEOUT, taken off the clock where a packet is lost
abbrev pub allowance : ℕ → ℕ
allowance k = if ltb k 3 then 1000000 else 0

pub duration-end_time :
    (k t t' : ℕ)
    → t + 100 + allowance k < t'
    → t' - t < 2 ^ 32
    → duration t (end_time k 3 t') ≡ t' - t - 100 - allowance k
unfolding duration end_time
duration-end_time k t t' more near = elim (le_lt_cases 3 k) [
  | inl h ↦ (let no = le→ltb k 3 h in let a : allowance k ≡ 0 = rw no in rw no (omega (arith, a)))
  | inr h ↦
      (let yes = lt→ltb k 3 h in
        let a : allowance k ≡ 1000000 = rw yes in rw yes (omega (arith, a)))
]

pub no_duration : (k t : ℕ) → duration t (end_time k 3 (t + 100 + allowance k)) ≡ 0
unfolding duration end_time
no_duration k t = elim (le_lt_cases 3 k) [
  | inl h ↦ let no = le→ltb k 3 h in rw no (omega arith)
  | inr h ↦ let yes = lt→ltb k 3 h in rw yes (omega arith)
]
