-- ===== src/Latency/Counts.antt =====
-- Numbers of requests and replies: the bit field marks the replies that were counted.
use dca.Common.{
  ℕ, zero, suc, ◌+◌, ◌%◌, ◌^◌, ◌≤◌, ◌<◌, ◌≡◌, refl, inl, inr, Bool, true, false, if◌then◌else◌,
  arith, Bool-cases, le_lt_cases,
}
use dca.Net.{Net, Sending}
use dca.Latency.Types.{Ping, send_next_ping, cktab_size}
use dca.Latency.Pinger.{pinger, bf_put, next_event}
use dca.Latency.Reply.{count_reply, add_time, triptime}
use dca.Latency.Reach.{scheduled, Move, idle, reply, send}

-- the bits below n that are set
abbrev pub bits : (ℕ → Bool) → ℕ → ℕ
bits f zero = 0
bits f (suc n) = bits f n + (if f n then 1 else 0)

-- Each request of which a reply was counted has its bit set; no bit is set for a request to come,
-- and the timer is set for a request only if one is left.
pub record Counts (d : Ping) : Type 0 where
  pub few : d.num_sent ≤ d.count
  pub small : d.count ≤ cktab_size
  pub marked : d.num_recv ≡ bits d.cktab d.num_sent
  pub fresh : (i : ℕ) → d.num_sent ≤ i → d.cktab i ≡ false
  pub due : scheduled d.sched ≡ send_next_ping → d.num_sent < d.count

pub bits_le : (f : ℕ → Bool) (n : ℕ) → bits f n ≤ n
bits_le f zero = omega arith
bits_le f (suc n) = ground (arith, bits_le f n)

bits_put_past : (f : ℕ → Bool) (n i : ℕ) (b : Bool) → n ≤ i → bits (bf_put f i b) n ≡ bits f n
bits_put_past f zero i b h = refl
bits_put_past f (suc n) i b h = ground (arith, bits_put_past f n i b)

bits_put : (f : ℕ → Bool) (n i : ℕ) → i < n → f i ≡ false → bits (bf_put f i true) n ≡ bits f n + 1
bits_put f zero i h e = absurd (omega arith)
bits_put f (suc n) i h e = ground (arith, bits_put f n i, bits_put_past f n i true)

bits_put_fresh : (f : ℕ → Bool) (n : ℕ) → bits (bf_put f n false) (suc n) ≡ bits f n
bits_put_fresh f n = ground (arith, bits_put_past f n n false)

next_event-due :
    (net : Net) (d : Ping)
    → (next_event net d).type ≡ send_next_ping
    → (d.num_sent + 1) % 2 ^ 32 < d.count
unfolding next_event
next_event-due net d = elim (le_lt_cases d.count ((d.num_sent + 1) % 2 ^ 32)) [
  | inl l ↦ ground arith
  | inr l ↦ λ _. l
]

add_time-Counts : (d : Ping) (t : ℕ) → Counts d → Counts (add_time d t)
unfolding add_time
add_time-Counts d t c = record {
  few = c.few;
  small = c.small;
  marked = c.marked;
  fresh = c.fresh;
  due = c.due;
}

count_reply-Counts : (d : Ping) (i : ℕ) → i < d.num_sent → Counts d → Counts (count_reply d i)
unfolding count_reply
count_reply-Counts d i h c =
    let le = bits_le d.cktab d.num_sent in
    elim (Bool-cases (d.cktab i)) [
      | inl e ↦
          rw e (record {
            few = c.few;
            small = c.small;
            marked = c.marked;
            fresh = c.fresh;
            due = c.due;
          })
      | inr e ↦ rw e (record {
        few = c.few;
        small = c.small;
        marked = omega (arith, c.marked, c.few, c.small, bits_put d.cktab d.num_sent i h e);
        fresh = λ j l. ground (arith, c.fresh j l);
        due = c.due;
      })
    ]

pub pinger-Counts :
    (net : Net) (d : Ping) (now : ℕ) (s : Sending)
    → d.num_sent < d.count
    → Counts d
    → Counts (pinger net d now s).0
unfolding pinger
pinger-Counts net d now s h c =
    let at : d.num_sent % cktab_size ≡ d.num_sent = omega (arith, c.small) in
    let n : (d.num_sent + 1) % 2 ^ 32 ≡ suc d.num_sent = omega (arith, c.small) in
    record {
      few = rw n (omega arith);
      small = c.small;
      marked = rw (at, n) (omega (arith, c.marked, bits_put_fresh d.cktab d.num_sent));
      fresh = rw (at, n) (λ i l. ground (arith, c.fresh i (omega arith)));
      due = next_event-due net d;
    }

pub Move-Counts : {net : Net} {d d' : Ping} → Move net d d' → Counts d → Counts d'
unfolding add_time
Move-Counts idle c = c
Move-Counts (reply {d} e now seq) c =
    let at : e.seq % cktab_size ≡ e.seq = omega (arith, c.few, c.small) in
    count_reply-Counts (add_time d (triptime now e)) (e.seq % cktab_size) (rw at seq)
      (add_time-Counts d (triptime now e) c)
Move-Counts (send {d} now s due) c = pinger-Counts _ d now s (c.due due) c
