-- ===== src/Latency/Times.antt =====
-- The round-trip times of the replies: their sum lies between the bounds that tmin and tmax give.
use dca.Common.{ℕ, suc, ◌+◌, ◌*◌, ◌%◌, ◌^◌, ◌≤◌, ◌<◌, ◌≡◌, inl, inr, arith, Bool-cases}
use native.Mathlib.Nat.{mul-le-mul}
use dca.Net.{Net, Echo, Sending}
use dca.Latency.Types.{Ping, cktab_size, uint_max}
use dca.Latency.Pinger.{pinger}
use dca.Latency.Reply.{count_reply, add_time, triptime}
use dca.Latency.Reach.{Move, idle, reply, send}

-- A sum of m numbers between lo and hi.
pub record IsSum (m lo hi sum : ℕ) : Type 0 where
  pub low : m * lo ≤ sum
  pub high : sum ≤ m * hi

-- Replies of at most n messages, and their times.
pub record Times (n : ℕ) (d : Ping) : Type 0 where
  pub handled : d.num_recv + d.num_rept ≤ n
  pub len : d.datalen ≡ 4
  pub none_yet : d.num_recv + d.num_rept ≡ 0 → d.tmin ≡ uint_max
  pub word : d.tmax < 2 ^ 32
  pub sum : IsSum (d.num_recv + d.num_rept) d.tmin d.tmax d.tsum

triptime_lt : (now : ℕ) (e : Echo) → triptime now e < 2 ^ 32
unfolding triptime
triptime_lt now e = omega arith

IsSum-add :
    (m lo hi sum t lo' hi' : ℕ)
    → m < 2 ^ 31
    → hi' < 2 ^ 32
    → lo' ≤ lo
    → lo' ≤ t
    → hi ≤ hi'
    → t ≤ hi'
    → IsSum m lo hi sum
    → IsSum (m + 1) lo' hi' ((sum + t) % 2 ^ 64)
IsSum-add m lo hi sum t lo' hi' few word l1 l2 h1 h2 s =
    let low : m * lo' ≤ m * lo = mul-le-mul (omega arith) l1 in
    let high : m * hi ≤ m * hi' = mul-le-mul (omega arith) h1 in
    let room : m * hi' ≤ 2 ^ 31 * 2 ^ 32 =
      mul-le-mul {n₂ = 2 ^ 31} {m₂ = 2 ^ 32} (omega arith) (omega arith) in
    record { low = omega (arith, s.low); high = omega (arith, s.high) }

module _ (n : ℕ) (d : Ping) (t : ℕ) (few : n < 2 ^ 31) (word : t < 2 ^ 32) (ts : Times n d) where
  abbrev timed : Ping
  timed = add_time d t

  add_time-IsSum : IsSum (d.num_recv + d.num_rept + 1) timed.tmin timed.tmax timed.tsum
  unfolding add_time
  add_time-IsSum =
      IsSum-add (d.num_recv + d.num_rept) d.tmin d.tmax d.tsum t timed.tmin timed.tmax
        (omega (arith, ts.handled)) (ground (arith, ts.word)) (ground arith) (ground arith)
        (ground arith) (ground arith) ts.sum

  add_time-word : timed.tmax < 2 ^ 32
  unfolding add_time
  add_time-word = ground (arith, ts.word)

  count_reply-Times : (i : ℕ) → Times (suc n) (count_reply timed i)
  unfolding count_reply add_time
  count_reply-Times i =
      let h = ts.handled in
      let repeated : d.num_recv + (d.num_rept + 1) % 2 ^ 32 ≡ d.num_recv + d.num_rept + 1 =
        omega arith in
      let new : (d.num_recv + 1) % 2 ^ 32 + d.num_rept ≡ d.num_recv + d.num_rept + 1 =
        omega arith in
      elim (Bool-cases (d.cktab i)) [
        | inl e ↦ rw e (record {
          handled = omega arith;
          len = ts.len;
          none_yet = λ z. absurd (omega arith);
          word = add_time-word;
          sum = rw repeated add_time-IsSum;
        })
        | inr e ↦ rw e (record {
          handled = omega arith;
          len = ts.len;
          none_yet = λ z. absurd (omega arith);
          word = add_time-word;
          sum = rw new add_time-IsSum;
        })
      ]

pub pinger-Times :
    (net : Net) {n m : ℕ} (d : Ping) (now : ℕ) (s : Sending)
    → n ≤ m
    → Times n d
    → Times m (pinger net d now s).0
unfolding pinger
pinger-Times net d now s le t = record {
  handled = omega (arith, t.handled);
  len = t.len;
  none_yet = t.none_yet;
  word = t.word;
  sum = t.sum;
}

-- Behind fewer than 2^31 messages a move keeps what is known of the times.
pub Move-Times :
    {net : Net} {n : ℕ} {d d' : Ping} → n < 2 ^ 31 → Move net d d' → Times n d → Times (suc n) d'
Move-Times few idle t = record {
  handled = omega (arith, t.handled);
  len = t.len;
  none_yet = t.none_yet;
  word = t.word;
  sum = t.sum;
}
Move-Times {n} few (reply {d} e now seq) t =
    count_reply-Times n d (triptime now e) few (triptime_lt now e) t (e.seq % cktab_size)
Move-Times few (send {d} now s due) t = pinger-Times _ d now s (omega arith) t
