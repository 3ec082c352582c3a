-- ===== src/Latency/Forged.antt =====
-- Replies to requests that were not sent, in latency.c.
use dca.Common.{
  ℕ, zero, suc, ◌+◌, ◌%◌, ◌^◌, ◌≤◌, ◌<◌, ◌≡◌, ◌≢◌, refl, sym, ap, ◌∙◌, Bool, true, false, ltb,
  if◌then◌else◌, some, List, ◌∷◌, arith,
}
use dca.Riot.{Riot}
use dca.Net.{Net, Sending, Echo, rcv, Arrival}
use dca.Latency.{receive_loop, on_msg}
use dca.Latency.Types.{Ping, cktab_size}
use dca.Latency.Pinger.{bf_put}
use dca.Latency.Reply.{
  handle_reply, handle_snips, print_reply, count_reply, add_time, accepted, triptime,
}
use dca.Latency.Finish.{packet_loss}
use dca.Latency.Reach.{begin, first}
use dca.Latency.Counts.{bits}
use dca.Latency.Invariant.{begin_start, Reach-Inv}

-- a reply, handled at a time
abbrev pub reply_from : ℕ → Echo → ℕ → Sending → Arrival
reply_from from e now s = record {
  msg = rcv (record { is_icmpv6 = true; ipv6_src = some from; icmpv6 = some e });
  now = now;
  sending = s;
}

-- the state behind a reply that was not counted before
abbrev counted : Ping → ℕ → ℕ → Ping
counted d t i = record (add_time d t) {
  cktab = bf_put d.cktab i true;
  num_recv = (d.num_recv + 1) % 2 ^ 32;
}

-- one request and three replies: the difference wraps
packet_loss_of_three : packet_loss 1 3 ≡ 4294967096
unfolding packet_loss
packet_loss_of_three = refl

bf_put_other : (f : ℕ → Bool) (i j : ℕ) (b : Bool) → i ≢ j → bf_put f i b j ≡ f j
bf_put_other f i j b ne = ground (arith, ne)

first_bit : (f : ℕ → Bool) → bits f 1 ≡ 0 → f 0 ≡ false
first_bit f h = ground arith

clear_all : (f : ℕ → Bool) → f 0 ≡ false → ((i : ℕ) → 1 ≤ i → f i ≡ false) → (i : ℕ) → f i ≡ false
clear_all f z h zero = z
clear_all f z h (suc i) = h (suc i) (omega arith)

module _ (r : Riot) (net : Net) where
  print_reply-counted :
      (d : Ping) (e : Echo) (from now : ℕ)
      → accepted r net d e from ≡ true
      → d.datalen ≡ 4
      → d.cktab (e.seq % cktab_size) ≡ false
      → print_reply r net d e from now ≡ counted d (triptime now e) (e.seq % cktab_size)
  unfolding print_reply count_reply add_time
  print_reply-counted d e from now acc len clear = rw (acc, len, clear)

  receive_loop-counted :
      (d : Ping) (e : Echo) (from now : ℕ) (s : Sending) (inbox : List Arrival)
      → accepted r net d e from ≡ true
      → d.datalen ≡ 4
      → d.cktab (e.seq % cktab_size) ≡ false
      → receive_loop r net d (reply_from from e now s ∷ inbox) ≡ (
          let d' = counted d (triptime now e) (e.seq % cktab_size) in
          if ltb d'.num_recv d'.count then receive_loop r net d' inbox else some d')
  unfolding receive_loop on_msg handle_reply handle_snips
  receive_loop-counted d e from now s inbox acc len clear =
      rw (print_reply-counted d e from now acc len clear)

  accepted-counted :
      (d : Ping) (t i : ℕ) (e : Echo) (from : ℕ)
      → accepted r net (counted d t i) e from ≡ accepted r net d e from
  unfolding accepted add_time
  accepted-counted d t i e from = refl

  -- the first request, before any reply
  abbrev IsNew : Ping → Type 0
  IsNew d =
      (d.num_sent ≡ 1)
      × (d.num_recv ≡ 0)
      × (d.count ≡ 3)
      × (d.datalen ≡ 4)
      × ((i : ℕ) → d.cktab i ≡ false)

  begin-IsNew : (neigh : ℕ) → IsNew (begin r net neigh)
  begin-IsNew neigh =
      let (count, sent) = begin_start r net neigh in
      let (c, t) = Reach-Inv r net {neigh = neigh} (omega arith) first in
      let none : (begin r net neigh).num_recv ≡ 0 = omega (arith, t.handled) in
      let bit =
        first_bit (begin r net neigh).cktab
          (ap (bits (begin r net neigh).cktab) (sym sent) ∙ sym c.marked ∙ none) in
      (
        sent,
        none,
        count,
        t.len,
        clear_all (begin r net neigh).cktab bit (λ i h. c.fresh i (omega (arith, sent, h))),
      )

  -- a reply that makes the number of counted replies n, out of three
  step :
      (d : Ping) (e : Echo) (from now : ℕ) (s : Sending) (inbox : List Arrival) (n : ℕ)
      → accepted r net d e from ≡ true
      → d.datalen ≡ 4
      → d.count ≡ 3
      → d.num_recv ≡ n
      → n < 2
      → d.cktab (e.seq % cktab_size) ≡ false
      → receive_loop r net d (reply_from from e now s ∷ inbox)
        ≡ receive_loop r net (counted d (triptime now e) (e.seq % cktab_size)) inbox
  unfolding add_time
  step d e from now s inbox n acc len count recv few clear =
      let go : ltb ((d.num_recv + 1) % 2 ^ 32) d.count ≡ true = ground arith in
      receive_loop-counted d e from now s inbox acc len clear ∙ rw go

  last_step :
      (d : Ping) (e : Echo) (from now : ℕ) (s : Sending) (inbox : List Arrival)
      → accepted r net d e from ≡ true
      → d.datalen ≡ 4
      → d.count ≡ 3
      → d.num_recv ≡ 2
      → d.cktab (e.seq % cktab_size) ≡ false
      → receive_loop r net d (reply_from from e now s ∷ inbox)
        ≡ some (counted d (triptime now e) (e.seq % cktab_size))
  unfolding add_time
  last_step d e from now s inbox acc len count recv clear =
      let stop : ltb ((d.num_recv + 1) % 2 ^ 32) d.count ≡ false = ground arith in
      receive_loop-counted d e from now s inbox acc len clear ∙ rw stop

  -- The sequence number of a reply is not compared with the requests: behind the first request, three
  -- replies that _print_reply accepts, with sequence numbers that differ modulo 512, end the
  -- measurement, and the packet loss of _finish is then 4294967096 percent.
  pub receive_loop-packet_loss :
      (neigh from : ℕ) (e1 e2 e3 : Echo) (t1 t2 t3 : ℕ) (s : Sending) (inbox : List Arrival)
      → accepted r net (begin r net neigh) e1 from ≡ true
      → accepted r net (begin r net neigh) e2 from ≡ true
      → accepted r net (begin r net neigh) e3 from ≡ true
      → e1.seq % cktab_size ≢ e2.seq % cktab_size
      → e1.seq % cktab_size ≢ e3.seq % cktab_size
      → e2.seq % cktab_size ≢ e3.seq % cktab_size
      → (d : Ping) × (receive_loop r net
            (begin r net neigh)
            (reply_from from e1 t1 s ∷ reply_from from e2 t2 s ∷ reply_from from e3 t3 s ∷ inbox)
          ≡ some d)
        × (packet_loss d.num_sent d.num_recv ≡ 4294967096)
  unfolding add_time
  receive_loop-packet_loss neigh from e1 e2 e3 t1 t2 t3 s inbox a1 a2 a3 n12 n13 n23 =
      let (sent, recv, count, len, clear) = begin-IsNew neigh in
      let d = begin r net neigh in
      let i1 = e1.seq % cktab_size in
      let i2 = e2.seq % cktab_size in
      let d1 = counted d (triptime t1 e1) i1 in
      let d2 = counted d1 (triptime t2 e2) i2 in
      let c2 : d1.cktab i2 ≡ false = bf_put_other d.cktab i1 i2 true n12 ∙ clear i2 in
      let i3 = e3.seq % cktab_size in
      let c3 : d2.cktab i3 ≡ false =
        bf_put_other d1.cktab i2 i3 true n23 ∙ bf_put_other d.cktab i1 i3 true n13 ∙ clear i3 in
      let one : d1.num_recv ≡ 1 = omega arith in
      let two : d2.num_recv ≡ 2 = omega arith in
      let three : (d2.num_recv + 1) % 2 ^ 32 ≡ 3 = omega arith in
      (
        counted d2 (triptime t3 e3) (e3.seq % cktab_size),
        step d e1 from t1 s _ 0 a1 len count recv (omega arith) (clear i1)
            ∙ step d1 e2 from t2 s _ 1 (accepted-counted d (triptime t1 e1) i1 e2 from ∙ a2) len
                count one (omega arith) c2
            ∙ last_step d2 e3 from t3 s inbox
                (accepted-counted d1 (triptime t2 e2) i2 e3 from
                  ∙ accepted-counted d (triptime t1 e1) i1 e3 from
                  ∙ a3)
                len count two c3,
        rw (sent, three) packet_loss_of_three,
      )
