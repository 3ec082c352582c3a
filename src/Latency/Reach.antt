-- ===== src/Latency/Reach.antt =====
-- The states that the measurement of a neighbour reaches, where replies answer requests that were
-- sent and the timer sends only what it was set to.
use dca.Common.{
  ℕ, suc, ◌<◌, ◌≡◌, Option, none, some, List, [], ◌∷◌, true, ◌%◌, inl, inr, Bool-cases, arith, refl,
  ◌==◌, ==_iff,
}
use dca.Riot.{Riot}
use dca.Net.{Net, Sending, Echo, Msg, rcv, event, Arrival}
use dca.Latency.{new_ping, configure, on_msg}
use dca.Latency.Types.{Ping, Timer, cktab_size, send_next_ping}
use dca.Latency.Pinger.{pinger}
use dca.Latency.Reply.{
  handle_snips, handle_reply, print_reply, count_reply, add_time, accepted, triptime,
}

abbrev pub scheduled : Option Timer → ℕ
scheduled none = 0
scheduled (some t) = t.type

-- A message that the network and the timer may deliver: a packet that carries the id of the
-- measurement carries the number of a request that was sent, and a request is due only if the
-- timer was set for it.
abbrev pub Admissible : Ping → Msg → Type 0
Admissible d (rcv pkt) = (e : Echo) → pkt.icmpv6 ≡ some e → e.id ≡ d.id → e.seq < d.num_sent
Admissible d (event type) = type ≡ send_next_ping → scheduled d.sched ≡ send_next_ping

-- What a message does: nothing, the statistics of a reply, or the next request.
pub data Move (net : Net) : Ping → Ping → Type 0 where
  idle : {d : Ping} → Move net d d
  reply :
      {d : Ping} (e : Echo) (now : ℕ)
      → e.seq < d.num_sent
      → Move net d (count_reply (add_time d (triptime now e)) (e.seq % cktab_size))
  send :
      {d : Ping} (now : ℕ) (s : Sending)
      → scheduled d.sched ≡ send_next_ping
      → Move net d (pinger net d now s).0

module _ (r : Riot) (net : Net) where
  -- the state of the loop behind the first request
  unfoldable pub begin : ℕ → Ping
  begin neigh =
      let v = net.visit neigh in
      (pinger net (configure r net neigh (new_ping net) v.configured).1 v.first_now v.first).0

  -- The states behind so many messages.
  pub data Reach (neigh : ℕ) : ℕ → Ping → Type 0 where
    first : Reach neigh 0 (begin neigh)
    next :
        {n : ℕ} {d : Ping}
        → Reach neigh n d
        → (a : Arrival) → Admissible d a.msg
        → Reach neigh (suc n) (on_msg r net d a.msg a.now a.sending).0

  -- Every message is admissible when it is received.
  abbrev pub IsHonest : Ping → List Arrival → Type 0
  IsHonest d [] = Unit
  IsHonest d (a ∷ inbox) =
      Admissible d a.msg × IsHonest (on_msg r net d a.msg a.now a.sending).0 inbox

accepted-id :
    (r : Riot) (net : Net) (d : Ping) (e : Echo) (from : ℕ)
    → accepted r net d e from ≡ true
    → e.id ≡ d.id
unfolding accepted
accepted-id r net d e from h = ground arith

print_reply-Move :
    (r : Riot) (net : Net) (d : Ping) (e : Echo) (from now : ℕ)
    → d.datalen ≡ 4
    → (e.id ≡ d.id → e.seq < d.num_sent)
    → Move net d (print_reply r net d e from now)
unfolding print_reply
print_reply-Move r net d e from now len seq = elim (Bool-cases (accepted r net d e from)) [
  | inl y ↦ rw (y, len) (reply e now (seq (accepted-id r net d e from y)))
  | inr n ↦ rw n idle
]

handle_snips-Move :
    (r : Riot) (net : Net) (d : Ping) (src : Option ℕ) (icmpv6 : Option Echo) (now : ℕ)
    → d.datalen ≡ 4
    → ((e : Echo) → icmpv6 ≡ some e → e.id ≡ d.id → e.seq < d.num_sent)
    → Move net d (handle_snips r net d src icmpv6 now)
unfolding handle_snips
handle_snips-Move r net d (some from) (some e) now len ad =
    print_reply-Move r net d e from now len (ad e refl)
handle_snips-Move r net d (some from) none now len ad = idle
handle_snips-Move r net d none icmpv6 now len ad = idle

-- An admissible message makes a move.
pub on_msg-Move :
    (r : Riot) (net : Net) (d : Ping) (m : Msg) (now : ℕ) (s : Sending)
    → d.datalen ≡ 4
    → Admissible d m
    → Move net d (on_msg r net d m now s).0
unfolding on_msg handle_reply
on_msg-Move r net d (rcv pkt) now s len ad =
    handle_snips-Move r net d pkt.ipv6_src pkt.icmpv6 now len ad
on_msg-Move r net d (event type) now s len ad = elim (Bool-cases (type == send_next_ping)) [
  | inl y ↦ rw y (send now s (ad ((==_iff type send_next_ping).0 y)))
  | inr n ↦ rw n idle
]
