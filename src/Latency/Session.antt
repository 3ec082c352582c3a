-- ===== src/Latency/Session.antt =====
-- The measurement of one neighbour as a whole: the messages that its loop takes, and that it ends.
use dca.Common.{
  ℕ, suc, ◌+◌, ◌^◌, ◌≤◌, ◌<◌, ◌≡◌, ◌≢◌, ap, ◌++◌, false, refl, inl, inr, ◌⊎◌, true, ◌==◌,
  if◌then◌else◌, arith, Bool-cases, Option, some, List, [], ◌∷◌, length, le_lt_cases, lt→ltb,
  le→ltb, ==_iff,
}
use dca.Riot.{Riot}
use dca.Net.{Net, Sending, Msg, rcv, event, Arrival}
use dca.Latency.{on_msg, receive_loop}
use dca.Latency.Types.{Ping, send_next_ping, ping_finish}
use dca.Latency.Pinger.{pinger}
use dca.Latency.Reply.{count_reply, add_time}
use dca.Latency.Reach.{Reach, next, IsHonest, Move, idle, reply, send, on_msg-Move, Admissible}
use dca.Latency.Counts.{Counts}
use dca.Latency.Times.{Times}
use dca.Latency.Invariant.{Reach-Inv}

-- a message of the timer
abbrev pub is_timer : Msg → ℕ
is_timer (rcv pkt) = 0
is_timer (event type) = if type == send_next_ping then 1 else if type == ping_finish then 1 else 0

abbrev pub timers : List Arrival → ℕ
timers [] = 0
timers (a ∷ inbox) = is_timer a.msg + timers inbox

pub Move-kept :
    {net : Net} {d d' : Ping}
    → Move net d d'
    → Counts d
    → (d'.count ≡ d.count) × (d'.host ≡ d.host) × (d.num_sent ≤ d'.num_sent)
unfolding count_reply add_time pinger
Move-kept idle c = (refl, refl, omega arith)
Move-kept (reply {d} e now seq) c = (ground arith, ground arith, ground arith)
Move-kept (send {d} now s due) c = (refl, refl, omega (arith, c.small, c.due due))

module _ (r : Riot) (net : Net) where
  -- A message of the timer sends a request or ends the loop.
  on_msg-progress :
      (d : Ping) (m : Msg) (now : ℕ) (s : Sending) (n : ℕ)
      → Counts d
      → Times n d
      → Admissible d m
      → ((on_msg r net d m now s).1 ≡ true)
        ⊎ (((on_msg r net d m now s).0.count ≡ d.count)
            × (d.num_sent + is_timer m ≤ (on_msg r net d m now s).0.num_sent))
  unfolding on_msg
  on_msg-progress d (rcv pkt) now s n c t ad =
      let k = Move-kept (on_msg-Move r net d (rcv pkt) now s t.len ad) c in
      inr (k.0, omega (arith, k.2))
  on_msg-progress d (event type) now s n c t ad = elim (Bool-cases (type == send_next_ping)) [
    | inl y ↦
        rw y (inr (refl, omega (arith, c.small, c.due (ad ((==_iff type send_next_ping).0 y)))))
    | inr n ↦ elim (Bool-cases (type == ping_finish)) [
      | inl y ↦ rw (n, y) (inl refl)
      | inr f ↦ rw (n, f) (inr (refl, omega arith))
    ]
  ]

  -- the state behind a message
  abbrev pub after : Ping → Arrival → Ping
  after d a = (on_msg r net d a.msg a.now a.sending).0

  -- The messages that a measurement takes, from a state to a state: one behind the other, where the
  -- last one is the end of the waiting time or leaves no reply to wait for, and no other one is or does.
  pub data Takes : Ping → List Arrival → Ping → Type 0 where
    finished : {d : Ping} (a : Arrival) → a.msg ≡ event ping_finish → Takes d (a ∷ []) (after d a)
    complete :
        {d : Ping} (a : Arrival)
        → a.msg ≢ event ping_finish
        → (after d a).count ≤ (after d a).num_recv
        → Takes d (a ∷ []) (after d a)
    more :
        {d d' : Ping} {taken : List Arrival} (a : Arrival)
        → a.msg ≢ event ping_finish
        → (after d a).num_recv < (after d a).count
        → Takes (after d a) taken d'
        → Takes d (a ∷ taken) d'

  on_msg-finish :
      (d : Ping) (m : Msg) (now : ℕ) (s : Sending)
      → (on_msg r net d m now s).1 ≡ true
      → m ≡ event ping_finish
  unfolding on_msg
  on_msg-finish d (rcv pkt) now s h = absurd (cc)
  on_msg-finish d (event type) now s h = elim (Bool-cases (type == send_next_ping)) [
    | inl y ↦ ground (arith, h)
    | inr n ↦ ap event ((==_iff type ping_finish).0 (rw n at h))
  ]

  on_msg-goes_on :
      (d : Ping) (m : Msg) (now : ℕ) (s : Sending)
      → (on_msg r net d m now s).1 ≡ false
      → m ≢ event ping_finish
  unfolding on_msg
  on_msg-goes_on d m now s h e = ground (arith, rw e at h)

  -- The loop ends, behind the first messages of the inbox.
  abbrev pub Ends : ℕ → ℕ → Ping → List Arrival → Option Ping → Type 0
  Ends neigh n d inbox o =
      (d' : Ping) × (taken : List Arrival) × (rest : List Arrival) × (inbox ≡ taken ++ rest)
      × Takes d taken d'
      × ((m : ℕ) × (m ≡ n + length taken) × Reach r net neigh m d')
      × (o ≡ some d')

  pub receive_loop-Ends :
      (neigh n : ℕ) (d : Ping) (inbox : List Arrival)
      → n + length inbox < 2 ^ 31
      → Reach r net neigh n d
      → IsHonest r net d inbox
      → d.count < d.num_sent + timers inbox
      → Ends neigh n d inbox (receive_loop r net d inbox)
  unfolding receive_loop
  receive_loop-Ends neigh n d [] few reach honest enough =
      absurd (omega (arith, (Reach-Inv r net (omega arith) reach).0.few))
  receive_loop-Ends neigh n d (a ∷ inbox) few reach honest enough =
      let (c, t) = Reach-Inv r net (omega arith) reach in
      let ad = honest.0 in
      let d₁ = after d a in
      let reached = next reach a ad in
      elim (Bool-cases (on_msg r net d a.msg a.now a.sending).1) [
        | inl stop ↦ rw stop (
          d₁,
          a ∷ [],
          inbox,
          refl,
          finished a (on_msg-finish d a.msg a.now a.sending stop),
          (suc n, omega arith, reached),
          refl,
        )
        | inr go ↦
            (let on = on_msg-goes_on d a.msg a.now a.sending go in
              elim (le_lt_cases d₁.count d₁.num_recv) [
                | inl le ↦
                    rw (go, le→ltb d₁.num_recv d₁.count le)
                      (
                        d₁,
                        a ∷ [],
                        inbox,
                        refl,
                        complete a on le,
                        (suc n, omega arith, reached),
                        refl,
                      )
                | inr l ↦
                    (let (d', taken, rest, e, takes, (m, few', reach'), same) =
                        receive_loop-Ends neigh (suc n) d₁ inbox (omega arith) reached honest.1
                          (elim (on_msg-progress d a.msg a.now a.sending n c t ad) [
                            | inl stop ↦ absurd (cc)
                            | inr (count, sent) ↦ omega arith
                          ]) in
                      rw (go, lt→ltb d₁.num_recv d₁.count l)
                        (
                          d',
                          a ∷ taken,
                          rest,
                          ap (λ i. a ∷ i) e,
                          more a on l takes,
                          (m, omega arith, reach'),
                          same,
                        ))
              ])
      ]
