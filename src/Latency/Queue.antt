-- ===== src/Latency/Queue.antt =====
-- What the loop over the queue at the end of db_measure_network_latency keeps, and what it releases.
use dca.Common.{
  ℕ, zero, suc, ◌+◌, ◌-◌, ◌/◌, ◌≤◌, ◌≡◌, refl, ap, ◌∙◌, true, List, [], ◌∷◌, ◌++◌, length, take,
  drop, All, ◌<◌, sym, lt→ltb, le_lt_cases, arith, inl, inr, Bool-cases, if◌then◌else◌,
  length-append,
}
use mathlib.Core.List.{append_assoc, append-nil}
use dca.Net.{Msg}
use dca.Latency.Drain.{is_reply, requeue, drain_loop, drain}

-- the messages that are no replies
abbrev pub others : List Msg → List Msg
others [] = []
others (m ∷ q) = let rest = others q in if is_reply m then rest else m ∷ rest

requeue-append : (m : Msg) (q acc : List Msg) → requeue m (q ++ acc) ≡ q ++ (acc ++ others (m ∷ []))
unfolding requeue
requeue-append m q acc = elim (Bool-cases (is_reply m)) [
  | inl e ↦ rw (e, append-nil)
  | inr e ↦ rw (e, append_assoc)
]

requeue-reply : (m : Msg) (q : List Msg) → is_reply m ≡ true → requeue m q ≡ q
unfolding requeue
requeue-reply m q h = rw h

others-cons : (m : Msg) (q : List Msg) → others (m ∷ q) ≡ others (m ∷ []) ++ others q
others-cons m q = elim (Bool-cases (is_reply m)) [ inl e ↦ rw e | inr e ↦ rw e ]

length-others : (m : Msg) → length (others (m ∷ [])) ≤ 1
length-others m = ground arith

drain_loop_stop : (n i : ℕ) (q : List Msg) → length q ≤ i → drain_loop n i q ≡ q
unfolding drain_loop
drain_loop_stop zero i q h = refl
drain_loop_stop (suc n) i [] h = refl
drain_loop_stop (suc n) i (m ∷ q) h = ground arith

-- A queue behind k rounds: the messages that were not looked at, then those that were and are no
-- replies.
abbrev pub after_rounds : ℕ → List Msg → List Msg → List Msg
after_rounds k q acc = drop k q ++ (acc ++ others (take k q))

drain_loop_step :
    (n i : ℕ) (m : Msg) (q : List Msg)
    → i < length (m ∷ q)
    → drain_loop (suc n) i (m ∷ q) ≡ drain_loop n (i + 1) (requeue m q)
unfolding drain_loop
drain_loop_step n i m q h = rw (lt→ltb i (length (m ∷ q)) h)

after_rounds-suc :
    (k : ℕ) (m : Msg) (q acc : List Msg)
    → after_rounds k q (acc ++ others (m ∷ [])) ≡ after_rounds (suc k) (m ∷ q) acc
after_rounds-suc k m q acc =
    ap (λ l. drop k q ++ l)
      (append_assoc acc (others (m ∷ [])) (others (take k q))
        ∙ ap (λ l. acc ++ l) (sym (others-cons m (take k q))))

abbrev Rounds : ℕ → List Msg → List Msg → List Msg → Type 0
Rounds i q acc res = (k : ℕ) × (k ≤ length q) × (res ≡ after_rounds k q acc) × (length res ≤ i + k)

drain_loop-Rounds :
    (n i : ℕ) (q acc : List Msg)
    → length q ≤ n
    → length acc ≤ i
    → Rounds i q acc (drain_loop n i (q ++ acc))
drain_loop-Rounds n i [] acc hn hi =
    let e = drain_loop_stop n i acc hi in (0, omega arith, rw (e, append-nil), rw e (omega arith))
drain_loop-Rounds zero i (m ∷ q) acc hn hi = absurd (omega arith)
drain_loop-Rounds (suc n) i (m ∷ q) acc hn hi = elim (le_lt_cases (length (m ∷ q ++ acc)) i) [
  | inl h ↦
      (let e = drain_loop_stop (suc n) i (m ∷ q ++ acc) h in
        (0, omega arith, rw (e, append-nil), rw e (omega arith)))
  | inr h ↦
      (let acc' = acc ++ others (m ∷ []) in
        let hi' : length acc' ≤ i + 1 =
          omega (arith, length-append acc (others (m ∷ [])), length-others m) in
        let (k, hk, res, bound) = drain_loop-Rounds n (i + 1) q acc' (omega arith) hi' in
        let e : drain_loop (suc n) i (m ∷ q ++ acc) ≡ drain_loop n (i + 1) (q ++ acc') =
          drain_loop_step n i m (q ++ acc) h ∙ ap (drain_loop n (i + 1)) (requeue-append m q acc) in
        (suc k, omega arith, e ∙ res ∙ after_rounds-suc k m q acc, rw e (omega arith)))
]

-- The loop that empties the queue takes a number k of rounds and ends. It leaves the messages
-- behind the first k, in order, and then those of the first k that are no ICMPv6 packets, in order;
-- at most k messages are left. So no other message is lost, and packets are released in
-- the first k places only.
pub drain-after_rounds :
    (q : List Msg)
    → (k : ℕ) × (k ≤ length q) × (drain q ≡ after_rounds k q []) × (length (drain q) ≤ k)
unfolding drain
drain-after_rounds q =
    let (k, hk, res, bound) = drain_loop-Rounds (length q) 0 q [] (omega arith) (omega arith) in
    let e = ap (drain_loop (length q) 0) (sym (append-nil q)) in
    (k, hk, e ∙ res, rw e (omega (arith, bound)))

abbrev pub AllReplies : List Msg → Type 0
AllReplies = All (λ m. is_reply m ≡ true)

drain_loop_half :
    (n i : ℕ) (q : List Msg)
    → AllReplies q
    → length q ≤ n
    → length (drain_loop n i q) ≡ length q - (length q - i + 1) / 2
drain_loop_half n i [] h hn = rw (drain_loop_stop n i [] (omega arith)) (omega arith)
drain_loop_half zero i (m ∷ q) h hn = absurd (omega arith)
drain_loop_half (suc n) i (m ∷ q) h hn = elim (le_lt_cases (length (m ∷ q)) i) [
  | inl l ↦ rw (drain_loop_stop (suc n) i (m ∷ q) l) (omega arith)
  | inr l ↦
      rw (drain_loop_step n i m q l, requeue-reply m q h.0)
        (omega (arith, drain_loop_half n (i + 1) q h.1 (omega arith)))
]

-- On a queue of ICMPv6 packets only, the loop releases half of them, rounded up: `i` rises while
-- the queue shrinks.
pub drain_half : (q : List Msg) → AllReplies q → length (drain q) ≡ length q / 2
unfolding drain
drain_half q h = omega (arith, drain_loop_half (length q) 0 q h (omega arith))
