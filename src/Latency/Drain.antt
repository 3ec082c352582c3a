-- ===== src/Latency/Drain.antt =====
-- The loop at the end of db_measure_network_latency that empties the queue of the thread.
use dca.Common.{ℕ, zero, suc, ◌+◌, Bool, false, ltb, List, [], ◌∷◌, ◌++◌, length, if◌then◌else◌}
use dca.Net.{Msg, rcv, event}

-- a packet whose first snip is ICMPv6
abbrev pub is_reply : Msg → Bool
is_reply (rcv pkt) = pkt.is_icmpv6
is_reply (event t) = false

-- One round: the first message is released, or sent to the thread itself again.
unfoldable pub requeue : Msg → List Msg → List Msg
requeue m q = if is_reply m then q else q ++ (m ∷ [])

unfoldable pub drain_loop : ℕ → ℕ → List Msg → List Msg
unfolding requeue
drain_loop zero i q = q
drain_loop (suc n) i [] = []
drain_loop (suc n) i (m ∷ q) =
    let rest = drain_loop n (i + 1) (requeue m q) in if ltb i (length (m ∷ q)) then rest else m ∷ q

-- `i` rises and the queue does not grow, so a round for each message is enough.
unfoldable pub drain : List Msg → List Msg
unfolding drain_loop
drain q = drain_loop (length q) 0 q
