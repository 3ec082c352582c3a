-- ===== src/Latency/Pinger.antt =====
-- _pinger of latency.c: sets the timer for the next event and sends an echo request.
use dca.Common.{
  ℕ, ◌+◌, ◌*◌, ◌/◌, ◌%◌, ◌^◌, Bool, false, not, ◌==◌, ltb, leb, Option, none, some, List, replicate,
  if◌then◌else◌,
}
use dca.Net.{Net, Sending}
use dca.Latency.Types.{Ping, Timer, send_next_ping, ping_finish, cktab_size}

-- bf_set, bf_unset
abbrev pub bf_put : (ℕ → Bool) → ℕ → Bool → ℕ → Bool
bf_put f i b j = if j == i then b else f j

-- An echo request: the fields of the ICMPv6 header, the payload with the time that is written over
-- its first word, the hop limit, the destination and the interface (NULL = 0).
pub record Request : Type 0 where
  pub id : ℕ
  pub seq : ℕ
  pub payload : List ℕ
  pub stamp : Option ℕ
  pub host : ℕ
  pub hoplimit : ℕ
  pub netif : ℕ

-- What becomes of the packet: none is built, it is released, or GNRC takes it.
pub data Sent : Type 0 where
  unbuilt released : Sent
  dispatched : Request → Sent

module _ (net : Net) where
  unfoldable finish_time : Ping → ℕ
  finish_time d =
      if d.num_recv == 0
      then d.timeout
      else (let timer = d.tmax / (512 * 1024) * net.us_per_sec % 2 ^ 32 in
          if timer == 0 then net.us_per_sec else timer)

  -- the event that _pinger schedules
  unfoldable pub next_event : Ping → Timer
  unfolding finish_time
  next_event d =
      if ltb ((d.num_sent + 1) % 2 ^ 32) d.count
      then record { type = send_next_ping; time = d.interval }
      else record { type = ping_finish; time = finish_time d }

unfoldable pub request : Ping → ℕ → Request
request d now = record {
  id = d.id;
  seq = d.num_sent % 2 ^ 16;
  payload = replicate d.datalen d.pattern;
  stamp = if leb 4 d.datalen then some (now % 2 ^ 32) else none;
  host = d.host;
  hoplimit = d.hoplimit;
  netif = d.netif;
}

-- the calls of GNRC, in order, and the error exits
unfoldable pub send : Ping → ℕ → Sending → Sent
unfolding request
send d now s =
    if not s.echo_built
    then unbuilt
    else if not s.ipv6_built
    then released
    else if (if d.netif == 0 then false else not s.netif_built)
    then released
    else if not s.dispatched
    then released
    else dispatched (request d now)

module _ (net : Net) where
  -- _pinger: the state afterwards, and what became of the request
  unfoldable pub pinger : Ping → ℕ → Sending → Ping × Sent
  unfolding next_event send
  pinger d now s = (
    record d {
      sched = some (next_event net d);
      cktab = bf_put d.cktab (d.num_sent % cktab_size) false;
      num_sent = (d.num_sent + 1) % 2 ^ 32;
    },
    send d now s,
  )
