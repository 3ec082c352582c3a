-- ===== src/Throughput/Running.antt =====
-- `server_running`, and the server thread that has ended.
use dca.Common.{
  ℕ, ◌≡◌, refl, ◌∙◌, inl, inr, sym, ap, ◌++◌, Bool, true, false, ◌==◌, Option, none, some, List, [],
  ◌∷◌, Buffer, Result, ok, fault, Bool-cases,
}
use mathlib.Core.Path.{subst}
use mathlib.Core.Option.{some-injective}
use dca.Throughput.Data.{start_test, test_ack, set_id, id, received, packet_count}
use dca.Throughput.Server.{
  Event, Server, Round, waiting, again, ended, Counted, counted, unfinished, packet_loop, duration,
  end_time, send_result, on_datagram, on_recv, server_round, server_start, db_start_udp_server,
}

abbrev running : Server → Bool
running v = v.server_running

-- a round leaves `server_running` as it was
abbrev Keeps : Bool → Result Round → Type 0
Keeps b (ok waiting) = Unit
Keeps b (ok (ended v)) = v.server_running ≡ b
Keeps b (ok (again v events)) = v.server_running ≡ b
Keeps b (fault f) = Unit

module _ (us : ℕ) where
  send_result-Keeps : (v : Server) (c : Counted) → Keeps v.server_running (send_result us v c)
  unfolding send_result
  send_result-Keeps v unfinished = tt
  send_result-Keeps v (counted i start at events) =
      elim (Bool-cases (duration start (end_time i (packet_count v.udp_packet) at) == 0)) [
        | inl z ↦ rw z tt
        | inr n ↦ rw n refl
      ]

  on_recv-Keeps :
      (v : Server) (o : Option Buffer) (at : ℕ) (events : List Event)
      → Keeps v.server_running (on_recv us v o at events)
  unfolding on_recv on_datagram
  on_recv-Keeps v none at events = refl
  on_recv-Keeps v (some []) at events = refl
  on_recv-Keeps v (some (b ∷ bytes)) at events =
      elim (Bool-cases (id (received (b ∷ bytes) v.udp_packet) == start_test)) [
        | inl y ↦ rw y (
            let ack = set_id test_ack (received (b ∷ bytes) v.udp_packet) in
            send_result-Keeps (record v { udp_packet = ack; sent = v.sent ++ (ack ∷ []) })
              (packet_loop (packet_count ack) 0 v.start_timer at events))
        | inr n ↦ rw n refl
      ]

  -- The states of the server thread between its rounds, with the events to come.
  pub data Serves (v₀ : Server) : Server → List Event → Type 0 where
    started : (events : List Event) → Serves v₀ v₀ events
    round :
        {v v' : Server} {events rest : List Event}
        → Serves v₀ v events
        → server_round us v events ≡ ok (again v' rest)
        → Serves v₀ v' rest

  server_round-Keeps :
      (v : Server) (events : List Event) → Keeps v.server_running (server_round us v events)
  unfolding server_round
  server_round-Keeps v [] = tt
  server_round-Keeps v (e ∷ events) = on_recv-Keeps v e.datagram e.end_now events

  Serves-running :
      {v₀ v : Server} {events : List Event}
      → Serves v₀ v events
      → v.server_running ≡ v₀.server_running
  Serves-running (started events) = refl
  Serves-running (round {v} {v'} {events} {rest} s e) =
      subst (Keeps v.server_running) e (server_round-Keeps v events) ∙ Serves-running s

  -- A server thread that was started and, after any number of rounds, ended, is never started again:
  -- `server_running` stays set, so db_start_udp_server returns 0 and creates no thread.
  pub Serves-db_start_udp_server :
      (v : Server) (v₀ v₁ v' : Server) (events : List Event) (created : Bool)
      → server_start true v ≡ some v₀
      → Serves v₀ v₁ events
      → server_round us v₁ events ≡ ok (ended v')
      → db_start_udp_server created v' ≡ (true, false)
  unfolding server_start db_start_udp_server
  Serves-db_start_udp_server v v₀ v₁ v' events created start s e =
      let marked : v₀.server_running ≡ true = sym (ap running (some-injective _ v₀ start)) in
      let last : v'.server_running ≡ v₁.server_running =
        subst (Keeps v₁.server_running) e (server_round-Keeps v₁ events) in
      rw (last ∙ Serves-running s ∙ marked)
