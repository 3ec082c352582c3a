-- ===== src/Latency/Types.antt =====
-- The state of the measurement of one neighbour: _ping_data_t and the constants of latency.h.
use dca.Common.{ℕ, ◌*◌, Bool, Text, Option}

-- _SEND_NEXT_PING, _PING_FINISH, CKTAB_SIZE, DEFAULT_COUNT, DEFAULT_DATALEN, DEFAULT_ID
abbrev pub send_next_ping : ℕ
send_next_ping = 0xef48

abbrev pub ping_finish : ℕ
ping_finish = 0xef49

abbrev pub cktab_size : ℕ
cktab_size = 64 * 8

abbrev pub default_count : ℕ
default_count = 3

abbrev pub default_datalen : ℕ
default_datalen = 4

abbrev pub default_id : ℕ
default_id = 0x53

-- UINT_MAX of limits.h
abbrev pub uint_max : ℕ
uint_max = 4294967295

-- A timer that is set: the type of the message it sends, and its time.
pub record Timer : Type 0 where
  pub type : ℕ
  pub time : ℕ

-- _ping_data_t; `cktab` is the bit field, `sched` the message and the timer.
pub record Ping : Type 0 where
  pub sched : Option Timer
  pub host : ℕ
  pub hostname : Text
  pub num_sent : ℕ
  pub num_recv : ℕ
  pub num_rept : ℕ
  pub tsum : ℕ
  pub tmin : ℕ
  pub tmax : ℕ
  pub count : ℕ
  pub datalen : ℕ
  pub cktab : ℕ → Bool
  pub timeout : ℕ
  pub interval : ℕ
  pub netif : ℕ
  pub id : ℕ
  pub hoplimit : ℕ
  pub pattern : ℕ
