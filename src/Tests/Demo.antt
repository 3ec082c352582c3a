-- ===== src/Tests/Demo.antt =====
-- A small system: two threads, two sensors, one interface with two neighbours.
use dca.Common.{
  ℕ, zero, suc, ◌+◌, ◌-◌, ◌*◌, ◌/◌, ◌%◌, true, Option, none, some, Text, codes, ℤ, pos, negsuc, [],
  ◌∷◌, ◌++◌, ◌==◌, ltb, if◌then◌else◌,
}
use dca.Riot.{Riot, Thread, Status, SaulReg, Config, Mcu, Board}
use dca.State.{Globals}

abbrev pub idle : Thread
idle = record {
  name = codes "idle";
  status = Status.pending;
  priority = 15;
  stack_size = 256;
  stack_start = 100;
}

abbrev pub main : Thread
main = record {
  name = codes "main";
  status = Status.running;
  priority = 7;
  stack_size = 1536;
  stack_start = 400;
}

abbrev pub threads : ℕ → Option Thread
threads i = if i == 1 then some idle else if i == 3 then some main else none

abbrev pub button : SaulReg
button = record { name = codes "btn"; class = 66; next = 20 }

abbrev pub led : SaulReg
led = record { name = codes "led"; class = 130; next = 0 }

abbrev pub registry : ℕ → Option SaulReg
registry a = if a == 10 then some button else if a == 20 then some led else none

abbrev pub digits : ℕ → ℕ → Text
digits zero n = []
digits (suc k) n = if ltb n 10 then (48 + n) ∷ [] else digits k (n / 10) ++ (48 + n % 10) ∷ []

abbrev pub decimal : ℤ → Text
decimal (pos n) = digits 12 n
decimal (negsuc n) = codes "-" ++ digits 12 (n + 1)

abbrev pub config : Config
config = record {
  dca_ps = true;
  dca_network = true;
  dca_saul = true;
  mcu = Mcu.nrf52;
  board = Board.other_board;
  dca_mcu_ram = none;
  dca_mcu_nvram = none;
  dca_mcu_clock = none;
  dca_board_ram = none;
  dca_board_nvram = none;
  dca_extra_nvram = none;
  dca_extra_ram = none;
}

abbrev pub demo : Riot
demo = record {
  config = config;
  fuel = 20;
  stack_byte = λ i. 170;
  pid_first = 1;
  pid_last = 4;
  sched_threads = threads;
  sched_num_threads = 2;
  runtime_ticks = λ i. 1000 * i;
  measure_stack_free = λ a. a;
  saul_reg = 10;
  saul_at = registry;
  saul_class_to_str = λ c. if c == 66 then codes "SENSE_BTN" else codes "ACT_SWITCH";
  saul_cat_mask = 0xc0;
  saul_cat_sense = 0x40;
  saul_cat_act = 0x80;
  netif_iter = λ i. if i == 0 then 6 else 0;
  netif_name = λ i. codes "6";
  netif_id = λ i. i;
  netif_ipv6_addr = λ i. some 1;
  netif_is_wired = λ i. 1;
  nib_neighbors = λ i. 2 ∷ 3 ∷ [];
  ipv6_addr_equal = ◌==◌;
  ipv6_addr_to_str = λ a. codes "fe80::" ++ digits 12 a;
  ipv6_addr_max_str_len = 46;
  fmt_s32_dec = decimal;
  fmt_float = λ x p. digits 12 x;
  float_of_u64 = λ n. n;
  float_of_i32 = λ n. elim n [ pos k ↦ k | negsuc k ↦ 0 ];
  float_to_i32 = pos;
  float_sub = ◌-◌;
  float_mul = ◌*◌;
  float_div = ◌/◌;
  o_accmode = 3;
  off_max = 2147483647;
  o_rdonly = 0;
  riot_board = codes "nrf52840dk";
  riot_mcu = codes "nrf52";
}

abbrev pub start : Globals
start = record {
  field_count = 0;
  saul_field_count = 0;
  netif_field_count = 0;
  netif_sub_field_count = 1;
  num_neighbours = 0;
  head = [];
}
