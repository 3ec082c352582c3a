-- ===== src/Riot.antt =====
-- What the agent reads of RIOT and of the C compiler: the scheduler's table, the device registry,
-- the network interfaces, the formatting functions and the operations on floats. All of it is a
-- parameter of the model. A pointer is a number with NULL = 0, a float is its bit pattern.
use dca.Common.{zero, suc, Buffer, [], ◌∷◌, length, ◌≡◌, refl, ap, ℕ, Option, List, Text, Bool, ℤ}

-- The entries of RIOT's `thread_status_t` that the source names.
pub data Status : Type 0 where
  stopped zombie sleeping mutex_blocked receive_blocked send_blocked reply_blocked : Status
  flag_blocked_any flag_blocked_all mbox_blocked cond_blocked running pending : Status

-- The fields of `thread_t` that the source reads.
pub record Thread : Type 0 where
  pub name : Text
  pub status : Status
  pub priority : ℕ
  pub stack_size : ℕ
  pub stack_start : ℕ

-- The fields of `saul_reg_t` that the source reads; `class` is `driver->type`.
pub record SaulReg : Type 0 where
  pub name : Text
  pub class : ℕ
  pub next : ℕ

-- The macros that board.c is compiled with: the MCU, the board, and the DCA_* values given outside.
pub data Mcu : Type 0 where
  esp32 nrf52 stm32 other_mcu : Mcu

pub data Board : Type 0 where
  esp32_wroom_32 nucleo_f429zi other_board : Board

pub record Config : Type 0 where
  pub dca_ps : Bool
  pub dca_network : Bool
  pub dca_saul : Bool
  pub mcu : Mcu
  pub board : Board
  pub dca_mcu_ram : Option ℕ
  pub dca_mcu_nvram : Option ℕ
  pub dca_mcu_clock : Option ℕ
  pub dca_board_ram : Option ℕ
  pub dca_board_nvram : Option ℕ
  pub dca_extra_nvram : Option ℕ
  pub dca_extra_ram : Option ℕ

pub record Riot : Type 0 where
  pub config : Config
  -- the rounds that a loop over RIOT's data or over a path may take
  pub fuel : ℕ
  -- what an array on the stack holds before it is written
  pub stack_byte : ℕ → ℕ
  -- KERNEL_PID_FIRST, KERNEL_PID_LAST, sched_threads[], sched_num_threads
  pub pid_first : ℕ
  pub pid_last : ℕ
  pub sched_threads : ℕ → Option Thread
  pub sched_num_threads : ℕ
  -- sched_pidlist[i].runtime_ticks, thread_measure_stack_free
  pub runtime_ticks : ℕ → ℕ
  pub measure_stack_free : ℕ → ℕ
  -- saul_reg, the registry's nodes by address, saul_class_to_str and the category constants
  pub saul_reg : ℕ
  pub saul_at : ℕ → Option SaulReg
  pub saul_class_to_str : ℕ → Text
  pub saul_cat_mask : ℕ
  pub saul_cat_sense : ℕ
  pub saul_cat_act : ℕ
  -- netif_iter (0 gives the first interface, and 0 ends the list), netif_get_name, netif_get_id
  pub netif_iter : ℕ → ℕ
  pub netif_name : ℕ → Text
  pub netif_id : ℕ → ℕ
  -- netif_get_opt with NETOPT_IPV6_ADDR (none: an error) and with NETOPT_IS_WIRED
  pub netif_ipv6_addr : ℕ → Option ℕ
  pub netif_is_wired : ℕ → ℕ
  -- the addresses that gnrc_ipv6_nib_nc_iter yields for an interface
  pub nib_neighbors : ℕ → List ℕ
  pub ipv6_addr_equal : ℕ → ℕ → Bool
  pub ipv6_addr_to_str : ℕ → Text
  pub ipv6_addr_max_str_len : ℕ
  -- fmt_s32_dec, fmt_float (bit pattern, digits)
  pub fmt_s32_dec : ℤ → Text
  pub fmt_float : ℕ → ℕ → Text
  -- conversions and arithmetic of C's float
  pub float_of_u64 : ℕ → ℕ
  pub float_of_i32 : ℤ → ℕ
  pub float_to_i32 : ℕ → ℤ
  pub float_sub : ℕ → ℕ → ℕ
  pub float_mul : ℕ → ℕ → ℕ
  pub float_div : ℕ → ℕ → ℕ
  -- O_ACCMODE and O_RDONLY of fcntl.h
  pub o_accmode : ℕ
  pub o_rdonly : ℕ
  -- the largest value of off_t
  pub off_max : ℕ
  -- RIOT_BOARD, RIOT_MCU
  pub riot_board : Text
  pub riot_mcu : Text

-- An array on the stack that nothing has written yet.
unfoldable pub fresh : Riot → ℕ → Buffer
fresh r zero = []
fresh r (suc n) = r.stack_byte n ∷ fresh r n

pub length-fresh : (r : Riot) (n : ℕ) → length (fresh r n) ≡ n
unfolding fresh
length-fresh r zero = refl
length-fresh r (suc n) = ap suc (length-fresh r n)
