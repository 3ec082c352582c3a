-- ===== src/Board.antt =====
-- board.c: the branch `board`, fixed when the program is compiled.
use dca.Common.{
  ℕ, ◌+◌, ◌*◌, Option, none, some, ℤ, int32, Buffer, Text, Result, ok, fault, out_of_bounds, length,
  c_string, has_nul, strncpy, if◌then◌else◌,
}
use dca.Riot.{
  Riot, Mcu, Board, esp32, nrf52, stm32, other_mcu, esp32_wroom_32, nucleo_f429zi, other_board,
}
use dca.State.{Cmd, pure, lift, ◌>>=◌}

-- #ifndef M / #define M v
abbrev defined_or : Option ℕ → ℕ → ℕ
defined_or none v = v
defined_or (some m) v = m

abbrev pub kb : ℕ
kb = 1024

abbrev pub mhz : ℕ
mhz = 1000 * 1000

mcu_ram : Mcu → ℕ
mcu_ram esp32 = 2 * 160 * kb
mcu_ram nrf52 = 32 * kb
mcu_ram _ = 0

mcu_nvram : Mcu → ℕ
mcu_nvram nrf52 = 192 * kb
mcu_nvram _ = 0

mcu_clock : Mcu → ℕ
mcu_clock esp32 = 240 * mhz
mcu_clock nrf52 = 64 * mhz
mcu_clock stm32 = 32768 * 1000
mcu_clock other_mcu = 0

board_ram : Board → ℕ
board_ram nucleo_f429zi = 256 * kb
board_ram _ = 0

board_nvram : Board → ℕ
board_nvram esp32_wroom_32 = 16 * kb
board_nvram nucleo_f429zi = 2 * (1024 * 1024)
board_nvram other_board = 0

-- strlen(s): it reads on until a NUL
abbrev pub strlen : Buffer → Result ℕ
strlen s = if has_nul s then ok (length (c_string s)) else fault out_of_bounds

module _ (r : Riot) where
  unfoldable pub copy_text : Text → Buffer → ℕ → Cmd (Buffer × ℕ)
  copy_text s strbuf bufsize = do
    strbuf ← lift (strncpy strbuf s bufsize)
    n ← lift (strlen strbuf)
    pure (strbuf, n)

  -- board_get_name
  unfoldable pub get_name : Buffer → ℕ → Cmd (Buffer × ℕ)
  unfolding copy_text
  get_name = copy_text r.riot_board

  -- board_get_mcu
  unfoldable pub get_mcu : Buffer → ℕ → Cmd (Buffer × ℕ)
  unfolding copy_text
  get_mcu = copy_text r.riot_mcu

  -- board_get_ram
  unfoldable pub get_ram : ℤ
  unfolding mcu_ram board_ram
  get_ram = int32 (
      defined_or r.config.dca_mcu_ram (mcu_ram r.config.mcu)
      + defined_or r.config.dca_board_ram (board_ram r.config.board)
      + defined_or r.config.dca_extra_ram 0)

  -- board_get_clock
  unfoldable pub get_clock : ℤ
  unfolding mcu_clock
  get_clock = int32 (defined_or r.config.dca_mcu_clock (mcu_clock r.config.mcu))

  -- board_get_nonvolatile
  unfoldable pub get_nonvolatile : ℤ
  unfolding mcu_nvram board_nvram
  get_nonvolatile = int32 (
      defined_or r.config.dca_mcu_nvram (mcu_nvram r.config.mcu)
      + defined_or r.config.dca_board_nvram (board_nvram r.config.board)
      + defined_or r.config.dca_extra_nvram 0)
