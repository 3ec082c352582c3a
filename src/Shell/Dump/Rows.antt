-- ===== src/Shell/Dump/Rows.antt =====
-- The values that `dcadump` prints for the entries of the branches without the network.
use dca.Common.{
  ◌<◌, ◌≡◌, true, arith, Text, codes, NoNul, ℤ, int32, List, [], ◌∷◌, ◌++◌, length, drop, padded,
  has_nul-filled, c_string-filled, c_string-terminated, strncpy_le, length-padded, length-append,
  length-drop,
}
use dca.Riot.{Riot, SaulReg}
use dca.State.{Globals, pure, ◌>>=◌}
use dca.Board
use dca.Runtime
use dca.Ps
use dca.Saul
use dca.Saul.Registry.{of_category}
use dca.Db.Index.{
  StaticEntry, str_fn, branch, board_static_entries, runtime_static_entries,
  runtime_dynamic_entries, saul_static_entries, saul_dynamic_entries,
}
use dca.Db.Value.{float_prescision}
use dca.Db.Value.Numbers.{number_text}
use dca.Shell.{strbuf_size, indent}
use dca.Shell.Dump.Entries.{ValueText}
use dca.Shell.Dump.Shows.{Branch}
use dca.Shell.Dump.Processes.{thread_blocks}
use dca.Shell.Dump.Devices.{device_blocks}

-- entries with the texts of their values, in their order
abbrev pub with_texts : List StaticEntry → List Text → List (StaticEntry × Text)
with_texts [] ts = []
with_texts (e ∷ es) [] = []
with_texts (e ∷ es) (t ∷ ts) = (e, t) ∷ with_texts es ts

module _ (r : Riot) where
  abbrev pub number : ℤ → Text
  number n = number_text (r.fmt_s32_dec n) strbuf_size

  -- the values of the branch `board`
  abbrev pub board_texts : List Text
  board_texts =
      r.riot_board
      ∷ r.riot_mcu
      ∷ number (Board.get_ram r)
      ∷ number (Board.get_clock r)
      ∷ number (Board.get_nonvolatile r)
      ∷ []

  -- the values of the branch `runtime`
  abbrev pub runtime_texts : List Text
  runtime_texts =
      number (Runtime.get_cpu_load r)
      ∷ number_text (r.fmt_float (Runtime.get_cpu_util r) float_prescision) strbuf_size
      ∷ number (Runtime.get_num_processes r)
      ∷ number (Runtime.get_stack_used r)
      ∷ number (Runtime.get_heap r)
      ∷ []

  -- the values of the branch `saul`, for the devices of the registry
  abbrev pub saul_texts : List SaulReg → List Text
  saul_texts ps =
      number (int32 (of_category r r.saul_cat_sense ps))
      ∷ number (int32 (of_category r r.saul_cat_act ps))
      ∷ []

  abbrev pub board : Branch
  board = record {
    ent = branch r (codes "board") (board_static_entries r) [];
    rows = with_texts (board_static_entries r) board_texts;
    subtrees = [];
  }

  abbrev pub runtime : Branch
  runtime = record {
    ent = branch r (codes "runtime") (runtime_static_entries r) (runtime_dynamic_entries r);
    rows = with_texts (runtime_static_entries r) runtime_texts;
    subtrees =
        (
          record { name = codes "ps"; get_node = pure (Ps.new_ps_node r) },
          indent r 2
              ++ codes "- "
              ++ codes "ps"
              ++ codes "/\n"
              ++ thread_blocks r 3 true r.pid_first,
        )
        ∷ [];
  }

  abbrev pub saul : List SaulReg → Branch
  saul ps = record {
    ent = branch r (codes "saul") (saul_static_entries r) (saul_dynamic_entries r);
    rows = with_texts (saul_static_entries r) (saul_texts ps);
    subtrees =
        (
          record { name = codes "devices"; get_node = pure (Saul.new_saul_node r) },
          indent r 2 ++ codes "- " ++ codes "devices" ++ codes "/\n" ++ device_blocks r 3 true ps,
        )
        ∷ [];
  }

  -- A text of the board, which a buffer of the shell has room for.
  pub ValueText-copy_text :
      (g : Globals) (s : Text)
      → NoNul s
      → length s < 127
      → ValueText r g (str_fn (Board.copy_text r s)) s
  unfolding Board.copy_text
  ValueText-copy_text g s h short buf full =
      let written = padded 127 s ++ drop 127 buf in
      let room : length written ≡ strbuf_size = omega (
        arith,
        length-append (padded 127 s) (drop 127 buf),
        length-padded 127 s,
        length-drop 127 buf,
        full,
      ) in
      (
        written,
        length s,
        rw (
          ◌>>=◌,
          strncpy_le 127 buf s (omega (arith, full)),
          has_nul-filled 127 127 s (drop 127 buf) h short (omega arith),
          c_string-filled 127 127 s (drop 127 buf) h short (omega arith),
        ),
        omega (arith, room, short),
        c_string-terminated 127 127 s (drop 127 buf) h short (omega arith),
      )
