-- ===== src/Shell/Dump/System.antt =====
-- What `dcadump` prints on a node that is compiled with the threads and the SAUL devices and without
-- the network.
use dca.Common.{
  ℕ, suc, ◌-◌, ◌≤◌, ◌<◌, ◌≡◌, ◌≢◌, refl, true, false, some, arith, codes, NoNul, All, int32, List,
  [], ◌∷◌, ◌++◌, ok, length, map,
}
use mathlib.Core.Path.{subst}
use dca.Riot.{Riot, Thread, SaulReg}
use dca.State.{Globals}
use dca.Board
use dca.Runtime
use dca.Ps
use dca.Ps.Step.{at}
use dca.Ps.Table.{threads}
use dca.Saul
use dca.Saul.Registry.{Registered, of_category, get_num_sensors-Registered}
use dca.Db.Index.{db_index}
use dca.Db.Ops.Null.{is_null-ps, is_null-saul}
use dca.Db.Value.{float_prescision}
use dca.Shell.{dcadump}
use dca.Shell.Processes
use dca.Shell.Dump.{Decimal}
use dca.Shell.Dump.Shows.{Branch, Shows}
use dca.Shell.Dump.Database.{blocks, dcadump-Shows}
use dca.Shell.Dump.Processes.{tree_r-new_ps_node}
use dca.Shell.Dump.Classes.{Classed, reset}
use dca.Shell.Dump.Devices.{tree_r-new_saul_node}
use dca.Shell.Dump.Rows.{board, runtime, saul, ValueText-copy_text}

-- The conditions under which the whole data base can be printed, for a thread t at the first pid and
-- the devices ps of the registry: the threads and the devices are compiled in and the network is not;
-- pids are positive; the texts of RIOT and the names are C strings that fit, with their NUL, the arrays
-- that they are copied into; the two categories differ; and the fuel allows seven rounds and
-- one more than there are threads and than there are devices.
pub record Printable (r : Riot) (t : Thread) (ps : List SaulReg) : Type 0 where
  pub with_ps : r.config.dca_ps ≡ true
  pub with_saul : r.config.dca_saul ≡ true
  pub no_network : r.config.dca_network ≡ false
  pub decimal : Decimal r
  pub util : NoNul (r.fmt_float (Runtime.get_cpu_util r) float_prescision)
  pub board : NoNul r.riot_board × (length r.riot_board < 127)
  pub mcu : NoNul r.riot_mcu × (length r.riot_mcu < 127)
  pub positive : 0 < r.pid_first
  pub some_pid : r.pid_first ≤ r.pid_last
  pub live : r.sched_threads r.pid_first ≡ some t
  pub named : All Processes.Named (threads r r.pid_first)
  pub registered : Registered r r.saul_reg ps
  pub classed : All (Classed r) ps
  pub differ : r.saul_cat_sense ≢ r.saul_cat_act
  pub fuel : 6 < r.fuel
  pub threads_fit : length (threads r r.pid_first) < r.fuel
  pub devices_fit : length ps < r.fuel

-- both counters at 0
abbrev pub counters_at_0 : Globals → Globals
counters_at_0 g = record g { field_count = 0; saul_field_count = 0 }

module _ (r : Riot) (t : Thread) (ps : List SaulReg) (can : Printable r t ps) (g : Globals)
    (k : ℕ) where
  board-Shows : Shows r g k true (board r)
  unfolding Board.get_name Board.get_mcu
  board-Shows = record {
    entries = refl;
    dynamic = refl;
    values = (
      ValueText-copy_text r g r.riot_board can.board.0 can.board.1,
      (
        ValueText-copy_text r g r.riot_mcu can.mcu.0 can.mcu.1,
        (
          (Board.get_ram r, refl, can.decimal (Board.get_ram r), refl),
          (
            (Board.get_clock r, refl, can.decimal (Board.get_clock r), refl),
            ((Board.get_nonvolatile r, refl, can.decimal (Board.get_nonvolatile r), refl), tt),
          ),
        ),
      ),
    );
    below = tt;
  }

  runtime-Shows : Shows r (counters_at_0 g) (suc (suc (suc k))) true (runtime r)
  unfolding Ps.new_ps_node
  runtime-Shows =
      let (last, printed) =
        tree_r-new_ps_node r (reset g) 2 true k t can.decimal (omega (arith, can.fuel)) can.positive
          can.some_pid can.live can.named can.threads_fit in
      record {
        entries = refl;
        dynamic = rw can.with_ps refl;
        values = (
          (Runtime.get_cpu_load r, refl, can.decimal (Runtime.get_cpu_load r), refl),
          (
            (Runtime.get_cpu_util r, refl, can.util, refl),
            (
              (Runtime.get_num_processes r, refl, can.decimal (Runtime.get_num_processes r), refl),
              (
                (Runtime.get_stack_used r, refl, can.decimal (Runtime.get_stack_used r), refl),
                ((Runtime.get_heap r, refl, can.decimal (Runtime.get_heap r), refl), tt),
              ),
            ),
          ),
        );
        below = (
          (
            Ps.new_ps_node r,
            Ps.init last 2,
            refl,
            is_null-ps r (counters_at_0 g) (Ps.ps_data r.pid_first 2),
            printed,
          ),
          tt,
        );
      }

  saul-Shows : Shows r (counters_at_0 g) (suc (suc (suc k))) true (saul r ps)
  unfolding Saul.new_saul_node
  saul-Shows =
      let counts =
        get_num_sensors-Registered r ps (counters_at_0 g) can.registered can.devices_fit
          can.differ in
      let printed =
        tree_r-new_saul_node r (at g 0) k 2 true ps can.registered can.classed
          (omega (arith, can.fuel)) can.devices_fit in
      record {
        entries = refl;
        dynamic = refl;
        values = (
          (
            int32 (of_category r r.saul_cat_sense ps),
            counts.0,
            can.decimal (int32 (of_category r r.saul_cat_sense ps)),
            refl,
          ),
          (
            (
              int32 (of_category r r.saul_cat_act ps),
              counts.1,
              can.decimal (int32 (of_category r r.saul_cat_act ps)),
              refl,
            ),
            tt,
          ),
        );
        below = (
          (
            Saul.new_saul_node r,
            Saul.init 0 2,
            refl,
            is_null-saul r (counters_at_0 g) (Saul.saul_data r.saul_reg 2),
            printed,
          ),
          tt,
        );
      }

-- the description of the whole data base
abbrev pub branches : Riot → List SaulReg → List Branch
branches r ps = board r ∷ runtime r ∷ saul r ps ∷ []

module _ (r : Riot) (t : Thread) (ps : List SaulReg) (can : Printable r t ps) where
  pub branches-db_index : map (λ x. x.ent) (branches r ps) ≡ db_index r
  unfolding db_index
  branches-db_index = rw (can.no_network, can.with_saul) refl

  pub branches-Shows :
      (g : Globals) → All (Shows r (counters_at_0 g) (r.fuel - 2) true) (branches r ps)
  branches-Shows g =
      let k = r.fuel - 5 in
      let deep : suc (suc (suc k)) ≡ r.fuel - 2 = omega (arith, can.fuel) in
      subst (λ n. All (Shows r (counters_at_0 g) n true) (branches r ps)) deep
        (
          board-Shows r t ps can (counters_at_0 g) (suc (suc (suc k))),
          (runtime-Shows r t ps can g k, (saul-Shows r t ps can g k, tt)),
        )

  -- On a node that is compiled with the threads and the SAUL devices and without the network,
  -- `dcadump` prints the whole data base: the branches `board`, `runtime` and `saul` with a line for
  -- each entry and the value that its function computes, below `runtime` every thread of the
  -- scheduler's table by rising pid with its pid, state, priority, stack size and stack use, and below
  -- `saul` every device of the registry with its class. It returns 0, and the counters of ps.c and
  -- saul_devices.c, which are 0 at the start, are 0 at the end. The conditions are those of Printable:
  -- pids are positive, the first pid has a thread, texts are C strings that fit their arrays with their NUL, the
  -- categories of sensors and actuators differ, and there is fuel for the threads and the devices.
  pub dcadump-Printable :
      (g : Globals)
      → dcadump r (counters_at_0 g)
        ≡ ok ((codes "- //\n" ++ blocks r true (branches r ps), 0), counters_at_0 g)
  dcadump-Printable g =
      dcadump-Shows r (counters_at_0 g) (branches r ps) can.fuel branches-db_index
        (branches-Shows g)
