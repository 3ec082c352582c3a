-- ===== src/Startup.antt =====
-- examples/*/main.c: what the example programs do before their shell runs, the table of shell
-- commands, and the command `mock_saul`.
pub mod Devices
use dca.Common.{ℕ, Bool, true, Text, codes, ℤ, pos, negsuc, List, [], ◌∷◌, ◌++◌, ok, if◌then◌else◌}
use dca.State.{Over, pure, ◌>>=◌, ◌>>◌}
use dca.Vfs.{Vfs}
use dca.Vfs.Cat
use dca.Vfs.Tree
use dca.Throughput.Server.{Server, db_start_udp_server}

-- saul_reg_t, as the example fills it: the drivers have no function to read or to write.
pub record Device : Type 0 where
  pub name : Text
  pub class : ℕ

-- shell_command_t: the handler takes the command's name and the arguments behind it.
pub record ShellCommand (S : Type 0) : Type 0 where
  pub name : Text
  pub desc : Text
  pub handler : Text → List Text → Over S (Text × ℤ)

-- What the examples take from RIOT, beside the VFS: the classes of SAUL devices, the registry's
-- saul_reg_add, the mount of dcafs at a path, thread_create for the thread of the UDP server (whether
-- it succeeds), msg_init_queue, gcoap_register_listener for the resource of coap.c, and the shell,
-- with the text that it prints. `server` reads the globals of udp_throughput.c.
pub record Firmware (S D : Type 0) : Type 0 where
  pub vfs : Vfs S D
  pub use_dcafs : Bool
  pub dca_network : Bool
  pub act_servo : ℕ
  pub sense_temp : ℕ
  pub sense_light : ℕ
  pub act_led_rgb : ℕ
  pub act_switch : ℕ
  pub shell_default_bufsize : ℕ
  pub server : S → Server
  pub saul_reg_add : Device → Over S ℤ
  pub vfs_mount : Text → Over S ℤ
  pub thread_create : Over S Bool
  pub msg_init_queue : ℕ → Over S (Unit {0})
  pub register_listener : Over S (Unit {0})
  pub shell_run : List (ShellCommand S) → ℕ → Over S Text

abbrev pub main_queue_size : ℕ
main_queue_size = 8

module _ {S D : Type 0} (f : Firmware S D) where
  -- The static devices s0 to s4 of mock_test_saul.
  unfoldable pub s0 : Device
  s0 = record { name = codes "act_1"; class = f.act_servo }

  unfoldable pub s1 : Device
  s1 = record { name = codes "sens_2"; class = f.sense_temp }

  unfoldable pub s2 : Device
  s2 = record { name = codes "sens_3"; class = f.sense_light }

  unfoldable pub s3 : Device
  s3 = record { name = codes "act_4"; class = f.act_led_rgb }

  unfoldable pub s4 : Device
  s4 = record { name = codes "act_5"; class = f.act_switch }

  -- mock_test_saul: it ignores its arguments, prints nothing and returns the last `res`.
  unfoldable pub mock_test_saul : Text → List Text → Over S (Text × ℤ)
  mock_test_saul command arguments = do
    _ ← f.saul_reg_add s0
    _ ← f.saul_reg_add s1
    _ ← f.saul_reg_add s2
    _ ← f.saul_reg_add s3
    res ← f.saul_reg_add s4
    pure ([], res)

  -- shell_commands of examples/vfs
  unfoldable pub shell_commands : List (ShellCommand S)
  unfolding mock_test_saul Cat.cat Tree.tree
  shell_commands =
      record {
        name = codes "cat";
        desc = codes "print the content of a file";
        handler = Cat.cat f.vfs;
      }
      ∷ record {
        name = codes "tree";
        desc = codes "print directory tree";
        handler = Tree.tree f.vfs;
      }
      ∷ record {
        name = codes "mock_saul";
        desc = codes "adding devices to saul registry for testing ";
        handler = mock_test_saul;
      }
      ∷ []

  -- db_start_udp_server: thread_create is called only if the server does not run. Whether 0 is
  -- returned.
  unfoldable pub start_udp_server : Over S Bool
  unfolding db_start_udp_server
  start_udp_server s =
      if (f.server s).server_running
      then ok ((db_start_udp_server true (f.server s)).0, s)
      else (do created ← f.thread_create; pure (db_start_udp_server created (f.server s)).0) s

  -- The mount of main, and what it prints.
  unfoldable pub mount_dcafs : Over S Text
  mount_dcafs =
      if f.use_dcafs
      then (do
        res ← f.vfs_mount (codes "/dca")
        elim res [
          | negsuc _ ↦ pure (codes "Error while mounting dcafs\n")
          | pos _ ↦ pure (codes "dcafs mounted successfully\n")
        ])
      else pure []

  -- main of examples/vfs: what it prints, with the shell's output
  unfoldable pub vfs_main : Over S Text
  unfolding mount_dcafs start_udp_server shell_commands
  vfs_main = do
    out ← mount_dcafs
    _ ← start_udp_server
    f.msg_init_queue main_queue_size
    s ← f.shell_run shell_commands f.shell_default_bufsize
    pure (out ++ s)

  unfoldable pub start_server_if : Bool → Over S Bool
  unfolding start_udp_server
  start_server_if b = if b then start_udp_server else pure true

  -- main of examples/minimal
  unfoldable pub minimal_main : Over S Text
  unfolding start_server_if
  minimal_main = do
    _ ← start_server_if f.dca_network
    f.msg_init_queue main_queue_size
    f.shell_run [] f.shell_default_bufsize

  -- db_coap_init
  unfoldable pub db_coap_init : Over S ℤ
  db_coap_init = do f.register_listener; pure (pos 0)

  -- main of examples/coap
  unfoldable pub coap_main : Over S Text
  unfolding start_server_if db_coap_init
  coap_main = do
    _ ← start_server_if f.dca_network
    _ ← db_coap_init
    f.msg_init_queue main_queue_size
    f.shell_run [] f.shell_default_bufsize
