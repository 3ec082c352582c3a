-- ===== src/Tests/Startup.antt =====
-- The devices of mock_test_saul in a registry that is empty but for one device.
use dca.Common.{
  ℕ, suc, ◌+◌, ◌≤◌, ◌≡◌, refl, sym, ap, ◌∙◌, true, false, arith, Option, none, some, List, [], ◌∷◌,
  ◌++◌, map, codes, pos, negsuc, ok, ◌==◌, if◌then◌else◌, length, int32,
}
use mathlib.Core.Path.{subst}
use mathlib.Core.Option.{some-injective}
use dca.Riot.{Riot, SaulReg}
use dca.Saul.{get_num_sensors, get_num_actuators}
use dca.Saul.Registry.{Registered}
use dca.Startup.{
  Device, Firmware, mock_test_saul, vfs_main, mount_dcafs, start_udp_server, minimal_main,
  start_server_if, coap_main, db_coap_init, s0, s1, s2, s3, s4,
}
use dca.Throughput.Server.{db_start_udp_server}
use dca.Startup.Devices.{
  device, with_registry, Holds, mocked, Unused, AllUnused, different,
  mock_test_saul-get_num_sensors,
}
use dca.Tests.Demo.{demo, start}
use dca.Vfs.{Vfs}
use dca.Fs.{directory}

-- The registry entry of a device, by the number of devices from it to the end of the list.
abbrev entry_of : Device → ℕ → SaulReg
entry_of d next = record { name = d.name; class = d.class; next = next }

abbrev entries : List Device → ℕ → Option SaulReg
entries [] n = none
entries (d ∷ ds) n =
    let rest = entries ds n in if suc (length ds) == n then some (entry_of d (length ds)) else rest

abbrev Chain : (ℕ → Option SaulReg) → List Device → Type 0
Chain at [] = Unit
Chain at (d ∷ ds) = (at (suc (length ds)) ≡ some (entry_of d (length ds))) × Chain at ds

Chain-weaken :
    (d : Device) (ds t : List Device)
    → length t ≤ length ds
    → Chain (entries ds) t
    → Chain (entries (d ∷ ds)) t
Chain-weaken d ds [] h c = tt
Chain-weaken d ds (e ∷ t) h (c, cs) = (ground (arith, c), Chain-weaken d ds t (omega (arith, h)) cs)

entries-Chain : (ds : List Device) → Chain (entries ds) ds
entries-Chain [] = tt
entries-Chain (d ∷ ds) = (ground arith, Chain-weaken d ds ds (omega arith) (entries-Chain ds))

module _ (r : Riot) (reg : ℕ) (at : ℕ → Option SaulReg) where
  Chain-Registered :
      (ds : List Device)
      → Chain at ds
      → (ps : List SaulReg) × Registered (with_registry r reg at) (length ds) ps
        × (map device ps ≡ ds)
  Chain-Registered [] c = ([], refl, refl)
  Chain-Registered (d ∷ ds) (c, cs) =
      let rest = Chain-Registered ds cs in
      (entry_of d (length ds) ∷ rest.0, (ground arith, c, rest.1), ap (λ l. d ∷ l) rest.2)

  Registered-Chain :
      (ds : List Device) (ps : List SaulReg)
      → Chain at ds
      → Registered (with_registry r reg at) (length ds) ps
      → map device ps ≡ ds
  Registered-Chain [] [] c h = refl
  Registered-Chain [] (p ∷ ps) c (nz, e, h) = absurd (cc)
  Registered-Chain (d ∷ ds) [] c h = absurd (omega (arith, h))
  Registered-Chain (d ∷ ds) (p ∷ ps) (c, cs) (nz, e, h) =
      let same : p ≡ entry_of d (length ds) =
        some-injective p (entry_of d (length ds)) (sym e ∙ c) in
      rw (same, Registered-Chain ds ps cs (rw same at h)) refl

-- a file system that is empty
abbrev no_files : Vfs (List Device) (Unit {0})
no_files = record {
  newlib = false;
  fuel = 10;
  open_file = λ path s. ok (negsuc 1, s);
  read = λ fd n s. ok ((negsuc 8, []), s);
  close = λ fd s. ok (pos 0, s);
  fopen = λ path s. ok (none, s);
  fread = λ fd n s. ok ((0, []), s);
  fclose = λ fd s. ok (pos 0, s);
  stat = λ path s. ok ((negsuc 1, directory), s);
  opendir = λ path s. ok ((negsuc 1, tt), s);
  readdir = λ d s. ok ((d, pos 0, []), s);
  closedir = λ d s. ok (pos 0, s);
  perror = λ s. ok ([], s);
}

-- The state is the list of the registered devices.
abbrev board : Firmware (List Device) (Unit {0})
board = record {
  vfs = no_files;
  use_dcafs = true;
  dca_network = true;
  act_servo = 0x83;
  sense_temp = 0x44;
  sense_light = 0x45;
  act_led_rgb = 0x82;
  act_switch = 0x81;
  shell_default_bufsize = 128;
  server = λ s. record {
    server_running = false;
    start_timer = 0;
    end_timer = 0;
    udp_packet = [];
    sent = [];
  };
  saul_reg_add = λ d s. ok (pos 0, s ++ d ∷ []);
  vfs_mount = λ path s. ok (pos 0, s);
  thread_create = λ s. ok (true, s);
  msg_init_queue = λ n s. ok (tt, s);
  register_listener = λ s. ok (tt, s);
  shell_run = λ cs n s. ok (codes "> ", s);
}

vfs_main_run : vfs_main board [] ≡ ok (codes "dcafs mounted successfully\n> ", [])
unfolding vfs_main mount_dcafs start_udp_server db_start_udp_server
vfs_main_run = refl

minimal_main_run : minimal_main board [] ≡ ok (codes "> ", [])
unfolding minimal_main start_server_if start_udp_server db_start_udp_server
minimal_main_run = refl

coap_main_run : coap_main board [] ≡ ok (codes "> ", [])
unfolding coap_main start_server_if start_udp_server db_start_udp_server db_coap_init
coap_main_run = refl

board-registers :
    (d : Device) (s ds : List Device)
    → Holds (with_registry demo (length s) (entries s)) ds
    → Unused d ds
    → (s' : List Device) × (board.saul_reg_add d s ≡ ok (pos 0, s'))
      × Holds (with_registry demo (length s') (entries s')) (ds ++ d ∷ [])
board-registers d s ds (ps, reg, e) unused =
    let s' = s ++ d ∷ [] in
    let same : s ≡ ds =
      sym (Registered-Chain demo (length s) (entries s) s ps (entries-Chain s) reg) ∙ e in
    (
      s',
      refl,
      subst (λ l. Holds (with_registry demo (length s') (entries s')) (l ++ d ∷ [])) same
          (Chain-Registered demo (length s') (entries s') s' (entries-Chain s')),
    )

abbrev sensor : Device
sensor = record { name = codes "btn"; class = 66 }

sensor-Holds : Holds (with_registry demo 1 (entries (sensor ∷ []))) (sensor ∷ [])
sensor-Holds = (entry_of sensor 0 ∷ [], (ground arith, ground arith, refl), refl)

sensor-Unused : AllUnused board (sensor ∷ [])
unfolding s0 s1 s2 s3 s4
sensor-Unused = (
  (different _ _ refl, tt),
  (different _ _ refl, tt),
  (different _ _ refl, tt),
  (different _ _ refl, tt),
  (different _ _ refl, tt),
)

mock_test_saul-get_num_sensors_example :
    (n m : ℕ) × (get_num_sensors (with_registry demo 1 (entries (sensor ∷ []))) start
      ≡ ok (int32 n, start))
    × (get_num_actuators (with_registry demo 1 (entries (sensor ∷ []))) start ≡ ok (int32 m, start))
    × (s' : List Device) × (mock_test_saul board (codes "mock_saul") [] (sensor ∷ [])
        ≡ ok (([], pos 0), s'))
    × Holds (with_registry demo (length s') (entries s')) (sensor ∷ mocked board)
    × (get_num_sensors (with_registry demo (length s') (entries s')) start
        ≡ ok (int32 (n + 2), start))
    × (get_num_actuators (with_registry demo (length s') (entries s')) start
        ≡ ok (int32 (m + 3), start))
mock_test_saul-get_num_sensors_example =
    mock_test_saul-get_num_sensors board demo length entries board-registers (sensor ∷ [])
      (sensor ∷ []) start sensor-Holds sensor-Unused (omega arith) (omega arith)
      (refl, refl, refl, refl, refl)
