-- ===== src/Startup/Devices.antt =====
-- The devices that mock_test_saul of examples/vfs/main.c adds, as saul_node.c counts them.
use dca.Common.{
  ℕ, ◌+◌, ◌<◌, ◌%◌, ◌^◌, ◌≡◌, refl, ap, ◌≢◌, arith, Text, codes, List, [], ◌∷◌, ◌++◌, map, pos,
  Option, ok, bit_and, int32, ◌==◌, if◌then◌else◌, length, length-append, length-map, All,
  All-append, bytes_eq, codes_eq_refl, false,
}
use mathlib.Core.Path.{subst}
use mathlib.Core.List.{append_assoc}
use dca.Riot.{Riot, SaulReg}
use dca.State.{Globals, ◌>>=◌}
use dca.Saul.{get_num_sensors, get_num_actuators}
use dca.Saul.Registry.{Registered, of_category, get_num_sensors-Registered}
use dca.Startup.{Device, Firmware, s0, s1, s2, s3, s4, mock_test_saul}

-- a registry entry without its place in the list
abbrev pub device : SaulReg → Device
device p = record { name = p.name; class = p.class }

-- the five devices of mock_test_saul, in the order in which it adds them
abbrev pub mocked : {S D : Type 0} → Firmware S D → List Device
mocked f = s0 f ∷ s1 f ∷ s2 f ∷ s3 f ∷ s4 f ∷ []

-- the system r with a registry that starts at the address `reg` and has the entries `at`
abbrev pub with_registry : Riot → ℕ → (ℕ → Option SaulReg) → Riot
with_registry r reg at = record r { saul_reg = reg; saul_at = at }

-- the devices of a category in a list
unfoldable pub count_devices : ℕ → ℕ → List Device → ℕ
count_devices mask cat [] = 0
count_devices mask cat (d ∷ ds) =
    let rest = count_devices mask cat ds in
    if bit_and d.class mask % 2 ^ 8 == cat then 1 + rest else rest

of_category-device :
    (r : Riot) (cat : ℕ) (ps : List SaulReg)
    → of_category r cat ps ≡ count_devices r.saul_cat_mask cat (map device ps)
unfolding of_category count_devices
of_category-device r cat [] = refl
of_category-device r cat (p ∷ ps) = rw (of_category-device r cat ps) refl

count_devices-append :
    (mask cat : ℕ) (ds es : List Device)
    → count_devices mask cat (ds ++ es) ≡ count_devices mask cat ds + count_devices mask cat es
unfolding count_devices
count_devices-append mask cat [] es = omega arith
count_devices-append mask cat (d ∷ ds) es = ground (arith, count_devices-append mask cat ds es)

-- The registry of the system is the list of these devices.
abbrev pub Holds : Riot → List Device → Type 0
Holds r ds = (ps : List SaulReg) × Registered r r.saul_reg ps × (map device ps ≡ ds)

counted :
    (r : Riot) (ds : List Device) (g : Globals)
    → Holds r ds
    → length ds < r.fuel
    → r.saul_cat_sense ≢ r.saul_cat_act
    → (get_num_sensors r g ≡ ok (int32 (count_devices r.saul_cat_mask r.saul_cat_sense ds), g))
      × (get_num_actuators r g ≡ ok (int32 (count_devices r.saul_cat_mask r.saul_cat_act ds), g))
counted r ds g (ps, reg, e) fuel differ =
    let fits : length ps < r.fuel = omega (arith, fuel, ap length e, length-map device ps) in
    let h = get_num_sensors-Registered r ps g reg fits differ in
    (
      rw (h.0, of_category-device r r.saul_cat_sense ps, e) refl,
      rw (h.1, of_category-device r r.saul_cat_act ps, e) refl,
    )

-- The classes of the five devices: two sensors and three actuators.
abbrev pub Classes : {S D : Type 0} → Firmware S D → ℕ → ℕ → ℕ → Type 0
Classes f mask sense act =
    (bit_and f.sense_temp mask % 2 ^ 8 ≡ sense)
    × (bit_and f.sense_light mask % 2 ^ 8 ≡ sense)
    × (bit_and f.act_servo mask % 2 ^ 8 ≡ act)
    × (bit_and f.act_led_rgb mask % 2 ^ 8 ≡ act)
    × (bit_and f.act_switch mask % 2 ^ 8 ≡ act)

mocked_devices :
    {S D : Type 0} (f : Firmware S D) (mask sense act : ℕ)
    → sense ≢ act
    → Classes f mask sense act
    → (count_devices mask sense (mocked f) ≡ 2) × (count_devices mask act (mocked f) ≡ 3)
unfolding count_devices s0 s1 s2 s3 s4
mocked_devices f mask sense act differ (a, b, c, d, e) = ground arith

-- No device of this name is in the registry; a device that is registered already is none.
abbrev pub Unused : Device → List Device → Type 0
Unused d ds = All (λ e. e.name ≢ d.name) ds

abbrev pub AllUnused : {S D : Type 0} → Firmware S D → List Device → Type 0
AllUnused f ds =
    Unused (s0 f) ds × Unused (s1 f) ds × Unused (s2 f) ds × Unused (s3 f) ds × Unused (s4 f) ds

Unused-append :
    (d e : Device) (ds : List Device) → Unused d ds → e.name ≢ d.name → Unused d (ds ++ e ∷ [])
Unused-append d e ds h differ = All-append (λ x. x.name ≢ d.name) ds (e ∷ []) h (differ, tt)

-- texts that a comparison byte by byte tells apart
pub different : (s t : Text) → bytes_eq s t ≡ false → s ≢ t
different s t e h = absurd (cc (e, codes_eq_refl s, ap (bytes_eq s) h))

Unused-mocked :
    {S D : Type 0} (f : Firmware S D) (ds : List Device)
    → AllUnused f ds
    → Unused (s0 f) ds
      × Unused (s1 f) (ds ++ s0 f ∷ [])
      × Unused (s2 f) ((ds ++ s0 f ∷ []) ++ s1 f ∷ [])
      × Unused (s3 f) (((ds ++ s0 f ∷ []) ++ s1 f ∷ []) ++ s2 f ∷ [])
      × Unused (s4 f) ((((ds ++ s0 f ∷ []) ++ s1 f ∷ []) ++ s2 f ∷ []) ++ s3 f ∷ [])
unfolding s0 s1 s2 s3 s4
Unused-mocked f ds (a, b, c, d, e) =
    let ds₁ = ds ++ s0 f ∷ [] in
    let ds₂ = ds₁ ++ s1 f ∷ [] in
    let ds₃ = ds₂ ++ s2 f ∷ [] in
    let e₁ = Unused-append (s4 f) (s0 f) ds e (different _ _ refl) in
    let e₂ = Unused-append (s4 f) (s1 f) ds₁ e₁ (different _ _ refl) in
    let e₃ = Unused-append (s4 f) (s2 f) ds₂ e₂ (different _ _ refl) in
    let d₁ = Unused-append (s3 f) (s0 f) ds d (different _ _ refl) in
    let d₂ = Unused-append (s3 f) (s1 f) ds₁ d₁ (different _ _ refl) in
    let c₁ = Unused-append (s2 f) (s0 f) ds c (different _ _ refl) in
    (
      a,
      Unused-append (s1 f) (s0 f) ds b (different _ _ refl),
      Unused-append (s2 f) (s1 f) ds₁ c₁ (different _ _ refl),
      Unused-append (s3 f) (s2 f) ds₂ d₂ (different _ _ refl),
      Unused-append (s4 f) (s3 f) ds₃ e₃ (different _ _ refl),
    )

module _ {S D : Type 0} (f : Firmware S D) (r : Riot) (reg : S → ℕ) (at : S → ℕ → Option SaulReg)
    (registers : (d : Device) (s : S) (ds : List Device)
      → Holds (with_registry r (reg s) (at s)) ds
      → Unused d ds
      → (s' : S) × (f.saul_reg_add d s ≡ ok (pos 0, s'))
        × Holds (with_registry r (reg s') (at s')) (ds ++ d ∷ [])) where
  -- mock_test_saul adds its five devices, one behind the other.
  mock_test_saul-Holds :
      (command : Text) (arguments : List Text) (s : S) (ds : List Device)
      → Holds (with_registry r (reg s) (at s)) ds
      → AllUnused f ds
      → (s' : S) × (mock_test_saul f command arguments s ≡ ok (([], pos 0), s'))
        × Holds (with_registry r (reg s') (at s')) (ds ++ mocked f)
  unfolding mock_test_saul
  mock_test_saul-Holds command arguments s ds h unused =
      let u = Unused-mocked f ds unused in
      let a = registers (s0 f) s ds h u.0 in
      let b = registers (s1 f) a.0 (ds ++ s0 f ∷ []) a.2 u.1 in
      let c = registers (s2 f) b.0 ((ds ++ s0 f ∷ []) ++ s1 f ∷ []) b.2 u.2 in
      let d = registers (s3 f) c.0 (((ds ++ s0 f ∷ []) ++ s1 f ∷ []) ++ s2 f ∷ []) c.2 u.3 in
      let e =
        registers (s4 f) d.0 ((((ds ++ s0 f ∷ []) ++ s1 f ∷ []) ++ s2 f ∷ []) ++ s3 f ∷ []) d.2
          u.4 in
      (
        e.0,
        rw (◌>>=◌, a.1, b.1, c.1, d.1, e.1) refl,
        subst (Holds (with_registry r (reg e.0) (at e.0))) (simp (append_assoc)) e.2,
      )

  -- When saul_reg_add puts a device whose name is not in the registry behind the others and returns 0,
  -- no device of the registry has the name of one of the five, their classes are two of sensors and
  -- three of actuators, the two categories differ and the loops have fuel: after the command mock_saul
  -- the registry is the one before, followed by the five devices; the command prints nothing and
  -- returns 0, and saul_node.c counts two sensors and three actuators more than before.
  pub mock_test_saul-get_num_sensors :
      (s : S) (ds : List Device) (g : Globals)
      → Holds (with_registry r (reg s) (at s)) ds
      → AllUnused f ds
      → length ds + 5 < r.fuel
      → r.saul_cat_sense ≢ r.saul_cat_act
      → Classes f r.saul_cat_mask r.saul_cat_sense r.saul_cat_act
      → (n m : ℕ) × (get_num_sensors (with_registry r (reg s) (at s)) g ≡ ok (int32 n, g))
        × (get_num_actuators (with_registry r (reg s) (at s)) g ≡ ok (int32 m, g))
        × (s' : S) × (mock_test_saul f (codes "mock_saul") [] s ≡ ok (([], pos 0), s'))
        × Holds (with_registry r (reg s') (at s')) (ds ++ mocked f)
        × (get_num_sensors (with_registry r (reg s') (at s')) g ≡ ok (int32 (n + 2), g))
        × (get_num_actuators (with_registry r (reg s') (at s')) g ≡ ok (int32 (m + 3), g))
  mock_test_saul-get_num_sensors s ds g h unused fuel differ classes =
      let n = count_devices r.saul_cat_mask r.saul_cat_sense ds in
      let m = count_devices r.saul_cat_mask r.saul_cat_act ds in
      let before = counted (with_registry r (reg s) (at s)) ds g h (omega arith) differ in
      let added = mock_test_saul-Holds (codes "mock_saul") [] s ds h unused in
      let after =
        counted (with_registry r (reg added.0) (at added.0)) (ds ++ mocked f) g added.2
          (omega (arith, fuel, length-append ds (mocked f))) differ in
      let five = mocked_devices f r.saul_cat_mask r.saul_cat_sense r.saul_cat_act differ classes in
      (
        n,
        m,
        before.0,
        before.1,
        added.0,
        added.1,
        added.2,
        rw (count_devices-append r.saul_cat_mask r.saul_cat_sense ds (mocked f), five.0) at after.0,
        rw (count_devices-append r.saul_cat_mask r.saul_cat_act ds (mocked f), five.1) at after.1,
      )
