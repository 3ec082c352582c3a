-- ===== src/Saul/Registry.antt =====
-- saul_node.c over the devices of the SAUL registry, taken in the order of its list.
use dca.Common.{
  ℕ, zero, suc, ◌+◌, ◌≤◌, ◌<◌, ◌≡◌, ◌≢◌, false, some, arith, List, [], ◌∷◌, ok, bit_and, ◌%◌, ◌^◌,
  int32, ◌==◌, if◌then◌else◌, length,
}
use dca.Riot.{Riot, SaulReg}
use dca.State.{Globals, ◌>>=◌}
use dca.Saul.{count_class, get_num_sensors, get_num_actuators}

module _ (r : Riot) where
  -- From the address `dev` on, the registry is the list of these devices and ends with NULL.
  abbrev pub Registered : ℕ → List SaulReg → Type 0
  Registered dev [] = dev ≡ 0
  Registered dev (p ∷ ps) = ((dev == 0) ≡ false) × (r.saul_at dev ≡ some p) × Registered p.next ps

  -- the devices of a category
  unfoldable pub of_category : ℕ → List SaulReg → ℕ
  of_category cat [] = 0
  of_category cat (p ∷ ps) =
      let rest = of_category cat ps in
      if bit_and p.class r.saul_cat_mask % 2 ^ 8 == cat then 1 + rest else rest

  count_class-Registered :
      (cat k dev i m : ℕ) (ps : List SaulReg) (g : Globals)
      → Registered dev ps
      → length ps < k
      → i + of_category cat ps ≡ m
      → count_class r cat k dev i g ≡ ok (m, g)
  unfolding count_class of_category
  count_class-Registered cat zero dev i m ps g h f e = absurd (omega arith)
  count_class-Registered cat (suc k) dev i m [] g h f e = rw h (ground arith)
  count_class-Registered cat (suc k) dev i m (p ∷ ps) g (nz, at, next) f e =
      let j = if bit_and p.class r.saul_cat_mask % 2 ^ 8 == cat then i + 1 else i in
      let total : j + of_category cat ps ≡ m = ground arith in
      rw (nz, at) (count_class-Registered cat k p.next j m ps g next (omega arith) total)

  two_categories :
      (a b : ℕ) (ps : List SaulReg) → a ≢ b → of_category a ps + of_category b ps ≤ length ps
  unfolding of_category
  two_categories a b [] h = omega arith
  two_categories a b (p ∷ ps) h = ground (arith, two_categories a b ps h)

  -- On a registry of fewer devices than there is fuel, where the categories of sensors and of
  -- actuators differ, saul_get_num_sensors and saul_get_num_actuators return how many devices have
  -- the one and the other category, as int32_t, and both numbers together are at most the number of
  -- devices.
  pub get_num_sensors-Registered :
      (ps : List SaulReg) (g : Globals)
      → Registered r.saul_reg ps
      → length ps < r.fuel
      → r.saul_cat_sense ≢ r.saul_cat_act
      → (get_num_sensors r g ≡ ok (int32 (of_category r.saul_cat_sense ps), g))
        × (get_num_actuators r g ≡ ok (int32 (of_category r.saul_cat_act ps), g))
        × (of_category r.saul_cat_sense ps + of_category r.saul_cat_act ps ≤ length ps)
  unfolding get_num_sensors get_num_actuators
  get_num_sensors-Registered ps g h fuel differ = (
    rw (
      ◌>>=◌,
      count_class-Registered r.saul_cat_sense r.fuel r.saul_reg 0 (of_category r.saul_cat_sense ps)
          ps g h fuel (omega arith),
    ),
    rw (
      ◌>>=◌,
      count_class-Registered r.saul_cat_act r.fuel r.saul_reg 0 (of_category r.saul_cat_act ps) ps g
          h fuel (omega arith),
    ),
    two_categories r.saul_cat_sense r.saul_cat_act ps differ,
  )
