-- ===== src/Saul.antt =====
-- saul_devices.c: the branch `saul/devices`, which lists the devices of the SAUL registry and their
-- class; and saul_node.c, which counts sensors and actuators. A node carries the address of a
-- registry entry and its level (2: the branch, 1: a device, 0: the class).
pub mod Registry
use dca.Common.{
  strncpy, strcpy, ℕ, zero, suc, ◌+◌, ◌-◌, ◌%◌, ◌^◌, ◌&&◌, not, none, codes, Buffer, c_string, ℤ,
  bit_and, fault, no_fuel, ◌==◌, if◌then◌else◌, length, int32,
}
use dca.Riot.{Riot, SaulReg}
use dca.State.{Cmd, pure, lift, gets, modify, assert, deref, ◌>>=◌, ◌>>◌}
use dca.Node.{name_max, NodeType, inner, str, Node, SaulData, null_node, saul_node, int8_lt}

-- saul_property_t
abbrev pub count : ℕ
count = 1

abbrev pub saul_data : ℕ → ℕ → SaulData
saul_data dev is_root = record { dev = dev; is_root = is_root }

-- _saul_node_init
abbrev pub init : ℕ → ℕ → Node
init dev is_root = saul_node (saul_data dev is_root)

module _ (r : Riot) where
  -- a registry entry that is read through its address; NULL has none
  abbrev pub reg_at : ℕ → Cmd SaulReg
  reg_at dev = if dev == 0 then deref none else deref (r.saul_at dev)

  -- db_new_saul_node
  unfoldable pub new_saul_node : Node
  new_saul_node = init r.saul_reg 2

  -- _saul_node_get_field_name
  unfoldable pub get_field_name : SaulData → Buffer → Cmd Buffer
  get_field_name d name = do
    assert (not (d.dev == 0))
    c ← gets (λ g. g.saul_field_count)
    (if c == 0 then lift (strncpy name (codes "class") name_max) else pure name)

  -- _saul_node_getname
  unfoldable pub getname : SaulData → Buffer → Cmd Buffer
  unfolding get_field_name
  getname d name =
      if d.is_root == 2
      then lift (strncpy name (codes "devices") name_max)
      else if d.is_root == 1
      then (do assert (not (d.dev == 0)); p ← reg_at d.dev; lift (strcpy name p.name))
      else do
        c ← gets (λ g. g.saul_field_count)
        (if d.is_root == 0 && int8_lt c count
            then (do name ← get_field_name d name; lift (strncpy name (c_string name) name_max))
            else pure name)

  -- _saul_node_getnext_child: the node and `next_child` afterwards
  unfoldable pub getnext_child : SaulData → Node → Cmd (SaulData × Node)
  getnext_child d next_child =
      if d.is_root == 2
      then (if d.dev == 0
          then pure (d, null_node)
          else do p ← reg_at d.dev; pure (record d { dev = p.next }, init d.dev 1))
      else if d.is_root == 1
      then (do
        c ← gets (λ g. g.saul_field_count)
        (if not (d.dev == 0) && int8_lt c count
            then (do p ← reg_at d.dev; pure (saul_data p.next 0, init d.dev 0))
            else pure (d, next_child)))
      else do
        c ← gets (λ g. g.saul_field_count)
        (if c == count - 1
            then (do modify (λ g. record g { saul_field_count = 0 }); pure (d, null_node))
            else do
              modify (λ g. record g { saul_field_count = (c + 1) % 2 ^ 8 })
              pure (d, next_child))

  -- _saul_node_getnext: it reads `dev->next` before it tests `dev`
  unfoldable pub getnext : SaulData → Cmd Node
  getnext d =
      if d.is_root == 2
      then pure null_node
      else do p ← reg_at d.dev; (if d.dev == 0 then pure null_node else pure (init p.next 0))

  -- _saul_node_gettype
  unfoldable pub gettype : SaulData → Cmd NodeType
  gettype d = if d.is_root == 2 then pure inner else if d.is_root == 1 then pure inner else pure str

  -- _saul_node_getsize
  unfoldable pub getsize : SaulData → Cmd ℕ
  getsize d = if d.is_root == 2 then pure 0 else if d.is_root == 1 then pure 0 else pure 0

  -- _saul_node_getstr_value: `value` afterwards and the size returned
  unfoldable pub getstr_value : SaulData → Buffer → Cmd (Buffer × ℕ)
  getstr_value d value = do
    assert (not (d.dev == 0))
    c ← gets (λ g. g.saul_field_count)
    (if c == 0
        then (do
          p ← reg_at d.dev
          value ← lift (strcpy value (r.saul_class_to_str p.class))
          pure (value, length (c_string value)))
        else pure (value, 88))

  -- The loop of saul_get_num_sensors and saul_get_num_actuators, on fuel: `cat` is
  -- SAUL_CAT_SENSE in one and SAUL_CAT_ACT in the other. `cat` is a uint8_t in the source.
  unfoldable pub count_class : ℕ → ℕ → ℕ → ℕ → Cmd ℕ
  count_class cat zero dev i = λ g. fault no_fuel
  count_class cat (suc k) dev i = if dev == 0 then pure i else do
    p ← reg_at dev
    count_class cat k p.next (if bit_and p.class r.saul_cat_mask % 2 ^ 8 == cat then i + 1 else i)

  unfoldable pub get_num_sensors : Cmd ℤ
  unfolding count_class
  get_num_sensors = do i ← count_class r.saul_cat_sense r.fuel r.saul_reg 0; pure (int32 i)

  unfoldable pub get_num_actuators : Cmd ℤ
  unfolding count_class
  get_num_actuators = do i ← count_class r.saul_cat_act r.fuel r.saul_reg 0; pure (int32 i)
