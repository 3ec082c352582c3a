-- ===== src/Db/Fl.antt =====
-- db_fl.c: the nodes of the first level, and the static entries below them; and the root node of
-- db.c. A first-level node carries its place in db_index and how far its children have been read
-- (`is_root` 1), or the place of a static entry (`is_root` 0).
use dca.Common.{
  ℕ, ◌+◌, ◌-◌, ◌%◌, ◌^◌, Option, none, some, codes, Buffer, ℤ, bad_call, ltb, ◌==◌, if◌then◌else◌,
  length, get_elem?, strncpy,
}
use dca.Riot.{Riot}
use dca.State.{Cmd, pure, lift, fail, assert, assert_some, ◌>>=◌, ◌>>◌}
use dca.Node.{name_max, NodeType, inner, Node, FlData, null_node, fl_node, root_node}
use dca.Db.Index.{db_index, FlEntry, StaticEntry, DynamicEntry, Getter, int_fn, float_fn, str_fn}

abbrev pub fl_data : ℕ → ℕ → ℕ → FlData
fl_data fl_idx sub_idx is_root = record { sub_idx = sub_idx; is_root = is_root; fl_idx = fl_idx }

-- _fl_node_init
abbrev pub init : ℕ → ℕ → ℕ → Node
init fl_idx sub_idx is_root = fl_node (fl_data fl_idx sub_idx is_root)

-- db_new_fl_node
abbrev pub new_fl_node : ℕ → Node
new_fl_node fl_idx = init fl_idx 0 1

unfoldable pub call_int : Getter → Cmd ℤ
call_int (int_fn f) = f
call_int _ = fail bad_call

unfoldable pub call_float : Getter → Cmd ℕ
call_float (float_fn f) = f
call_float _ = fail bad_call

unfoldable pub call_str : Getter → Buffer → ℕ → Cmd (Buffer × ℕ)
call_str (str_fn f) value bufsize = f value bufsize
call_str _ value bufsize = fail bad_call

module _ (r : Riot) where
  -- db_get_num_fl_nodes
  abbrev pub num_fl_nodes : ℕ
  num_fl_nodes = length (db_index r)

  -- assert(fl_idx < db_get_num_fl_nodes()); fl_ent = &db_index[fl_idx];
  abbrev pub entry_of : FlData → Cmd FlEntry
  entry_of d = assert_some (get_elem? (db_index r) d.fl_idx)

  -- assert(sub_idx < fl_ent->num_static_entries), and the entry at sub_idx
  abbrev pub static_of : FlData → Cmd StaticEntry
  static_of d = do fl_ent ← entry_of d; assert_some (get_elem? fl_ent.static_entries d.sub_idx)

  -- _fl_node_getname
  unfoldable pub getname : FlData → Buffer → Cmd Buffer
  getname d name = do
    fl_ent ← entry_of d
    (if d.is_root == 0
        then (do e ← static_of d; lift (strncpy name e.name name_max))
        else lift (strncpy name fl_ent.branch_name name_max))

  abbrev advanced : FlData → FlData
  advanced d = record d { sub_idx = (d.sub_idx + 1) % 2 ^ 8 }

  -- the end of _fl_node_getnext_child: the dynamic entry at dyn_sub_idx, where there is one
  unfoldable pub dynamic_child : FlData → Option DynamicEntry → Cmd (FlData × Node)
  dynamic_child d none = pure (d, null_node)
  dynamic_child d (some dyn_ent) = do next_child ← dyn_ent.get_node; pure (advanced d, next_child)

  -- _fl_node_getnext_child. `sub_idx` is at least the number of static entries where that number is
  -- subtracted, so the uint8_t `dyn_sub_idx` is the plain difference. Result: the node and `next_child` afterwards
  unfoldable pub getnext_child : FlData → Node → Cmd (FlData × Node)
  unfolding dynamic_child
  getnext_child d next_child = do
    fl_ent ← entry_of d
    (if d.is_root == 0
        then pure (d, null_node)
        else if ltb d.sub_idx (length fl_ent.static_entries)
        then pure (advanced d, init d.fl_idx d.sub_idx 0)
        else dynamic_child d
            (get_elem? fl_ent.dynamic_entries (d.sub_idx - length fl_ent.static_entries)))

  -- _fl_node_getnext: `next` afterwards
  unfoldable pub getnext : FlData → Cmd Node
  getnext d = do
    fl_ent ← entry_of d
    (if d.is_root == 0
        then (do
          assert (ltb d.sub_idx (length fl_ent.static_entries))
          let next_idx = (d.sub_idx + 1) % 2 ^ 8
          (if ltb next_idx (length fl_ent.static_entries)
              then pure (init d.fl_idx next_idx 0)
              else pure null_node))
        else if ltb (d.fl_idx + 1) num_fl_nodes
        then pure (new_fl_node ((d.fl_idx + 1) % 2 ^ 8))
        else pure null_node)

  -- _fl_node_gettype
  unfoldable pub gettype : FlData → Cmd NodeType
  gettype d = if d.is_root == 0 then (do e ← static_of d; pure e.type) else pure inner

  -- _fl_node_getint_value, _fl_node_getfloat_value, _fl_node_getstr_value
  unfoldable pub getint_value : FlData → Cmd ℤ
  unfolding call_int
  getint_value d = do e ← static_of d; call_int e.get_value

  unfoldable pub getfloat_value : FlData → Cmd ℕ
  unfolding call_float
  getfloat_value d = do e ← static_of d; call_float e.get_value

  unfoldable pub getstr_value : FlData → Buffer → ℕ → Cmd (Buffer × ℕ)
  unfolding call_str
  getstr_value d value bufsize = do e ← static_of d; call_str e.get_value value bufsize

  -- _root_get_next_child: `idx` is node->private_data.u8[0]
  unfoldable pub root_next_child : ℕ → Cmd (ℕ × Node)
  root_next_child idx =
      if ltb idx num_fl_nodes
      then pure ((idx + 1) % 2 ^ 8, new_fl_node idx)
      else pure (idx, null_node)

-- _root_get_name
unfoldable pub root_name : Buffer → Cmd Buffer
root_name name = lift (strncpy name (codes "/") name_max)

-- db_get_root
abbrev pub root : Node
root = root_node 0
