-- ===== src/Db/Ops.antt =====
-- db_node.c: the null node and the wrappers that call an operation through a node's table. An
-- operation that the table does not have fails the wrapper's assertion.
pub mod Null
use dca.Common.{ℕ, Bool, true, false, Buffer, ℤ, assertion, null_deref}
use dca.Riot.{Riot, fresh}
use dca.State.{Cmd, pure, fail, assert, ◌>>=◌, ◌>>◌}
use dca.Node.{
  NodeType, null, inner, int, float, str, Node, null_node, root_node, fl_node, ps_node, saul_node,
  netif_node, uninit, FlData,
}
use dca.Ps
use dca.Saul
use dca.Netif
use dca.Db.Fl

-- The return codes of the source: a value that is not negative, or a negated errno.
pub data Errno : Type 0 where
  enoent efault einval erofs ebadf : Errno

pub data Ret (A : Type 0) : Type 0 where
  done : A → Ret A
  error : Errno → Ret A

abbrev pub is_null_type : NodeType → Bool
is_null_type null = true
is_null_type _ = false

abbrev pub is_int : NodeType → Bool
is_int int = true
is_int _ = false

abbrev pub is_float : NodeType → Bool
is_float float = true
is_float _ = false

abbrev pub is_str : NodeType → Bool
is_str str = true
is_str _ = false

abbrev pub is_inner : NodeType → Bool
is_inner inner = true
is_inner _ = false

module _ (r : Riot) where
  -- db_node_get_name
  unfoldable pub get_name : Node → Buffer → Cmd Buffer
  get_name null_node name = fail assertion
  get_name (root_node idx) name = Fl.root_name name
  get_name (fl_node d) name = Fl.getname r d name
  get_name (ps_node d) name = Ps.getname r d name
  get_name (saul_node d) name = Saul.getname r d name
  get_name (netif_node d) name = Netif.getname r d name
  get_name uninit name = fail null_deref

  -- db_node_get_next_child: the node and `next_child` afterwards
  unfoldable pub get_next_child : Node → Node → Cmd (Node × Node)
  get_next_child null_node next_child = fail assertion
  get_next_child (root_node idx) next_child = do
    p ← Fl.root_next_child r idx
    pure (root_node p.0, p.1)
  get_next_child (fl_node d) next_child = do
    p ← Fl.getnext_child r d next_child
    pure (fl_node p.0, p.1)
  get_next_child (ps_node d) next_child = do
    p ← Ps.getnext_child r d next_child
    pure (ps_node p.0, p.1)
  get_next_child (saul_node d) next_child = do
    p ← Saul.getnext_child r d next_child
    pure (saul_node p.0, p.1)
  get_next_child (netif_node d) next_child = do
    p ← Netif.getnext_child r 2 d next_child
    pure (netif_node p.0, p.1)
  get_next_child uninit next_child = fail null_deref

  -- db_node_get_next: `next` afterwards
  unfoldable pub get_next : Node → Node → Cmd Node
  get_next null_node next = fail assertion
  get_next (root_node idx) next = pure null_node
  get_next (fl_node d) next = Fl.getnext r d
  get_next (ps_node d) next = Ps.getnext r d
  get_next (saul_node d) next = Saul.getnext r d
  get_next (netif_node d) next = Netif.getnext r d next
  get_next uninit next = fail null_deref

  -- db_node_get_type
  unfoldable pub get_type : Node → Cmd NodeType
  get_type null_node = pure null
  get_type (root_node idx) = pure inner
  get_type (fl_node d) = Fl.gettype r d
  get_type (ps_node d) = Ps.gettype r d
  get_type (saul_node d) = Saul.gettype r d
  get_type (netif_node d) = Netif.gettype r d
  get_type uninit = fail null_deref

  -- db_node_is_null
  unfoldable pub is_null : Node → Cmd Bool
  unfolding get_type
  is_null node = do t ← get_type node; pure (is_null_type t)

  unfoldable pub int_op : Node → Cmd ℤ
  int_op null_node = fail assertion
  int_op (root_node idx) = fail assertion
  int_op (fl_node d) = Fl.getint_value r d
  int_op (ps_node d) = Ps.getint_value r d
  int_op (saul_node d) = fail assertion
  int_op (netif_node d) = Netif.getint_value r d
  int_op uninit = fail null_deref

  -- db_node_get_int_value
  unfoldable pub get_int_value : Node → Cmd ℤ
  unfolding int_op get_type
  get_int_value node = do t ← get_type node; assert (is_int t); int_op node

  unfoldable pub float_op : Node → Cmd ℕ
  float_op null_node = fail assertion
  float_op (root_node idx) = fail assertion
  float_op (fl_node d) = Fl.getfloat_value r d
  float_op (ps_node d) = fail assertion
  float_op (saul_node d) = fail assertion
  float_op (netif_node d) = Netif.getfloat_value r d
  float_op uninit = fail null_deref

  -- db_node_get_float_value
  unfoldable pub get_float_value : Node → Cmd ℕ
  unfolding float_op get_type
  get_float_value node = do t ← get_type node; assert (is_float t); float_op node

  unfoldable pub str_op : Node → Buffer → ℕ → Cmd (Buffer × ℕ)
  str_op null_node value bufsize = fail assertion
  str_op (root_node idx) value bufsize = fail assertion
  str_op (fl_node d) value bufsize = Fl.getstr_value r d value bufsize
  str_op (ps_node d) value bufsize = Ps.getstr_value r d value
  str_op (saul_node d) value bufsize = Saul.getstr_value r d value
  str_op (netif_node d) value bufsize = Netif.getstr_value r d value
  str_op uninit value bufsize = fail null_deref

  -- db_node_get_str_value: `value` afterwards and the size returned
  unfoldable pub get_str_value : Node → Buffer → ℕ → Cmd (Buffer × ℕ)
  unfolding str_op get_type
  get_str_value node value bufsize = do
    t ← get_type node
    assert (is_str t)
    str_op node value bufsize

  -- _fl_node_getsize: a text is read into an array of 128 bytes
  unfoldable pub fl_getsize : FlData → Cmd ℕ
  unfolding get_str_value
  fl_getsize d = do
    t ← get_type (fl_node d)
    elim t [
      | inner ↦ pure 0
      | int ↦ pure 4
      | float ↦ pure 4
      | str ↦ (do p ← get_str_value (fl_node d) (fresh r 128) 128; pure p.1)
      | null ↦ fail assertion
    ]

  -- db_node_get_size
  unfoldable pub get_size : Node → Cmd ℕ
  unfolding fl_getsize
  get_size null_node = fail assertion
  get_size (root_node idx) = pure 0
  get_size (fl_node d) = fl_getsize d
  get_size (ps_node d) = Ps.getsize r d
  get_size (saul_node d) = Saul.getsize r d
  get_size (netif_node d) = Netif.getsize r d
  get_size uninit = fail null_deref
