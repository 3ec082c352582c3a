-- ===== src/Db/Value.antt =====
-- db_node_value_to_str of db_node.c.
pub mod Numbers
use dca.Common.{
  ℕ, ◌+◌, ◌-◌, Text, Buffer, codes, Result, ok, fault, out_of_bounds, leb, ltb, if◌then◌else◌,
  length, set, drop, ◌++◌, strncpy,
}
use dca.Riot.{Riot}
use dca.State.{Cmd, pure, lift, fail, assert, ◌>>=◌, ◌>>◌}
use dca.Node.{null, inner, int, float, str, Node}
use dca.Db.Ops.{Ret, done, error, efault, get_type, get_int_value, get_float_value, get_str_value}

-- A text copied into an array without a NUL, as the formatting functions of RIOT do.
abbrev pub write_text : Text → Buffer → Result Buffer
write_text s buf =
    if leb (length s) (length buf) then ok (s ++ drop (length s) buf) else fault out_of_bounds

abbrev pub float_prescision : ℕ
float_prescision = 3

-- the cases int and float: the text, or "---" where it does not fit
unfoldable pub put_number : Text → Buffer → ℕ → Cmd (Buffer × ℕ)
put_number s buf bufsize =
    if ltb (bufsize - 1) (length s)
    then (do buf ← lift (strncpy buf (codes "---") bufsize); pure (buf, 3))
    else do buf ← lift (write_text s buf); pure (buf, length s)

-- `buf[size] = '\0'; size += 1;`
unfoldable pub terminate : Buffer × ℕ → Cmd (Ret (Buffer × ℕ))
terminate p =
    if ltb p.1 (length p.0) then pure (done (set p.0 p.1 0, p.1 + 1)) else fail out_of_bounds

module _ (r : Riot) where
  -- db_node_value_to_str: -EFAULT, or `buf` afterwards and the size with its NUL
  unfoldable pub value_to_str : Node → Buffer → ℕ → Cmd (Ret (Buffer × ℕ))
  unfolding put_number terminate
  value_to_str node buf bufsize = do
    assert (leb 4 bufsize)
    t ← get_type r node
    elim t [
      | int ↦ (do
        val ← get_int_value r node
        p ← put_number (r.fmt_s32_dec val) buf bufsize
        terminate p)
      | float ↦ (do
        val ← get_float_value r node
        p ← put_number (r.fmt_float val float_prescision) buf bufsize
        terminate p)
      | str ↦ (do p ← get_str_value r node buf (bufsize - 1); terminate p)
      | inner ↦ pure (error efault)
      | null ↦ pure (error efault)
    ]
