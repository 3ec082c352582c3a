-- ===== src/Coap.antt =====
-- coap.c: the handler of the resource `/dca`, which answers a GET with a value or with the names
-- of a node's children.
pub mod Names
pub mod Unterminated
pub mod Link
use dca.Common.{
  ℕ, zero, suc, ◌+◌, ◌-◌, Text, Buffer, codes, c_text, [], ◌++◌, Result, ok, fault, out_of_bounds,
  no_fuel, leb, ltb, if◌then◌else◌, length, take, drop,
}
use dca.Riot.{Riot, fresh}
use dca.State.{Cmd, pure, lift, ◌>>=◌}
use dca.Node.{name_max, null, inner, int, float, str, Node, uninit}
use dca.Db.Ops.{Ret, done, error, is_null, get_name, get_next_child, get_type}
use dca.Db.Value.{value_to_str}
use dca.Db.Find.{find_node_by_path}

abbrev pub strbuf_size : ℕ
strbuf_size = 128

-- The response codes, and the payload of a content response.
pub data Response : Type 0 where
  not_found : Response
  internal_server_error : Response
  content : Buffer → Response

-- strncat(val, s, DCA_COAP_STRBUF_SIZE - 1): at most 127 bytes of `s` are appended, and a NUL, to
-- the string that the array of 128 bytes holds
abbrev pub strncat : Text → Text → Result Text
strncat val s =
    if ltb (length val + length (take (strbuf_size - 1) s)) strbuf_size
    then ok (val ++ take (strbuf_size - 1) s)
    else fault out_of_bounds

-- The end of _dca_handler, from the test of the room on.
abbrev pub respond : ℕ → Ret Buffer → Cmd Response
respond payload_len (done v) =
    if leb (length v) payload_len then pure (content v) else pure internal_server_error
respond payload_len (error e) = pure internal_server_error

module _ (r : Riot) where
  -- The loop of _dca_handler over the children, on fuel, from the child that was read last. `val`
  -- is the string so far.
  unfoldable pub list_names : ℕ → Node → Node → Buffer → Text → Cmd Text
  list_names zero node child name val = λ g. fault no_fuel
  list_names (suc k) node child name val = do
    ended ← is_null r child
    (if ended then pure val else do
      name ← get_name r child name
      s ← lift (c_text name)
      val ← lift (strncat val s)
      val ← lift (strncat val (codes " "))
      p ← get_next_child r node child
      list_names k p.0 p.1 name val)

  value_answer : Node → Cmd (Ret Buffer)
  value_answer node = do
    v ← value_to_str r node (fresh r strbuf_size) strbuf_size
    elim v [ done p ↦ pure (done (take p.1 p.0)) | error e ↦ pure (error e) ]

  -- The `val` and `vallen` of _dca_handler, or the error of db_node_value_to_str.
  unfoldable pub answer : Node → Cmd (Ret Buffer)
  unfolding list_names value_answer
  answer node = do
    t ← get_type r node
    elim t [
      | inner ↦ (do
        p ← get_next_child r node uninit
        val ← list_names r.fuel p.0 p.1 (fresh r name_max) []
        pure (done val))
      | null ↦ pure (done [])
      | int ↦ value_answer node
      | float ↦ value_answer node
      | str ↦ value_answer node
    ]

  abbrev pub answer_found : ℕ → Ret Node → Cmd Response
  answer_found payload_len (error e) = pure not_found
  answer_found payload_len (done node) = do val ← answer node; respond payload_len val

  -- _dca_handler. `uripath` and `uripathlen` are what coap_get_uri_path gives, and `payload_len`
  -- the room that is left in the packet for the payload.
  unfoldable pub dca_handler : Text → ℕ → ℕ → Cmd Response
  dca_handler uripath uripathlen payload_len =
      if leb uripathlen 4
      then pure not_found
      else do found ← find_node_by_path r (drop 4 uripath); answer_found payload_len found
