-- ===== src/Db/Ops/Null.antt =====
-- Only the null node is null.
use dca.Common.{refl, true, ◌≡◌, false, ok, arith}
use dca.Riot.{Riot}
use dca.State.{Globals}
use dca.Node.{null_node, PsData, SaulData, ps_node, saul_node}
use dca.Ps
use dca.Saul
use dca.Db.Ops.{is_null, get_type}

module _ (r : Riot) (g : Globals) where
  pub is_null-ps : (d : PsData) → is_null r (ps_node d) g ≡ ok (false, g)
  unfolding is_null get_type Ps.gettype
  is_null-ps d = ground arith

  pub is_null-saul : (d : SaulData) → is_null r (saul_node d) g ≡ ok (false, g)
  unfolding is_null get_type Saul.gettype
  is_null-saul d = ground arith

  pub is_null-null : is_null r null_node g ≡ ok (true, g)
  unfolding is_null get_type
  is_null-null = refl
