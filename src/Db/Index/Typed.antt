-- ===== src/Db/Index/Typed.antt =====
-- The static entries of the tables of db.c: their types and their number.
use dca.Common.{◌≤◌, ◌≡◌, refl, Bool, true, false, arith, length, All, All-if, All-append}
use dca.Riot.{Riot}
use dca.Node.{NodeType, int, float, str}
use dca.Db.Index.{Getter, int_fn, float_fn, str_fn, StaticEntry, FlEntry, db_index}

-- The function that the entry points to returns a value of the type that the entry names.
abbrev pub typed : NodeType → Getter → Bool
typed int (int_fn f) = true
typed float (float_fn f) = true
typed str (str_fn f) = true
typed _ _ = false

-- a branch whose entries are of their types and can be counted by its uint8_t
abbrev pub WellTyped : FlEntry → Type 0
WellTyped e =
    All (λ (s : StaticEntry). typed s.type s.get_value ≡ true) e.static_entries
    × (length e.static_entries ≤ 5)

module _ (r : Riot) where
  -- In every configuration, each static entry of db_index points to a function that returns a value
  -- of the type that the entry names, and no branch has more than five static entries.
  pub db_index-WellTyped : All WellTyped (db_index r)
  unfolding db_index
  db_index-WellTyped = (
    ((refl, (refl, (refl, (refl, (refl, tt))))), omega arith),
    (
      ((refl, (refl, (refl, (refl, (refl, tt))))), omega arith),
      All-append WellTyped _ _
          (All-if WellTyped r.config.dca_network _ (((refl, tt), omega arith), tt))
          (All-if WellTyped r.config.dca_saul _ (((refl, (refl, tt)), omega arith), tt)),
    ),
  )
