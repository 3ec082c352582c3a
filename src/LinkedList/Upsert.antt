-- ===== src/LinkedList/Upsert.antt =====
-- The way in which latency.c and udp_throughput.c store a node: an address that is in the list is
-- updated, another one gets the node.
use dca.Common.{
  ℕ, ◌≡◌, sym, ap, ◌∙◌, inl, inr, Bool, true, Option, none, some, List, ◌==◌, if◌then◌else◌,
  Bool-cases, Option-cases,
}
use dca.LinkedList.{Neighbor, node_exists, insert_node}
use dca.LinkedList.Lookup.{lookup, is_none, Decides, node_exists-lookup}

-- a node in place of what was known of its address
abbrev pub upsert :
    Neighbor → (Neighbor → Option Neighbor → Option Neighbor) → Option Neighbor → Option Neighbor
upsert node set none = some node
upsert node set (some x) = set node (some x)

module _ (equal : ℕ → ℕ → Bool) (decides : Decides equal) where
  lookup_equal :
      (a b : ℕ) (l : List Neighbor) → equal a b ≡ true → lookup equal b l ≡ lookup equal a l
  lookup_equal a b l h = ap (λ c. lookup equal c l) (sym ((decides a b).0 h))

  -- for a list l' in which the address of the node is updated
  pub lookup-upsert :
      (node : Neighbor) (l l' : List Neighbor) (set : Neighbor → Option Neighbor → Option Neighbor)
      (a : ℕ)
      → lookup equal a l'
        ≡ (if equal node.addr a then set node (lookup equal a l) else lookup equal a l)
      → lookup equal a (if node_exists equal node.addr l == 0 then l' else insert_node node l)
        ≡ (if equal node.addr a then upsert node set (lookup equal a l) else lookup equal a l)
  unfolding insert_node lookup
  lookup-upsert node l l' set a updated =
      let e = node_exists-lookup equal decides node.addr l in
      let here = lookup_equal node.addr a l in
      elim (Option-cases (lookup equal node.addr l)) [
        | inl n ↦
            rw (e ∙ ap is_none n)
              (elim (Bool-cases (equal node.addr a)) [ inl y ↦ rw (y, here y ∙ n) | inr f ↦ rw f ])
        | inr (x, s) ↦
            rw (e ∙ ap is_none s, updated)
              (elim (Bool-cases (equal node.addr a)) [ inl y ↦ rw (y, here y ∙ s) | inr f ↦ rw f ])
      ]
