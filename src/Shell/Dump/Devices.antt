-- ===== src/Shell/Dump/Devices.antt =====
-- What `dcadump` prints for the SAUL devices: _tree_r on the branch of saul_devices.c.
use dca.Common.{
  ℕ, zero, suc, ◌+◌, ◌<◌, ◌≡◌, refl, ◌∙◌, Bool, false, some, arith, Text, codes, All, List, [], ◌∷◌,
  ◌++◌, ok, ◌==◌, length, drop, strncpy-padded, has_nul-filled,
}
use mathlib.Core.List.{append_assoc, append-nil}
use dca.Riot.{Riot, SaulReg, fresh, length-fresh}
use dca.State.{Globals, ◌>>=◌}
use dca.Node.{Node, name_max, saul_node, uninit}
use dca.Saul
use dca.Saul.{saul_data, init, new_saul_node, gettype}
use dca.Saul.Registry.{Registered}
use dca.Db.Ops.{get_type, get_name, get_next_child}
use dca.Db.Ops.Null.{is_null-saul}
use dca.Shell.{print_node_name, indent, tree_r, tree_children}
use dca.Shell.Devices.{c_string-copy, getname_device, next_device, no_device}
use dca.Shell.Dump.{leaf_line, tree_children-end}
use dca.Shell.Dump.Classes.{reset, Classed, tree_children-class}

-- What is printed for a device: its name, and one level deeper the field `class`.
unfoldable pub device_block : Riot → ℕ → Bool → SaulReg → Text
device_block r depth b p =
    indent r depth
    ++ codes "- "
    ++ p.name
    ++ codes "/\n"
    ++ leaf_line b (indent r (depth + 1) ++ codes "- " ++ codes "class")
        (r.saul_class_to_str p.class)

unfoldable pub device_blocks : Riot → ℕ → Bool → List SaulReg → Text
device_blocks r depth b [] = []
device_blocks r depth b (p ∷ ps) = device_block r depth b p ++ device_blocks r depth b ps

module _ (r : Riot) (g : Globals) (dev : ℕ) (p : SaulReg) (nz : (dev == 0) ≡ false)
    (at : r.saul_at dev ≡ some p) (classed : Classed r p) where
  print_node_name-device :
      (depth : ℕ)
      → print_node_name r depth (init dev 1) (reset g)
        ≡ ok (indent r depth ++ codes "- " ++ p.name, reset g)
  unfolding print_node_name get_name
  print_node_name-device depth =
      let n = length p.name + 1 in
      rw (
        ◌>>=◌,
        getname_device r dev p (fresh r name_max) (reset g) nz at classed.0
            (length-fresh r name_max),
        has_nul-filled n n p.name (drop n (fresh r name_max)) classed.0.0 (omega arith)
            (omega arith),
        c_string-copy n n p.name (drop n (fresh r name_max)) classed.0.0 refl (omega arith),
      )

  first_field :
      get_next_child r (init dev 1) uninit (reset g)
      ≡ ok ((saul_node (saul_data p.next 0), init dev 0), reset g)
  unfolding get_next_child Saul.getnext_child
  first_field = rw (◌>>=◌, nz, at)

  tree_r-device :
      (k depth : ℕ) (b : Bool)
      → 1 < r.fuel
      → tree_r r (suc (suc k)) depth b (init dev 1) (reset g)
        ≡ ok ((device_block r depth b p, saul_node (saul_data p.next 0)), reset g)
  unfolding tree_r get_type gettype device_block
  tree_r-device k depth b fuel = rw (
    ◌>>=◌,
    print_node_name-device depth,
    first_field,
    tree_children-class r g dev p nz at classed r.fuel k p.next (depth + 1) b
        (indent r depth ++ codes "- " ++ p.name ++ codes "/\n") fuel,
  )

module _ (r : Riot) (g : Globals) where
  print_node_name-devices :
      (depth : ℕ)
      → print_node_name r depth (new_saul_node r) (reset g)
        ≡ ok (indent r depth ++ codes "- " ++ codes "devices", reset g)
  unfolding print_node_name get_name new_saul_node Saul.getname
  print_node_name-devices depth =
      rw
        (
          ◌>>=◌,
          strncpy-padded name_max (fresh r name_max) (codes "devices") (length-fresh r name_max),
        )
        refl

  -- The loop over the devices, before it reads the device at `dev`.
  go_on-devices :
      (k depth : ℕ) (b : Bool) (n dev : ℕ) (ps : List SaulReg) (child : Node) (out : Text)
      → Registered r dev ps
      → All (Classed r) ps
      → 1 < r.fuel
      → length ps < n
      → (get_next_child r (saul_node (saul_data dev 2)) child
            >>= (λ p. tree_children r (tree_r r (suc (suc k)) depth b) n p.0 p.1 out))
          (reset g)
        ≡ ok ((out ++ device_blocks r depth b ps, saul_node (saul_data 0 2)), reset g)
  unfolding tree_children device_blocks
  go_on-devices k depth b n dev [] child out end classed fuel rounds = rw (
    end,
    ◌>>=◌,
    no_device r 0 child (reset g) refl,
    tree_children-end r (reset g) (tree_r r (suc (suc k)) depth b) n (saul_node (saul_data 0 2)) out
        rounds,
    append-nil,
  )
  go_on-devices k depth b zero dev (p ∷ ps) child out h classed fuel rounds = absurd (omega arith)
  go_on-devices k depth b (suc n) dev (p ∷ ps) child out (nz, at, next) (named, classed) fuel
        rounds =
      rw
        (
          ◌>>=◌,
          next_device r dev p child (reset g) nz at,
          is_null-saul,
          tree_r-device r g dev p nz at named k depth b fuel,
        )
        (go_on-devices k depth b n p.next ps (saul_node (saul_data p.next 0))
            (out ++ device_block r depth b p) next classed fuel (omega arith)
          ∙ rw (append_assoc out (device_block r depth b p) (device_blocks r depth b ps)) refl)

  -- For _tree_r on the branch of the SAUL devices, from any depth and with or without values: it
  -- prints the name of the branch, and for every device of the registry, in the order of the registry,
  -- its name one level deeper and its field `class` two levels deeper, with values the name of the
  -- class. `_saul_field_count` starts and ends at 0. Names and the names of classes are C strings that
  -- fit their arrays, and the registry has fewer devices than there is fuel.
  pub tree_r-new_saul_node :
      (k depth : ℕ) (b : Bool) (ps : List SaulReg)
      → Registered r r.saul_reg ps
      → All (Classed r) ps
      → 1 < r.fuel
      → length ps < r.fuel
      → tree_r r (suc (suc (suc k))) depth b (new_saul_node r) (reset g)
        ≡ ok (
          (
            indent r depth
                ++ codes "- "
                ++ codes "devices"
                ++ codes "/\n"
                ++ device_blocks r (depth + 1) b ps,
            saul_node (saul_data 0 2),
          ),
          reset g,
        )
  unfolding tree_r get_type gettype new_saul_node
  tree_r-new_saul_node k depth b ps h classed fuel rounds =
      rw (◌>>=◌, print_node_name-devices depth)
        (go_on-devices k (depth + 1) b r.fuel r.saul_reg ps uninit
          (indent r depth ++ codes "- " ++ codes "devices" ++ codes "/\n") h classed fuel rounds)
