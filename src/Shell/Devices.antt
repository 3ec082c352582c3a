-- ===== src/Shell/Devices.antt =====
-- What `dcaq` prints for the branch of the SAUL devices.
use dca.Common.{
  ℕ, zero, suc, ◌+◌, ◌≤◌, ◌<◌, ◌≡◌, refl, ◌∙◌, false, some, arith, Text, Buffer, NoNul, All, List,
  [], ◌∷◌, ◌++◌, ok, ◌==◌, length, take, drop, zeros, padded, c_string, has_nul-filled, strncpy_le,
  length-padded, length-append, length-drop,
}
use mathlib.Core.List.{append_assoc}
use dca.Riot.{Riot, SaulReg, fresh, length-fresh}
use dca.State.{Globals, and_then, ◌>>=◌}
use dca.Node.{Node, name_max, null_node, saul_node, uninit}
use dca.Saul
use dca.Saul.{saul_data, init, new_saul_node, gettype}
use dca.Saul.Registry.{Registered}
use dca.Db.Ops.{get_type, get_name, get_next_child}
use dca.Db.Ops.Null.{is_null-saul, is_null-null}
use dca.Shell.{list_children, query, newline}
use dca.Shell.Threads.{lines}

abbrev pub names : List SaulReg → List Text
names [] = []
names (p ∷ ps) = p.name ∷ names ps

-- A device's name is a C string and fits the array that it is copied into.
abbrev pub Named : SaulReg → Type 0
Named p = NoNul p.name × (length p.name < name_max)

pub c_string-copy :
    (n k : ℕ) (s : Text) (t : Buffer)
    → NoNul s
    → length s + 1 ≡ n
    → n ≤ k
    → c_string (take n (s ++ zeros k) ++ t) ≡ s
c_string-copy zero k s t h e f = absurd (omega arith)
c_string-copy (suc n) zero s t h e f = absurd (omega arith)
c_string-copy (suc n) (suc k) [] t h e f = refl
c_string-copy (suc n) (suc k) (c ∷ s) t h e f =
    ground (arith, c_string-copy n (suc k) s t h.1 (omega arith) (omega arith))

module _ (r : Riot) where
  pub getname_device :
      (dev : ℕ) (p : SaulReg) (buf : Buffer) (g : Globals)
      → (dev == 0) ≡ false
      → r.saul_at dev ≡ some p
      → Named p
      → length buf ≡ name_max
      → Saul.getname r (saul_data dev 1) buf g
        ≡ ok (padded (length p.name + 1) p.name ++ drop (length p.name + 1) buf, g)
  unfolding Saul.getname
  getname_device dev p buf g nz at fits full =
      rw (◌>>=◌, nz, at, strncpy_le (length p.name + 1) buf p.name (omega arith))

  pub next_device :
      (dev : ℕ) (p : SaulReg) (child : Node) (g : Globals)
      → (dev == 0) ≡ false
      → r.saul_at dev ≡ some p
      → get_next_child r (saul_node (saul_data dev 2)) child g
        ≡ ok ((saul_node (saul_data p.next 2), init dev 1), g)
  unfolding Saul.getnext_child get_next_child
  next_device dev p child g nz at = rw (◌>>=◌, nz, at)

  pub no_device :
      (dev : ℕ) (child : Node) (g : Globals)
      → dev ≡ 0
      → get_next_child r (saul_node (saul_data dev 2)) child g
        ≡ ok ((saul_node (saul_data dev 2), null_node), g)
  unfolding Saul.getnext_child get_next_child
  no_device dev child g h = rw (◌>>=◌, h)

  -- the array after the copy of a device's name
  abbrev copied : SaulReg → Buffer → Buffer
  copied p buf = padded (length p.name + 1) p.name ++ drop (length p.name + 1) buf

  length-copied :
      (p : SaulReg) (buf : Buffer)
      → Named p
      → length buf ≡ name_max
      → length (copied p buf) ≡ name_max
  length-copied p buf fits full = omega (
    arith,
    length-append (padded (length p.name + 1) p.name) (drop (length p.name + 1) buf),
    length-padded (length p.name + 1) p.name,
    length-drop (length p.name + 1) buf,
    fits.1,
  )

  -- One round, for the device at `dev`.
  list_device :
      (k dev : ℕ) (p : SaulReg) (buf : Buffer) (out : Text) (g : Globals)
      → (dev == 0) ≡ false
      → r.saul_at dev ≡ some p
      → Named p
      → length buf ≡ name_max
      → list_children r (suc k) (saul_node (saul_data p.next 2)) (init dev 1) buf out g
        ≡ and_then
            (get_next_child r (saul_node (saul_data p.next 2)) (init dev 1) g)
            λ q. list_children r k q.0 q.1 (copied p buf) (out ++ p.name ++ newline)
  unfolding list_children get_name
  list_device k dev p buf out g nz at fits full = rw (
    is_null-saul,
    ◌>>=◌,
    getname_device dev p buf g nz at fits full,
    has_nul-filled (length p.name + 1) (length p.name + 1) p.name (drop (length p.name + 1) buf)
        fits.0 (omega arith) (omega arith),
    c_string-copy (length p.name + 1) (length p.name + 1) p.name (drop (length p.name + 1) buf)
        fits.0 refl (omega arith),
  )

  pub list_end :
      (k : ℕ) (node : Node) (buf : Buffer) (out : Text) (g : Globals)
      → 0 < k
      → list_children r k node null_node buf out g ≡ ok (out, g)
  unfolding list_children
  list_end zero node buf out g fuel = absurd (omega arith)
  list_end (suc k) node buf out g fuel = rw (◌>>=◌, is_null-null)

  list_devices :
      (k dev : ℕ) (p : SaulReg) (ps : List SaulReg) (buf : Buffer) (out : Text) (g : Globals)
      → Registered r dev (p ∷ ps)
      → All Named (p ∷ ps)
      → length ps + 1 < k
      → length buf ≡ name_max
      → list_children r k (saul_node (saul_data p.next 2)) (init dev 1) buf out g
        ≡ ok (out ++ lines (names (p ∷ ps)), g)
  list_devices zero dev p ps buf out g h named fuel full = absurd (omega arith)
  list_devices (suc zero) dev p ps buf out g h named fuel full = absurd (omega arith)
  list_devices (suc (suc k)) dev p [] buf out g (nz, at, end) named fuel full =
      list_device (suc k) dev p buf out g nz at named.0 full
      ∙ rw
          (
            no_device p.next (init dev 1) g end,
            list_end (suc k) (saul_node (saul_data p.next 2)) (copied p buf)
                (out ++ p.name ++ newline) g (omega arith),
          )
          (simp append_assoc)
  list_devices (suc (suc k)) dev p (p' ∷ ps) buf out g (nz, at, (nz', at', next))
        (fits, (fits', named)) fuel full =
      list_device (suc k) dev p buf out g nz at fits full
      ∙ rw (next_device p.next p' (init dev 1) g nz' at') (
          list_devices (suc k) p.next p' ps (copied p buf) (out ++ p.name ++ newline) g
            (nz', at', next) (fits', named) (omega arith) (length-copied p buf fits full)
          ∙ simp append_assoc)

  -- On the branch of the SAUL devices `dcaq` prints the name of every device of the registry, in the
  -- order of the registry, and changes no variable. The registry has fewer devices than there is
  -- fuel, and each name is a C string shorter than DB_NODE_NAME_MAX.
  pub query_devices :
      (path : Text) (ps : List SaulReg) (g : Globals)
      → Registered r r.saul_reg ps
      → All Named ps
      → length ps < r.fuel
      → query r path (new_saul_node r) g ≡ ok ((lines (names ps), 0), g)
  unfolding query get_type gettype new_saul_node
  query_devices path [] g end named fuel = rw (
    ◌>>=◌,
    no_device r.saul_reg uninit g end,
    list_end r.fuel (new_saul_node r) (fresh r name_max) [] g fuel,
  )
  query_devices path (p ∷ ps) g (nz, at, next) (fits, named) fuel = rw (
    ◌>>=◌,
    next_device r.saul_reg p uninit g nz at,
    list_devices r.fuel r.saul_reg p ps (fresh r name_max) [] g (nz, at, next) (fits, named)
        (omega arith) (length-fresh r name_max),
  )
