-- ===== src/Vfs/Cat/Dcafs.antt =====
-- examples/vfs/main.c, `cat`, on a path below the mount point of dcafs (fs.c).
use dca.Common.{
  ℕ, zero, suc, ◌+◌, ◌<◌, ◌≤◌, ◌≡◌, refl, sym, ◌∙◌, Bool, true, false, Option, some, Text, codes,
  Buffer, List, [], ◌∷◌, ◌++◌, pos, ok, ◌==◌, length, take, drop, bit_and, arith, length-take,
}
use mathlib.Core.Path.{subst}
use dca.Riot.{Riot}
use dca.State.{Globals, ◌>>=◌}
use dca.Node.{Node}
use dca.Db.Ops.{done}
use dca.Db.Find.{find_node_by_path}
use dca.Fs.{File, contents, open_file, read}
use dca.Fs.Reading.{chunk, count_at, take-chunk, read-chunk}
use dca.Vfs.{Vfs}
use dca.Vfs.Cat.{cat}
use dca.Vfs.Cat.Reads.{Reads, ended, cat-Reads}

-- What the VFS promises of dcafs, mounted at `mount` with no other mount point below: a path that is
-- the mount point, a slash and a name is opened by the driver, from the slash on, and an operation on
-- a file opened there is the driver's. `vars` are the driver's variables in a state, `file` the files
-- of the driver that are open, and `full` says that no descriptor is free.
pub record Mounted {S D : Type 0} (r : Riot) (v : Vfs S D) (mount : Text) (vars : S → Globals)
    (file : S → ℕ → Option File) (full : S → Bool) : Type 0 where
  pub opens :
      (name : Text) (f : File) (g : Globals) (s : S)
      → full s ≡ false
      → open_file r (codes "/" ++ name) r.o_rdonly (vars s) ≡ ok (done f, g)
      → (fd : ℕ) × (s' : S) × (v.open_file (mount ++ (codes "/" ++ name)) s ≡ ok (pos fd, s'))
        × (vars s' ≡ g)
        × (file s' fd ≡ some f)
  pub reads :
      (fd n m : ℕ) (f f' : File) (bytes : Buffer) (g : Globals) (s : S)
      → file s fd ≡ some f
      → ((dest : Buffer)
          → length dest ≡ n
          → (dest' : Buffer) × (read r f dest n (vars s) ≡ ok (done (f', dest', m), g))
            × (take m dest' ≡ bytes))
      → (s' : S) × (v.read fd n s ≡ ok ((pos m, bytes), s'))
        × (vars s' ≡ g)
        × (file s' fd ≡ some f')
  pub closes :
      (fd : ℕ) (f : File) (s : S)
      → file s fd ≡ some f
      → (s' : S) × (v.close fd s ≡ ok (pos 0, s')) × (vars s' ≡ vars s)

==_same : (n : ℕ) → (n == n) ≡ true
==_same n = ground arith

drop_one :
    (off : ℕ) (xs : Buffer) → off < length xs → (b : ℕ) × (drop off xs ≡ b ∷ drop (suc off) xs)
drop_one off [] h = absurd (omega arith)
drop_one zero (b ∷ xs) h = (b, refl)
drop_one (suc off) (b ∷ xs) h = drop_one off xs (omega arith)

module _ {S D : Type 0} (r : Riot) (v : Vfs S D) (mount : Text) (vars : S → Globals)
    (file : S → ℕ → Option File) (full : S → Bool) (mounted : Mounted r v mount vars file full)
    (node : Node) (bytes : Buffer) (size : ℕ) (fits : size ≤ length bytes) where
  abbrev at : ℕ → File
  at off = record { node = node; offset = off }

  one_read :
      (off fd : ℕ) (s : S)
      → contents r node (vars s) ≡ ok (done (bytes, size), vars s)
      → file s fd ≡ some (at off)
      → (s' : S) × (v.read fd 1 s ≡ ok ((pos (count_at size off 1), chunk bytes size off 1), s'))
        × (vars s' ≡ vars s)
        × (file s' fd ≡ some (at (off + count_at size off 1)))
  one_read off fd s same held =
      let n = count_at size off 1 in
      mounted.reads fd 1 n (at off) (at (off + n)) (chunk bytes size off 1) (vars s) s held
        (λ dest one. (
          chunk bytes size off 1 ++ drop n dest,
          read-chunk r bytes size fits (at off) dest 1 (vars s) same (omega (arith, one)),
          take-chunk r bytes size fits off 1 (drop n dest),
        ))

  read_byte :
      (off fd b : ℕ) (rest : Buffer) (s : S)
      → off < size
      → drop off bytes ≡ b ∷ rest
      → contents r node (vars s) ≡ ok (done (bytes, size), vars s)
      → file s fd ≡ some (at off)
      → (s' : S) × (v.read fd 1 s ≡ ok ((pos 1, b ∷ []), s'))
        × (vars s' ≡ vars s)
        × (file s' fd ≡ some (at (suc off)))
  read_byte off fd b rest s more next same held =
      let (s', got, kept, now) = one_read off fd s same held in
      let one : count_at size off 1 ≡ 1 = omega arith in
      let onward : off + count_at size off 1 ≡ suc off = omega arith in
      (s', got ∙ rw (one, next), kept, now ∙ rw onward)

  -- The reads of one byte from an offset on return the rest of the contents.
  rest-Reads :
      (m off fd : ℕ) (s : S)
      → off + m ≡ size
      → contents r node (vars s) ≡ ok (done (bytes, size), vars s)
      → file s fd ≡ some (at off)
      → (s' : S) × (f : File) × Reads v fd (take m (drop off bytes)) s s'
        × (vars s' ≡ vars s)
        × (file s' fd ≡ some f)
  rest-Reads zero off fd s e same held =
      let (s', got, kept, now) = one_read off fd s same held in
      let past : count_at size off 1 ≡ 0 = omega arith in
      (s', at (off + count_at size off 1), got ∙ rw past, kept, now)
  rest-Reads (suc m) off fd s e same held =
      let (b, next) = drop_one off bytes (omega arith) in
      let (s₁, got, kept, now) =
        read_byte off fd b (drop (suc off) bytes) s (omega arith) next same held in
      let (s', f, rest, kept', now') =
        rest-Reads m (suc off) fd s₁ (omega arith) (rw (kept, same)) now in
      (
        s',
        f,
        subst (λ (t : Buffer). Reads v fd (take (suc m) t) s s') (sym next) (s₁, got, rest),
        kept' ∙ kept,
        now',
      )

-- `cat` on a file of dcafs that has contents: it prints the contents that dcafs_read copies from,
-- and a newline if they do not end with one, closes the file and returns 0; the variables are those
-- that the search left. The path is the mount point, a slash and a name, the search finds the node by
-- the slash and the name, the contents do not change
-- the variables and lie within their array, a descriptor is free, and the fuel allows one round
-- more than there are bytes.
pub cat-contents :
    {S D : Type 0} (r : Riot) (v : Vfs S D) (mount : Text) (vars : S → Globals)
    (file : S → ℕ → Option File) (full : S → Bool) (mounted : Mounted r v mount vars file full)
    (command name : Text) (args : List Text) (node : Node) (b : ℕ) (bytes : Buffer) (size : ℕ)
    (g : Globals) (s : S)
    → v.newlib ≡ false
    → size + 1 < v.fuel
    → bit_and r.o_rdonly r.o_accmode ≡ r.o_rdonly
    → full s ≡ false
    → find_node_by_path r (codes "/" ++ name) (vars s) ≡ ok (done node, g)
    → contents r node g ≡ ok (done (b ∷ bytes, suc size), g)
    → size ≤ length bytes
    → (s' : S) × (cat v command ((mount ++ (codes "/" ++ name)) ∷ args) s
        ≡ ok ((ended b (take size bytes), pos 0), s'))
      × (vars s' ≡ g)
unfolding open_file
cat-contents r v mount vars file full mounted command name args node b bytes size g s low enough
      rdonly free found same fits =
    let opened : open_file r (codes "/" ++ name) r.o_rdonly (vars s)
        ≡ ok (done (record { node = node; offset = 0 }), g) =
      rw (rdonly, ==_same r.o_rdonly, ◌>>=◌, found) in
    let (fd, s₁, ran, now, held) =
      mounted.opens name (record { node = node; offset = 0 }) g s free opened in
    let (s₂, f, reads, kept, held₂) =
      rest-Reads r v mount vars file full mounted node (b ∷ bytes) (suc size) (omega arith)
        (suc size) 0 fd s₁ (omega arith) (rw (now, same)) held in
    let (s₃, shut, kept₃) = mounted.closes fd f s₂ held₂ in
    (
      s₃,
      cat-Reads v command (mount ++ (codes "/" ++ name)) args fd b (take size bytes) (pos 0) s s₁ s₂
          s₃ low (omega (arith, length-take size bytes)) ran reads shut,
      kept₃ ∙ kept ∙ now,
    )
