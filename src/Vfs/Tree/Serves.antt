-- ===== src/Vfs/Tree/Serves.antt =====
-- examples/vfs/main.c, `tree`: what is listed, as a tree of files, and what a file system that
-- holds it promises.
use dca.Common.{
  ℕ, suc, ◌+◌, ◌≤◌, ◌<◌, ◌≡◌, Bool, Text, Buffer, NoNul, codes, c_string, [], ◌∷◌, ◌++◌, ℤ, pos, ok,
  if◌then◌else◌, length, take,
}
use Prim.Native.Nat.{max}
use dca.Fs.{FileKind, directory, regular}
use dca.Shell.{newline}
use dca.Vfs.{Vfs}
use dca.Vfs.Tree.{spaces, tree_max_filename_len}

mutual
  pub data FileTree : Type 0 where
    file : Text → FileTree
    dir : Entries → FileTree

  pub data Entries : Type 0 where
    nil : Entries
    entry : Text → FileTree → Entries → Entries

unfoldable mutual
  -- how many files and directories there are
  pub size : FileTree → ℕ
  size (file text) = 1
  size (dir es) = suc (size_entries es)

  pub size_entries : Entries → ℕ
  size_entries nil = 0
  size_entries (entry name t es) = size t + size_entries es

unfoldable mutual
  -- the length of the longest path from there, with its slashes
  pub reach : FileTree → ℕ
  reach (file text) = 0
  reach (dir es) = reach_entries es

  pub reach_entries : Entries → ℕ
  reach_entries nil = 0
  reach_entries (entry name t es) = max (suc (length name) + reach t) (reach_entries es)

-- the first 32 bytes of the contents behind the name
abbrev pub shown : Text → Text
shown [] = []
shown (c ∷ s) = codes ": " ++ take 32 (c ∷ s)

unfoldable mutual
  -- what `tree` is to print for a tree of this name, and for the entries of a directory
  pub render : ℕ → Bool → Text → FileTree → Text
  render depth contents name (file text) =
      spaces depth ++ codes "- " ++ name ++ (if contents then shown text else []) ++ newline
  render depth contents name (dir es) =
      spaces depth ++ codes "- " ++ name ++ codes "/\n" ++ render_entries (depth + 1) contents es

  pub render_entries : ℕ → Bool → Entries → Text
  render_entries depth contents nil = []
  render_entries depth contents (entry name t es) =
      render depth contents name t ++ render_entries depth contents es

-- a name that the buffer of `tree` holds
abbrev pub IsName : Text → Type 0
IsName name = NoNul name × (0 < length name) × (length name ≤ tree_max_filename_len)

-- The states in `Idle` are those in which the file system answers as below, and it returns to them.
module _ {S D : Type 0} (v : Vfs S D) (Idle : S → Type 0) where
  -- what stat says of a path
  abbrev pub Is : FileKind → Text → Type 0
  Is kind path =
      (s : S) → Idle s → (n : ℕ) × (s' : S) × (v.stat path s ≡ ok ((pos n, kind), s')) × Idle s'

  -- a path that can be opened, and whose first read returns this text, or its first 32 bytes
  abbrev pub Reads : Text → Text → Type 0
  Reads path text =
      (s : S)
      → Idle s
      → (fd : ℕ) × (z : ℤ) × (s₁ : S) × (s₂ : S) × (s₃ : S) × (v.open_file path s ≡ ok (pos fd, s₁))
        × (v.read fd 32 s₁ ≡ ok ((pos (length (take 32 text)), take 32 text), s₂))
        × (v.close fd s₂ ≡ ok (z, s₃))
        × Idle s₃

  -- an open directory without further entries
  abbrev pub Ends : D → Type 0
  Ends d =
      (s : S)
      → Idle s
      → (d' : D) × (buf : Buffer) × (z : ℤ) × (s₁ : S) × (s₂ : S) × (v.readdir d s
          ≡ ok ((d', pos 0, buf), s₁))
        × (v.closedir d' s₁ ≡ ok (z, s₂))
        × Idle s₂

  -- an open directory whose next entry has this name, and which is d' behind it
  abbrev pub Gives : D → Text → D → Type 0
  Gives d name d' =
      (s : S)
      → Idle s
      → (n : ℕ) × (buf : Buffer) × (s' : S) × (v.readdir d s ≡ ok ((d', pos (suc n), buf), s'))
        × (c_string buf ≡ name)
        × Idle s'

  -- a directory at a path, which opens as d
  abbrev pub Opens : Text → D → Type 0
  Opens path d =
      (s : S) → Idle s → (n : ℕ) × (s' : S) × (v.opendir path s ≡ ok ((pos n, d), s')) × Idle s'

  unfoldable mutual
    -- The file system holds this tree at a path: an open directory lists its entries in order.
    pub Serves : Text → FileTree → Type 0
    Serves path (file text) = NoNul text × Is regular path × Reads path text
    Serves path (dir es) = Is directory path × ((d : D) × Opens path d × Lists path d es)

    pub Lists : Text → D → Entries → Type 0
    Lists path d nil = Ends d
    Lists path d (entry name t es) =
        (d' : D) × IsName name
        × Gives d name d'
        × Serves (path ++ codes "/" ++ name) t
        × Lists path d' es
