-- ===== src/Vfs/Tree.antt =====
-- examples/vfs/main.c: the shell command `tree`.
pub mod Serves
pub mod Path
pub mod Steps
pub mod Render
pub mod Begins
pub mod Kept
use dca.Common.{
  ℕ, zero, suc, ◌+◌, ◌%◌, Bool, true, false, Option, none, some, Text, Buffer, codes, c_string,
  c_text, zeros, strncpy, strncat, ℤ, pos, negsuc, List, [], ◌∷◌, ◌++◌, no_fuel, uninitialised,
  assertion, Result, ok, fault, ltb, ◌==◌, if◌then◌else◌, length, drop, set,
}
use dca.State.{Over, pure, fail, lift, assert, ◌>>=◌, ◌>>◌}
use dca.Fs.{FileKind, directory, regular}
use dca.Shell.{newline}
use dca.Vfs.{Vfs, nonzero}

abbrev pub tree_max_path_len : ℕ
tree_max_path_len = 256

abbrev pub tree_max_filename_len : ℕ
tree_max_filename_len = 30

-- the two arrays of _tree
pub record Arrays : Type 0 where
  pub tree_path_buf : Buffer
  pub tree_filename : Buffer

-- `for (int i=0; i<depth; i++) _puts("  ")`, where int8_t depth is a bit pattern below 256
abbrev pub spaces : ℕ → Text
spaces zero = []
spaces (suc n) = codes "  " ++ spaces n

abbrev pub indent : ℕ → Text
indent depth = if ltb depth 128 then spaces depth else []

-- while (*p == '/') p += 1
abbrev pub skip_slashes : Text → Text
skip_slashes [] = []
skip_slashes (c ∷ s) = let rest = skip_slashes s in if c == 47 then rest else c ∷ s

-- the first argument begins with '-'
abbrev pub is_option : Text → Bool
is_option [] = false
is_option (c ∷ s) = c == 45

abbrev pub not_empty : Text → Bool
not_empty [] = false
not_empty (_ ∷ _) = true

-- The arrays and the value that _tree_r returns, and what it prints.
abbrev pub Walked : Type 0
Walked = Text × ℤ × Arrays

-- *p = '\0', for a pointer p that lies this far behind the start of the path
abbrev pub cut : ℕ → Arrays → Arrays
cut p a = record a { tree_path_buf = set a.tree_path_buf p 0 }

module _ {S D : Type 0} (v : Vfs S D) where
  -- The contents that _tree_r prints behind a file's name, or none if it cannot be opened.
  unfoldable pub file_contents : Text → Over S (Option Text)
  file_contents path = do
    fd ← v.open_file path
    elim fd [
      | negsuc _ ↦ pure none
      | pos fd ↦ (do
        q ← v.read fd 32
        _ ← v.close fd
        let str = c_string (q.1 ++ drop (length q.1) (zeros 33))
        pure (some (if nonzero q.0 then codes ": " ++ str else [])))
    ]

  -- _tree_r behind its recursive call on an entry; `rest` are the further rounds of the loop.
  abbrev pub on_walked : (Arrays → Text → Over S Walked) → Text → Walked → Over S Walked
  on_walked rest out (text, pos _, a) = rest a (out ++ text)
  on_walked rest out (text, negsuc c, a) = pure (out ++ text, negsuc c, a)

  -- A round of the loop of _tree_r behind vfs_readdir. `tree` is the recursive call, `p` the end of
  -- the path before it was extended, and `out` the text printed so far.
  abbrev pub on_entry :
      (Arrays → Over S Walked)
      → ℕ
      → (D → Arrays → Text → Over S Walked)
      → Arrays
      → Text
      → D × ℤ × Buffer
      → Over S Walked
  on_entry tree p rest a out (dir, pos zero, d_name) = do
    _ ← v.closedir dir
    pure (out, pos 0, cut p a)
  on_entry tree p rest a out (dir, pos (suc _), d_name) = do
    name ← lift (strncpy a.tree_filename (c_string d_name) tree_max_filename_len)
    w ← tree (record a { tree_filename = name })
    on_walked (rest dir) out w
  on_entry tree p rest a out (dir, negsuc c, d_name) =
      pure (
        out ++ codes "tree: Error reading dir " ++ c_string a.tree_path_buf ++ newline,
        negsuc c,
        a,
      )

  -- The loop of _tree_r over a directory, on fuel, with what follows it.
  unfoldable pub tree_entries : (Arrays → Over S Walked) → ℕ → ℕ → D → Arrays → Text → Over S Walked
  tree_entries tree p zero dir a out = fail no_fuel
  tree_entries tree p (suc k) dir a out = do
    e ← v.readdir dir
    on_entry tree p (λ dir a out. tree_entries tree p k dir a out) a out e

  -- _tree_r for a regular file, behind its call of open and with what follows
  abbrev pub on_contents : ℕ → Text → Arrays → Option Text → Over S Walked
  on_contents p out a none =
      pure
        (out ++ codes "file " ++ c_string a.tree_path_buf ++ codes " cannot be opened\n", pos 1, a)
  on_contents p out a (some text) = pure (out ++ text ++ newline, pos 0, cut p a)

  unfoldable pub tree_file : Bool → ℕ → Text → Arrays → Over S Walked
  unfolding file_contents
  tree_file print_contents p out a =
      if print_contents
      then (do c ← file_contents (c_string a.tree_path_buf); on_contents p out a c)
      else pure (out ++ newline, pos 0, cut p a)

  -- _tree_r for a directory, behind its call of vfs_opendir
  abbrev pub on_opened : (Arrays → Over S Walked) → ℕ → Text → Arrays → ℤ × D → Over S Walked
  on_opened tree p out a (pos _, dir) = tree_entries tree p v.fuel dir a (out ++ codes "/\n")
  on_opened tree p out a (negsuc c, dir) = pure (
    out ++ codes "/\ntree: Error opening dir " ++ c_string a.tree_path_buf ++ newline,
    negsuc c,
    a,
  )

  unfoldable pub tree_dir : (Arrays → Over S Walked) → ℕ → Text → Arrays → Over S Walked
  tree_dir tree p out a = do d ← v.opendir (c_string a.tree_path_buf); on_opened tree p out a d

  -- _tree_r behind its call of vfs_stat
  abbrev pub on_stat :
      (Arrays → Over S Walked) → Bool → ℕ → Text → Arrays → ℤ × FileKind → Over S Walked
  on_stat tree print_contents p out a (pos _, regular) = tree_file print_contents p out a
  on_stat tree print_contents p out a (pos _, directory) = tree_dir tree p out a
  on_stat tree print_contents p out a (negsuc c, _) = pure (
    out ++ codes "tree: stat on path " ++ c_string a.tree_path_buf ++ codes " failed\n",
    negsuc c,
    a,
  )

  -- _tree_r, on fuel for its depth
  unfoldable pub tree_r : ℕ → ℕ → Bool → Arrays → Over S Walked
  tree_r zero depth print_contents a = fail no_fuel
  tree_r (suc k) depth print_contents a = do
    filename ← lift (c_text a.tree_filename)
    path ← lift (strncat a.tree_path_buf (codes "/") tree_max_path_len)
    path ← lift (strncat path filename tree_max_path_len)
    s ← v.stat (c_string path)
    on_stat (tree_r k ((depth + 1) % 256) print_contents) print_contents
        (length (c_string a.tree_path_buf)) (indent depth ++ codes "- " ++ filename)
        (record a { tree_path_buf = path }) s

  no_directory : Text → ℤ → Over S (Text × ℤ)
  no_directory path result = do
    message ← v.perror
    pure (
      message ++ codes "path " ++ path ++ codes " does not exist or is not a directory\n",
      result,
    )

  -- _tree, from the path on
  unfoldable pub tree_path : Bool → Text → Over S (Text × ℤ)
  unfolding tree_r no_directory
  tree_path print_contents path = do
    s ← v.stat path
    elim s.0 [
      | negsuc c ↦ no_directory path (negsuc c)
      | pos n ↦ elim s.1 [
        | regular ↦ no_directory path (pos n)
        | directory ↦ (do
          assert (not_empty (skip_slashes path))
          filename ← lift (
              strncpy (zeros (tree_max_filename_len + 1)) (skip_slashes path) tree_max_filename_len)
          w ←
              tree_r v.fuel 0 print_contents
                (record { tree_path_buf = zeros (tree_max_path_len + 1); tree_filename = filename })
          pure (w.0, w.1))
      ]
    ]

  usage : Text → Over S (Text × ℤ)
  usage command = pure (
    codes "Usage: "
        ++ command
        ++ codes " [-p] <path>\nshow folder contents as a tree\n"
        ++ codes "-p also prints file contents\n",
    pos 1,
  )

  -- _tree, for the command's name and the arguments behind it
  unfoldable pub tree : Text → List Text → Over S (Text × ℤ)
  unfolding tree_path usage
  tree command [] = usage command
  tree command (path ∷ []) = if is_option path then usage command else tree_path false path
  tree command (option ∷ path ∷ _) =
      if is_option option then tree_path true path else tree_path false option
