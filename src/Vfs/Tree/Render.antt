-- ===== src/Vfs/Tree/Render.antt =====
-- examples/vfs/main.c, `tree`: what it prints.
use dca.Common.{
  ℕ, zero, suc, ◌+◌, ◌*◌, ◌≤◌, ◌<◌, ◌≡◌, refl, ◌∙◌, Bool, true, false, Text, Buffer, codes, c_text,
  padded, zeros, pos, List, [], ◌∷◌, ◌++◌, ok, length, arith, length-append,
}
use mathlib.Core.List.{append_assoc, append-nil}
use dca.State.{◌>>=◌}
use dca.Fs.{directory, regular}
use dca.Vfs.{Vfs}
use dca.Vfs.Tree.{
  Arrays, cut, spaces, tree_entries, tree_r, skip_slashes, is_option, tree_path, tree,
}
use dca.Vfs.Tree.Serves.{
  Is, FileTree, file, dir, Entries, nil, entry, size, size_entries, reach, reach_entries, render,
  render_entries, IsName, Serves, Lists,
}
use dca.Vfs.Tree.Steps.{
  extended, cut-Ready, size-pos, tree_file-Reads, tree_r-on_stat, tree_dir-tree_entries,
  tree_entries-end, tree_entries-next,
}
use dca.Vfs.Tree.Path.{Ready, c_string-HoldsPath, strncpy-HoldsName, HoldsName-padded}

-- the fuel that a tree needs, and the room for its longest path
abbrev pub Fits : ℕ → ℕ → ℕ → ℕ → ℕ → Type 0
Fits fuel size depth len reach = (size ≤ fuel) × (depth * 2 ≤ len) × (len + reach ≤ 256)

module _ {S D : Type 0} (v : Vfs S D) (Idle : S → Type 0) (contents : Bool) where
  mutual
    unfolding size reach render Serves

    tree_r-render :
        (t : FileTree) (k depth : ℕ) (path name : Text) (a : Arrays) (s : S)
        → Serves v Idle (path ++ codes "/" ++ name) t
        → size t ≤ k
        → Fits v.fuel (size t) depth (length path) (1 + length name + reach t)
        → IsName name
        → Ready a path
        → c_text a.tree_filename ≡ ok name
        → Idle s
        → (a' : Arrays) × (s' : S) × (tree_r v k depth contents a s
            ≡ ok ((render depth contents name t, pos 0, a'), s'))
          × Ready a' path
          × Idle s'
    tree_r-render (file text) zero depth path name a s serves enough fits is ready named idle =
        absurd (omega arith)
    tree_r-render (dir es) zero depth path name a s serves enough fits is ready named idle =
        absurd (omega arith)
    tree_r-render (file text) (suc k) depth path name a s (plain, kind, reads) enough
          (few, deep, room) is ready named idle =
        let low : depth < 128 = omega arith in
        let (b₁, b₂, e₁, e₂, h₂) = extended a.tree_path_buf path name ready.0 is (omega arith) in
        let full = path ++ codes "/" ++ name in
        let (n, s₁, is_file, idle₁) = kind s idle in
        let (s₂, e, idle₂) =
          tree_file-Reads v Idle contents (length path) (spaces depth ++ codes "- " ++ name) full
            text (record a { tree_path_buf = b₂ }) s₁ (c_string-HoldsPath b₂ full h₂) plain reads
            idle₁ in
        (
          cut (length path) (record a { tree_path_buf = b₂ }),
          s₂,
          tree_r-on_stat v Idle regular k depth n contents path name a b₁ b₂ s s₁ low named ready.0
                e₁ e₂ (rw (c_string-HoldsPath b₂ full h₂, is_file))
              ∙ e,
          cut-Ready (record a { tree_path_buf = b₂ }) path name ready.0.0 (h₂, ready.1),
          idle₂,
        )
    tree_r-render (dir es) (suc k) depth path name a s (kind, (d, opens, lists)) enough
          (few, deep, room) is ready named idle =
        let low : depth < 128 = omega arith in
        let (b₁, b₂, e₁, e₂, h₂) = extended a.tree_path_buf path name ready.0 is (omega arith) in
        let full = path ++ codes "/" ++ name in
        let a₂ : Arrays = record a { tree_path_buf = b₂ } in
        let holds = c_string-HoldsPath b₂ full h₂ in
        let out = spaces depth ++ codes "- " ++ name in
        let (n, s₁, is_dir, idle₁) = kind s idle in
        let (m, s₂, opened, idle₂) = opens s₁ idle₁ in
        let long : length full ≡ length path + 1 + length name =
          omega (arith, length-append (path ++ codes "/") name, length-append path (codes "/")) in
        let (a', s₃, e, ready', idle₃) =
          tree_entries-render es k v.fuel (depth + 1) (length path) full d a₂ (out ++ codes "/\n")
            s₂ lists (omega arith) (omega arith) (omega arith, omega arith, omega arith)
            (h₂, ready.1) idle₂ in
        (
          cut (length path) a',
          s₃,
          tree_r-on_stat v Idle directory k depth n contents path name a b₁ b₂ s s₁ low named
                ready.0 e₁ e₂ (rw (holds, is_dir))
              ∙ tree_dir-tree_entries v Idle (tree_r v k (depth + 1) contents) (length path) m out
                  full a₂ d s₁ s₂ holds opened
              ∙ e,
          cut-Ready a' path name ready.0.0 ready',
          idle₃,
        )

    tree_entries-render :
        (es : Entries) (k j depth p : ℕ) (path : Text) (d : D) (a : Arrays) (out : Text) (s : S)
        → Lists v Idle path d es
        → size_entries es ≤ k
        → size_entries es < j
        → Fits v.fuel (size_entries es) depth (length path) (reach_entries es)
        → Ready a path
        → Idle s
        → (a' : Arrays) × (s' : S) × (tree_entries v (tree_r v k depth contents) p j d a out s
            ≡ ok ((out ++ render_entries depth contents es, pos 0, cut p a'), s'))
          × Ready a' path
          × Idle s'
    tree_entries-render nil k zero depth p path d a out s lists enough more fits ready idle =
        absurd (omega arith)
    tree_entries-render (entry name t es) k zero depth p path d a out s lists enough more fits ready
          idle =
        absurd (omega arith)
    tree_entries-render nil k (suc j) depth p path d a out s lists enough more fits ready idle =
        let (d', buf, z, s₁, s₂, e, shut, idle₂) = lists s idle in
        (
          a,
          s₂,
          tree_entries-end v Idle (tree_r v k depth contents) p j out a d d' buf z s s₁ s₂ e shut
              ∙ rw append-nil,
          ready,
          idle₂,
        )
    tree_entries-render (entry name t es) k (suc j) depth p path d a out s
          (d', is, gives, serves, rest) enough more (few, deep, room) ready idle =
        let (n, buf, s₁, e, called, idle₁) = gives s idle in
        let (b, copied, ready_name, named) =
          strncpy-HoldsName a.tree_filename name ready.1 is.0 is.2 in
        let some_files = size-pos t in
        let (a₂, s₂, walked, ready₂, idle₂) =
          tree_r-render t k depth path name (record a { tree_filename = b }) s₁ serves (omega arith)
            (omega arith, omega arith, omega arith) is (ready.0, ready_name) named idle₁ in
        let text = render depth contents name t in
        let (a₃, s₃, on, ready₃, idle₃) =
          tree_entries-render es k j depth p path d' a₂ (out ++ text) s₂ rest (omega arith)
            (omega arith) (omega arith, omega arith, omega arith) ready₂ idle₂ in
        (
          a₃,
          s₃,
          tree_entries-next v Idle (tree_r v k depth contents) p j n 0 out text a a₂ d d' buf b s s₁
                s₂ e (rw (called, copied)) walked
              ∙ on
              ∙ rw (append_assoc out text (render_entries depth contents es)),
          ready₃,
          idle₃,
        )

module _ {S D : Type 0} (v : Vfs S D) (Idle : S → Type 0) where
  tree_path-render :
      (contents : Bool) (path name : Text) (es : Entries) (s : S)
      → skip_slashes path ≡ name
      → IsName name
      → Is v Idle directory path
      → Serves v Idle (codes "/" ++ name) (dir es)
      → size (dir es) ≤ v.fuel
      → 1 + length name + reach (dir es) ≤ 256
      → Idle s
      → (s' : S) × (tree_path v contents path s ≡ ok ((render 0 contents name (dir es), pos 0), s'))
        × Idle s'
  unfolding tree_path
  tree_path-render contents path [] es s skips is kind serves enough room idle =
      absurd (omega arith)
  tree_path-render contents path (c ∷ name) es s skips is kind serves enough room idle =
      let (n, s₁, is_dir, idle₁) = kind s idle in
      let (ready, named) = HoldsName-padded (c ∷ name) is.0 is.2 in
      let b : Buffer = padded 30 (c ∷ name) ++ 0 ∷ [] in
      let (a', s₂, e, _, idle₂) =
        tree_r-render v Idle contents (dir es) v.fuel 0 [] (c ∷ name)
          (record { tree_path_buf = zeros 257; tree_filename = b }) s₁ serves enough
          (enough, omega arith, omega arith) is ((tt, refl, (zeros 256, refl)), ready) named
          idle₁ in
      (s₂, rw (◌>>=◌, is_dir, skips, e), idle₂)

-- `tree` prints what the file system holds below a directory: every file and directory once, in
-- the order of the directories, with two spaces for each level, and with the option also the first
-- 32 bytes of each file. It returns 0. The path without its leading slashes is a name of at most 30
-- bytes. No path that is walked is longer than 256 bytes, the names are not empty and have at most
-- 30 bytes, and the fuel is at least the number of files and directories.
pub tree-render :
    {S D : Type 0} (v : Vfs S D) (Idle : S → Type 0) (command path name option : Text)
    (args : List Text) (es : Entries) (s : S)
    → skip_slashes path ≡ name
    → IsName name
    → is_option path ≡ false
    → is_option option ≡ true
    → Is v Idle directory path
    → Serves v Idle (codes "/" ++ name) (dir es)
    → size (dir es) ≤ v.fuel
    → 1 + length name + reach (dir es) ≤ 256
    → Idle s
    → (s₁ : S) × (s₂ : S) × (tree v command (path ∷ []) s
        ≡ ok ((render 0 false name (dir es), pos 0), s₁))
      × (tree v command (option ∷ path ∷ args) s ≡ ok ((render 0 true name (dir es), pos 0), s₂))
unfolding tree
tree-render v Idle command path name option args es s skips is plain opt kind serves enough room
      idle =
    let (s₁, e₁, _) =
      tree_path-render v Idle false path name es s skips is kind serves enough room idle in
    let (s₂, e₂, _) =
      tree_path-render v Idle true path name es s skips is kind serves enough room idle in
    (s₁, s₂, rw (plain, e₁), rw (opt, e₂))
