-- ===== src/Vfs/Tree/Steps.antt =====
-- examples/vfs/main.c, `tree`: its steps on a file system that holds a tree.
use dca.Common.{
  ℕ, zero, suc, ◌+◌, ◌%◌, ◌≤◌, ◌<◌, ◌≡◌, refl, ap, ◌∙◌, Bool, true, false, some, Text, Buffer,
  NoNul, codes, c_string, c_text, zeros, ℤ, pos, [], ◌∷◌, ◌++◌, ok, if◌then◌else◌, length, take,
  drop, arith, length-append, length-take, lt→ltb, strncat, strncpy,
}
use mathlib.Core.Path.{subst}
use mathlib.Core.List.{append_assoc, append-nil}
use dca.State.{◌>>=◌, Over}
use dca.Fs.{FileKind}
use dca.Shell.{newline}
use dca.Vfs.{Vfs}
use dca.Vfs.Tree.{
  Arrays, Walked, tree_max_filename_len, cut, spaces, indent, file_contents, tree_file,
  tree_entries, tree_dir, on_stat, tree_r,
}
use dca.Vfs.Tree.Serves.{FileTree, file, dir, size, shown, IsName, Reads}
use dca.Vfs.Tree.Path.{
  HoldsPath, Ready, c_string-nul, c_string-HoldsPath, strncat-HoldsPath, set-HoldsPath,
}

drop-zeros : (m n : ℕ) → m < n → (rest : Buffer) × (drop m (zeros n) ≡ 0 ∷ rest)
drop-zeros m zero h = absurd (omega arith)
drop-zeros zero (suc n) h = (zeros n, refl)
drop-zeros (suc m) (suc n) h = drop-zeros m n (omega arith)

NoNul-take : (n : ℕ) (s : Text) → NoNul s → NoNul (take n s)
NoNul-take zero s h = tt
NoNul-take (suc n) [] h = tt
NoNul-take (suc n) (c ∷ s) h = (h.0, NoNul-take n s h.1)

-- the C string in the array of 33 zeros, behind a read of at most 32 bytes
str-take :
    (s : Text) → NoNul s → c_string (take 32 s ++ drop (length (take 32 s)) (zeros 33)) ≡ take 32 s
str-take s h =
    let (rest, e) = drop-zeros (length (take 32 s)) 33 (omega (arith, length-take 32 s)) in
    rw e (c_string-nul (take 32 s) rest (NoNul-take 32 s h))

-- the two calls of strncat
pub extended :
    (buf : Buffer) (path name : Text)
    → HoldsPath buf path
    → IsName name
    → length path + 1 + length name ≤ 256
    → (b₁ : Buffer) × (b₂ : Buffer) × (strncat buf (codes "/") 256 ≡ ok b₁)
      × (strncat b₁ name 256 ≡ ok b₂)
      × HoldsPath b₂ (path ++ codes "/" ++ name)
extended buf path name holds is room =
    let (b₁, e₁, h₁) =
      strncat-HoldsPath buf path (codes "/") holds (omega arith, tt) (omega arith) in
    let (b₂, e₂, h₂) =
      strncat-HoldsPath b₁ (path ++ codes "/") name h₁ is.0
        (omega (arith, length-append path (codes "/"))) in
    (b₁, b₂, e₁, e₂, h₂)

-- where the path is cut again
pub cut-Ready :
    (a : Arrays) (path name : Text)
    → NoNul path
    → Ready a (path ++ codes "/" ++ name)
    → Ready (cut (length path) a) path
cut-Ready a path name h (holds, named) = (
  set-HoldsPath a.tree_path_buf path name 47 h
      (subst (HoldsPath a.tree_path_buf) (append_assoc path (codes "/") name) holds),
  named,
)

pub size-pos : (t : FileTree) → 0 < size t
unfolding size
size-pos (file text) = omega arith
size-pos (dir es) = omega arith

-- the indentation where the depth did not wrap around
indent_lt : (depth : ℕ) → depth < 128 → indent depth ≡ spaces depth
indent_lt depth h = rw (lt→ltb depth 128 h)

depth_lt : (depth : ℕ) → depth < 128 → (depth + 1) % 256 ≡ depth + 1
depth_lt depth h = omega arith

module _ {S D : Type 0} (v : Vfs S D) (Idle : S → Type 0) where
  pub file_contents-Reads :
      (path text : Text) (s : S)
      → NoNul text
      → Reads v Idle path text
      → Idle s
      → (s' : S) × (file_contents v path s ≡ ok (some (shown text), s')) × Idle s'
  unfolding file_contents
  file_contents-Reads path [] s h reads idle =
      let (fd, z, s₁, s₂, s₃, opened, got, shut, after) = reads s idle in
      (s₃, rw (◌>>=◌, opened, got, shut), after)
  file_contents-Reads path (c ∷ text) s h reads idle =
      let (fd, z, s₁, s₂, s₃, opened, got, shut, after) = reads s idle in
      (s₃, rw (◌>>=◌, opened, got, shut, str-take (c ∷ text) h), after)

  pub tree_file-Reads :
      (contents : Bool) (p : ℕ) (out path text : Text) (a : Arrays) (s : S)
      → c_string a.tree_path_buf ≡ path
      → NoNul text
      → Reads v Idle path text
      → Idle s
      → (s' : S) × (tree_file v contents p out a s
          ≡ ok ((out ++ (if contents then shown text else []) ++ newline, pos 0, cut p a), s'))
        × Idle s'
  unfolding tree_file
  tree_file-Reads false p out path text a s holds h reads idle = (s, rw append-nil, idle)
  tree_file-Reads true p out path text a s holds h reads idle =
      let (s', e, after) = file_contents-Reads path text s h reads idle in
      (s', rw (◌>>=◌, holds, e), after)

  tree_r-stat :
      (kind : FileKind) (k depth n : ℕ) (contents : Bool) (name : Text) (a : Arrays)
      (b₁ b₂ : Buffer) (s s₁ : S)
      → c_text a.tree_filename ≡ ok name
      → strncat a.tree_path_buf (codes "/") 256 ≡ ok b₁
      → strncat b₁ name 256 ≡ ok b₂
      → v.stat (c_string b₂) s ≡ ok ((pos n, kind), s₁)
      → tree_r v (suc k) depth contents a s
        ≡ on_stat v
            (tree_r v k ((depth + 1) % 256) contents)
            contents
            (length (c_string a.tree_path_buf))
            (indent depth ++ codes "- " ++ name)
            (record a { tree_path_buf = b₂ })
            (pos n, kind)
            s₁
  unfolding tree_r
  tree_r-stat kind k depth n contents name a b₁ b₂ s s₁ named e₁ e₂ st =
      rw (◌>>=◌, named, e₁, e₂, st)

  pub tree_r-on_stat :
      (kind : FileKind) (k depth n : ℕ) (contents : Bool) (path name : Text) (a : Arrays)
      (b₁ b₂ : Buffer) (s s₁ : S)
      → depth < 128
      → c_text a.tree_filename ≡ ok name
      → HoldsPath a.tree_path_buf path
      → strncat a.tree_path_buf (codes "/") 256 ≡ ok b₁
      → strncat b₁ name 256 ≡ ok b₂
      → v.stat (c_string b₂) s ≡ ok ((pos n, kind), s₁)
      → tree_r v (suc k) depth contents a s
        ≡ on_stat v
            (tree_r v k (depth + 1) contents)
            contents
            (length path)
            (spaces depth ++ codes "- " ++ name)
            (record a { tree_path_buf = b₂ })
            (pos n, kind)
            s₁
  tree_r-on_stat kind k depth n contents path name a b₁ b₂ s s₁ low named holds e₁ e₂ st =
      tree_r-stat kind k depth n contents name a b₁ b₂ s s₁ named e₁ e₂ st
      ∙ ap
          (λ (d : ℕ).
            on_stat v (tree_r v k d contents) contents (length (c_string a.tree_path_buf))
              (indent depth ++ codes "- " ++ name) (record a { tree_path_buf = b₂ }) (pos n, kind)
              s₁)
          (depth_lt depth low)
      ∙ ap
          (λ (p : Text).
            on_stat v (tree_r v k (depth + 1) contents) contents (length p)
              (indent depth ++ codes "- " ++ name) (record a { tree_path_buf = b₂ }) (pos n, kind)
              s₁)
          (c_string-HoldsPath a.tree_path_buf path holds)
      ∙ ap
          (λ (t : Text).
            on_stat v (tree_r v k (depth + 1) contents) contents (length path)
              (t ++ codes "- " ++ name) (record a { tree_path_buf = b₂ }) (pos n, kind) s₁)
          (indent_lt depth low)

  pub tree_dir-tree_entries :
      (tree : Arrays → Over S Walked) (p n : ℕ) (out path : Text) (a : Arrays) (d : D) (s s' : S)
      → c_string a.tree_path_buf ≡ path
      → v.opendir path s ≡ ok ((pos n, d), s')
      → tree_dir v tree p out a s ≡ tree_entries v tree p v.fuel d a (out ++ codes "/\n") s'
  unfolding tree_dir
  tree_dir-tree_entries tree p n out path a d s s' holds opened = rw (◌>>=◌, holds, opened)

  pub tree_entries-end :
      (tree : Arrays → Over S Walked) (p j : ℕ) (out : Text) (a : Arrays) (d d' : D) (buf : Buffer)
      (z : ℤ) (s s₁ s₂ : S)
      → v.readdir d s ≡ ok ((d', pos 0, buf), s₁)
      → v.closedir d' s₁ ≡ ok (z, s₂)
      → tree_entries v tree p (suc j) d a out s ≡ ok ((out, pos 0, cut p a), s₂)
  unfolding tree_entries
  tree_entries-end tree p j out a d d' buf z s s₁ s₂ e shut = rw (◌>>=◌, e, shut)

  pub tree_entries-next :
      (tree : Arrays → Over S Walked) (p j n m : ℕ) (out text : Text) (a a' : Arrays) (d d' : D)
      (buf name : Buffer) (s s₁ s₂ : S)
      → v.readdir d s ≡ ok ((d', pos (suc n), buf), s₁)
      → strncpy a.tree_filename (c_string buf) tree_max_filename_len ≡ ok name
      → tree (record a { tree_filename = name }) s₁ ≡ ok ((text, pos m, a'), s₂)
      → tree_entries v tree p (suc j) d a out s ≡ tree_entries v tree p j d' a' (out ++ text) s₂
  unfolding tree_entries
  tree_entries-next tree p j n m out text a a' d d' buf name s s₁ s₂ e copied walked =
      rw (◌>>=◌, e, copied, walked)
