-- ===== src/Vfs/Tree/Kept.antt =====
-- examples/vfs/main.c, `tree`: what _tree_r leaves of the path, whatever the file system answers.
use dca.Common.{
  ℕ, zero, suc, ◌+◌, ◌%◌, ◌≡◌, refl, Bool, true, false, Option, none, some, Text, Buffer, codes,
  c_string, c_text, strncat, strncpy, ℤ, pos, negsuc, ◌++◌, ok, length,
}
use dca.State.{
  Over, pure, lift, Ensures, pure-Ensures, fail-Ensures, lift-Ensures, any-Ensures, bind-Ensures,
}
use dca.Fs.{FileKind, directory, regular}
use dca.Vfs.{Vfs}
use dca.Vfs.Tree.{
  Arrays, Walked, cut, tree_max_path_len, tree_max_filename_len, file_contents, tree_entries,
  tree_file, tree_dir, tree_r, indent, on_walked, on_entry, on_contents, on_opened, on_stat,
}
use dca.Vfs.Tree.Begins.{
  Begins, Keeps, set-Begins, strncat-Begins, strncat-Begins_old, Begins-length, set-c_string,
}

-- What the array begins with is kept, and with the result 0 the path in it is the old one.
abbrev pub Kept : Arrays → Walked → Type 0
Kept a w =
    ((path : Text) → Begins path a.tree_path_buf → Begins path w.2.tree_path_buf)
    × (w.1 ≡ pos 0 → c_string w.2.tree_path_buf ≡ c_string a.tree_path_buf)

-- The same behind the two calls of strncat, for the path before them.
abbrev Restored : Text → Arrays → Walked → Type 0
Restored old a w =
    Keeps (length old) a.tree_path_buf w.2.tree_path_buf
    × (w.1 ≡ pos 0 → c_string w.2.tree_path_buf ≡ old)

cut-Restored :
    (old out : Text) (a b : Arrays)
    → Begins old b.tree_path_buf
    → Keeps (length old) a.tree_path_buf b.tree_path_buf
    → Restored old a (out, pos 0, cut (length old) b)
cut-Restored old out a b begins kept = (
  λ path short h. set-Begins path b.tree_path_buf (length old) short (kept path short h),
  λ _. set-c_string old b.tree_path_buf begins,
)

failed-Restored :
    {S : Type 0} {old out : Text} {c : ℕ} (a b : Arrays)
    → Keeps (length old) a.tree_path_buf b.tree_path_buf
    → Ensures {S = S} (Restored old a) (pure (out, negsuc c, b))
failed-Restored {S} {old} {out} {c} a b kept =
    pure-Ensures (Restored old a) (kept, λ e. absurd (cc))

module _ {S D : Type 0} (v : Vfs S D) (old : Text) (a : Arrays) where
  on_walked-Restored :
      (rest : Arrays → Text → Over S Walked) (out : Text) (w : Walked)
      → ((b : Arrays) (out : Text)
          → Begins old b.tree_path_buf
          → Keeps (length old) a.tree_path_buf b.tree_path_buf
          → Ensures (Restored old a) (rest b out))
      → Begins old w.2.tree_path_buf
      → Keeps (length old) a.tree_path_buf w.2.tree_path_buf
      → Ensures (Restored old a) (on_walked v rest out w)
  on_walked-Restored rest out (text, pos n, b) on begins kept = on b (out ++ text) begins kept
  on_walked-Restored rest out (text, negsuc c, b) on begins kept = failed-Restored a b kept

  on_entry-Restored :
      (tree : Arrays → Over S Walked) (rest : D → Arrays → Text → Over S Walked) (b : Arrays)
      (out : Text) (e : D × ℤ × Buffer)
      → ((b : Arrays) → Ensures (Kept b) (tree b))
      → ((d : D) (b : Arrays) (out : Text)
          → Begins old b.tree_path_buf
          → Keeps (length old) a.tree_path_buf b.tree_path_buf
          → Ensures (Restored old a) (rest d b out))
      → Begins old b.tree_path_buf
      → Keeps (length old) a.tree_path_buf b.tree_path_buf
      → Ensures (Restored old a) (on_entry v tree (length old) rest b out e)
  on_entry-Restored tree rest b out (d, pos zero, buf) recur on begins kept =
      bind-Ensures (any-Ensures (v.closedir d))
        (λ z h. pure-Ensures (Restored old a) (cut-Restored old out a b begins kept))
  on_entry-Restored tree rest b out (d, pos (suc n), buf) recur on begins kept =
      bind-Ensures
        (any-Ensures (lift (strncpy b.tree_filename (c_string buf) tree_max_filename_len)))
        (λ name h. bind-Ensures (recur (record b { tree_filename = name })) (λ w still.
          on_walked-Restored (rest d) out w (on d) (still.0 old begins)
            (λ path short h. still.0 path (kept path short h))))
  on_entry-Restored tree rest b out (d, negsuc c, buf) recur on begins kept =
      failed-Restored a b kept

  tree_entries-Restored :
      (tree : Arrays → Over S Walked) (k : ℕ) (d : D) (b : Arrays) (out : Text)
      → ((b : Arrays) → Ensures (Kept b) (tree b))
      → Begins old b.tree_path_buf
      → Keeps (length old) a.tree_path_buf b.tree_path_buf
      → Ensures (Restored old a) (tree_entries v tree (length old) k d b out)
  unfolding tree_entries
  tree_entries-Restored tree zero d b out recur begins kept = fail-Ensures (Restored old a)
  tree_entries-Restored tree (suc k) d b out recur begins kept =
      bind-Ensures (any-Ensures (v.readdir d)) (λ e h.
        on_entry-Restored tree (λ d b out. tree_entries v tree (length old) k d b out) b out e recur
          (λ d b out begins kept. tree_entries-Restored tree k d b out recur begins kept) begins
          kept)

  module _ (begins : Begins old a.tree_path_buf) where
    on_contents-Restored :
        (out : Text) (o : Option Text)
        → Ensures (Restored old a) (on_contents v (length old) out a o)
    on_contents-Restored out none =
        pure-Ensures (Restored old a) (λ path short h. h, λ e. absurd (cc))
    on_contents-Restored out (some text) =
        pure-Ensures (Restored old a) (cut-Restored old out a a begins (λ path short h. h))

    tree_file-Restored :
        (contents : Bool) (out : Text)
        → Ensures (Restored old a) (tree_file v contents (length old) out a)
    unfolding tree_file
    tree_file-Restored true out =
        bind-Ensures (any-Ensures (file_contents v (c_string a.tree_path_buf)))
          (λ o h. on_contents-Restored out o)
    tree_file-Restored false out =
        pure-Ensures (Restored old a) (cut-Restored old out a a begins (λ path short h. h))

    module _ (tree : Arrays → Over S Walked)
        (recur : (b : Arrays) → Ensures (Kept b) (tree b)) where
      on_opened-Restored :
          (out : Text) (o : ℤ × D)
          → Ensures (Restored old a) (on_opened v tree (length old) out a o)
      on_opened-Restored out (pos n, d) =
          tree_entries-Restored tree v.fuel d a _ recur begins (λ path short h. h)
      on_opened-Restored out (negsuc c, d) = failed-Restored a a (λ path short h. h)

      tree_dir-Restored :
          (out : Text) → Ensures (Restored old a) (tree_dir v tree (length old) out a)
      unfolding tree_dir
      tree_dir-Restored out =
          bind-Ensures (any-Ensures (v.opendir (c_string a.tree_path_buf)))
            (λ o h. on_opened-Restored out o)

      on_stat-Restored :
          (contents : Bool) (out : Text) (o : ℤ × FileKind)
          → Ensures (Restored old a) (on_stat v tree contents (length old) out a o)
      on_stat-Restored contents out (pos n, regular) = tree_file-Restored contents out
      on_stat-Restored contents out (pos n, directory) = tree_dir-Restored out
      on_stat-Restored contents out (negsuc c, kind) = failed-Restored a a (λ path short h. h)

-- Whatever the file system answers, and with any fuel: what the array of the path begins with when
-- _tree_r is called it still begins with when it returns, and if it returns 0 the path in it is the
-- one it was called with.
tree_r-Kept :
    {S D : Type 0} (v : Vfs S D) (k depth : ℕ) (contents : Bool) (a : Arrays)
    → Ensures (Kept a) (tree_r v k depth contents a)
unfolding tree_r
tree_r-Kept v zero depth contents a = fail-Ensures (Kept a)
tree_r-Kept v (suc k) depth contents a =
    bind-Ensures (any-Ensures (lift (c_text a.tree_filename))) (λ filename h.
      bind-Ensures (lift-Ensures (strncat a.tree_path_buf (codes "/") tree_max_path_len)) (λ b e.
        bind-Ensures (lift-Ensures (strncat b filename tree_max_path_len)) (λ b' e'.
          bind-Ensures (any-Ensures (v.stat (c_string b'))) (λ o h s w s' run.
            let old = c_string a.tree_path_buf in
            let begins =
              strncat-Begins old b filename tree_max_path_len b' e'
                (strncat-Begins_old a.tree_path_buf (codes "/") tree_max_path_len b e) in
            let (keeps, back) =
              on_stat-Restored v old (record a { tree_path_buf = b' }) begins
                (tree_r v k ((depth + 1) % 256) contents)
                (λ a. tree_r-Kept v k ((depth + 1) % 256) contents a) contents
                (indent depth ++ codes "- " ++ filename) o s w s' run in
            (
              λ path h. keeps path (Begins-length path a.tree_path_buf h) (
                  strncat-Begins path b filename tree_max_path_len b' e'
                    (strncat-Begins path a.tree_path_buf (codes "/") tree_max_path_len b e h)),
              back,
            )))))

-- Whatever the file system answers, and with any fuel: if _tree_r returns 0, the path in its array
-- is the one it was called with, and the array still begins with whatever it began with.
pub tree_r-restored :
    {S D : Type 0} (v : Vfs S D) (k depth : ℕ) (contents : Bool) (a a' : Arrays) (s s' : S)
    (out path : Text)
    → tree_r v k depth contents a s ≡ ok ((out, pos 0, a'), s')
    → Begins path a.tree_path_buf
    → (c_string a'.tree_path_buf ≡ c_string a.tree_path_buf) × Begins path a'.tree_path_buf
tree_r-restored v k depth contents a a' s s' out path run begins =
    let (keeps, back) = tree_r-Kept v k depth contents a s (out, pos 0, a') s' run in
    (back refl, keeps path begins)
