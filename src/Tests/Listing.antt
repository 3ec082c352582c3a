-- ===== src/Tests/Listing.antt =====
-- The theorems about the shell commands of examples/vfs, applied to the mounted file systems.
use dca.Common.{
  ℕ, ◌≡◌, refl, c_string, Buffer, none, zeros, drop, true, false, codes, pos, [], ◌∷◌, ◌++◌, ok,
  fault, uninitialised, arith,
}
use dca.Riot.{fresh}
use dca.Db.Ops.{done, is_null, get_next_child, get_name, get_type, get_str_value}
use dca.Db.Find.{find_node_by_path, search_child}
use dca.Db.Index.{db_index}
use dca.Db.Fl
use dca.Board
use dca.Fs
use dca.State.{◌>>=◌}
use dca.Fs.Rewind.{back, read-lseek-read}
use dca.Fs.Reading.{chunk}
use dca.Fs.{File, seek_cur, seek_set, directory, regular}
use dca.Vfs.Cat.Dcafs.{cat-contents}
use dca.Tests.Demo.{demo, start}
use dca.Vfs.Cat.{cat, cat_fd, read_all}
use dca.Vfs.Cat.Reads.{cat-Fails}
use dca.Vfs.Tree.Begins.{Begins}
use dca.Vfs.Tree.Kept.{tree_r-restored}
use dca.Vfs.Tree.{Arrays, tree, tree_path, tree_r, tree_entries, tree_file, tree_dir, file_contents}
use dca.Vfs.Tree.Serves.{nil, entry, dir, Serves, size, reach, render}
use dca.Vfs.Tree.Render.{tree-render}
use dca.Tests.Files.{memory, top, sub, Opened, open_at, is_full, dcafs, dcafs-Mounted}

tree_run :
    tree memory (codes "tree") (codes "-p" ∷ codes "/d" ∷ []) 0
    ≡ ok ((codes "- d/\n  - a: 12\n  - sub/\n    - x\n", pos 0), 0)
unfolding tree tree_path tree_r tree_entries tree_file tree_dir file_contents
tree_run = refl

cat_run : cat memory (codes "cat") (codes "/d/a" ∷ []) 0 ≡ ok ((codes "12\n", pos 0), 0)
unfolding cat cat_fd read_all
cat_run = refl

cat-Fails_example : cat memory (codes "cat") (codes "/d/broken" ∷ []) 0 ≡ fault uninitialised
cat-Fails_example =
    cat-Fails memory (codes "cat") (codes "/d/broken") [] 2 [] 0 0 refl (omega arith) refl (4, refl)

abbrev Always : ℕ → Type 0
Always s = Unit {0}

sub-Serves : Serves memory Always (codes "/d/sub") (dir sub)
unfolding Serves
sub-Serves = (
  λ s i. (0, s, refl, tt),
  (
    sub,
    λ s i. (0, s, refl, tt),
    (
      nil,
      ((omega arith, tt), omega arith, omega arith),
      λ s i. (0, codes "x" ++ 0 ∷ [], s, refl, refl, tt),
      (tt, λ s i. (0, s, refl, tt), λ s i. (1, pos 0, 0, 0, 0, refl, refl, refl, tt)),
      λ s i. (nil, [], pos 0, s, s, refl, refl, tt),
    ),
  ),
)

memory-Serves : Serves memory Always (codes "/d") (dir top)
unfolding Serves
memory-Serves = (
  λ s i. (0, s, refl, tt),
  (
    top,
    λ s i. (0, s, refl, tt),
    (
      entry (codes "sub") (dir sub) nil,
      ((omega arith, tt), omega arith, omega arith),
      λ s i. (0, codes "a" ++ 0 ∷ [], s, refl, refl, tt),
      (
        (omega arith, (omega arith, tt)),
        λ s i. (0, s, refl, tt),
        λ s i. (0, pos 0, 0, 2, 0, refl, refl, refl, tt),
      ),
      (
        nil,
        ((omega arith, (omega arith, (omega arith, tt))), omega arith, omega arith),
        λ s i. (0, codes "sub" ++ 0 ∷ [], s, refl, refl, tt),
        sub-Serves,
        λ s i. (nil, [], pos 0, s, s, refl, refl, tt),
      ),
    ),
  ),
)

tree-render_example :
    (s₁ : ℕ) × (s₂ : ℕ) × (tree memory (codes "tree") (codes "/d" ∷ []) 5
      ≡ ok ((render 0 false (codes "d") (dir top), pos 0), s₁))
    × (tree memory (codes "tree") (codes "-p" ∷ codes "/d" ∷ []) 5
        ≡ ok ((render 0 true (codes "d") (dir top), pos 0), s₂))
unfolding size reach
tree-render_example =
    tree-render memory Always (codes "tree") (codes "/d") (codes "d") (codes "-p") [] top 5 refl
      ((omega arith, tt), omega arith, omega arith) refl refl (λ s i. (0, s, refl, tt))
      memory-Serves (omega arith) (omega arith) tt

abbrev board_name : Buffer
board_name = codes "rf52840dk" ++ zeros 118

name_found : find_node_by_path demo (codes "/board/name") start ≡ ok (done (Fl.init 0 0 0), start)
unfolding find_node_by_path is_null search_child get_next_child Fl.root_next_child db_index
    Fl.gettype get_name Fl.getname fresh Fl.getnext_child
name_found = refl

name_contents : Fs.contents demo (Fl.init 0 0 0) start ≡ ok (done (110 ∷ board_name, 10), start)
unfolding Fs.contents get_type Fl.gettype get_str_value Fl.getstr_value fresh db_index
    Board.get_name
name_contents = refl

cat-contents_example :
    (s' : Opened) × (cat dcafs (codes "cat") (codes "/dca/board/name" ∷ []) (start, none)
      ≡ ok ((codes "nrf52840dk\n", pos 0), s'))
    × (s'.0 ≡ start)
unfolding fresh
cat-contents_example =
    cat-contents demo dcafs (codes "/dca") (λ s. s.0) open_at is_full dcafs-Mounted (codes "cat")
      (codes "board/name") [] (Fl.init 0 0 0) 110 board_name 9 start (start, none) refl
      (omega arith) refl refl name_found name_contents (omega arith)

abbrev before : Arrays
before = record { tree_path_buf = codes "/d" ++ zeros 255; tree_filename = codes "sub" ++ zeros 28 }

abbrev behind : Arrays
behind = record {
  tree_path_buf = codes "/d" ++ 0 ∷ codes "sub" ++ 0 ∷ codes "x" ++ zeros 249;
  tree_filename = codes "x" ++ zeros 30;
}

tree_r_run : tree_r memory 10 1 true before 0 ≡ ok ((codes "  - sub/\n    - x\n", pos 0, behind), 0)
unfolding tree_r tree_entries tree_file tree_dir file_contents
tree_r_run = refl

tree_r-restored_example :
    (c_string behind.tree_path_buf ≡ c_string before.tree_path_buf)
    × Begins (codes "/d") behind.tree_path_buf
tree_r-restored_example =
    tree_r-restored memory 10 1 true before behind 0 0 (codes "  - sub/\n    - x\n") (codes "/d")
      tree_r_run ((omega arith, (omega arith, tt)), (0, zeros 254, refl))

abbrev name_file : ℕ → File
name_file at = record { node = Fl.init 0 0 0; offset = at }

read-lseek-read_example :
    (f' : File) × (m : ℕ) × (Fs.read demo (name_file 3) (zeros 4) 4 start
      ≡ ok (done (f', chunk (110 ∷ board_name) 10 3 4 ++ drop m (zeros 4), m), start))
    × (Fs.lseek demo f' (back m) seek_cur start ≡ ok ((name_file 3, done 3), start))
    × (Fs.lseek demo f' (pos 3) seek_set start ≡ ok ((name_file 3, done 3), start))
    × ((do p ← Fs.lseek demo f' (back m) seek_cur; Fs.read demo p.0 (zeros 9) 4) start
        ≡ ok (done (f', chunk (110 ∷ board_name) 10 3 4 ++ drop m (zeros 9), m), start))
read-lseek-read_example =
    read-lseek-read demo (name_file 3) (110 ∷ board_name) 10 start (zeros 4) (zeros 9) 4
      name_contents (omega arith) (omega arith) (omega arith) (omega arith)
