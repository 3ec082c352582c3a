-- ===== src/Tests/Files.antt =====
-- Two mounted file systems: one in memory, and dcafs of the small system.
use dca.Common.{
  ℕ, ◌+◌, Bool, true, false, Option, none, some, Text, Buffer, codes, zeros, bytes_eq, ℤ, pos,
  negsuc, [], ◌∷◌, ◌++◌, Result, ok, fault, ◌==◌, if◌then◌else◌, length, take, drop, ◌≡◌, refl,
  length-replicate,
}
use dca.State.{Globals, Over}
use dca.Node.{Node}
use dca.Db.Fl.{root}
use dca.Db.Ops.{Ret, done, error}
use dca.Fs
use dca.Fs.{File, FileKind, directory, regular}
use dca.Vfs.{Vfs}
use dca.Vfs.Tree.Serves.{file, dir, Entries, nil, entry}
use dca.Vfs.Cat.Dcafs.{Mounted}
use dca.Tests.Demo.{demo}

abbrev pub sub : Entries
sub = entry (codes "x") (file []) nil

abbrev pub top : Entries
top = entry (codes "a") (file (codes "12")) (entry (codes "sub") (dir sub) nil)

abbrev is_path : Text → Text → Bool
is_path = bytes_eq

abbrev memory_dir : Text → Option Entries
memory_dir path =
    if is_path path (codes "/d")
    then some top
    else if is_path path (codes "/d/sub")
    then some sub
    else none

abbrev memory_file : Text → Option ℕ
memory_file path =
    if is_path path (codes "/d/a")
    then some 0
    else if is_path path (codes "/d/sub/x")
    then some 1
    else if is_path path (codes "/d/broken")
    then some 2
    else none

abbrev memory_text : ℕ → Text
memory_text fd = if fd == 0 then codes "12" else []

-- The state is the position in the file that is open.
abbrev pub memory : Vfs ℕ Entries
memory = record {
  newlib = false;
  fuel = 10;
  open_file =
      λ path s. elim (memory_file path) [ none ↦ ok (negsuc 1, s) | some fd ↦ ok (pos fd, 0) ];
  read = λ fd n s.
      if fd == 2
      then ok ((negsuc 4, []), s)
      else (let got = take n (drop s (memory_text fd)) in
          ok ((pos (length got), got), s + length got));
  close = λ fd s. ok (pos 0, 0);
  fopen = λ path s. ok (none, s);
  fread = λ f n s. ok ((0, []), s);
  fclose = λ f s. ok (pos 0, s);
  stat = λ path s. elim (memory_dir path) [
    | some _ ↦ ok ((pos 0, directory), s)
    | none ↦ elim (memory_file path) [
      | some _ ↦ ok ((pos 0, regular), s)
      | none ↦ ok ((negsuc 1, regular), s)
    ]
  ];
  opendir = λ path s. elim (memory_dir path) [
    | some es ↦ ok ((pos 0, es), s)
    | none ↦ ok ((negsuc 1, nil), s)
  ];
  readdir = λ d s. elim d [
    | nil ↦ ok ((nil, pos 0, []), s)
    | entry name t es ↦ ok ((es, pos 1, name ++ 0 ∷ []), s)
  ];
  closedir = λ d s. ok (pos 0, s);
  perror = λ s. ok ([], s);
}

-- dcafs, mounted at "/dca" with one descriptor: its variables, and the file that is open.
abbrev pub Opened : Type 0
Opened = Globals × Option File

abbrev pub is_full : Opened → Bool
is_full (g, none) = false
is_full (g, some f) = true

abbrev pub open_at : Opened → ℕ → Option File
open_at s fd = if fd == 3 then s.1 else none

abbrev opened : Result (Ret File × Globals) → Result (ℤ × Opened)
opened (ok (done f, g)) = ok (pos 3, (g, some f))
opened (ok (error e, g)) = ok (negsuc 1, (g, none))
opened (fault f) = fault f

abbrev has_read : File → Result (Ret (File × Buffer × ℕ) × Globals) → Result ((ℤ × Buffer) × Opened)
has_read f (ok (done q, g)) = ok ((pos q.2, take q.2 q.1), (g, some q.0))
has_read f (ok (error e, g)) = ok ((negsuc 1, []), (g, some f))
has_read f (fault e) = fault e

abbrev dcafs_open : Text → Over Opened ℤ
dcafs_open path (g, none) = opened (Fs.open_file demo (drop 4 path) demo.o_rdonly g)
dcafs_open path (g, some f) = ok (negsuc 22, (g, some f))

abbrev dcafs_read : Option File → ℕ → Over Opened (ℤ × Buffer)
dcafs_read none n s = ok ((negsuc 8, []), s)
dcafs_read (some f) n s = has_read f (Fs.read demo f (zeros n) n s.0)

abbrev pub dcafs : Vfs Opened Node
dcafs = record {
  newlib = false;
  fuel = 40;
  open_file = dcafs_open;
  read = λ fd n s. dcafs_read (open_at s fd) n s;
  close = λ fd s. ok (pos 0, (s.0, none));
  fopen = λ path s. ok (none, s);
  fread = λ f n s. ok ((0, []), s);
  fclose = λ f s. ok (pos 0, s);
  stat = λ path s. ok ((negsuc 1, regular), s);
  opendir = λ path s. ok ((negsuc 1, root), s);
  readdir = λ d s. ok ((d, pos 0, []), s);
  closedir = λ d s. ok (pos 0, s);
  perror = λ s. ok ([], s);
}

dcafs-opens :
    (name : Text) (f : File) (g : Globals) (s : Opened)
    → is_full s ≡ false
    → Fs.open_file demo (codes "/" ++ name) demo.o_rdonly s.0 ≡ ok (done f, g)
    → (fd : ℕ) × (s' : Opened) × (dcafs.open_file (codes "/dca" ++ (codes "/" ++ name)) s
        ≡ ok (pos fd, s'))
      × (s'.0 ≡ g)
      × (open_at s' fd ≡ some f)
dcafs-opens name f g (h, none) free e = (3, (g, some f), rw e, refl, refl)
dcafs-opens name f g (h, some f') free e = absurd (cc)

still_open :
    (b : Bool) (o : Option File) (f f' : File)
    → (if b then o else none) ≡ some f
    → (if b then some f' else none) ≡ some f'
still_open true o f f' h = refl
still_open false o f f' h = absurd (cc)

dcafs-reads :
    (fd n m : ℕ) (f f' : File) (bytes : Buffer) (g : Globals) (s : Opened)
    → open_at s fd ≡ some f
    → ((dest : Buffer)
        → length dest ≡ n
        → (dest' : Buffer) × (Fs.read demo f dest n s.0 ≡ ok (done (f', dest', m), g))
          × (take m dest' ≡ bytes))
    → (s' : Opened) × (dcafs.read fd n s ≡ ok ((pos m, bytes), s'))
      × (s'.0 ≡ g)
      × (open_at s' fd ≡ some f')
dcafs-reads fd n m f f' bytes g s held reads =
    let (dest', e, same) = reads (zeros n) (length-replicate n 0) in
    ((g, some f'), rw (held, e, same), refl, still_open (fd == 3) s.1 f f' held)

pub dcafs-Mounted : Mounted demo dcafs (codes "/dca") (λ s. s.0) open_at is_full
dcafs-Mounted = record {
  opens = dcafs-opens;
  reads = dcafs-reads;
  closes = λ fd f s held. ((s.0, none), refl, refl);
}
