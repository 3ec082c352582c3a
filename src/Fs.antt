-- ===== src/Fs.antt =====
-- fs.c: the driver dcafs, through which RIOT's VFS opens, reads and lists nodes as files. A file
-- carries a copy of its node and its position, a directory a copy of its node. A position is never
-- negative: the VFS opens a file at 0, and `lseek` refuses a negative one.
pub mod Reading
pub mod Threads
pub mod Rewind
use dca.Common.{
  ℕ, ◌+◌, ◌-◌, Bool, true, not, Option, none, some, Text, Buffer, ℤ, pos, negsuc, ◌+ℤ◌, ◌++◌,
  Result, ok, fault, out_of_bounds, overflow, leb, ltb, ◌==◌, if◌then◌else◌, length, take, drop,
  bit_and,
}
use dca.Riot.{Riot, fresh}
use dca.State.{Cmd, pure, lift, assert, ◌>>=◌, ◌>>◌}
use dca.Node.{null, inner, int, float, str, Node, uninit}
use dca.Db.Ops.{
  Ret, done, error, efault, einval, erofs, ebadf, is_null, get_type, get_size, get_name,
  get_next_child, get_int_value, get_float_value, get_str_value,
}
use dca.Db.Value.{write_text}
use dca.Db.Find.{find_node_by_path}

abbrev pub max_str_len : ℕ
max_str_len = 128

abbrev pub float_precision : ℕ
float_precision = 7

pub record File : Type 0 where
  pub node : Node
  pub offset : ℕ

-- st_mode: a directory or a regular file, in both cases readable by all and writable by none
pub data FileKind : Type 0 where
  directory regular : FileKind

pub record Stat : Type 0 where
  pub nlink : ℕ
  pub mode : FileKind
  pub size : ℕ
  pub blocks : ℕ
  pub blksize : ℕ

-- struct statvfs; f_flag is ST_RDONLY and ST_NOSUID
pub record StatVfs : Type 0 where
  pub bsize : ℕ
  pub frsize : ℕ
  pub blocks : ℕ
  pub bfree : ℕ
  pub bavail : ℕ
  pub files : ℕ
  pub ffree : ℕ
  pub favail : ℕ
  pub fsid : ℕ
  pub rdonly : Bool
  pub nosuid : Bool
  pub namemax : ℕ

pub data Whence : Type 0 where
  seek_set seek_cur seek_end other_whence : Whence

-- dcafs_mount, dcafs_umount, dcafs_close, dcafs_closedir: they ignore their argument.
abbrev pub mount : Ret ℕ
mount = done 0

abbrev pub umount : Ret ℕ
umount = done 0

abbrev pub close : File → Ret ℕ
close filp = done 0

abbrev pub closedir : Node → Ret ℕ
closedir dirp = done 0

-- dcafs_unlink
abbrev pub unlink : Text → Ret ℕ
unlink name = error erofs

-- dcafs_write
abbrev pub write : File → Buffer → Ret ℕ
write filp src = error ebadf

-- dcafs_statvfs, for a path and a buffer, which may be NULL
unfoldable pub statvfs : Text → Bool → Ret StatVfs
statvfs path buf_is_null =
    if buf_is_null
    then error efault
    else done (record {
      bsize = 1;
      frsize = 1;
      blocks = 1;
      bfree = 0;
      bavail = 0;
      files = 0;
      ffree = 0;
      favail = 0;
      fsid = 0;
      rdonly = true;
      nosuid = true;
      namemax = 255;
    })

module _ (r : Riot) where
  -- _dcafs_write_stat
  unfoldable pub write_stat : Node → Cmd Stat
  write_stat node = do
    ended ← is_null r node
    assert (not ended)
    t ← get_type r node
    size ← get_size r node
    blocks ← get_size r node
    pure (record {
      nlink = 1;
      mode = elim t [ inner ↦ directory | _ ↦ regular ];
      size = size;
      blocks = blocks;
      blksize = 1;
    })

  -- dcafs_stat, for a buffer that is not NULL
  unfoldable pub stat : Text → Cmd (Ret Stat)
  unfolding write_stat
  stat name = do
    found ← find_node_by_path r name
    elim found [ done node ↦ (do s ← write_stat node; pure (done s)) | error e ↦ pure (error e) ]

  -- dcafs_fstat, for a buffer that is not NULL
  unfoldable pub fstat : File → Cmd (Ret Stat)
  unfolding write_stat
  fstat filp = do s ← write_stat filp.node; pure (done s)

  -- the end of dcafs_lseek
  seek_to : File → ℤ → Cmd (File × Ret ℕ)
  seek_to filp (pos off) = pure (record filp { offset = off }, done off)
  seek_to filp (negsuc n) = pure (filp, error einval)

  -- A sum in off_t, whose largest value is `off_max`. C does not define what a larger one is.
  abbrev pub in_off_t : ℤ → Result ℤ
  in_off_t (pos n) = if leb n r.off_max then ok (pos n) else fault overflow
  in_off_t (negsuc n) = ok (negsuc n)

  -- dcafs_lseek
  unfoldable pub lseek : File → ℤ → Whence → Cmd (File × Ret ℕ)
  unfolding seek_to
  lseek filp off seek_set = seek_to filp off
  lseek filp off seek_cur = do off ← lift (in_off_t (off +ℤ pos filp.offset)); seek_to filp off
  lseek filp off seek_end = do
    size ← get_size r filp.node
    off ← lift (in_off_t (off +ℤ pos size))
    seek_to filp off
  lseek filp off other_whence = pure (filp, error einval)

  -- dcafs_open
  unfoldable pub open_file : Text → ℕ → Cmd (Ret File)
  open_file name flags =
      if not (bit_and flags r.o_accmode == r.o_rdonly) then pure (error erofs) else do
        found ← find_node_by_path r name
        elim found [
          | done node ↦ pure (done (record { node = node; offset = 0 }))
          | error e ↦ pure (error e)
        ]

  unfoldable pub write_data : Text → Buffer → Cmd (Ret (Buffer × ℕ))
  write_data s buf = do buf ← lift (write_text s buf); pure (done (buf, length s))

  -- The `switch` of dcafs_read: the local array and the size of the contents.
  unfoldable pub contents : Node → Cmd (Ret (Buffer × ℕ))
  unfolding write_data
  contents node = do
    t ← get_type r node
    elim t [
      | int ↦ (do val ← get_int_value r node; write_data (r.fmt_s32_dec val) (fresh r max_str_len))
      | float ↦ (do
        val ← get_float_value r node
        write_data (r.fmt_float val float_precision) (fresh r max_str_len))
      | str ↦ (do p ← get_str_value r node (fresh r max_str_len) max_str_len; pure (done p))
      | inner ↦ pure (error efault)
      | null ↦ pure (error efault)
    ]

  -- memcpy(dest, data + pos, nbytes)
  abbrev pub copy_out : Buffer → Buffer → ℕ → ℕ → Result Buffer
  copy_out dest buf at nbytes =
      if leb (at + nbytes) (length buf)
      then (if leb nbytes (length dest)
          then ok (take nbytes (drop at buf) ++ drop nbytes dest)
          else fault out_of_bounds)
      else fault out_of_bounds

  -- The rest of dcafs_read, from the contents on: the file, `dest` and the bytes read.
  unfoldable pub read_from : Buffer × ℕ → File → Buffer → ℕ → Cmd (File × Buffer × ℕ)
  read_from p filp dest nbytes =
      let size = p.1 in
      if leb size filp.offset then pure (filp, dest, 0) else do
        let n = if ltb (size - filp.offset) nbytes then size - filp.offset else nbytes
        dest ← lift (copy_out dest p.0 filp.offset n)
        pure (record filp { offset = filp.offset + n }, dest, n)

  -- dcafs_read
  unfoldable pub read : File → Buffer → ℕ → Cmd (Ret (File × Buffer × ℕ))
  unfolding contents read_from
  read filp dest nbytes = do
    c ← contents filp.node
    elim c [
      | done p ↦ (do q ← read_from p filp dest nbytes; pure (done q))
      | error e ↦ pure (error e)
    ]

  -- dcafs_opendir: the directory's node
  unfoldable pub opendir : Text → Cmd (Ret Node)
  opendir dirname = find_node_by_path r dirname

  -- dcafs_readdir: the directory's node afterwards, and the name written if there is one. The
  -- child is a new variable in each call.
  unfoldable pub readdir : Node → Buffer → Cmd (Node × Option Buffer)
  readdir dir d_name = do
    p ← get_next_child r dir uninit
    ended ← is_null r p.1
    (if ended then pure (p.0, none) else do d_name ← get_name r p.1 d_name; pure (p.0, some d_name))
