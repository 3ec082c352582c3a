-- ===== src/Fs/Rewind.antt =====
-- dcafs_lseek back over the bytes that dcafs_read returned.
use dca.Common.{
  ℕ, zero, suc, ◌+◌, ◌≤◌, ◌≡◌, refl, arith, Buffer, ◌++◌, drop, ℤ, pos, negsuc, ◌+ℤ◌, ok, length,
  le→leb, leb, true,
}
use dca.Riot.{Riot}
use dca.State.{Globals, ◌>>=◌}
use dca.Db.Ops.{done}
use dca.Fs.{File, seek_cur, seek_set, lseek, seek_to, read, contents}
use dca.Fs.Reading.{chunk, count_at, read-chunk}

-- the offset that goes back by so many bytes
abbrev pub back : ℕ → ℤ
back zero = pos 0
back (suc n) = negsuc n

back-forth : (a m : ℕ) → (back m +ℤ pos (a + m)) ≡ pos a
back-forth a zero = ground arith
back-forth a (suc m) =
    let fits : leb (0 + suc m) (a + suc m + 0) ≡ true = ground arith in ground arith

-- For a file whose contents are the same at each call and do not change the variables: a read,
-- SEEK_CUR back by as many bytes as it returned, and the same read into another buffer. The first
-- read returns the bytes from the position on; dcafs_lseek puts the file back where it stood, as
-- SEEK_SET to its old position does, and returns that position; and the second read returns the same
-- bytes and leaves the file where the first one left it. The contents lie within their array, both
-- buffers have the room that is asked for, and off_t holds the positions.
pub read-lseek-read :
    (r : Riot) (f : File) (bytes : Buffer) (size : ℕ) (g : Globals) (dest dest₂ : Buffer) (n : ℕ)
    → contents r f.node g ≡ ok (done (bytes, size), g)
    → size ≤ length bytes
    → n ≤ length dest
    → n ≤ length dest₂
    → f.offset ≤ r.off_max
    → (f' : File) × (m : ℕ) × (read r f dest n g
        ≡ ok (done (f', chunk bytes size f.offset n ++ drop m dest, m), g))
      × (lseek r f' (back m) seek_cur g ≡ ok ((f, done f.offset), g))
      × (lseek r f' (pos f.offset) seek_set g ≡ ok ((f, done f.offset), g))
      × ((do p ← lseek r f' (back m) seek_cur; read r p.0 dest₂ n) g
          ≡ ok (done (f', chunk bytes size f.offset n ++ drop m dest₂, m), g))
unfolding lseek seek_to
read-lseek-read r f bytes size g dest dest₂ n same fits room room₂ held =
    let m = count_at size f.offset n in
    let f' = record f { offset = f.offset + m } in
    let returned : lseek r f' (back m) seek_cur g ≡ ok ((f, done f.offset), g) =
      rw (back-forth f.offset m, ◌>>=◌, le→leb f.offset r.off_max held) in
    (
      f',
      m,
      read-chunk r bytes size fits f dest n g same room,
      returned,
      refl,
      rw (◌>>=◌, returned) (read-chunk r bytes size fits f dest₂ n g same room₂),
    )
