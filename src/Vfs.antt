-- ===== src/Vfs.antt =====
-- examples/vfs/main.c: what the example program takes from RIOT's VFS and the C library. Its shell
-- commands `cat` and `tree` read any mounted file system. What a command prints is the text that it
-- returns.
pub mod Cat
pub mod Tree
use dca.Common.{
  ℕ, zero, suc, ◌+◌, ◌%◌, Bool, true, false, Option, none, some, Text, Buffer, codes, c_string,
  c_text, zeros, strncpy, strncat, ℤ, pos, negsuc, List, [], ◌∷◌, ◌++◌, no_fuel, uninitialised,
  assertion, Result, ok, fault, ltb, ◌==◌, if◌then◌else◌, length, drop, set,
}
use dca.State.{Over, pure, fail, lift, ◌>>=◌}
use dca.Fs.{FileKind, directory, regular}
use dca.Shell.{newline}

-- What the example takes from RIOT's VFS and the C library: S is the state that they keep, D a
-- vfs_DIR. A result below 0 is an error. `read` and `fread` return their result and the bytes that
-- they wrote, `stat` the kind of the path, `readdir` the array d_name.
pub record Vfs (S D : Type 0) : Type 0 where
  pub newlib : Bool
  pub fuel : ℕ
  pub open_file : Text → Over S ℤ
  pub read : ℕ → ℕ → Over S (ℤ × Buffer)
  pub close : ℕ → Over S ℤ
  pub fopen : Text → Over S (Option ℕ)
  pub fread : ℕ → ℕ → Over S (ℕ × Buffer)
  pub fclose : ℕ → Over S ℤ
  pub stat : Text → Over S (ℤ × FileKind)
  pub opendir : Text → Over S (ℤ × D)
  pub readdir : D → Over S (D × ℤ × Buffer)
  pub closedir : D → Over S ℤ
  pub perror : Over S Text

abbrev pub nonzero : ℤ → Bool
nonzero (pos zero) = false
nonzero (pos (suc n)) = true
nonzero (negsuc n) = true
