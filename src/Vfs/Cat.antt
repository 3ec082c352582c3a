-- ===== src/Vfs/Cat.antt =====
-- examples/vfs/main.c: the shell command `cat`.
pub mod Reads
pub mod Dcafs
pub mod Entries
use dca.Common.{
  ℕ, zero, suc, ◌+◌, ◌%◌, Bool, true, false, Option, none, some, Text, Buffer, codes, c_string,
  c_text, zeros, strncpy, strncat, ℤ, pos, negsuc, List, [], ◌∷◌, ◌++◌, no_fuel, uninitialised,
  assertion, Result, ok, fault, ltb, ◌==◌, if◌then◌else◌, length, drop, set,
}
use dca.State.{Over, pure, fail, lift, ◌>>=◌}
use dca.Fs.{FileKind, directory, regular}
use dca.Shell.{newline}
use dca.Vfs.{Vfs, nonzero}

-- putchar(c), for a variable that may not have been written
abbrev pub putchar : {S : Type 0} → Option ℕ → Over S Text
putchar none = fail uninitialised
putchar (some c) = pure (c ∷ [])

-- The variable `c` after a call that wrote these bytes to it.
abbrev pub overwritten : Option ℕ → Buffer → Option ℕ
overwritten c [] = c
overwritten c (b ∷ _) = some b

-- if(c != '\n') putchar('\n')
abbrev pub line_end : {S : Type 0} → Option ℕ → Over S Text
line_end none = fail uninitialised
line_end (some c) = pure (if c == 10 then [] else newline)

module _ {S D : Type 0} (v : Vfs S D) where
  -- The loop of _cat over read, on fuel: the text printed so far is `out`.
  unfoldable pub read_all : ℕ → ℕ → Option ℕ → Text → Over S (Text × Option ℕ)
  read_all zero fd c out = fail no_fuel
  read_all (suc k) fd c out = do
    q ← v.read fd 1
    (if nonzero q.0
        then (do s ← putchar (overwritten c q.1); read_all k fd (overwritten c q.1) (out ++ s))
        else pure (out, overwritten c q.1))

  -- The same loop over fread, with newlib.
  unfoldable pub fread_all : ℕ → ℕ → Option ℕ → Text → Over S (Text × Option ℕ)
  fread_all zero f c out = fail no_fuel
  fread_all (suc k) f c out = do
    q ← v.fread f 1
    elim q.0 [
      | zero ↦ pure (out, overwritten c q.1)
      | suc _ ↦ (do s ← putchar (overwritten c q.1); fread_all k f (overwritten c q.1) (out ++ s))
    ]

  missing : Text → Text
  missing path = codes "file " ++ path ++ codes " does not exist\n"

  -- _cat, with the low-level calls
  unfoldable pub cat_fd : Text → Over S (Text × ℤ)
  unfolding read_all missing
  cat_fd path = do
    fd ← v.open_file path
    elim fd [
      | negsuc _ ↦ pure (missing path, pos 1)
      | pos fd ↦ (do
        q ← read_all v.fuel fd none []
        e ← line_end q.1
        _ ← v.close fd
        pure (q.0 ++ e, pos 0))
    ]

  -- _cat, with newlib's streams
  unfoldable pub cat_stream : Text → Over S (Text × ℤ)
  unfolding fread_all missing
  cat_stream path = do
    f ← v.fopen path
    elim f [
      | none ↦ pure (missing path, pos 1)
      | some f ↦ (do
        q ← fread_all v.fuel f none []
        e ← line_end q.1
        _ ← v.fclose f
        pure (q.0 ++ e, pos 0))
    ]

  -- _cat, for the command's name and the arguments behind it
  unfoldable pub cat : Text → List Text → Over S (Text × ℤ)
  unfolding cat_fd cat_stream
  cat command [] = pure (codes "Usage: " ++ command ++ codes " <file>\n", pos 1)
  cat command (path ∷ _) = if v.newlib then cat_stream path else cat_fd path
