-- ===== src/Vfs/Cat/Reads.antt =====
-- examples/vfs/main.c, `cat`: how it ends, by what read returns.
use dca.Common.{
  ℕ, zero, suc, ◌+◌, ◌<◌, ◌≡◌, refl, false, none, some, Text, List, [], ◌∷◌, ◌++◌, ℤ, pos, negsuc,
  ok, fault, Fault, no_fuel, uninitialised, ◌==◌, if◌then◌else◌, length, arith,
}
use mathlib.Core.List.{append_assoc, append-nil}
use dca.State.{◌>>=◌}
use dca.Shell.{newline}
use dca.Vfs.{Vfs}
use dca.Vfs.Cat.{read_all, cat_fd, cat}

-- a text, and a newline if it does not end with one
abbrev pub last : ℕ → Text → ℕ
last b [] = b
last b (c ∷ s) = last c s

abbrev pub ended : ℕ → Text → Text
ended b s = b ∷ s ++ (if last b s == 10 then [] else newline)

abbrev stop : Text → Fault
stop [] = uninitialised
stop (_ ∷ _) = no_fuel

module _ {S D : Type 0} (v : Vfs S D) where
  -- Reads of one byte return these bytes, and then 0.
  abbrev pub Reads : ℕ → Text → S → S → Type 0
  Reads fd [] s s' = v.read fd 1 s ≡ ok ((pos 0, []), s')
  Reads fd (b ∷ bytes) s s' =
      (s₁ : S) × (v.read fd 1 s ≡ ok ((pos 1, b ∷ []), s₁)) × Reads fd bytes s₁ s'

  -- Reads of one byte return these bytes, and then an error each time.
  abbrev pub Fails : ℕ → Text → S → Type 0
  Fails fd [] s = (n : ℕ) × (v.read fd 1 s ≡ ok ((negsuc n, []), s))
  Fails fd (b ∷ bytes) s = (s₁ : S) × (v.read fd 1 s ≡ ok ((pos 1, b ∷ []), s₁)) × Fails fd bytes s₁

  read_all-Reads :
      (k fd c : ℕ) (bytes out : Text) (s s' : S)
      → length bytes < k
      → Reads fd bytes s s'
      → read_all v k fd (some c) out s ≡ ok ((out ++ bytes, some (last c bytes)), s')
  unfolding read_all
  read_all-Reads zero fd c bytes out s s' h e = absurd (omega arith)
  read_all-Reads (suc k) fd c [] out s s' h e = rw (◌>>=◌, e, append-nil)
  read_all-Reads (suc k) fd c (b ∷ bytes) out s s' h (s₁, e, rest) = rw (
    ◌>>=◌,
    e,
    read_all-Reads k fd b bytes (out ++ b ∷ []) s₁ s' (omega arith) rest,
    append_assoc out (b ∷ []) bytes,
  )

  read_all-Fails :
      (k fd c : ℕ) (bytes out : Text) (s : S)
      → Fails fd bytes s
      → read_all v k fd (some c) out s ≡ fault no_fuel
  unfolding read_all
  read_all-Fails zero fd c bytes out s e = refl
  read_all-Fails (suc k) fd c [] out s (n, e) =
      rw (◌>>=◌, e, read_all-Fails k fd c [] (out ++ c ∷ []) s (n, e))
  read_all-Fails (suc k) fd c (b ∷ bytes) out s (s₁, e, rest) =
      rw (◌>>=◌, e, read_all-Fails k fd b bytes (out ++ b ∷ []) s₁ rest)

  -- The first round, where `c` was not written.
  start-Reads :
      (k fd b : ℕ) (bytes : Text) (s s' : S)
      → length bytes + 1 < k
      → Reads fd (b ∷ bytes) s s'
      → read_all v k fd none [] s ≡ ok ((b ∷ bytes, some (last b bytes)), s')
  unfolding read_all
  start-Reads zero fd b bytes s s' h e = absurd (omega arith)
  start-Reads (suc k) fd b bytes s s' h (s₁, e, rest) =
      rw (◌>>=◌, e, read_all-Reads k fd b bytes (b ∷ []) s₁ s' (omega arith) rest)

  start-Fails :
      (k fd : ℕ) (bytes : Text) (s : S)
      → 0 < k
      → Fails fd bytes s
      → read_all v k fd none [] s ≡ fault (stop bytes)
  unfolding read_all
  start-Fails zero fd bytes s h e = absurd (omega arith)
  start-Fails (suc k) fd [] s h (n, e) = rw (◌>>=◌, e)
  start-Fails (suc k) fd (b ∷ bytes) s h (s₁, e, rest) =
      rw (◌>>=◌, e, read_all-Fails k fd b bytes (b ∷ []) s₁ rest)

-- `cat` on a file whose reads return at least one byte, and 0 behind the last one: it prints the
-- bytes, and a newline if they do not end with one, closes the file and returns 0. The fuel allows
-- one round more than there are bytes.
pub cat-Reads :
    {S D : Type 0} (v : Vfs S D) (command path : Text) (args : List Text) (fd b : ℕ) (bytes : Text)
    (closed : ℤ) (s s₁ s₂ s₃ : S)
    → v.newlib ≡ false
    → length bytes + 1 < v.fuel
    → v.open_file path s ≡ ok (pos fd, s₁)
    → Reads v fd (b ∷ bytes) s₁ s₂
    → v.close fd s₂ ≡ ok (closed, s₃)
    → cat v command (path ∷ args) s ≡ ok ((ended b bytes, pos 0), s₃)
unfolding cat cat_fd
cat-Reads v command path args fd b bytes closed s s₁ s₂ s₃ low enough opened reads e =
    rw (low, ◌>>=◌, opened, start-Reads v v.fuel fd b bytes s₁ s₂ enough reads, e)

-- `cat` on a file of which read fails after these bytes, and then each time, prints a variable that
-- was not written if there are none, and otherwise does not end: no fuel is enough. `v.fuel` allows
-- a round.
pub cat-Fails :
    {S D : Type 0} (v : Vfs S D) (command path : Text) (args : List Text) (fd : ℕ) (bytes : Text)
    (s s₁ : S)
    → v.newlib ≡ false
    → 0 < v.fuel
    → v.open_file path s ≡ ok (pos fd, s₁)
    → Fails v fd bytes s₁
    → cat v command (path ∷ args) s ≡ fault (stop bytes)
unfolding cat cat_fd
cat-Fails v command path args fd bytes s s₁ low some_fuel opened e =
    rw (low, ◌>>=◌, opened, start-Fails v v.fuel fd bytes s₁ some_fuel e)
