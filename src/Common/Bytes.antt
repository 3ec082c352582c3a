-- ===== src/Common/Bytes.antt =====
-- Text as lists of bytes, and the C string functions on fixed buffers that the source calls.
use Prim.Native.Nat.{ℕ, zero, suc, ◌≤◌, ◌<◌}
use Prim.Native.Char.{code}
use Prim.Native.String.{String}
use mathlib.Core.Path.{◌≡◌, refl}
use mathlib.Core.Bool.{Bool, true, false, ◌&&◌}
use mathlib.Core.List.{List, [], ◌∷◌, ◌++◌, append-nil}
use native.Mathlib.Omega.{arith}
use dca.Common.Tests.{◌==◌, if◌then◌else◌}
use dca.Common.Lists.{length, take, set, replicate, length-take, length-append, length-replicate}

-- A text has no NUL byte; a buffer is the bytes of a C array.
abbrev pub Text : Type 0
Text = List ℕ

abbrev pub Buffer : Type 0
Buffer = List ℕ

abbrev pub codes : String → Text
codes String.[] = []
codes (String.◌∷◌ c s) = code c ∷ codes s

abbrev pub zeros : ℕ → Buffer
zeros n = replicate n 0

-- The n bytes that `strncpy` writes for the text `s`.
abbrev pub padded : ℕ → Text → Buffer
padded n s = take n (s ++ zeros n)

-- The text that a buffer holds as a C string.
abbrev pub c_string : Buffer → Text
c_string [] = []
c_string (b ∷ bs) = let rest = c_string bs in if b == 0 then [] else b ∷ rest

abbrev pub has_nul : Buffer → Bool
has_nul [] = false
has_nul (b ∷ bs) = let rest = has_nul bs in if b == 0 then true else rest

-- `memcmp(a, b, len) == 0` on two regions of one length.
abbrev pub bytes_eq : Buffer → Buffer → Bool
bytes_eq [] [] = true
bytes_eq (a ∷ as') (b ∷ bs) = a == b && bytes_eq as' bs
bytes_eq [] (b ∷ bs) = false
bytes_eq (a ∷ as') [] = false

pub codes_eq_refl : (s : Buffer) → bytes_eq s s ≡ true
codes_eq_refl [] = refl
codes_eq_refl (a ∷ s) = ground (arith, codes_eq_refl s)

pub length-padded : (n : ℕ) (s : Text) → length (padded n s) ≡ n
length-padded n s =
    omega
      (arith, length-take n (s ++ zeros n), length-append s (zeros n), length-replicate {A = ℕ} n 0)

abbrev pub NoNul : Text → Type 0
NoNul [] = Unit
NoNul (c ∷ s) = (0 < c) × NoNul s

c_string-zeros : (n k : ℕ) → c_string (take n (zeros k)) ≡ []
c_string-zeros zero k = refl
c_string-zeros (suc n) zero = refl
c_string-zeros (suc n) (suc k) = refl

-- A text that fits is read back from the buffer that `strncpy` filled.
c_string-take : (n k : ℕ) (s : Text) → NoNul s → length s ≤ n → c_string (take n (s ++ zeros k)) ≡ s
c_string-take n k [] ok fits = c_string-zeros n k
c_string-take zero k (c ∷ s) ok fits = absurd (omega arith)
c_string-take (suc n) k (c ∷ s) ok fits = ground (arith, c_string-take n k s)

pub c_string-padded : (n : ℕ) (s : Text) → NoNul s → length s ≤ n → c_string (padded n s) ≡ s
c_string-padded n s ok fits = c_string-take n n s ok fits

-- a text in an array that is longer than it: there is a NUL, and the text in front of it
pub has_nul-filled :
    (n k : ℕ) (s : Text) (t : Buffer)
    → NoNul s
    → length s < n
    → n ≤ k
    → has_nul (take n (s ++ zeros k) ++ t) ≡ true
has_nul-filled zero k s t h e f = absurd (omega arith)
has_nul-filled (suc n) zero s t h e f = absurd (omega arith)
has_nul-filled (suc n) (suc k) [] t h e f = refl
has_nul-filled (suc n) (suc k) (c ∷ s) t h e f =
    ground (arith, has_nul-filled n (suc k) s t h.1 (omega arith) (omega arith))

pub c_string-filled :
    (n k : ℕ) (s : Text) (t : Buffer)
    → NoNul s
    → length s < n
    → n ≤ k
    → c_string (take n (s ++ zeros k) ++ t) ≡ s
c_string-filled zero k s t h e f = absurd (omega arith)
c_string-filled (suc n) zero s t h e f = absurd (omega arith)
c_string-filled (suc n) (suc k) [] t h e f = refl
c_string-filled (suc n) (suc k) (c ∷ s) t h e f =
    ground (arith, c_string-filled n (suc k) s t h.1 (omega arith) (omega arith))

-- the same with another NUL put there
pub c_string-terminated :
    (n k : ℕ) (s : Text) (t : Buffer)
    → NoNul s
    → length s < n
    → n ≤ k
    → c_string (set (take n (s ++ zeros k) ++ t) (length s) 0) ≡ s
c_string-terminated zero k s t h e f = absurd (omega arith)
c_string-terminated (suc n) zero s t h e f = absurd (omega arith)
c_string-terminated (suc n) (suc k) [] t h e f = refl
c_string-terminated (suc n) (suc k) (c ∷ s) t h e f =
    ground (arith, c_string-terminated n (suc k) s t h.1 (omega arith) (omega arith))

pub has_nul-padded : (n : ℕ) (s : Text) → NoNul s → length s < n → has_nul (padded n s) ≡ true
has_nul-padded n s h fits =
    rw (← append-nil (padded n s)) (has_nul-filled n n s [] h fits (omega arith))

pub has_nul-set : (buf : Buffer) (i : ℕ) → i < length buf → has_nul (set buf i 0) ≡ true
has_nul-set [] i h = absurd (omega arith)
has_nul-set (b ∷ buf) zero h = refl
has_nul-set (b ∷ buf) (suc i) h = ground (arith, has_nul-set buf i (omega arith))

-- where the text is shorter than the array, it ends with a NUL
pub has_nul-c_string : (buf : Buffer) → length (c_string buf) < length buf → has_nul buf ≡ true
has_nul-c_string [] h = absurd (omega arith)
has_nul-c_string (b ∷ buf) h = ground (arith, has_nul-c_string buf)

-- a text that fills the array leaves no room for a NUL
pub has_nul-full :
    (n k : ℕ) (s : Text) → NoNul s → n ≤ length s → has_nul (take n (s ++ zeros k)) ≡ false
has_nul-full zero k s h e = refl
has_nul-full (suc n) k [] h e = absurd (omega arith)
has_nul-full (suc n) k (c ∷ s) h e = ground (arith, has_nul-full n k s h.1 (omega arith))
