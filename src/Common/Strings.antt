-- ===== src/Common/Strings.antt =====
-- The C string functions that write into an array.
use Prim.Native.Nat.{ℕ, zero, suc, ◌+◌, ◌≤◌, ◌<◌}
use mathlib.Core.Path.{◌≡◌, refl, ◌∙◌}
use mathlib.Core.Bool.{true}
use mathlib.Core.List.{[], ◌∷◌, ◌++◌, append-nil}
use native.Mathlib.Omega.{arith}
use dca.Common.Tests.{leb, if◌then◌else◌}
use dca.Common.Lists.{length, take, drop, set, length-append, drop-append}
use dca.Common.Bytes.{
  Text, Buffer, padded, zeros, c_string, has_nul, length-padded, has_nul-set, has_nul-c_string,
}
use dca.Common.Outcome.{Result, ok, fault, out_of_bounds}

-- strncpy(dest, src, n): it writes n bytes.
abbrev pub strncpy : Buffer → Text → ℕ → Result Buffer
strncpy dest src n =
    if leb n (length dest) then ok (padded n src ++ drop n dest) else fault out_of_bounds

-- strcpy(dest, src): the text and a NUL.
abbrev pub strcpy : Buffer → Text → Result Buffer
strcpy dest src = strncpy dest src (length src + 1)

-- memset(dest, 0, n)
abbrev pub clear : Buffer → ℕ → Result Buffer
clear dest n = if leb n (length dest) then ok (zeros n ++ drop n dest) else fault out_of_bounds

pub drop_all : (n : ℕ) (buf : Buffer) → length buf ≡ n → drop n buf ≡ []
drop_all zero [] h = refl
drop_all zero (b ∷ buf) h = absurd (omega arith)
drop_all (suc n) [] h = refl
drop_all (suc n) (b ∷ buf) h = drop_all n buf (omega arith)

leb_refl : (n : ℕ) → leb n n ≡ true
leb_refl n = ground arith

pub strncpy_le :
    (n : ℕ) (buf : Buffer) (s : Text)
    → n ≤ length buf
    → strncpy buf s n ≡ ok (padded n s ++ drop n buf)
strncpy_le n buf s h = ground arith

-- A second copy over the first one keeps what lies behind.
pub strncpy-strncpy :
    (n : ℕ) (buf : Buffer) (s t : Text)
    → strncpy (padded n s ++ drop n buf) t n ≡ ok (padded n t ++ drop n buf)
strncpy-strncpy n buf s t =
    strncpy_le n (padded n s ++ drop n buf) t
      (omega (arith, length-append (padded n s) (drop n buf), length-padded n s))
    ∙ rw (drop-append n (padded n s) (drop n buf) (length-padded n s))

-- An array of n bytes is overwritten whole.
pub strncpy-padded :
    (n : ℕ) (buf : Buffer) (s : Text) → length buf ≡ n → strncpy buf s n ≡ ok (padded n s)
strncpy-padded n buf s h = rw (h, leb_refl, drop_all n buf h, append-nil)

-- The C string in an array; without a NUL the reader runs over its end.
abbrev pub c_text : Buffer → Result Text
c_text buf = if has_nul buf then ok (c_string buf) else fault out_of_bounds

-- strncat(dest, src, n): at most n bytes of the text behind the one in `dest`, and a NUL.
abbrev pub strncat : Buffer → Text → ℕ → Result Buffer
strncat dest src n =
    let old = c_string dest in
    let added = take n src in
    let written = length old + length added + 1 in
    if leb written (length dest)
    then ok (old ++ added ++ 0 ∷ drop written dest)
    else fault out_of_bounds

-- an array in which a NUL was put behind a text
pub c_text-set :
    (buf : Buffer) (i : ℕ) (s : Text)
    → i < length buf
    → c_string (set buf i 0) ≡ s
    → c_text (set buf i 0) ≡ ok s
c_text-set buf i s h e = rw (has_nul-set buf i h, e)

-- an array that is longer than its text
pub c_text-short :
    (buf : Buffer) (s : Text) → length s < length buf → c_string buf ≡ s → c_text buf ≡ ok s
c_text-short buf s h e = rw (has_nul-c_string buf (rw e (h)), e)
