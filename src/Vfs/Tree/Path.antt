-- ===== src/Vfs/Tree/Path.antt =====
-- examples/vfs/main.c, `tree`: its two arrays, the path and the file name.
use dca.Common.{
  ℕ, zero, suc, ◌+◌, ◌≤◌, ◌≡◌, refl, ap, ◌∙◌, true, Text, Buffer, NoNul, c_string, has_nul, zeros,
  padded, c_text, strncpy, strncpy_le, strncat, [], ◌∷◌, ◌++◌, ok, leb, length, take, drop, set,
  length-append, length-drop, length-padded, drop-append, take_all, arith,
}
use mathlib.Core.List.{append_assoc}
use dca.Vfs.Tree.{Arrays, tree_max_path_len, tree_max_filename_len}

pub c_string-nul : (s : Text) (rest : Buffer) → NoNul s → c_string (s ++ 0 ∷ rest) ≡ s
c_string-nul [] rest h = refl
c_string-nul (c ∷ s) rest h = ground (arith, c_string-nul s rest)

has_nul-nul : (s rest : Buffer) → has_nul (s ++ 0 ∷ rest) ≡ true
has_nul-nul [] rest = refl
has_nul-nul (c ∷ s) rest = ground (arith, has_nul-nul s rest)

c_string-zeros_nul : (n k : ℕ) → c_string (take n (zeros k) ++ 0 ∷ []) ≡ []
c_string-zeros_nul zero k = refl
c_string-zeros_nul (suc n) zero = refl
c_string-zeros_nul (suc n) (suc k) = refl

c_string-take_nul :
    (n k : ℕ) (s : Text) → NoNul s → length s ≤ n → c_string (take n (s ++ zeros k) ++ 0 ∷ []) ≡ s
c_string-take_nul n k [] h fits = c_string-zeros_nul n k
c_string-take_nul zero k (c ∷ s) h fits = absurd (omega arith)
c_string-take_nul (suc n) k (c ∷ s) h fits = ground (arith, c_string-take_nul n k s)

length-set : (xs : Buffer) (i b : ℕ) → length (set xs i b) ≡ length xs
length-set [] i b = refl
length-set (x ∷ xs) zero b = refl
length-set (x ∷ xs) (suc i) b = ap suc (length-set xs i b)

pub set-append : (s rest : Buffer) (b c : ℕ) → set (s ++ b ∷ rest) (length s) c ≡ s ++ c ∷ rest
set-append [] rest b c = refl
set-append (a ∷ s) rest b c = ap (λ l. a ∷ l) (set-append s rest b c)

pub NoNul-append : (s t : Text) → NoNul s → NoNul t → NoNul (s ++ t)
NoNul-append [] t h i = i
NoNul-append (c ∷ s) t h i = (h.0, NoNul-append s t h.1 i)

-- an array of 257 bytes that holds this path
abbrev pub HoldsPath : Buffer → Text → Type 0
HoldsPath buf path =
    NoNul path × (length buf ≡ suc tree_max_path_len) × ((rest : Buffer) × (buf ≡ path ++ 0 ∷ rest))

-- an array of 31 bytes that ends with a NUL, as strncpy of 30 bytes leaves it
abbrev pub HoldsName : Buffer → Type 0
HoldsName buf = (s : Buffer) × (length s ≡ tree_max_filename_len) × (buf ≡ s ++ 0 ∷ [])

abbrev pub Ready : Arrays → Text → Type 0
Ready a path = HoldsPath a.tree_path_buf path × HoldsName a.tree_filename

pub c_string-HoldsPath : (buf : Buffer) (path : Text) → HoldsPath buf path → c_string buf ≡ path
c_string-HoldsPath buf path (h, n, (rest, e)) = rw e (c_string-nul path rest h)

-- strncat writes behind the path, where there is room.
pub strncat-HoldsPath :
    (buf : Buffer) (path s : Text)
    → HoldsPath buf path
    → NoNul s
    → length path + length s ≤ tree_max_path_len
    → (buf' : Buffer) × (strncat buf s tree_max_path_len ≡ ok buf') × HoldsPath buf' (path ++ s)
strncat-HoldsPath buf path s (k, n, (rest, e)) h room =
    let w = length path + length s + 1 in
    let buf' = (path ++ s) ++ 0 ∷ drop w buf in
    let fits : leb w (length buf) ≡ true = ground arith in
    (
      buf',
      rw (
        c_string-HoldsPath buf path (k, n, (rest, e)),
        take_all tree_max_path_len s (omega arith),
        fits,
      ),
      (
        NoNul-append path s k h,
        omega (
          arith,
          length-append (path ++ s) (0 ∷ drop w buf),
          length-append path s,
          length-drop w buf,
        ),
        (drop w buf, refl),
      ),
    )

-- *p = '\0' behind a part of the path
pub set-HoldsPath :
    (buf : Buffer) (path s : Text) (b : ℕ)
    → NoNul path
    → HoldsPath buf (path ++ b ∷ s)
    → HoldsPath (set buf (length path) 0) path
set-HoldsPath buf path s b h (_, n, (rest, e)) =
    let whole : set buf (length path) 0 ≡ path ++ 0 ∷ (s ++ 0 ∷ rest) =
      rw (e, append_assoc path (b ∷ s) (0 ∷ rest)) (set-append path (s ++ 0 ∷ rest) b 0) in
    (h, length-set buf (length path) 0 ∙ n, (s ++ 0 ∷ rest, whole))

pub HoldsName-padded :
    (name : Text)
    → NoNul name
    → length name ≤ tree_max_filename_len
    → HoldsName (padded tree_max_filename_len name ++ 0 ∷ [])
      × (c_text (padded tree_max_filename_len name ++ 0 ∷ []) ≡ ok name)
HoldsName-padded name h fits =
    let m = tree_max_filename_len in
    let text = padded m name in
    (
      (text, length-padded m name, refl),
      rw (has_nul-nul text [], c_string-take_nul m m name h fits),
    )

-- strncpy of a name into the array of names, and its C string
pub strncpy-HoldsName :
    (buf : Buffer) (name : Text)
    → HoldsName buf
    → NoNul name
    → length name ≤ tree_max_filename_len
    → (buf' : Buffer) × (strncpy buf name tree_max_filename_len ≡ ok buf')
      × HoldsName buf'
      × (c_text buf' ≡ ok name)
strncpy-HoldsName buf name (s, n, e) h fits =
    let m = tree_max_filename_len in
    let (held, text) = HoldsName-padded name h fits in
    (
      padded m name ++ 0 ∷ [],
      strncpy_le m buf name (omega (arith, ap length e, length-append s (0 ∷ [])))
          ∙ rw (e, drop-append m s (0 ∷ []) n),
      held,
      text,
    )
