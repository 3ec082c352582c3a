-- ===== src/Vfs/Tree/Begins.antt =====
-- examples/vfs/main.c, `tree`: what the writes to the path keep of it.
use dca.Common.{
  ℕ, zero, suc, ◌+◌, ◌≤◌, ◌≡◌, refl, sym, ap, ◌∙◌, Text, Buffer, NoNul, c_string, strncat, [], ◌∷◌,
  ◌++◌, ok, leb, length, take, drop, set, arith, length-append, Bool-cases, inl, inr,
}
use mathlib.Core.List.{append_assoc}
use dca.Vfs.Tree.Path.{c_string-nul, set-append}

-- The array begins with these bytes, and holds at least one more.
abbrev pub Begins : Text → Buffer → Type 0
Begins path buf = NoNul path × ((b : ℕ) × (rest : Buffer) × (buf ≡ path ++ b ∷ rest))

-- Whatever text the one array begins with, the other does, up to a length.
abbrev pub Keeps : ℕ → Buffer → Buffer → Type 0
Keeps n buf buf' = (path : Text) → length path ≤ n → Begins path buf → Begins path buf'

ok-injective : {A : Type 0} {a b : A} → ok a ≡ ok b → a ≡ b
ok-injective e = cc

c_string-append :
    (path rest : Buffer) → NoNul path → c_string (path ++ rest) ≡ path ++ c_string rest
c_string-append [] rest h = refl
c_string-append (c ∷ path) rest h = ground (arith, c_string-append path rest)

NoNul-c_string : (buf : Buffer) → NoNul (c_string buf)
NoNul-c_string [] = tt
NoNul-c_string (c ∷ buf) = ground (arith, NoNul-c_string buf)

set_behind :
    (path : Text) (b : ℕ) (rest : Buffer) (n : ℕ)
    → length path ≤ n
    → (b' : ℕ) × (rest' : Buffer) × (set (path ++ b ∷ rest) n 0 ≡ path ++ b' ∷ rest')
set_behind [] b rest zero h = (0, rest, refl)
set_behind [] b rest (suc n) h = (b, set rest n 0, refl)
set_behind (c ∷ path) b rest zero h = absurd (omega arith)
set_behind (c ∷ path) b rest (suc n) h =
    let (b', rest', e) = set_behind path b rest n (omega arith) in (b', rest', ap (λ l. c ∷ l) e)

pub set-Begins :
    (path buf : Text) (n : ℕ) → length path ≤ n → Begins path buf → Begins path (set buf n 0)
set-Begins path buf n long (h, (b, rest, e)) =
    let (b', rest', e') = set_behind path b rest n long in (h, (b', rest', rw e e'))

-- strncat writes behind the C string.
strncat-c_string :
    (buf s : Text) (n : ℕ) (buf' : Buffer)
    → strncat buf s n ≡ ok buf'
    → (t : Text) × (rest : Buffer) × (buf' ≡ c_string buf ++ t ++ 0 ∷ rest)
strncat-c_string buf s n buf' e =
    let old = c_string buf in
    let w = length old + length (take n s) + 1 in
    elim (Bool-cases (leb w (length buf))) [
      | inl fits ↦ (take n s, drop w buf, sym (ok-injective (rw fits at e)))
      | inr full ↦ absurd (cc (rw full at e))
    ]

cons_append :
    (s t : Text) (rest : Buffer) → (b : ℕ) × (rest' : Buffer) × (s ++ t ++ 0 ∷ rest ≡ b ∷ rest')
cons_append [] [] rest = (0, rest, refl)
cons_append [] (c ∷ t) rest = (c, t ++ 0 ∷ rest, refl)
cons_append (c ∷ s) t rest = (c, s ++ t ++ 0 ∷ rest, refl)

pub strncat-Begins :
    (path buf s : Text) (n : ℕ) (buf' : Buffer)
    → strncat buf s n ≡ ok buf'
    → Begins path buf
    → Begins path buf'
strncat-Begins path buf s n buf' e (h, (b, rest, same)) =
    let (t, end, written) = strncat-c_string buf s n buf' e in
    let c = c_string (b ∷ rest) in
    let (b', rest', cons) = cons_append c t end in
    let old : c_string buf ≡ path ++ c = rw same (c_string-append path (b ∷ rest) h) in
    (
      h,
      (
        b',
        rest',
        written ∙ rw (old, append_assoc path c t, append_assoc path (c ++ t) (0 ∷ end), cons),
      ),
    )

pub strncat-Begins_old :
    (buf s : Text) (n : ℕ) (buf' : Buffer) → strncat buf s n ≡ ok buf' → Begins (c_string buf) buf'
strncat-Begins_old buf s n buf' e =
    let (t, end, written) = strncat-c_string buf s n buf' e in
    let (b', rest', cons) = cons_append [] t end in
    (NoNul-c_string buf, (b', rest', written ∙ rw (append_assoc (c_string buf) t (0 ∷ end), cons)))

pub Begins-length : (path buf : Text) → Begins path buf → length path ≤ length (c_string buf)
Begins-length path buf (h, (b, rest, e)) = omega (
  arith,
  ap length (ap c_string e ∙ c_string-append path (b ∷ rest) h),
  length-append path (c_string (b ∷ rest)),
)

pub set-c_string : (path buf : Text) → Begins path buf → c_string (set buf (length path) 0) ≡ path
set-c_string path buf (h, (b, rest, e)) =
    rw (e, set-append path rest b 0) (c_string-nul path rest h)
