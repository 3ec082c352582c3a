-- ===== src/Db/Value/Numbers.antt =====
-- The text that db_node_value_to_str writes for a number.
use dca.Common.{
  Bool-cases, inl, inr, lt→ltb, le→leb, length-padded, ◌∙◌, ℕ, zero, suc, ◌+◌, ◌-◌, ◌≤◌, ◌<◌, ◌≡◌,
  refl, false, arith, Text, Buffer, [], ◌∷◌, ◌++◌, ℤ, codes, NoNul, c_string, Result, ok, ltb,
  length, set, drop, if◌then◌else◌, length-append, length-drop, strncpy-padded, padded,
}
use dca.Riot.{Riot}
use dca.State.{Globals, ◌>>=◌}
use dca.Node.{Node, int, float}
use dca.Db.Ops.{Ret, done, get_type, get_int_value, get_float_value}
use dca.Db.Value.{value_to_str, put_number, terminate, float_prescision}

-- The text, or "---" for a text that does not fit with its NUL.
unfoldable pub number_text : Text → ℕ → Text
number_text s bufsize = if ltb (length s) bufsize then s else codes "---"

c_string-set :
    (s : Text) (c : ℕ) (t : Buffer) → NoNul s → c_string (set (s ++ c ∷ t) (length s) 0) ≡ s
c_string-set [] c t h = refl
c_string-set (a ∷ s) c t h = ground (arith, c_string-set s c t)

length-set : (xs : Buffer) (i x : ℕ) → length (set xs i x) ≡ length xs
length-set [] i x = refl
length-set (y ∷ xs) zero x = refl
length-set (y ∷ xs) (suc i) x = ground (arith, length-set xs i x)

c_string-cut :
    (s : Text) (t : Buffer) → NoNul s → 0 < length t → c_string (set (s ++ t) (length s) 0) ≡ s
c_string-cut s [] h e = absurd (omega arith)
c_string-cut s (c ∷ t) h e = c_string-set s c t h

-- What the cases int and float come to, for the text `s` of the number.
abbrev NumberResult : Text → ℕ → Result (Ret (Buffer × ℕ) × Globals) → Globals → Type 0
NumberResult s bufsize result g =
    (b : Buffer) × (result ≡ ok (done (b, length (number_text s bufsize) + 1), g))
    × (c_string b ≡ number_text s bufsize)
    × (length b ≡ bufsize)

le→not_ltb : (a b : ℕ) → b ≤ a → ltb a b ≡ false
le→not_ltb a b h = ground arith

c_string-dashes : (n : ℕ) → 4 ≤ n → c_string (set (padded n (codes "---")) 3 0) ≡ codes "---"
c_string-dashes (suc (suc (suc (suc n)))) h = refl
c_string-dashes zero h = absurd (omega arith)
c_string-dashes (suc zero) h = absurd (omega arith)
c_string-dashes (suc (suc zero)) h = absurd (omega arith)
c_string-dashes (suc (suc (suc zero))) h = absurd (omega arith)

length-overwritten :
    (s : Text) (buf : Buffer)
    → length s < length buf
    → length (s ++ drop (length s) buf) ≡ length buf
length-overwritten s buf h =
    omega (arith, length-append s (drop (length s) buf), length-drop (length s) buf)

fitting :
    (s : Text) (buf : Buffer) (g : Globals)
    → NoNul s
    → length s < length buf
    → NumberResult s (length buf) ((put_number s buf (length buf) >>= terminate) g) g
unfolding put_number terminate number_text
fitting s buf g h fits =
    let n = length buf in
    let whole = length-overwritten s buf fits in
    (
      set (s ++ drop (length s) buf) (length s) 0,
      rw (
        le→not_ltb (n - 1) (length s) (omega arith),
        le→leb (length s) n (omega arith),
        whole,
        lt→ltb (length s) n fits,
      ),
      rw (
        lt→ltb (length s) n fits,
        c_string-cut s (drop (length s) buf) h (omega (arith, length-drop (length s) buf)),
      ),
      rw (length-set (s ++ drop (length s) buf) (length s) 0, whole),
    )

too_long :
    (s : Text) (buf : Buffer) (g : Globals)
    → 4 ≤ length buf
    → length buf ≤ length s
    → NumberResult s (length buf) ((put_number s buf (length buf) >>= terminate) g) g
unfolding put_number terminate number_text
too_long s buf g h long =
    let n = length buf in
    let b = padded n (codes "---") in
    (
      set b 3 0,
      rw (
        lt→ltb (n - 1) (length s) (omega arith),
        le→not_ltb (length s) n long,
        strncpy-padded n buf (codes "---") refl,
        length-padded n (codes "---"),
        lt→ltb 3 n (omega arith),
      ),
      rw (le→not_ltb (length s) n long) (c_string-dashes n h),
      length-set b 3 0 ∙ length-padded n (codes "---"),
    )

number_result :
    (s : Text) (buf : Buffer) (g : Globals)
    → NoNul s
    → 4 ≤ length buf
    → NumberResult s (length buf) ((put_number s buf (length buf) >>= terminate) g) g
number_result s buf g h room = elim (Bool-cases (ltb (length s) (length buf))) [
  | inl e ↦ fitting s buf g h (ground arith)
  | inr e ↦ too_long s buf g room (ground arith)
]

module _ (r : Riot) where
  -- For an integer node whose value can be read, and whose decimal text is a C string,
  -- db_node_value_to_str on an array of at least 4 bytes leaves in it that text if it is shorter
  -- than the array, else "---". It returns the length of the text and its NUL, and after the
  -- reading of the value it changes no variable.
  pub value_to_str-int :
      (node : Node) (buf : Buffer) (g g₁ g₂ : Globals) (val : ℤ)
      → get_type r node g ≡ ok (int, g₁)
      → get_int_value r node g₁ ≡ ok (val, g₂)
      → NoNul (r.fmt_s32_dec val)
      → 4 ≤ length buf
      → (b : Buffer) × (value_to_str r node buf (length buf) g
          ≡ ok (done (b, length (number_text (r.fmt_s32_dec val) (length buf)) + 1), g₂))
        × (c_string b ≡ number_text (r.fmt_s32_dec val) (length buf))
        × (length b ≡ length buf)
  unfolding value_to_str
  value_to_str-int node buf g g₁ g₂ val t v h room =
      let (b, e, text, size) = number_result (r.fmt_s32_dec val) buf g₂ h room in
      (b, rw (◌>>=◌, le→leb 4 (length buf) room, t, v) e, text, size)

  -- For a floating-point node whose value can be read, and whose text with three digits is a C
  -- string, db_node_value_to_str on an array of at least 4 bytes leaves in it that text if it is
  -- shorter than the array, else "---". It returns the length of the text and its NUL, and after
  -- the reading of the value it changes no variable.
  pub value_to_str-float :
      (node : Node) (buf : Buffer) (g g₁ g₂ : Globals) (val : ℕ)
      → get_type r node g ≡ ok (float, g₁)
      → get_float_value r node g₁ ≡ ok (val, g₂)
      → NoNul (r.fmt_float val float_prescision)
      → 4 ≤ length buf
      → (b : Buffer) × (value_to_str r node buf (length buf) g
          ≡ ok (
            done (b, length (number_text (r.fmt_float val float_prescision) (length buf)) + 1),
            g₂,
          ))
        × (c_string b ≡ number_text (r.fmt_float val float_prescision) (length buf))
        × (length b ≡ length buf)
  unfolding value_to_str
  value_to_str-float node buf g g₁ g₂ val t v h room =
      let (b, e, text, size) = number_result (r.fmt_float val float_prescision) buf g₂ h room in
      (b, rw (◌>>=◌, le→leb 4 (length buf) room, t, v) e, text, size)
