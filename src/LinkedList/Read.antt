-- ===== src/LinkedList/Read.antt =====
-- What linked_list_read and linked_list_read_ip return, by the length of the list.
use dca.Common.{
  ℕ, zero, suc, ◌+◌, ◌-◌, ◌≤◌, ◌<◌, ◌≡◌, ◌≢◌, refl, Option, none, some, List, [], ◌∷◌, arith,
  length, get_elem?, ok, fault, null_deref, Buffer, Text,
}
use dca.LinkedList.{Neighbor, advance, subfield, read_at, read, read_ip}

abbrev pub value_at : ℕ → Option Neighbor → ℕ
value_at s none = 1
value_at s (some x) = subfield s x

read_at-advance :
    (s n : ℕ) (l : List Neighbor)
    → n ≤ length l
    → read_at s (advance n l) ≡ ok (value_at s (get_elem? l n))
unfolding advance read_at
read_at-advance s zero [] h = refl
read_at-advance s zero (x ∷ l) h = refl
read_at-advance s (suc n) [] h = absurd (omega arith)
read_at-advance s (suc n) (x ∷ l) h = read_at-advance s n l (omega arith)

advance_past : (n : ℕ) (l : List Neighbor) → length l < n → advance n l ≡ fault null_deref
unfolding advance
advance_past zero l h = absurd (omega arith)
advance_past (suc n) [] h = refl
advance_past (suc n) (x ∷ l) h = advance_past n l (omega arith)

-- For a number of at most the list's length plus one, linked_list_read returns the chosen
-- measurement of the neighbour at place n - 1 (place 0 for n = 0), and 1 if there is none there.
pub read_lem :
    (s n : ℕ) (l : List Neighbor)
    → n ≤ length l + 1
    → read s n l ≡ ok (value_at s (get_elem? l (n - 1)))
unfolding read
read_lem s n [] h = refl
read_lem s n (x ∷ l) h = read_at-advance s (n - 1) (x ∷ l) (omega arith)

-- On a list that is not empty, a number that passes its length by two or more makes linked_list_read
-- and linked_list_read_ip follow a NULL pointer.
pub read_past :
    (to_str : ℕ → Text) (s n : ℕ) (buf : Buffer) (l : List Neighbor)
    → l ≢ []
    → length l + 1 < n
    → (read s n l ≡ fault null_deref) × (read_ip to_str n buf l ≡ fault null_deref)
unfolding read read_ip
read_past to_str s n buf [] ne h = absurd (ne refl)
read_past to_str s n buf (x ∷ l) ne h =
    let e = advance_past (n - 1) (x ∷ l) (omega arith) in (rw e, rw e)
