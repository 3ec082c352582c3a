-- ===== src/State.antt =====
-- The program's global variables, and commands over them: the variables are passed through, and a
-- command can fault.
use dca.Common.{
  ◌≡◌, refl, ap, ◌⊎◌, inl, inr, ℕ, List, Bool, true, false, Option, none, some, Result, ok, fault,
  Fault, assertion, null_deref,
}
use mathlib.Core.Path.{subst}
use dca.LinkedList.{Neighbor}

-- `_field_count` of ps.c and `_saul_field_count` are int8_t, kept as bit patterns below 256; the
-- three variables of netif.c are uint8_t. `head` is that of linked_list.c.
pub record Globals : Type 0 where
  pub field_count : ℕ
  pub saul_field_count : ℕ
  pub netif_field_count : ℕ
  pub netif_sub_field_count : ℕ
  pub num_neighbours : ℕ
  pub head : List Neighbor

-- commands over a state of type S
abbrev pub Over : Type 0 → Type 0 → Type 0
Over S A = S → Result (A × S)

abbrev pub Cmd : Type 0 → Type 0
Cmd A = Over Globals A

module _ {S A : Type 0} where
  abbrev pub pure : A → Over S A
  pure a g = ok (a, g)

  abbrev pub fail : Fault → Over S A
  fail f g = fault f

  abbrev pub lift : Result A → Over S A
  lift (ok a) g = ok (a, g)
  lift (fault f) g = fault f

module _ {A : Type 0} where
  abbrev pub gets : (Globals → A) → Cmd A
  gets f g = ok (f g, g)

  -- a pointer that is read through
  abbrev pub deref : Option A → Cmd A
  deref none g = fault null_deref
  deref (some a) g = ok (a, g)

  -- assert(p != NULL), and the value that p points to
  abbrev pub assert_some : Option A → Cmd A
  assert_some none g = fault assertion
  assert_some (some a) g = ok (a, g)

abbrev pub assert : {S : Type 0} → Bool → Over S (Unit {0})
assert true g = ok (tt, g)
assert false g = fault assertion

abbrev pub modify : (Globals → Globals) → Cmd (Unit {0})
modify f g = ok (tt, f g)

module _ {S A B : Type 0} where
  abbrev pub and_then : Result (A × S) → (A → Over S B) → Result (B × S)
  and_then (ok (a, g)) k = k a g
  and_then (fault f) k = fault f

  infixl 5 ◌>>=◌ ◌>>◌
  abbrev pub ◌>>=◌ : Over S A → (A → Over S B) → Over S B
  m >>= k = λ g. and_then (m g) k

  abbrev pub ◌>>◌ : Over S A → Over S B → Over S B
  m >> n = m >>= λ _. n

-- how a command ends
pub Result-cases :
    {S A : Type 0} (m : Result (A × S))
    → ((a : A) × (g : S) × (m ≡ ok (a, g))) ⊎ ((f : Fault) × (m ≡ fault f))
Result-cases (ok (a, g)) = inl (a, g, refl)
Result-cases (fault f) = inr (f, refl)

-- Every result that a command returns satisfies Q.
abbrev pub Ensures : {S A : Type 0} → (A → Type 0) → Over S A → Type 0
Ensures {S} {A} Q m = (s : S) (a : A) (s' : S) → m s ≡ ok (a, s') → Q a

ok-injective : {A : Type 0} (a b : A) → ok a ≡ ok b → a ≡ b
ok-injective a b e = cc

module _ {S A : Type 0} (Q : A → Type 0) where
  pub pure-Ensures : {a : A} → Q a → Ensures {S = S} Q (pure a)
  pure-Ensures {a} h s b s' e = subst Q (ap (λ p. p.0) (ok-injective (a, s) (b, s') e)) h

  pub fail-Ensures : {f : Fault} → Ensures {S = S} Q (fail f)
  fail-Ensures s b s' e = absurd (cc)

pub lift-Ensures : {S A : Type 0} (m : Result A) → Ensures {S = S} (λ a. m ≡ ok a) (lift m)
lift-Ensures (ok a) s b s' e = ap ok (ap (λ p. p.0) (ok-injective (a, s) (b, s') e))
lift-Ensures (fault f) s b s' e = absurd (cc)

pub any-Ensures : {S A : Type 0} (m : Over S A) → Ensures (λ a. Unit {0}) m
any-Ensures m s a s' e = tt

module _ {S A B : Type 0} {P : A → Type 0} {Q : B → Type 0} where
  pub bind-Ensures :
      {m : Over S A} {k : A → Over S B}
      → Ensures P m
      → ((a : A) → P a → Ensures Q (k a))
      → Ensures Q (m >>= k)
  bind-Ensures {m} {k} hm hk s b s' e = elim (Result-cases (m s)) [
    | inl (a, s₁, e₁) ↦ hk a (hm s a s₁ e₁) s₁ b s' (rw e₁ at e)
    | inr (f, e₁) ↦ absurd (cc (rw e₁ at e))
  ]
