-- ===== src/Json/Int.antt =====
-- Python's `int`.
use cross_agent_chat.Prelude.{eqb, eqb_iff, ℕ, ◌≡◌, ap, Bool, true, false, arith}

-- `negsuc n` is -(n + 1).
pub data ℤ : Type 0 where
  pos : ℕ → ℤ
  negsuc : ℕ → ℤ

unfoldable pub int_eq : ℤ → ℤ → Bool
int_eq (pos m) (pos n) = eqb m n
int_eq (negsuc m) (negsuc n) = eqb m n
int_eq _ _ = false

pub int_eq_sound : (i j : ℤ) → int_eq i j ≡ true → i ≡ j
unfolding int_eq
int_eq_sound (pos m) (pos n) h = ap pos ((eqb_iff m n).0 h)
int_eq_sound (negsuc m) (negsuc n) h = ap negsuc ((eqb_iff m n).0 h)
int_eq_sound (pos m) (negsuc n) h = absurd (cc)
int_eq_sound (negsuc m) (pos n) h = absurd (cc)

pub int_eq_refl : (i : ℤ) → int_eq i i ≡ true
unfolding int_eq
int_eq_refl (pos n) = ground (arith, eqb_iff n n)
int_eq_refl (negsuc n) = ground (arith, eqb_iff n n)
