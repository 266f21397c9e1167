-- ===== src/Base/Sort/Collations.antt =====
-- Comparators that are orders: what may be asked of a collation, and how comparators are made of it.
use mathlib.Core.Path.{◌≡◌, sym, ◌∙◌}
use mathlib.Core.Bool.{Bool, true, false, not, ◌||◌}
use native.Mathlib.Omega.{arith}
use kiyomi.Base.Tests.{if◌then◌else◌}
use kiyomi.Base.Int.{ℤ, ◌-ℤ◌, is_pos, is_neg, negate, is_pos-negate}
use kiyomi.Base.Sort.Laws.{IsConsistent}

-- What ECMAScript asks of `localeCompare`: the sign turns with the arguments, and the order is
-- transitive.
pub record IsCollation {ℓ} {A : Type ℓ} (compare : A → A → ℤ) : Type ℓ where
  pub turn : (x y : A) → is_pos (compare x y) ≡ is_neg (compare y x)
  pub trans :
      (x y z : A)
      → is_pos (compare x y) ≡ false
      → is_pos (compare y z) ≡ false
      → is_pos (compare x z) ≡ false

is_neg_of_is_pos : (n : ℤ) → is_pos n ≡ true → is_neg n ≡ false
is_neg_of_is_pos n h = ground arith

module _ {ℓ} {A : Type ℓ} {compare : A → A → ℤ} (c : IsCollation compare) where
  pub IsConsistent-ascending : IsConsistent compare
  IsConsistent-ascending = record {
    asymm = λ x y h. c.turn y x ∙ is_neg_of_is_pos (compare x y) h;
    trans = c.trans;
  }

  pub is_pos-negate_turn : (x y : A) → is_pos (negate (compare x y)) ≡ is_pos (compare y x)
  is_pos-negate_turn x y = is_pos-negate (compare x y) ∙ sym (c.turn y x)

  pub IsConsistent-descending : IsConsistent (λ x y. negate (compare x y))
  IsConsistent-descending = record {
    asymm = λ x y h.
        is_pos-negate_turn y x
        ∙ IsConsistent-ascending.asymm y x (sym (is_pos-negate_turn x y) ∙ h);
    trans = λ x y z h k.
        is_pos-negate_turn x z
        ∙ c.trans z y x (sym (is_pos-negate_turn y z) ∙ k) (sym (is_pos-negate_turn x y) ∙ h);
  }

pub IsCollation-sub {ℓ} : {A : Type ℓ} (n : A → ℤ) → IsCollation (λ x y. n x -ℤ n y)
unfolding ◌-ℤ◌
IsCollation-sub n = record { turn = λ x y. ground arith; trans = λ x y z h k. ground arith }

-- A collation of what the elements are read as, and the opposite one.
module _ {ℓ κ} {A : Type ℓ} {B : Type κ} {compare : B → B → ℤ} (c : IsCollation compare) where
  pub IsCollation-by : (f : A → B) → IsCollation (λ x y. compare (f x) (f y))
  IsCollation-by f = record {
    turn = λ x y. c.turn (f x) (f y);
    trans = λ x y z. c.trans (f x) (f y) (f z);
  }

module _ {ℓ} {A : Type ℓ} {compare : A → A → ℤ} (c : IsCollation compare) where
  pub IsCollation-flip : IsCollation (λ x y. compare y x)
  IsCollation-flip = record { turn = λ x y. c.turn y x; trans = λ x y z h k. c.trans z y x k h }

  -- One collation first, and another one where it finds no difference.
  module _ {other : A → A → ℤ} (d : IsCollation other) (same : A → A → Bool)
      (same_iff : (x y : A) → same x y ≡ not (is_pos (other x y) || is_pos (other y x))) where
    pub IsCollation-then : IsCollation (λ x y. if same x y then compare x y else other x y)
    IsCollation-then = record {
      turn = λ x y. ground (arith, same_iff x y, same_iff y x, c.turn x y, d.turn x y);
      trans = λ x y z h k. ground (
        arith,
        same_iff x y,
        same_iff y z,
        same_iff x z,
        c.trans x y z,
        d.trans x y z,
        d.trans y z x,
        d.trans z x y,
      );
    }
