-- ===== src/Base/Text/Laws.antt =====
-- `trim` twice is `trim` once.
use Prim.Native.Char.{Char, code}
use Prim.Native.String.{String, [], ◌∷◌}
use mathlib.Core.Path.{◌≡◌, refl, ap, ◌∙◌}
use mathlib.Core.Logic.{inl, inr}
use mathlib.Core.Bool.{◌&&◌}
use native.Mathlib.Omega.{arith}
use mathlib.Core.Bool.{false}
use text.Mathlib.TextEquality.{eq_iff}
use kiyomi.Base.Tests.{Bool-cases, is_blank}
use mathlib.Core.Bool.{true}
use Prim.Native.String
use Prim.Native.String.append
use kiyomi.Base.Text.{
  starts, starts_with, drop_front, is_space, trim_start, trim_end, put_before, trim,
}

trim_end-put_before :
    (c : Char) (r : String) → trim_end r ≡ r → trim_end (put_before c r) ≡ put_before c r
unfolding put_before trim_end
trim_end-put_before c r h = elim (Bool-cases (is_blank r && is_space (code c))) [
  | inl e ↦ rw e
  | inr e ↦ rw (e, h, put_before, e) refl
]

trim_end_idem : (s : String) → trim_end (trim_end s) ≡ trim_end s
unfolding trim_end
trim_end_idem [] = refl
trim_end_idem (c ∷ s) = trim_end-put_before c (trim_end s) (trim_end_idem s)

trim_start-trim_end : (s : String) → trim_start (trim_end (trim_start s)) ≡ trim_end (trim_start s)
unfolding trim_start trim_end put_before
trim_start-trim_end [] = refl
trim_start-trim_end (c ∷ s) = elim (Bool-cases (is_space (code c))) [
  | inl e ↦ rw e (trim_start-trim_end s)
  | inr e ↦ ground arith
]

pub trim_idem : (s : String) → trim (trim s) ≡ trim s
unfolding trim
trim_idem s = rw (trim_start-trim_end s) (trim_end_idem (trim_start s))

starts-append : (p s : String) → starts p (String.◌++◌ p s) ≡ true
unfolding starts
starts-append [] s = refl
starts-append (c ∷ p) s =
    ap (starts (c ∷ p)) (append.cons c p s) ∙ ground (arith, starts-append p s)

-- What is put in front of a text stands at its front, and can be taken away.
pub starts_with-append : (p s : String) → starts_with (String.◌++◌ p s) p ≡ true
unfolding starts_with
starts_with-append p s = starts-append p s

pub drop_front-append : (p s : String) → drop_front p (String.◌++◌ p s) ≡ s
unfolding drop_front
drop_front-append [] s = append.nil s
drop_front-append (c ∷ p) s = ap (drop_front (c ∷ p)) (append.cons c p s) ∙ drop_front-append p s

starts-append_more : (q p s : String) → starts q p ≡ true → starts q (String.◌++◌ p s) ≡ true
unfolding starts
starts-append_more [] p s h = refl
starts-append_more (c ∷ q) [] s h = cc
starts-append_more (c ∷ q) (d ∷ p) s h =
    ap (starts (c ∷ q)) (append.cons d p s) ∙ ground (arith, starts-append_more q p s)

-- What stands at the front of a text stands at the front of what goes on behind it.
pub starts_with-append_more :
    (q p s : String) → starts_with p q ≡ true → starts_with (String.◌++◌ p s) q ≡ true
unfolding starts_with
starts_with-append_more q p s h = starts-append_more q p s h

pub is_blank_of_starts_with :
    (s q : String) → starts_with "" q ≡ false → starts_with s q ≡ true → is_blank s ≡ false
is_blank_of_starts_with s q never h = elim (Bool-cases (is_blank s)) [
  | inl e ↦ cc (h, never, ap (λ t. starts_with t q) ((eq_iff s "").0 e))
  | inr e ↦ e
]
