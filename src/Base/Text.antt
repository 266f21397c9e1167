-- ===== src/Base/Text.antt =====
-- The methods of `String` that the source uses, by code points: `trim`, `includes`, `startsWith`,
-- `split(',')` and the decimal text of a number. `toLowerCase` is locale data of the platform and
-- stands as an argument where the source calls it.
pub mod Laws
use Prim.Native.Nat.{ℕ, zero, suc, ◌+◌, ◌-◌, ◌/◌, ◌%◌, Ordering}
use Prim.Native.Char.{Char, code}
use Prim.Native.String.{String, [], ◌∷◌}
use Prim.Native.String
use mathlib.Core.Path.{◌≡◌, refl}
use mathlib.Core.Bool.{Bool, true, false, ◌&&◌, ◌||◌}
use mathlib.Core.List as List
use mathlib.Core.List.{List}
use text.Mathlib.Text.{◌==◌}
use kiyomi.Base.Int.{ℤ, pos, negsuc}
use kiyomi.Base.Tests.{eqb, leb, ltb, is_blank, if◌then◌else◌}

-- WhiteSpace and LineTerminator of ECMAScript, all of them single code units.
unfoldable pub is_space : ℕ → Bool
is_space c =
    leb 9 c && leb c 13
    || eqb c 32
    || eqb c 160
    || eqb c 0x1680
    || leb 0x2000 c && leb c 0x200a
    || eqb c 0x2028
    || eqb c 0x2029
    || eqb c 0x202f
    || eqb c 0x205f
    || eqb c 0x3000
    || eqb c 0xfeff

trim_start : String → String
trim_start [] = []
trim_start (c ∷ s) = if is_space (code c) then trim_start s else c ∷ s

-- `s` with `c` in front, unless nothing but white space is left.
put_before : Char → String → String
put_before c s = if is_blank s && is_space (code c) then [] else c ∷ s

trim_end : String → String
trim_end [] = []
trim_end (c ∷ s) = put_before c (trim_end s)

unfoldable pub trim : String → String
unfolding trim_start trim_end put_before is_space
trim s = trim_end (trim_start s)

unfoldable pub starts : String → String → Bool
starts [] s = true
starts (c ∷ p) [] = false
starts (c ∷ p) (d ∷ s) = eqb (code c) (code d) && starts p s

-- `s.startsWith(p)`
unfoldable pub starts_with : String → String → Bool
unfolding starts
starts_with s p = starts p s

-- A letter of ASCII in either case.
abbrev same_letter : Char → Char → Bool
same_letter c d =
    eqb (code c) (code d) || leb 65 (code c) && leb (code c) 90 && eqb (code c + 32) (code d)

-- `new RegExp('^' + p, 'i').test(s)`, for a `p` of lower-case letters and signs of ASCII.
unfoldable pub starts_with_fold : String → String → Bool
starts_with_fold s [] = true
starts_with_fold [] (d ∷ p) = false
starts_with_fold (c ∷ s) (d ∷ p) = same_letter c d && starts_with_fold s p

-- `s.includes(p)`
unfoldable pub includes : String → String → Bool
unfolding starts
includes [] p = starts p []
includes (c ∷ s) p = starts p (c ∷ s) || includes s p

-- `s.replace(p, '')` where `p` stands at the front.
unfoldable pub drop_front : String → String → String
drop_front [] s = s
drop_front (c ∷ p) [] = []
drop_front (c ∷ p) (d ∷ s) = drop_front p s

digit : ℕ → String
digit n =
    if eqb n 0
    then "0"
    else if eqb n 1
    then "1"
    else if eqb n 2
    then "2"
    else if eqb n 3
    then "3"
    else if eqb n 4
    then "4"
    else if eqb n 5
    then "5"
    else if eqb n 6
    then "6"
    else if eqb n 7
    then "7"
    else if eqb n 8
    then "8"
    else "9"

-- One round for each digit: `suc n` rounds are enough, and what is left over is not run.
digits_from : ℕ → ℕ → String
digits_from zero n = ""
digits_from (suc f) n =
    let more = String.◌++◌ (digits_from f (n / 10)) (digit (n % 10)) in
    if ltb n 10 then digit n else more

-- `String(n)` of a natural number below 10^21.
unfoldable pub ℕ_text : ℕ → String
unfolding digits_from digit
ℕ_text n = digits_from (suc n) n

-- The order of texts that `Array.prototype.sort` takes without a comparator, by code points.
unfoldable pub text_order : String → String → ℤ
text_order s t = elim (String.compare s t) [
  | Ordering.lt ↦ negsuc 0
  | Ordering.eq ↦ pos 0
  | Ordering.gt ↦ pos 1
]
