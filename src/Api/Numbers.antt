-- ===== src/Api/Numbers.antt =====
-- The decimal text of a number in thousandths, as `${n}` prints it.
use Prim.Native.String
use kiyomi.Base.{ℕ, ◌+◌, ◌/◌, ◌%◌, String, ◌≡◌, refl, eqb, if◌then◌else◌}
use kiyomi.Base.Int.{ℤ, pos, negsuc}
use kiyomi.Base.Text.{ℕ_text}

infixl 65 ◌+text◌
abbrev pub ◌+text◌ : String → String → String
s +text t = String.◌++◌ s t

-- What stands behind the point, without trailing zeros.
fraction : ℕ → String
fraction f =
    if eqb f 0
    then ""
    else if eqb (f % 100) 0
    then "." +text ℕ_text (f / 100)
    else if eqb (f % 10) 0
    then "." +text ℕ_text (f / 100) +text ℕ_text (f / 10 % 10)
    else "." +text ℕ_text (f / 100) +text ℕ_text (f / 10 % 10) +text ℕ_text (f % 10)

decimal : ℕ → String
decimal n = ℕ_text (n / 1000) +text fraction (n % 1000)

unfoldable pub number_text : ℤ → String
unfolding decimal fraction ℕ_text
number_text (pos n) = decimal n
number_text (negsuc n) = "-" +text decimal (n + 1)

ten_and_a_half : number_text (pos 10500) ≡ "10.5"
unfolding number_text
ten_and_a_half = refl
