-- ===== src/Client/Queries.antt =====
-- The form encoding, in which `URLSearchParams` prints its names and values.
use Prim.Native.Char.{code}
use Prim.Native.String.{[], ◌∷◌}
use kiyomi.Base.{ℕ, Bool, ◌||◌, String, eqb, if◌then◌else◌}
use kiyomi.Api.Numbers.{◌+text◌}
use kiyomi.ImageUrls.{is_between, utf8}

-- What the form encoding keeps: letters, digits and * - . _
unfoldable pub is_form_safe : ℕ → Bool
is_form_safe c =
    is_between 65 90 c
    || is_between 97 122 c
    || is_between 48 57 c
    || eqb c 42
    || eqb c 45
    || eqb c 46
    || eqb c 95

unfoldable pub form_encode : String → String
unfolding is_form_safe
form_encode [] = ""
form_encode (c ∷ s) =
    let rest = form_encode s in
    if is_form_safe (code c)
    then c ∷ rest
    else if eqb (code c) 32
    then "+" +text rest
    else utf8 (code c) +text rest
