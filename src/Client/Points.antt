-- ===== src/Client/Points.antt =====
-- What a server reads in a path: bytes in UTF-8 as code points.
use mathlib.Core.List.{List, [], ◌∷◌, ◌++◌}
use kiyomi.Base.{ℕ, zero, suc, ◌+◌, ◌-◌, ◌*◌, ◌/◌, ◌%◌, ◌<◌, ◌≡◌, ltb, if◌then◌else◌, arith}

-- The first argument counts the bytes that are still to come, the second is what came before them.
abbrev pub points : ℕ → ℕ → List ℕ → List ℕ
points more acc [] = []
points zero acc (b ∷ bs) =
    if ltb b 0x80
    then b ∷ points 0 0 bs
    else if ltb b 0xe0
    then points 1 (b - 0xc0) bs
    else if ltb b 0xf0
    then points 2 (b - 0xe0) bs
    else points 3 (b - 0xf0) bs
points (suc more) acc (b ∷ bs) =
    let next = acc * 64 + (b - 0x80) in
    if ltb 0 more then points more next bs else next ∷ points 0 0 bs

-- The bytes of a code point.
abbrev pub utf8_bytes : ℕ → List ℕ
utf8_bytes c =
    if ltb c 0x80
    then c ∷ []
    else if ltb c 0x800
    then (192 + c / 64) ∷ (128 + c % 64) ∷ []
    else if ltb c 0x10000
    then (224 + c / 4096) ∷ (128 + c / 64 % 64) ∷ (128 + c % 64) ∷ []
    else (240 + c / 262144) ∷ (128 + c / 4096 % 64) ∷ (128 + c / 64 % 64) ∷ (128 + c % 64) ∷ []

-- A code point is read from its bytes.
pub points-utf8_bytes :
    (c : ℕ) (bs : List ℕ) → c < 1114112 → points 0 0 (utf8_bytes c ++ bs) ≡ c ∷ points 0 0 bs
points-utf8_bytes c bs h = ground arith
