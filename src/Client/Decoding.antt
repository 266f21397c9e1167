-- ===== src/Client/Decoding.antt =====
-- What a server reads in a part of a path: %XX decoded, and the bytes read as UTF-8.

use Prim.Native.Char.{Char, char, code}
use Prim.Native.String.{[], ◌∷◌}
use mathlib.Core.Path.{subst}
use mathlib.Core.Bool.{true, false}
use mathlib.Core.List as List
use kiyomi.Api.Numbers.{◌+text◌}
use kiyomi.Base.Text.{ℕ_text}
use text.Mathlib.TextLemmas.{append_assoc}
use Prim.Native.String.append
use kiyomi.ImageUrls.{hex_digit, percent, utf8, is_unreserved, encode_uri_component}
use kiyomi.Client.Points.{points, utf8_bytes, points-utf8_bytes}
use kiyomi.Base.{
  ℕ, zero, suc, Bool-cases, ltb→lt, inl, inr, ◌+◌, ◌-◌, ◌*◌, ◌/◌, ◌%◌, ◌<◌, String, List, arith,
  ltb, eqb, if◌then◌else◌, ◌≡◌, ap, refl,
}

unfoldable pub hex_value : ℕ → ℕ
hex_value c = if ltb c 65 then c - 48 else c - 55

-- Where a decoder stands: outside, behind a %, or behind a % and one digit.
pub data Place : Type 0 where
  outside behind : Place
  digit_read : ℕ → Place

unfoldable pub read_bytes : Place → String → List ℕ
read_bytes place [] = List.[]
read_bytes outside (c ∷ s) =
    if eqb (code c) 37 then read_bytes behind s else List.◌∷◌ (code c) (read_bytes outside s)
read_bytes behind (c ∷ s) = read_bytes (digit_read (hex_value (code c))) s
read_bytes (digit_read h) (c ∷ s) = List.◌∷◌ (h * 16 + hex_value (code c)) (read_bytes outside s)

abbrev pub codes : String → List ℕ
codes [] = List.[]
codes (c ∷ s) = List.◌∷◌ (code c) (codes s)

abbrev pub decode : String → List ℕ
decode s = points 0 0 (read_bytes outside s)

-- A hexadecimal digit is one character, no slash, and is read as its value.
abbrev pub ReadsAs : ℕ → Char → Type 0
ReadsAs n c = (hex_digit n ≡ c ∷ []) × (hex_value (code c) ≡ n) × (eqb (code c) 47 ≡ false)

-- What holds of each number below a bound, one by one.
abbrev Below : (ℕ → Type 0) → ℕ → Type 0
Below P zero = Unit
Below P (suc k) = Below P k × P k

last_one : (k n : ℕ) → n < suc k → ltb n k ≡ false → k ≡ n
last_one k n h p = ground arith

Below-lt : (P : ℕ → Type 0) (k n : ℕ) → Below P k → n < k → P n
Below-lt P zero n all h = absurd (omega arith)
Below-lt P (suc k) n (all, last) h = elim (Bool-cases (ltb n k)) [
  | inl p ↦ Below-lt P k n all (ltb→lt n k p)
  | inr p ↦ subst P (last_one k n h p) last
]

pub hex_digit-ReadsAs : (n : ℕ) → n < 16 → (c : Char) × ReadsAs n c
unfolding ℕ_text hex_value
hex_digit-ReadsAs n h =
    Below-lt (λ m. (c : Char) × ReadsAs m c) 16 n
      (
        (
          (
            (
              (
                (
                  (
                    (
                      (
                        (
                          (
                            (
                              (
                                (
                                  ((tt, ("0", (refl, refl, refl))), ("1", (refl, refl, refl))),
                                  ("2", (refl, refl, refl)),
                                ),
                                ("3", (refl, refl, refl)),
                              ),
                              ("4", (refl, refl, refl)),
                            ),
                            ("5", (refl, refl, refl)),
                          ),
                          ("6", (refl, refl, refl)),
                        ),
                        ("7", (refl, refl, refl)),
                      ),
                      ("8", (refl, refl, refl)),
                    ),
                    ("9", (refl, refl, refl)),
                  ),
                  ("A", (refl, refl, refl)),
                ),
                ("B", (refl, refl, refl)),
              ),
              ("C", (refl, refl, refl)),
            ),
            ("D", (refl, refl, refl)),
          ),
          ("E", (refl, refl, refl)),
        ),
        ("F", (refl, refl, refl)),
      )
      h

pub code_lt : (c : Char) → code c < 1114112
code_lt (char n p) = ground arith

-- The text of three characters in front of another.
three : (c d : Char) (s : String) → ("%" +text (c ∷ []) +text (d ∷ [])) +text s ≡ "%" ∷ c ∷ d ∷ s
three c d s =
    rw
      (
        append.cons "%" "" (c ∷ []),
        append.nil (c ∷ []),
        append.cons "%" (c ∷ []) (d ∷ []),
        append.cons c "" (d ∷ []),
        append.nil (d ∷ []),
        append.cons "%" (c ∷ d ∷ []) s,
        append.cons c (d ∷ []) s,
        append.cons d "" s,
        append.nil s,
      )
      refl

read_bytes-digits :
    (b : ℕ) (s : String) (c d : Char)
    → ReadsAs (b / 16) c
    → ReadsAs (b % 16) d
    → read_bytes outside (percent b +text s) ≡ List.◌∷◌ b (read_bytes outside s)
unfolding read_bytes
read_bytes-digits b s c d (high, high_value, _) (low, low_value, _) =
    rw (high, low, three c d s, high_value, low_value)
      (ap (λ m. List.◌∷◌ m (read_bytes outside s)) (omega arith))

-- An escaped byte is read as that byte.
read_bytes-percent :
    (b : ℕ) (s : String)
    → b < 256
    → read_bytes outside (percent b +text s) ≡ List.◌∷◌ b (read_bytes outside s)
read_bytes-percent b s h =
    let (c, high) = hex_digit-ReadsAs (b / 16) (omega arith) in
    let (d, low) = hex_digit-ReadsAs (b % 16) (omega arith) in read_bytes-digits b s c d high low

read_bytes-two :
    (a b : ℕ) (s : String)
    → a < 256
    → b < 256
    → read_bytes outside (percent a +text percent b +text s)
      ≡ List.◌∷◌ a (List.◌∷◌ b (read_bytes outside s))
read_bytes-two a b s ha hb =
    rw (append_assoc (percent a) (percent b) s, read_bytes-percent a (percent b +text s) ha)
      (ap (List.◌∷◌ a) (read_bytes-percent b s hb))

read_bytes-three :
    (a b c : ℕ) (s : String)
    → a < 256
    → b < 256
    → c < 256
    → read_bytes outside (percent a +text percent b +text percent c +text s)
      ≡ List.◌∷◌ a (List.◌∷◌ b (List.◌∷◌ c (read_bytes outside s)))
read_bytes-three a b c s ha hb hc =
    rw
      (
        append_assoc (percent a +text percent b) (percent c) s,
        read_bytes-two a b (percent c +text s) ha hb,
      )
      (ap (λ t. List.◌∷◌ a (List.◌∷◌ b t)) (read_bytes-percent c s hc))

read_bytes-four :
    (a b c d : ℕ) (s : String)
    → a < 256
    → b < 256
    → c < 256
    → d < 256
    → read_bytes outside (percent a +text percent b +text percent c +text percent d +text s)
      ≡ List.◌∷◌ a (List.◌∷◌ b (List.◌∷◌ c (List.◌∷◌ d (read_bytes outside s))))
read_bytes-four a b c d s ha hb hc hd =
    rw
      (
        append_assoc (percent a +text percent b +text percent c) (percent d) s,
        read_bytes-three a b c (percent d +text s) ha hb hc,
      )
      (ap (λ t. List.◌∷◌ a (List.◌∷◌ b (List.◌∷◌ c t))) (read_bytes-percent d s hd))

-- A code point is read as the bytes of its UTF-8.
read_bytes-utf8 :
    (n : ℕ) (s : String)
    → n < 1114112
    → read_bytes outside (utf8 n +text s) ≡ List.◌++◌ (utf8_bytes n) (read_bytes outside s)
read_bytes-utf8 n s h = elim (Bool-cases (ltb n 0x80)) [
  | inl e ↦ rw e (read_bytes-percent n s (omega (arith, ltb→lt n 0x80 e)))
  | inr e ↦ elim (Bool-cases (ltb n 0x800)) [
    | inl f ↦ rw (e, f) (read_bytes-two _ _ s (omega (arith, ltb→lt n 0x800 f)) (omega arith))
    | inr f ↦ elim (Bool-cases (ltb n 0x10000)) [
      | inl g ↦
          rw (e, f, g)
            (read_bytes-three _ _ _ s (omega (arith, ltb→lt n 0x10000 g)) (omega arith)
              (omega arith))
      | inr g ↦
          rw (e, f, g)
            (read_bytes-four _ _ _ _ s (omega (arith, h)) (omega arith) (omega arith) (omega arith))
    ]
  ]
]

-- A character that the encoding keeps is no %.
kept :
    (c : Char) (s : String)
    → is_unreserved (code c) ≡ true
    → read_bytes outside (c ∷ s) ≡ List.◌∷◌ (code c) (read_bytes outside s)
unfolding read_bytes is_unreserved
kept c s h = ground arith

utf8_bytes_kept : (c : Char) → is_unreserved (code c) ≡ true → ltb (code c) 0x80 ≡ true
unfolding is_unreserved
utf8_bytes_kept c h = ground arith

-- What is decoded from an encoded text are its code points.
pub decode-encode_uri_component : (s : String) → decode (encode_uri_component s) ≡ codes s
unfolding encode_uri_component read_bytes
decode-encode_uri_component [] = refl
decode-encode_uri_component (c ∷ s) = elim (Bool-cases (is_unreserved (code c))) [
  | inl k ↦
      rw (k, kept c (encode_uri_component s) k, utf8_bytes_kept c k)
        (ap (List.◌∷◌ (code c)) (decode-encode_uri_component s))
  | inr k ↦
      rw
        (
          k,
          read_bytes-utf8 (code c) (encode_uri_component s) (code_lt c),
          points-utf8_bytes (code c) (read_bytes outside (encode_uri_component s)) (code_lt c),
        )
        (ap (List.◌∷◌ (code c)) (decode-encode_uri_component s))
]
