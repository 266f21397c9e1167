-- ===== src/Client/Paths.antt =====
-- The paths of the requests: a server that splits them at slashes and decodes the parts reads the ids
-- that the caller gave.
use Prim.Native.Char.{Char, code}
use Prim.Native.String.{[], ◌∷◌}
use Prim.Native.String.append
use mathlib.Core.List.{[] as end, ◌∷◌ as ◌then_part◌}
use kiyomi.Base.{
  ℕ, ◌+◌, ◌/◌, ◌%◌, ◌<◌, Bool, true, false, ◌||◌, String, List, map, eqb, if◌then◌else◌, ◌≡◌, refl,
  ap, ◌∙◌, sym, ltb, ltb→lt, arith, inl, inr, Bool-cases,
}
use kiyomi.Api.Numbers.{◌+text◌}
use kiyomi.ImageUrls.{percent, utf8, is_unreserved, encode_uri_component}
use kiyomi.Client.Decoding.{
  read_bytes, codes, decode, hex_digit-ReadsAs, code_lt, decode-encode_uri_component,
}

-- The first character belongs to the first part.
abbrev push : Char → List String → List String
push c end = (c ∷ []) then_part end
push c (x then_part xs) = (c ∷ x) then_part xs

unfoldable pub segments : String → List String
segments [] = "" then_part end
segments (c ∷ s) = if eqb (code c) 47 then "" then_part segments s else push c (segments s)

pub has_slash : String → Bool
has_slash [] = false
has_slash (c ∷ s) = eqb (code c) 47 || has_slash s

has_slash-append : (s t : String) → has_slash (s +text t) ≡ (has_slash s || has_slash t)
unfolding has_slash
has_slash-append [] t = ap has_slash (append.nil t)
has_slash-append (c ∷ s) t = ap has_slash (append.cons c s t) ∙ ground (arith, has_slash-append s t)

segments-last : (x : String) → has_slash x ≡ false → segments x ≡ x then_part end
unfolding segments has_slash
segments-last [] h = refl
segments-last (c ∷ x) h = elim (Bool-cases (eqb (code c) 47)) [
  | inl e ↦ ground arith
  | inr e ↦ rw (e, segments-last x (ground arith)) refl
]

segments-slash :
    (x s : String) → has_slash x ≡ false → segments (x +text ("/" +text s)) ≡ x then_part segments s
unfolding segments has_slash
segments-slash [] s h =
    ap segments (append.nil ("/" +text s) ∙ append.cons "/" "" s)
    ∙ ap (λ t. "" then_part segments t) (append.nil s)
segments-slash (c ∷ x) s h = elim (Bool-cases (eqb (code c) 47)) [
  | inl e ↦ ground arith
  | inr e ↦ rw (append.cons c x ("/" +text s), e, segments-slash x s (ground arith)) refl
]

-- A digit of an escape is no slash.
percent-has_slash : (b : ℕ) → b < 256 → has_slash (percent b) ≡ false
unfolding has_slash
percent-has_slash b h =
    let (c, (high, _, p)) = hex_digit-ReadsAs (b / 16) (omega arith) in
    let (d, (low, _, q)) = hex_digit-ReadsAs (b % 16) (omega arith) in
    rw
      (
        high,
        low,
        has_slash-append ("%" +text (c ∷ [])) (d ∷ []),
        has_slash-append "%" (c ∷ []),
        p,
        q,
      )
      refl

percent-append-has_slash :
    (s : String) (b : ℕ) → has_slash s ≡ false → b < 256 → has_slash (s +text percent b) ≡ false
percent-append-has_slash s b p h = rw (has_slash-append s (percent b), p) (percent-has_slash b h)

utf8-has_slash : (n : ℕ) → n < 1114112 → has_slash (utf8 n) ≡ false
utf8-has_slash n h = elim (Bool-cases (ltb n 0x80)) [
  | inl e ↦ rw e (percent-has_slash n (omega (arith, ltb→lt n 0x80 e)))
  | inr e ↦ elim (Bool-cases (ltb n 0x800)) [
    | inl f ↦
        rw (e, f)
          (percent-append-has_slash _ (128 + n % 64)
            (percent-has_slash (192 + n / 64) (omega (arith, ltb→lt n 0x800 f))) (omega arith))
    | inr f ↦ elim (Bool-cases (ltb n 0x10000)) [
      | inl g ↦
          rw (e, f, g)
            (percent-append-has_slash _ (128 + n % 64)
              (percent-append-has_slash _ (128 + n / 64 % 64)
                (percent-has_slash (224 + n / 4096) (omega (arith, ltb→lt n 0x10000 g)))
                (omega arith))
              (omega arith))
      | inr g ↦
          rw (e, f, g)
            (percent-append-has_slash _ (128 + n % 64)
              (percent-append-has_slash _ (128 + n / 64 % 64)
                (percent-append-has_slash _ (128 + n / 4096 % 64)
                  (percent-has_slash (240 + n / 262144) (omega (arith, h))) (omega arith))
                (omega arith))
              (omega arith))
    ]
  ]
]

kept-has_slash : (c : Char) → is_unreserved (code c) ≡ true → eqb (code c) 47 ≡ false
unfolding is_unreserved
kept-has_slash c h = ground arith

pub encode_uri_component-has_slash : (s : String) → has_slash (encode_uri_component s) ≡ false
unfolding encode_uri_component has_slash
encode_uri_component-has_slash [] = refl
encode_uri_component-has_slash (c ∷ s) = elim (Bool-cases (is_unreserved (code c))) [
  | inl k ↦ rw (k, kept-has_slash c k) (encode_uri_component-has_slash s)
  | inr k ↦
      rw
        (
          k,
          has_slash-append (utf8 (code c)) (encode_uri_component s),
          utf8-has_slash (code c) (code_lt c),
        )
        (encode_uri_component-has_slash s)
]

-- A path of parts, each encoded; the second, without the slash in front.
abbrev pub parts_text : String → List String → String
parts_text x end = encode_uri_component x
parts_text x (y then_part xs) = encode_uri_component x +text ("/" +text parts_text y xs)

abbrev pub path_of : String → List String → String
path_of x xs = "/" +text parts_text x xs

segments-parts_text :
    (x : String) (xs : List String)
    → segments (parts_text x xs) ≡ map encode_uri_component (x then_part xs)
segments-parts_text x end =
    segments-last (encode_uri_component x) (encode_uri_component-has_slash x)
segments-parts_text x (y then_part xs) =
    segments-slash (encode_uri_component x) (parts_text y xs) (encode_uri_component-has_slash x)
    ∙ ap (λ t. encode_uri_component x then_part t) (segments-parts_text y xs)

segments-path_of :
    (x : String) (xs : List String)
    → segments (path_of x xs) ≡ "" then_part map encode_uri_component (x then_part xs)
unfolding has_slash
segments-path_of x xs =
    ap segments (sym (append.nil (path_of x xs)))
    ∙ segments-slash "" (parts_text x xs) refl
    ∙ ap (λ t. "" then_part t) (segments-parts_text x xs)

-- What the server reads in a path, one list of code points for each part.
abbrev pub read_path : String → List (List ℕ)
read_path path = map decode (segments path)

map-decode : (xs : List String) → map decode (map encode_uri_component xs) ≡ map codes xs
map-decode end = refl
map-decode (x then_part xs) = rw (decode-encode_uri_component x, map-decode xs) refl

pub read_path-path_of :
    (x : String) (xs : List String)
    → read_path (path_of x xs) ≡ map codes ("" then_part (x then_part xs))
unfolding read_bytes
read_path-path_of x xs = rw (segments-path_of x xs, map-decode (x then_part xs)) refl
