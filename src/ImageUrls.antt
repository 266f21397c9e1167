-- ===== src/ImageUrls.antt =====
-- The addresses of images: `getProxyImageUrl` of web/src/lib/utils.ts and of web/src/utils/image.ts,
-- with `encodeURIComponent`. A text here is made of whole characters, so that no lone surrogate stops
-- the encoding.
pub mod Proxy
mod Tests
use Prim.Native.Char.{Char, code}
use Prim.Native.String.{[], ◌∷◌}
use kiyomi.Base.{
  ℕ, ◌+◌, ◌/◌, ◌%◌, Bool, true, false, ◌&&◌, ◌||◌, String, Option, none, some, leb, ltb, eqb,
  is_blank, ◌otherwise◌, if◌then◌else◌,
}
use kiyomi.Base.Text.{ℕ_text, starts_with}
use kiyomi.Api.Numbers.{◌+text◌}

abbrev pub is_between : ℕ → ℕ → ℕ → Bool
is_between low high c = leb low c && leb c high

-- What `encodeURIComponent` keeps: letters, digits and - _ . ! ~ * ' ( )
unfoldable pub is_unreserved : ℕ → Bool
is_unreserved c =
    is_between 65 90 c
    || is_between 97 122 c
    || is_between 48 57 c
    || eqb c 45
    || eqb c 95
    || eqb c 46
    || eqb c 33
    || eqb c 126
    || eqb c 42
    || eqb c 39
    || eqb c 40
    || eqb c 41

abbrev pub hex_digit : ℕ → String
hex_digit n =
    if eqb n 10
    then "A"
    else if eqb n 11
    then "B"
    else if eqb n 12
    then "C"
    else if eqb n 13
    then "D"
    else if eqb n 14
    then "E"
    else if eqb n 15
    then "F"
    else ℕ_text n

abbrev pub percent : ℕ → String
percent byte = "%" +text hex_digit (byte / 16) +text hex_digit (byte % 16)

-- The bytes of a code point in UTF-8, each as %XX.
abbrev pub utf8 : ℕ → String
utf8 c =
    if ltb c 0x80
    then percent c
    else if ltb c 0x800
    then percent (192 + c / 64) +text percent (128 + c % 64)
    else if ltb c 0x10000
    then percent (224 + c / 4096) +text percent (128 + c / 64 % 64) +text percent (128 + c % 64)
    else percent (240 + c / 262144)
      +text percent (128 + c / 4096 % 64)
      +text percent (128 + c / 64 % 64)
      +text percent (128 + c % 64)

unfoldable pub encode_uri_component : String → String
unfolding is_unreserved
encode_uri_component [] = ""
encode_uri_component (c ∷ s) =
    let rest = encode_uri_component s in
    if is_unreserved (code c) then c ∷ rest else utf8 (code c) +text rest

abbrev pub is_local : String → Bool
is_local url = starts_with url "/" || starts_with url "data:" || starts_with url "blob:"

-- `&referer=…`, where one is given.
abbrev pub referer_part : Option String → String
referer_part referer =
    if is_blank (referer otherwise "")
    then ""
    else "&referer=" +text encode_uri_component (referer otherwise "")

-- `getProxyImageUrl` of lib/utils.ts
unfoldable pub get_proxy_image_url : Option String → Option String → String
unfolding encode_uri_component
get_proxy_image_url url referer =
    let address = url otherwise "" in
    if is_blank address
    then ""
    else if is_local address
    then address
    else "/api/v1/proxy/image?url=" +text (encode_uri_component address +text referer_part referer)

-- `getProxyImageUrl` of utils/image.ts
unfoldable pub proxy_remote_image_url : Option String → Option String
unfolding encode_uri_component
proxy_remote_image_url url =
    let address = url otherwise "" in
    if is_blank address
    then none
    else if starts_with address "http://" || starts_with address "https://"
    then some ("/api/v1/proxy/image?url=" +text encode_uri_component address)
    else some address
