-- ===== src/ImageUrls/Proxy.antt =====
-- The addresses of web/src/lib/utils.ts and web/src/utils/image.ts are proxied once.
use kiyomi.Base.{
  true, false, String, Option, some, ◌≡◌, refl, inl, inr, Bool-cases, is_blank, ◌otherwise◌,
}
use kiyomi.Base.Text.{starts_with}
use kiyomi.Base.Text.Laws.{starts_with-append_more, is_blank_of_starts_with}
use kiyomi.Api.Numbers.{◌+text◌}
use kiyomi.ImageUrls.{encode_uri_component, is_local, referer_part, get_proxy_image_url}

abbrev proxied : String → String
proxied s = "/api/v1/proxy/image?url=" +text s

proxied-starts_with : (s : String) → starts_with (proxied s) "/" ≡ true
unfolding starts_with
proxied-starts_with s = starts_with-append_more "/" "/api/v1/proxy/image?url=" s refl

proxied-is_blank : (s : String) → is_blank (proxied s) ≡ false
unfolding starts_with
proxied-is_blank s = is_blank_of_starts_with (proxied s) "/" refl (proxied-starts_with s)

proxied-is_local : (s : String) → is_local (proxied s) ≡ true
proxied-is_local s = rw (proxied-starts_with s) refl

-- An address that is proxied is not proxied again: asking for the proxy of what was answered, with any
-- referer, gives the same address.
pub get_proxy_image_url_idem :
    (url referer other : Option String)
    → get_proxy_image_url (some (get_proxy_image_url url referer)) other
      ≡ get_proxy_image_url url referer
unfolding get_proxy_image_url
get_proxy_image_url_idem url referer other = elim (Bool-cases (is_blank (url otherwise ""))) [
  | inl e ↦ rw e refl
  | inr e ↦ elim (Bool-cases (is_local (url otherwise ""))) [
    | inl k ↦ rw (e, k, e, k) refl
    | inr k ↦
        let rest = encode_uri_component (url otherwise "") +text referer_part referer in
        rw (e, k, proxied-is_blank rest, proxied-is_local rest) refl
  ]
]
