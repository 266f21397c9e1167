-- ===== src/ImageUrls/Tests.antt =====
-- Runs of the image addresses, and the theorem at a concrete one.
use kiyomi.Base.{◌≡◌, refl}
use kiyomi.Base.Text.{ℕ_text}
use kiyomi.ImageUrls.{encode_uri_component}

encodes : encode_uri_component "a b&ü~" ≡ "a%20b%26%C3%BC~"
unfolding encode_uri_component ℕ_text
encodes = refl
