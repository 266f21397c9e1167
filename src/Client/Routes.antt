-- ===== src/Client/Routes.antt =====
-- The routes of the server that the requests for a manga's chapters reach.
use kiyomi.Base.{String, List, ◌∷◌, map, ◌≡◌}
use kiyomi.Client.{Request}
use kiyomi.Client.Decoding.{codes}
use kiyomi.Client.Paths.{read_path}

-- The request goes to the path whose parts a server reads as these texts.
abbrev pub Reaches : Request → List String → Type 0
Reaches r parts = read_path r.endpoint ≡ map codes ("" ∷ parts)

abbrev pub chapter_route : String → String → List String → List String
chapter_route m c rest = "library" ∷ "manga" ∷ m ∷ "chapters" ∷ c ∷ rest
