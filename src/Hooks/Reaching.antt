-- ===== src/Hooks/Reaching.antt =====
-- Which queries the success of a mutation makes stale: those whose keys begin with an invalidated key.
use kiyomi.Base.{
  ◌≤◌, Bool, true, false, String, Option, none, some, List, [], ◌∷◌, ◌++◌, ◌≡◌, ◌≢◌, ◌↔◌, ◌⊎◌, inl,
  inr, refl, ap, sym, length, length-append, is_blank, ◌otherwise◌, Bool-cases, arith, ne_of_beq,
  String_eq,
}
use kiyomi.QueryKeys.{
  text, QueryKey, if_given, manga_details, chapters_list, chapters_provider_list, chapters_pages,
  jobs_all,
}
use kiyomi.QueryKeys.Prefixes.{IsPrefix, two_parts-IsPrefix_iff, second}
use kiyomi.Hooks.Manga.{provider_list_key}
use kiyomi.Hooks.Queries.{use_chapter_pages, standard}
use kiyomi.Hooks.Chapters.{use_pull_chapter_mutation}

abbrev pub Reaches : List QueryKey → QueryKey → Type 0
Reaches [] q = ⊥
Reaches (k ∷ keys) q = IsPrefix k q ⊎ Reaches keys q

IsPrefix-length : (k l : QueryKey) → IsPrefix k l → length k ≤ length l
IsPrefix-length k l (rest, e) = omega (arith, length-append k rest, ap length e)

abbrev first_text : QueryKey → String
first_text (text s ∷ parts) = s
first_text k = ""

pub first-ne : (s t : String) (k l : QueryKey) → s ≢ t → IsPrefix (text s ∷ k) (text t ∷ l) → ⊥
first-ne s t k l ne (rest, e) = ne (sym (ap first_text e))

if_given-blank : (p : Option String) → is_blank (p otherwise "") ≡ true → if_given p ≡ []
if_given-blank none h = refl
if_given-blank (some p) h = rw h refl

if_given-given :
    (p : Option String)
    → is_blank (p otherwise "") ≡ false
    → if_given p ≡ text (p otherwise "") ∷ []
if_given-given none h = ground arith
if_given-given (some p) h = rw h refl

Reaches-append :
    (keys more : List QueryKey) (q : QueryKey)
    → Reaches (keys ++ more) q
    → Reaches keys q ⊎ Reaches more q
Reaches-append [] more q h = inr h
Reaches-append (k ∷ keys) more q (inl p) = inl (inl p)
Reaches-append (k ∷ keys) more q (inr h) = elim (Reaches-append keys more q h) [
  | inl p ↦ inl (inr p)
  | inr p ↦ inr p
]

pub Reaches-append_right :
    (keys more : List QueryKey) (q : QueryKey) → Reaches more q → Reaches (keys ++ more) q
Reaches-append_right [] more q h = h
Reaches-append_right (k ∷ keys) more q h = inr (Reaches-append_right keys more q h)

-- A list of the chapters of a provider is a list of its manga.
provider_list_key-Reaches :
    (m b : String) (provider : Option String) (parts : QueryKey)
    → m ≢ b
    → Reaches (provider_list_key m provider) (text "chapters" ∷ text b ∷ parts)
    → ⊥
provider_list_key-Reaches m b provider parts ne h =
    elim (Bool-cases (is_blank (provider otherwise ""))) [
      | inl e ↦ rw e at h
      | inr e ↦ one (rw e at h)
    ]
  where
    one :
        Reaches
          (chapters_provider_list m (provider otherwise "") ∷ [])
          (text "chapters" ∷ text b ∷ parts)
        → ⊥
    one (inl (rest, e)) = ne (sym (ap second e))
    one (inr h) = h

-- The keys that are invalidated besides the pages' own do not reach pages.
other_keys :
    (m : String) (provider : Option String) (parts : QueryKey)
    → m ≢ "pages"
    → Reaches
        (chapters_list m ∷ (provider_list_key m provider ++ manga_details m ∷ jobs_all ∷ []))
        (text "chapters" ∷ text "pages" ∷ parts)
    → ⊥
other_keys m provider parts ne (inl p) =
    ne ((two_parts-IsPrefix_iff "chapters" m "pages" parts).0 p)
other_keys m provider parts ne (inr h) =
    elim (Reaches-append (provider_list_key m provider) _ _ h) [
      | inl p ↦ provider_list_key-Reaches m "pages" provider parts ne p
      | inr (inl p) ↦
          first-ne "manga" "chapters" (text "detail" ∷ text m ∷ []) _
            (ne_of_beq "manga" "chapters" refl) p
      | inr (inr (inr p)) ↦ p
      | inr (inr (inl p)) ↦ first-ne "jobs" "chapters" [] _ (ne_of_beq "jobs" "chapters" refl) p
    ]

longer_key :
    (m c : String) (provider : Option String)
    → is_blank (provider otherwise "") ≡ false
    → IsPrefix (chapters_pages c (some m) provider) (chapters_pages c (some m) none)
    → ⊥
longer_key m c provider given p = omega (
  arith,
  IsPrefix-length (chapters_pages c (some m) provider) (chapters_pages c (some m) none) p,
  length-append (if_given (some m)) (if_given provider),
  length-append (if_given (some m)) [],
  ap length (if_given-given provider given),
)

pub nothing_more : (k : QueryKey) → k ++ [] ≡ k
nothing_more [] = refl
nothing_more (p ∷ k) = ap (p ∷◌) (nothing_more k)

pub self : (k : QueryKey) → IsPrefix k k
self k = ([], sym (nothing_more k))

same_key :
    (m c : String) (provider : Option String)
    → is_blank (provider otherwise "") ≡ true
    → IsPrefix (chapters_pages c (some m) provider) (chapters_pages c (some m) none)
same_key m c provider blank =
    rw (if_given-blank provider blank) (self (chapters_pages c (some m) none))

-- A pull that succeeds makes the pages of the chapter stale, as `useChapterPages` asks for them, exactly
-- where no provider is named: the key with a provider is longer than the key of the pages. The manga's
-- id is not the word "pages".
pub use_pull_chapter_mutation-Reaches_iff :
    (m c : String) (provider : Option String) (enabled : Option Bool)
    → m ≢ "pages"
    → Reaches
        (use_pull_chapter_mutation m c provider).invalidates
        (use_chapter_pages (standard m c enabled)).query_key
      ↔ (is_blank (provider otherwise "") ≡ true)
unfolding use_pull_chapter_mutation use_chapter_pages
use_pull_chapter_mutation-Reaches_iff m c provider enabled ne =
    (reached, λ blank. inl (same_key m c provider blank))
  where
    reached :
        Reaches
          (use_pull_chapter_mutation m c provider).invalidates
          (use_chapter_pages (standard m c enabled)).query_key
        → is_blank (provider otherwise "") ≡ true
    reached h = elim (Bool-cases (is_blank (provider otherwise ""))) [
      | inl e ↦ e
      | inr e ↦
          absurd
            (elim h [ inl p ↦ longer_key m c provider e p | inr p ↦ other_keys m provider _ ne p ])
    ]
