-- ===== src/EditMetadata/Links.antt =====
-- The rows of links in the form.
use kiyomi.Base.{
  ℕ, zero, suc, ◌<◌, false, String, some, List, [], ◌∷◌, ◌++◌, length, get_elem?, and_then, ◌≡◌,
  refl, sym, ap, if_false, ◌==◌, ℕ_eq, String_eq, if◌then◌else◌, arith,
}
use kiyomi.Base.Text.{trim}
use kiyomi.Api.{ExternalLink, Manga}
use kiyomi.EditMetadata.{
  Form, custom_link, handle_add_link, without_index, handle_remove_link, LinkKey, with_key,
  change_link, handle_link_change, saved_links, metadata_fields, new_bindings, new_content, payload,
  handle_submit,
}

without_index-length {ℓ} :
    {A : Type ℓ} (xs : List A) (x : A) → without_index (length xs) (xs ++ x ∷ []) ≡ xs
without_index-length [] x = refl
without_index-length (y ∷ xs) x = ap (λ ys. y ∷ ys) (without_index-length xs x)

saved_links-snoc_custom :
    (links : List ExternalLink) → saved_links (links ++ custom_link ∷ []) ≡ saved_links links
unfolding trim
saved_links-snoc_custom [] = refl
saved_links-snoc_custom (l ∷ links) = rw (saved_links-snoc_custom links) refl

-- A link that is added and removed again leaves the form as it was; and a link that is added and not
-- filled in changes nothing of what is saved.
pub handle_remove_link-handle_add_link :
    (m : Manga) (s : Form)
    → (handle_remove_link (length s.external_links) (handle_add_link s) ≡ s)
      × (handle_submit m (handle_add_link s) ≡ handle_submit m s)
unfolding handle_remove_link handle_add_link handle_submit payload metadata_fields new_bindings
    new_content
handle_remove_link-handle_add_link m s = (
  rw (without_index-length s.external_links custom_link) refl,
  rw (saved_links-snoc_custom s.external_links) refl,
)

suc_beq_suc : (i j : ℕ) → (suc i == suc j) ≡ (i == j)
suc_beq_suc i j = ground arith

zero_beq_suc : (j : ℕ) → (0 == suc j) ≡ false
zero_beq_suc j = ground arith

suc_beq_zero : (i : ℕ) → (suc i == 0) ≡ false
suc_beq_zero i = ground arith

abbrev pub Written : ℕ → LinkKey → String → List ExternalLink → List ExternalLink → Type 0
Written index key val links next =
    (j : ℕ)
    → get_elem? next j ≡ (
        if index == j
        then and_then (get_elem? links j) (λ l. some (with_key key val l))
        else get_elem? links j)

-- The links after a change: the one at `index` has the new value, and the others are as they were.
abbrev pub Changes : ℕ → LinkKey → String → List ExternalLink → List ExternalLink → Type 0
Changes index key val links next = (length next ≡ length links) × Written index key val links next

change_link-Changes :
    (index : ℕ) (key : LinkKey) (val : String) (links : List ExternalLink)
    → index < length links
    → (next : List ExternalLink) × (change_link index key val links ≡ some next)
      × Changes index key val links next
change_link-Changes index key val [] h = absurd (omega arith)
change_link-Changes zero key val (l ∷ links) h = (with_key key val l ∷ links, refl, (refl, here))
  where
    here : Written 0 key val (l ∷ links) (with_key key val l ∷ links)
    here zero = refl
    here (suc j) = sym (if_false _ _ (zero_beq_suc j))
change_link-Changes (suc index) key val (l ∷ links) h =
    let (next, e, (len, at)) = change_link-Changes index key val links (omega arith) in
    (l ∷ next, rw e refl, (ap suc len, below next at))
  where
    below :
        (next : List ExternalLink)
        → Written index key val links next
        → Written (suc index) key val (l ∷ links) (l ∷ next)
    below next at zero = sym (if_false _ _ (suc_beq_zero index))
    below next at (suc j) = rw (suc_beq_suc index j) (at j)

-- A change of a link that is there is made to it alone, and the form is otherwise kept.
pub handle_link_change-Changes :
    (index : ℕ) (key : LinkKey) (val : String) (s : Form)
    → index < length s.external_links
    → (next : List ExternalLink) × (handle_link_change index key val s
        ≡ some (record s { external_links = next }))
      × Changes index key val s.external_links next
unfolding handle_link_change
handle_link_change-Changes index key val s h =
    let (next, e, changes) = change_link-Changes index key val s.external_links h in
    (next, rw e refl, changes)
