-- ===== src/Client/Legacy.antt =====
-- What `patchLibraryManga` sends for fields in the old spelling, and what `getProviderMangaDetails`
-- makes of a manga that it has wrapped before.
use kiyomi.Base.{
  Bool, true, false, ◌&&◌, String, ◌≡◌, refl, sym, ap, ◌∙◌, inl, inr, Bool-cases, ◌==◌, String_eq,
  if◌then◌else◌, eq_of_beq, arith,
}
use kiyomi.Api.Values.{
  Value, undefined, Fields, nil, field, field_of, has_field, set_field, is_undefined, is_nullish,
  get, is_truthy,
}
use kiyomi.Client.{Settled, resolved, platform_error}
use kiyomi.Client.Library.{fill_from, with_snake_case}
use kiyomi.Client.Details.{wrap_details, flat_manga, is_object}

pub field_of-set_field :
    (k j : String) (v : Value) (fields : Fields)
    → field_of j (set_field k v fields) ≡ (if k == j then v else field_of j fields)
unfolding field_of set_field
field_of-set_field k j v nil = refl
field_of-set_field k j v (field i w fields) = ground (
  arith,
  field_of-set_field k j v fields,
  String_eq.same_iff i k,
  String_eq.same_iff i j,
  String_eq.same_iff k j,
)

-- `a`, or `b` where `a` is undefined.
abbrev pub defined_or : Value → Value → Value
defined_or a b = if is_undefined a then b else a

field_of-missing :
    (k : String) (fields : Fields) → has_field k fields ≡ false → field_of k fields ≡ undefined
unfolding field_of has_field
field_of-missing k nil h = refl
field_of-missing k (field j v fields) h = ground (arith, field_of-missing k fields)

undefined_of : (v : Value) → is_undefined v ≡ true → v ≡ undefined
undefined_of undefined h = refl
undefined_of v h = ground arith

same_value :
    (k j : String) (v : Value) (fields : Fields)
    → field_of k fields ≡ v
    → field_of j fields ≡ (if k == j then v else field_of j fields)
same_value k j v fields h = elim (Bool-cases (k == j)) [
  | inl e ↦ rw e (ap (λ i. field_of i fields) (sym (eq_of_beq k j e)) ∙ h)
  | inr e ↦ rw e refl
]

-- The target has its own value, or that of the other field.
field_of-fill_from :
    (k target j : String) (fields : Fields)
    → field_of j (fill_from k target fields) ≡ (
        if target == j
        then defined_or (field_of target fields) (field_of k fields)
        else field_of j fields)
unfolding fill_from
field_of-fill_from k target j fields = elim (Bool-cases (is_undefined (field_of target fields))) [
  | inr d ↦ elim (Bool-cases (has_field k fields)) [
    | inl h ↦ rw (h, d) (same_value target j (field_of target fields) fields refl)
    | inr h ↦ rw (h, d) (same_value target j (field_of target fields) fields refl)
  ]
  | inl d ↦ elim (Bool-cases (has_field k fields)) [
    | inl h ↦ rw (h, d) (field_of-set_field target j (field_of k fields) fields)
    | inr h ↦
        rw (h, d)
          (same_value target j (field_of k fields) fields
            (undefined_of (field_of target fields) d ∙ sym (field_of-missing k fields h)))
  ]
]

-- What the server gets for a field, from the fields that the caller gave.
abbrev pub sent_value : String → Fields → Value
sent_value k fields =
    if "user_notes" == k
    then defined_or (field_of "user_notes" fields) (field_of "userNotes" fields)
    else if "user_rating" == k
    then defined_or (field_of "user_rating" fields) (field_of "userRating" fields)
    else if "user_favorite" == k
    then defined_or (defined_or (field_of "user_favorite" fields) (field_of "userFavorite" fields))
        (field_of "isFavorite" fields)
    else if "user_status" == k
    then defined_or (field_of "user_status" fields) (field_of "userStatus" fields)
    else field_of k fields

-- The fields that an old caller names in camel case reach the server in snake case, unless the caller
-- gives both; `userFavorite` comes before `isFavorite`, and every other field is sent as it was given.
pub field_of-with_snake_case :
    (k : String) (fields : Fields) → field_of k (with_snake_case fields) ≡ sent_value k fields
unfolding with_snake_case
field_of-with_snake_case k fields = elim (Bool-cases ("user_favorite" == k)) [
  | inl e ↦ simp field_of-fill_from (rw e refl)
  | inr e ↦ simp field_of-fill_from (rw e refl)
]

abbrev answer_of : Settled Value → Value
answer_of (resolved v) = v
answer_of r = undefined

same_answer : {v w : Value} → Path (Settled Value) (resolved v) (resolved w) → v ≡ w
same_answer h = ap answer_of h

no_answer : {w : Value} → Path (Settled Value) platform_error (resolved w) → ⊥
no_answer h = ground arith

abbrev has_envelope : Value → Bool
has_envelope v = is_truthy v && is_truthy (get "metadata" v) && is_object (get "metadata" v)

flat_manga-has_envelope :
    (provider_id remote_id : String) (res : Value)
    → has_envelope (flat_manga provider_id remote_id res) ≡ true
unfolding field_of is_truthy
flat_manga-has_envelope provider_id remote_id res = refl

wrap_details-eq :
    (provider_id remote_id : String) (v : Value)
    → has_envelope v ≡ true
    → wrap_details provider_id remote_id v ≡ resolved v
unfolding wrap_details
wrap_details-eq provider_id remote_id v h = rw h refl

-- What is answered is an envelope.
wrapped-has_envelope :
    (provider_id remote_id : String) (res manga : Value)
    → wrap_details provider_id remote_id res ≡ resolved manga
    → has_envelope manga ≡ true
unfolding wrap_details
wrapped-has_envelope p r res manga h = elim (Bool-cases (has_envelope res)) [
  | inl e ↦ ap has_envelope (sym (same_answer (rw e at h))) ∙ e
  | inr e ↦ elim (Bool-cases (is_nullish res)) [
    | inl n ↦ absurd (no_answer (rw (e, n) at h))
    | inr n ↦ ap has_envelope (sym (same_answer (rw (e, n) at h))) ∙ flat_manga-has_envelope p r res
  ]
]

-- A manga that has been wrapped is not wrapped again, whoever asks: its fields stay what they are.
pub wrap_details-twice :
    (provider_id remote_id other_provider other_remote : String) (res manga : Value)
    → wrap_details provider_id remote_id res ≡ resolved manga
    → wrap_details other_provider other_remote manga ≡ resolved manga
wrap_details-twice p r q s res manga h =
    wrap_details-eq q s manga (wrapped-has_envelope p r res manga h)
