-- ===== src/ReaderPage/Turns.antt =====
-- The timers that end an animation, a turn or a spring-back, among all timers of the reader.
use kiyomi.Base.{
  ℕ, zero, suc, Bool, true, false, Option, none, some, List, [], ◌∷◌, ◌++◌, filter_by, get_elem?,
  ◌≡◌, ◌≢◌, refl, sym, ap, ◌∙◌, inl, inr, Bool-cases, ℕ_eq, String_eq, if_true, if_false, arith,
}
use kiyomi.EditMetadata.{without_index}
use kiyomi.ReaderPage.Navigation.{Callback, forgets_drag}

abbrev pub is_turn : Callback → Bool
is_turn forgets_drag = false
is_turn c = true

abbrev pub turns : List Callback → List Callback
turns timers = filter_by is_turn timers

abbrev some_or {ℓ} : {A : Type ℓ} → A → Option A → A
some_or a none = a
some_or a (some b) = b

abbrev first_or {ℓ} : {A : Type ℓ} → A → List A → A
first_or a [] = a
first_or a (x ∷ xs) = x

abbrev rest_of {ℓ} : {A : Type ℓ} → List A → List A
rest_of [] = []
rest_of (x ∷ xs) = xs

cons_ne {ℓ} : {A : Type ℓ} {x : A} {xs : List A} → (x ∷ xs) ≢ []
cons_ne h = cc

at_front {ℓ κ} : {A : Type ℓ} {B : Type κ} (f : A → B) (t c : A) → some t ≡ some c → f t ≡ f c
at_front f t c h = ap (λ o. f (some_or t o)) h

pub turns-snoc :
    (ts : List Callback) (c : Callback) → turns (ts ++ c ∷ []) ≡ turns ts ++ turns (c ∷ [])
turns-snoc [] c = refl
turns-snoc (t ∷ ts) c = elim (Bool-cases (is_turn t)) [
  | inl e ↦ rw e (ap (λ xs. t ∷ xs) (turns-snoc ts c))
  | inr e ↦ rw e (turns-snoc ts c)
]

pub turns-snoc_other : (ts : List Callback) → turns (ts ++ forgets_drag ∷ []) ≡ turns ts
turns-snoc_other [] = refl
turns-snoc_other (t ∷ ts) = elim (Bool-cases (is_turn t)) [
  | inl e ↦ rw e (ap (λ xs. t ∷ xs) (turns-snoc_other ts))
  | inr e ↦ rw e (turns-snoc_other ts)
]

pub turns-without_other :
    (ts : List Callback) (i : ℕ) (c : Callback)
    → get_elem? ts i ≡ some c
    → is_turn c ≡ false
    → turns (without_index i ts) ≡ turns ts
turns-without_other [] i c h other = refl
turns-without_other (t ∷ ts) zero c h other =
    let e : is_turn t ≡ false = at_front is_turn t c h ∙ other in sym (if_false _ _ e)
turns-without_other (t ∷ ts) (suc i) c h other = rw (turns-without_other ts i c h other) refl

pub no_turns-get_elem? :
    (ts : List Callback) (i : ℕ) (c : Callback)
    → get_elem? ts i ≡ some c
    → turns ts ≡ []
    → is_turn c ≡ false
no_turns-get_elem? [] i c h e = cc
no_turns-get_elem? (t ∷ ts) zero c h e = elim (Bool-cases (is_turn t)) [
  | inl turn ↦ absurd (cons_ne (sym (if_true (t ∷ turns ts) (turns ts) turn) ∙ e))
  | inr other ↦ sym (at_front is_turn t c h) ∙ other
]
no_turns-get_elem? (t ∷ ts) (suc i) c h e = elim (Bool-cases (is_turn t)) [
  | inl turn ↦ absurd (cons_ne (sym (if_true (t ∷ turns ts) (turns ts) turn) ∙ e))
  | inr other ↦ no_turns-get_elem? ts i c h (sym (if_false (t ∷ turns ts) (turns ts) other) ∙ e)
]

pub turns-without_turn :
    (ts : List Callback) (i : ℕ) (c d : Callback)
    → get_elem? ts i ≡ some c
    → is_turn c ≡ true
    → turns ts ≡ d ∷ []
    → (c ≡ d) × (turns (without_index i ts) ≡ [])
turns-without_turn [] i c d h turn one = cc
turns-without_turn (t ∷ ts) zero c d h turn one =
    let e : is_turn t ≡ true = at_front is_turn t c h ∙ turn in
    let two = sym (if_true (t ∷ turns ts) (turns ts) e) ∙ one in
    (ap (some_or c) (sym h) ∙ ap (first_or c) two, ap rest_of two)
turns-without_turn (t ∷ ts) (suc i) c d h turn one = elim (Bool-cases (is_turn t)) [
  | inl e ↦
      let two = sym (if_true (t ∷ turns ts) (turns ts) e) ∙ one in
      absurd (ground (arith, turn, no_turns-get_elem? ts i c h (ap rest_of two)))
  | inr e ↦
      let (same, none_left) =
        turns-without_turn ts i c d h turn (sym (if_false (t ∷ turns ts) (turns ts) e) ∙ one) in
      (same, if_false _ _ e ∙ none_left)
]
