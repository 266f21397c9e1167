-- ===== src/MetadataCompare/Merging/Loops.antt =====
-- The loop that both merging functions share, over any items: an item that is not valid, or whose
-- key was seen before, is passed over; any other is pushed.
use kiyomi.Base.{
  String, Bool, true, false, not, ◌&&◌, List, [], ◌∷◌, ◌++◌, map, filter_by, inl, inr, ◌≡◌, refl,
  sym, ap, ◌∙◌, arith, Bool-cases, ◌==◌, String_eq, eq_iff, if◌then◌else◌,
}
use kiyomi.Base.Sets.{has, add}
use kiyomi.Base.Sets.Laws.{has-add}
use kiyomi.MetadataCompare.{Loop}
use kiyomi.MetadataCompare.Keys.{firsts, filter_by-filter_by}
use mathlib.Core.List.{append_assoc, append-nil}

filter_by-true {ℓ} : {B : Type ℓ} (xs : List B) → filter_by (λ x. true) xs ≡ xs
filter_by-true [] = refl
filter_by-true (x ∷ xs) = ap (λ ys. x ∷ ys) (filter_by-true xs)

module _ {ℓ κ} {A : Type ℓ} {B : Type κ} (valid : B → Bool) (k : B → String) (out : B → A) where
  abbrev pub pushed : B → Loop A → Loop A
  pushed x s = record { seen = add (k x) s.seen; result = s.result ++ out x ∷ [] }

  unfoldable pub push_new : B → Loop A → Loop A
  push_new x s = if not (valid x) then s else if has s.seen (k x) then s else pushed x s

  unfoldable pub push_all : List B → Loop A → Loop A
  push_all [] s = s
  push_all (x ∷ xs) s = push_all xs (push_new x s)

  pub push_all-append :
      (xs ys : List B) (s : Loop A) → push_all (xs ++ ys) s ≡ push_all ys (push_all xs s)
  unfolding push_all
  push_all-append [] ys s = refl
  push_all-append (x ∷ xs) ys s = push_all-append xs ys (push_new x s)

  abbrev unseen : List String → B → Bool
  unseen seen x = not (has seen (k x))

  abbrev other : B → B → Bool
  other x y = not (k x == k y)

  unseen-other_of_seen :
      (seen : List String) (x y : B)
      → has seen (k x) ≡ true
      → (unseen seen y && other x y) ≡ unseen seen y
  unseen-other_of_seen seen x y h = elim (Bool-cases (k x == k y)) [
    | inl same ↦ rw (← (eq_iff _ _).0 same, h) refl
    | inr differ ↦ ground arith
  ]

  unseen-other_of_new :
      (seen : List String) (x y : B) → (unseen seen y && other x y) ≡ unseen (add (k x) seen) y
  unseen-other_of_new seen x y = ground (arith, has-add (k x) (k y) seen)

  push_new_invalid : (x : B) (s : Loop A) → valid x ≡ false → push_new x s ≡ s
  unfolding push_new
  push_new_invalid x s h = ground arith

  push_new_old : (x : B) (s : Loop A) → valid x ≡ true → has s.seen (k x) ≡ true → push_new x s ≡ s
  unfolding push_new
  push_new_old x s h old = ground arith

  push_new_new :
      (x : B) (s : Loop A) → valid x ≡ true → has s.seen (k x) ≡ false → push_new x s ≡ pushed x s
  unfolding push_new
  push_new_new x s h new = ground arith

  push_all-firsts-unseen :
      (xs : List B) (s : Loop A)
      → (push_all xs s).result
        ≡ s.result ++ map out (filter_by (unseen s.seen) (firsts k (filter_by valid xs)))
  unfolding push_all
  push_all-firsts-unseen [] s = sym (append-nil _)
  push_all-firsts-unseen (x ∷ xs) s = elim (Bool-cases (valid x)) [
    | inr bad ↦
        rw bad (
          ap (λ t. (push_all xs t).result) (push_new_invalid x s bad) ∙ push_all-firsts-unseen xs s)
    | inl good ↦ elim (Bool-cases (has s.seen (k x))) [
      | inl old ↦
          rw (good, old)
            (ap (λ t. (push_all xs t).result) (push_new_old x s good old)
              ∙ push_all-firsts-unseen xs s
              ∙ ap (λ ys. s.result ++ map out ys)
                  (sym (
                    filter_by-filter_by (unseen s.seen) (unseen s.seen) (other x)
                      (firsts k (filter_by valid xs)) (λ y. unseen-other_of_seen s.seen x y old))))
      | inr new ↦
          rw (good, new)
            (ap (λ t. (push_all xs t).result) (push_new_new x s good new)
              ∙ push_all-firsts-unseen xs (pushed x s)
              ∙ append_assoc s.result (out x ∷ []) _
              ∙ ap (λ ys. s.result ++ out x ∷ map out ys)
                  (sym (
                    filter_by-filter_by (unseen (add (k x) s.seen)) (unseen s.seen) (other x)
                      (firsts k (filter_by valid xs)) (unseen-other_of_new s.seen x))))
    ]
  ]

  pub push_all-firsts :
      (xs : List B)
      → (push_all xs (record { seen = []; result = [] })).result
        ≡ map out (firsts k (filter_by valid xs))
  unfolding has
  push_all-firsts xs =
      push_all-firsts-unseen xs (record { seen = []; result = [] })
      ∙ ap (map out) (filter_by-true (firsts k (filter_by valid xs)))
