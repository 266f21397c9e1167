-- ===== src/Base/Lists.antt =====
-- Array methods over lists measured by native numbers: `length`, `slice`, `filter`, `find`,
-- `findIndex`, `some`, `every`, `concat`. A callback is a Boolean test; `findIndex` answers `none`
-- for -1.
use Prim.Native.Nat.{ℕ, zero, suc, ◌+◌, ◌-◌, ◌≤◌, ◌<◌, min}
use mathlib.Core.Path.{◌≡◌, refl, ap, ◌∙◌}
use mathlib.Core.Bool.{Bool, true, false, ◌&&◌, ◌||◌}
use mathlib.Core.List.{List, [], ◌∷◌, ◌++◌, map}
use mathlib.Core.Option.{Option, none, some}
use native.Mathlib.Omega.{arith}
use mathlib.Core.Logic.{inl, inr}
use kiyomi.Base.Tests.{if◌then◌else◌, Bool-cases}

module _ {ℓ} {A : Type ℓ} where
  abbrev pub length : List A → ℕ
  length [] = 0
  length (x ∷ xs) = suc (length xs)

  abbrev pub get_elem? : List A → ℕ → Option A
  get_elem? [] i = none
  get_elem? (x ∷ xs) zero = some x
  get_elem? (x ∷ xs) (suc i) = get_elem? xs i

  abbrev pub take : ℕ → List A → List A
  take zero xs = []
  take (suc n) [] = []
  take (suc n) (x ∷ xs) = x ∷ take n xs

  abbrev pub drop : ℕ → List A → List A
  drop zero xs = xs
  drop (suc n) [] = []
  drop (suc n) (x ∷ xs) = drop n xs

  -- `xs.slice(start, end)` with `0 <= start`.
  abbrev pub slice : ℕ → ℕ → List A → List A
  slice start end xs = take (end - start) (drop start xs)

  abbrev pub filter_by : (A → Bool) → List A → List A
  filter_by p [] = []
  filter_by p (x ∷ xs) = if p x then x ∷ filter_by p xs else filter_by p xs

  abbrev pub find : (A → Bool) → List A → Option A
  find p [] = none
  find p (x ∷ xs) = if p x then some x else find p xs

  abbrev pub any_of : (A → Bool) → List A → Bool
  any_of p [] = false
  any_of p (x ∷ xs) = p x || any_of p xs

  abbrev pub all_of : (A → Bool) → List A → Bool
  all_of p [] = true
  all_of p (x ∷ xs) = p x && all_of p xs

  -- The last element, `xs[xs.length - 1]`.
  abbrev pub last? : List A → Option A
  last? [] = none
  last? (x ∷ []) = some x
  last? (x ∷ y ∷ xs) = last? (y ∷ xs)

  abbrev pub concat : List (List A) → List A
  concat [] = []
  concat (xs ∷ xss) = xs ++ concat xss

-- A predicate by recursion computes to a tuple.
abbrev pub All {ℓ κ} : {A : Type ℓ} → (A → Type κ) → List A → Type κ
All P [] = Unit
All P (x ∷ xs) = P x × All P xs

abbrev pub shift : Option ℕ → Option ℕ
shift none = none
shift (some i) = some (suc i)

abbrev pub find_index {ℓ} : {A : Type ℓ} → (A → Bool) → List A → Option ℕ
find_index p [] = none
find_index p (x ∷ xs) = if p x then some 0 else shift (find_index p xs)

shift-some : (o : Option ℕ) {i : ℕ} → shift o ≡ some i → (j : ℕ) × (o ≡ some j) × (i ≡ suc j)
shift-some none h = cc
shift-some (some j) h = (j, refl, ground arith)

module _ {ℓ} {A : Type ℓ} where
  pub length-append : (xs ys : List A) → length (xs ++ ys) ≡ length xs + length ys
  length-append [] ys = omega arith
  length-append (x ∷ xs) ys = omega (arith, length-append xs ys)

  pub take-append-drop : (n : ℕ) (xs : List A) → take n xs ++ drop n xs ≡ xs
  take-append-drop zero xs = refl
  take-append-drop (suc n) [] = refl
  take-append-drop (suc n) (x ∷ xs) = rw (take-append-drop n xs)

  pub length-take : (n : ℕ) (xs : List A) → length (take n xs) ≡ min n (length xs)
  length-take zero xs = omega arith
  length-take (suc n) [] = omega arith
  length-take (suc n) (x ∷ xs) = omega (arith, length-take n xs)

  pub length-drop : (n : ℕ) (xs : List A) → length (drop n xs) ≡ length xs - n
  length-drop zero xs = omega arith
  length-drop (suc n) [] = omega arith
  length-drop (suc n) (x ∷ xs) = omega (arith, length-drop n xs)

  pub length-filter_by-le : (p : A → Bool) (xs : List A) → length (filter_by p xs) ≤ length xs
  length-filter_by-le p [] = omega arith
  length-filter_by-le p (x ∷ xs) = ground (arith, length-filter_by-le p xs)

  pub length-map {κ} : {B : Type κ} (f : A → B) (xs : List A) → length (map f xs) ≡ length xs
  length-map f [] = refl
  length-map f (x ∷ xs) = ap suc (length-map f xs)

  pub get_elem?-take :
      (n : ℕ) (xs : List A) (p : ℕ) {c : A}
      → get_elem? (take n xs) p ≡ some c
      → (p < n) × (get_elem? xs p ≡ some c)
  get_elem?-take zero xs p h = cc
  get_elem?-take (suc n) [] p h = cc
  get_elem?-take (suc n) (x ∷ xs) zero h = (omega arith, h)
  get_elem?-take (suc n) (x ∷ xs) (suc p) h =
      let (lt, e) = get_elem?-take n xs p h in (omega arith, e)

  pub get_elem?-take_of_lt :
      (n : ℕ) (xs : List A) (p : ℕ) → p < n → get_elem? (take n xs) p ≡ get_elem? xs p
  get_elem?-take_of_lt zero xs p h = absurd (omega arith)
  get_elem?-take_of_lt (suc n) [] p h = refl
  get_elem?-take_of_lt (suc n) (x ∷ xs) zero h = refl
  get_elem?-take_of_lt (suc n) (x ∷ xs) (suc p) h = get_elem?-take_of_lt n xs p (omega arith)

  pub get_elem?-drop :
      (n : ℕ) (xs : List A) (p : ℕ) → get_elem? (drop n xs) p ≡ get_elem? xs (n + p)
  get_elem?-drop zero xs p = ap (get_elem? xs) (omega arith)
  get_elem?-drop (suc n) [] p = refl
  get_elem?-drop (suc n) (x ∷ xs) p =
      let e : suc n + p ≡ suc (n + p) = omega arith in rw e (get_elem?-drop n xs p)

  -- What `findIndex` finds.
  pub find_index-get_elem? :
      (p : A → Bool) (xs : List A) (i : ℕ)
      → find_index p xs ≡ some i
      → (c : A) × (get_elem? xs i ≡ some c) × (p c ≡ true)
  find_index-get_elem? p [] i h = cc
  find_index-get_elem? p (x ∷ xs) i h = elim (Bool-cases (p x)) [
    | inl e ↦ let z : i ≡ 0 = ground arith in (x, rw z refl, e)
    | inr e ↦
        let (j, found, here) = shift-some (find_index p xs) (rw e at h) in
        let (c, at_j, t) = find_index-get_elem? p xs j found in
        (c, ap (get_elem? (x ∷ xs)) here ∙ at_j, t)
  ]

module _ {ℓ} {A : Type ℓ} where
  pub All-filter_by {κ} :
      (P : A → Type κ) (p : A → Bool) (xs : List A)
      → ((x : A) → p x ≡ true → P x)
      → All P (filter_by p xs)
  All-filter_by P p [] h = tt
  All-filter_by P p (x ∷ xs) h = elim (Bool-cases (p x)) [
    | inl e ↦ rw e (h x e, All-filter_by P p xs h)
    | inr e ↦ rw e (All-filter_by P p xs h)
  ]
