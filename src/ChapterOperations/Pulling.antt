-- ===== src/ChapterOperations/Pulling.antt =====
-- The set of the optimistic pulls, and which chapters are shown as being pulled.
use kiyomi.Base.{
  Bool, true, false, not, ◌&&◌, ◌||◌, String, List, [], ◌∷◌, ◌≡◌, refl, sym, ap, ◌∙◌, inl, inr,
  Bool-cases, is_blank, ◌==◌, String_eq, eq_of_beq, if_true, if_false, ◌otherwise◌, arith,
}
use mathlib.Core.Path.{subst}
use kiyomi.Base.Sets.{has, add, delete, of_list, IsDistinct}
use kiyomi.Base.Sets.Laws.{
  has-add, has-add_all, has-of_list, has-delete, add-IsDistinct, add_all-IsDistinct,
  delete-IsDistinct,
}
use kiyomi.Api.{Chapter, Job}
use kiyomi.ChapterOperations.{
  is_downloaded, chapter_of, is_finished, cleanup_from, cleanup, pull_one, pull_batch, Event, pulls,
  pulls_batch, cleans, step, Pending, single_id, if_changed, add_undownloaded, pulling_chapter_ids,
}

module _ (chapters : List Chapter) (jobs : List Job) where
  -- One round of the loop, by whether the id is finished.
  cleanup_from-cons_finished :
      (id : String) (prev next : List String) (changed : Bool)
      → is_finished chapters jobs id ≡ true
      → cleanup_from chapters jobs (id ∷ prev) (next, changed)
        ≡ cleanup_from chapters jobs prev (delete id next, true)
  unfolding cleanup_from
  cleanup_from-cons_finished id prev next changed e =
      ap (cleanup_from chapters jobs prev) (if_true (delete id next, true) (next, changed) e)

  cleanup_from-cons_open :
      (id : String) (prev next : List String) (changed : Bool)
      → is_finished chapters jobs id ≡ false
      → cleanup_from chapters jobs (id ∷ prev) (next, changed)
        ≡ cleanup_from chapters jobs prev (next, changed)
  unfolding cleanup_from
  cleanup_from-cons_open id prev next changed e =
      ap (cleanup_from chapters jobs prev) (if_false (delete id next, true) (next, changed) e)

  cleanup_from-IsDistinct :
      (prev next : List String) (changed : Bool)
      → IsDistinct next
      → IsDistinct (cleanup_from chapters jobs prev (next, changed)).0
  unfolding cleanup_from
  cleanup_from-IsDistinct [] next changed d = d
  cleanup_from-IsDistinct (id ∷ prev) next changed d =
      elim (Bool-cases (is_finished chapters jobs id)) [
        | inl e ↦
            subst (λ r. IsDistinct r.0) (sym (cleanup_from-cons_finished id prev next changed e))
              (cleanup_from-IsDistinct prev (delete id next) true (delete-IsDistinct id next d))
        | inr e ↦
            subst (λ r. IsDistinct r.0) (sym (cleanup_from-cons_open id prev next changed e))
              (cleanup_from-IsDistinct prev next changed d)
      ]

  same_finished :
      (a id : String)
      → (a == id) ≡ true
      → is_finished chapters jobs a ≡ is_finished chapters jobs id
  same_finished a id h = ap (is_finished chapters jobs) (eq_of_beq a id h)

  -- What the loop leaves: without the finished ids that it goes through.
  has-cleanup_from :
      (prev next : List String) (changed : Bool) (id : String)
      → IsDistinct next
      → has (cleanup_from chapters jobs prev (next, changed)).0 id
        ≡ (has next id && not (has prev id && is_finished chapters jobs id))
  unfolding cleanup_from has
  has-cleanup_from [] next changed id d = ground arith
  has-cleanup_from (a ∷ prev) next changed id d = elim (Bool-cases (is_finished chapters jobs a)) [
    | inl e ↦
        ap (λ r. has r.0 id) (cleanup_from-cons_finished a prev next changed e)
        ∙ has-cleanup_from prev (delete a next) true id (delete-IsDistinct a next d)
        ∙ ground (arith, has-delete a id next d, same_finished a id, e)
    | inr e ↦
        ap (λ r. has r.0 id) (cleanup_from-cons_open a prev next changed e)
        ∙ has-cleanup_from prev next changed id d
        ∙ ground (arith, same_finished a id, e)
  ]

  -- Unless the loop says that it changed something, it has not.
  cleanup_from-unchanged :
      (prev next : List String) (changed : Bool)
      → (cleanup_from chapters jobs prev (next, changed)).1 ≡ false
      → (cleanup_from chapters jobs prev (next, changed)).0 ≡ next
  unfolding cleanup_from
  cleanup_from-unchanged [] next changed h = refl
  cleanup_from-unchanged (id ∷ prev) next changed h =
      elim (Bool-cases (is_finished chapters jobs id)) [
        | inl e ↦ absurd (
            stays prev (delete id next)
              (ap (λ r. r.1) (sym (cleanup_from-cons_finished id prev next changed e)) ∙ h))
        | inr e ↦
            ap (λ r. r.0) (cleanup_from-cons_open id prev next changed e)
            ∙ cleanup_from-unchanged prev next changed
                (ap (λ r. r.1) (sym (cleanup_from-cons_open id prev next changed e)) ∙ h)
      ]
    where
      stays :
          (prev next : List String) → (cleanup_from chapters jobs prev (next, true)).1 ≡ false → ⊥
      stays [] next h = ground arith
      stays (a ∷ prev) next h = elim (Bool-cases (is_finished chapters jobs a)) [
        | inl e ↦
            stays prev (delete a next)
              (ap (λ r. r.1) (sym (cleanup_from-cons_finished a prev next true e)) ∙ h)
        | inr e ↦
            stays prev next (ap (λ r. r.1) (sym (cleanup_from-cons_open a prev next true e)) ∙ h)
      ]

  if_changed-loop :
      (prev : List String) (r : List String × Bool)
      → (r.1 ≡ false → r.0 ≡ prev)
      → if_changed prev r ≡ r.0
  if_changed-loop prev (next, true) h = refl
  if_changed-loop prev (next, false) h = sym (h refl)

  cleanup-loop :
      (prev : List String)
      → cleanup chapters jobs prev ≡ (cleanup_from chapters jobs prev (prev, false)).0
  unfolding cleanup cleanup_from
  cleanup-loop [] = refl
  cleanup-loop (id ∷ prev) =
      if_changed-loop (id ∷ prev) (cleanup_from chapters jobs (id ∷ prev) (id ∷ prev, false))
        (cleanup_from-unchanged (id ∷ prev) (id ∷ prev) false)

  -- The cleanup keeps exactly the pulls that are neither downloaded nor finished.
  pub has-cleanup :
      (prev : List String) (id : String)
      → IsDistinct prev
      → has (cleanup chapters jobs prev) id ≡ (has prev id && not (is_finished chapters jobs id))
  has-cleanup prev id d =
      ap (λ ids. has ids id) (cleanup-loop prev)
      ∙ has-cleanup_from prev prev false id d
      ∙ ground arith

  cleanup-IsDistinct :
      (prev : List String) → IsDistinct prev → IsDistinct (cleanup chapters jobs prev)
  cleanup-IsDistinct prev d =
      subst IsDistinct (sym (cleanup-loop prev)) (cleanup_from-IsDistinct prev prev false d)

-- No id stands twice in the set, whatever happens.
pub step-IsDistinct : (prev : List String) (e : Event) → IsDistinct prev → IsDistinct (step prev e)
unfolding step pull_one pull_batch
step-IsDistinct prev (pulls id) d = add-IsDistinct id prev d
step-IsDistinct prev (pulls_batch target active chapter_ids) d =
    elim (Bool-cases (is_blank target || is_blank (active otherwise ""))) [
      | inl e ↦ rw e d
      | inr e ↦ rw e (add_all-IsDistinct chapter_ids prev d)
    ]
step-IsDistinct prev (cleans chapters jobs) d = cleanup-IsDistinct chapters jobs prev d

has-add_undownloaded :
    (chapters : List Chapter) (ids set : List String) (id : String)
    → has (add_undownloaded chapters ids set) id
      ≡ (has set id || has ids id && not (is_downloaded (chapter_of id chapters)))
unfolding add_undownloaded has
has-add_undownloaded chapters [] set id = ground arith
has-add_undownloaded chapters (a ∷ ids) set id =
    elim (Bool-cases (is_downloaded (chapter_of a chapters))) [
      | inl e ↦ rw e (has-add_undownloaded chapters ids set id ∙ ground (arith, e, same a id))
      | inr e ↦ rw e (
          has-add_undownloaded chapters ids (add a set) id
          ∙ ground (arith, e, same a id, has-add a id set))
    ]
  where
    same :
        (a id : String)
        → (a == id) ≡ true
        → is_downloaded (chapter_of a chapters) ≡ is_downloaded (chapter_of id chapters)
    same a id h = ap (λ i. is_downloaded (chapter_of i chapters)) (eq_of_beq a id h)

or_assoc : (a b c d : Bool) → (((a || b) || c) || d) ≡ (a || b || c || d)
or_assoc a b c d = ground arith

pub has-pulling_chapter_ids :
    (active : List String) (chapters : List Chapter) (p : Pending) (optimistic : List String)
    (id : String)
    → has (pulling_chapter_ids active chapters p optimistic) id ≡ (
        has active id
        || has optimistic id && not (is_downloaded (chapter_of id chapters))
        || has (single_id p.pull) id
        || has (p.batch_pull otherwise []) id)
unfolding pulling_chapter_ids
has-pulling_chapter_ids active chapters p optimistic id =
    rw
      (
        has-add_all (p.batch_pull otherwise []) _ id,
        has-add_all (single_id p.pull) _ id,
        has-add_undownloaded chapters optimistic (of_list active) id,
        has-of_list active id,
      )
      (or_assoc (has active id) _ (has (single_id p.pull) id) (has (p.batch_pull otherwise []) id))

-- An event after which the chapter is not finished.
abbrev pub LeavesOpen : String → Event → Type 0
LeavesOpen id (cleans chapters jobs) = is_finished chapters jobs id ≡ false
LeavesOpen id e = Unit

abbrev pub run : List Event → List String → List String
run [] prev = prev
run (e ∷ events) prev = run events (step prev e)
