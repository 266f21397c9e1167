-- ===== src/MetadataImport/Commas.antt =====
-- Labels that are typed or pasted with commas between them.
use Prim.Native.Char.{Char, code}
use Prim.Native.String.{[] as empty, ◌∷◌ as ◌before◌}
use Prim.Native.String.append
use kiyomi.Base.{
  true, false, String, List, [], ◌∷◌, ◌++◌, eqb, is_blank, ◌≡◌, refl, ap, ◌∙◌, arith, if_true,
  if_false,
}
use kiyomi.Base.Text.{trim, includes, starts}
use kiyomi.Api.Numbers.{◌+text◌}
use kiyomi.MetadataImport.Labels.{
  Parts, split, all_but_last, last_part, is_selected, add_label, add_labels, handle_input_change,
}

abbrev comma : Char
comma = ","

comma-append : (r : String) → ("," +text r) ≡ (comma before r)
comma-append r = append.cons comma empty r ∙ ap (comma before◌) (append.nil r)

after_comma : (r : String) → includes (comma before r) "," ≡ true
unfolding includes starts
after_comma r = refl

later_comma : (c : Char) (s : String) → includes s "," ≡ true → includes (c before s) "," ≡ true
unfolding includes
later_comma c s h = ground arith

includes-comma : (l r : String) → includes (l +text ("," +text r)) "," ≡ true
includes-comma empty r =
    ap (λ s. includes s ",") (append.nil ("," +text r) ∙ comma-append r) ∙ after_comma r
includes-comma (c before l) r =
    ap (λ s. includes s ",") (append.cons c l ("," +text r))
    ∙ later_comma c (l +text ("," +text r)) (includes-comma l r)

-- A text that begins with a letter other than a comma.
not_comma :
    (c : Char) (s : String)
    → includes (c before s) "," ≡ false
    → (eqb (code c) 44 ≡ false) × (includes s "," ≡ false)
unfolding includes starts
not_comma c s h = (ground arith, ground arith)

split-comma : (r : String) → split (comma before r) ≡ ("", (split r).0 ∷ (split r).1)
unfolding split
split-comma r = refl

before_part : Char → Parts → Parts
before_part c p = (c before p.0, p.1)

split-letter :
    (c : Char) (s : String) → eqb (code c) 44 ≡ false → split (c before s) ≡ before_part c (split s)
unfolding split before_part
split-letter c s h = if_false _ _ h

-- The part before the first comma.
split-part :
    (l r : String)
    → includes l "," ≡ false
    → split (l +text ("," +text r)) ≡ (l, (split r).0 ∷ (split r).1)
unfolding before_part
split-part empty r h = ap split (append.nil ("," +text r) ∙ comma-append r) ∙ split-comma r
split-part (c before l) r h =
    let (other, rest) = not_comma c l h in
    ap split (append.cons c l ("," +text r))
    ∙ split-letter c (l +text ("," +text r)) other
    ∙ ap (before_part c) (split-part l r rest)

split-nil : split empty ≡ ("", [])
unfolding split
split-nil = refl

split-last : (s : String) → includes s "," ≡ false → split s ≡ (s, [])
unfolding before_part
split-last empty h = split-nil
split-last (c before s) h =
    let (other, rest) = not_comma c s h in
    split-letter c s other ∙ ap (before_part c) (split-last s rest)

-- A text with a label twice, and what is typed after it.
abbrev pub twice : String → String → String
twice label rest = label +text ("," +text (label +text ("," +text rest)))

split-twice :
    (label rest : String)
    → includes label "," ≡ false
    → includes rest "," ≡ false
    → split (twice label rest) ≡ (label, label ∷ rest ∷ [])
split-twice label rest one last =
    split-part label (label +text ("," +text rest)) one
    ∙ ap (λ p. (label, p.0 ∷ p.1))
        (split-part label rest one ∙ ap (λ p. (label, p.0 ∷ p.1)) (split-last rest last))

module _ (to_lower_case : String → String) where
  add_labels-twice :
      (labels : List String) (label : String)
      → is_blank (trim label) ≡ false
      → is_selected to_lower_case labels (trim label) ≡ false
      → add_labels to_lower_case labels (label ∷ label ∷ []) labels
        ≡ (labels ++ trim label ∷ []) ++ trim label ∷ []
  unfolding add_labels add_label
  add_labels-twice labels label given fresh = rw (given, fresh) refl

  -- A label that is not blank, has no comma in it and is not selected yet is added twice where it is typed
  -- or pasted twice in one text, with a comma after each: both times it is looked for among the labels of
  -- the render. What follows the second comma, without a comma in it, stays in the input.
  pub handle_input_change-twice :
      (labels : List String) (label rest : String)
      → includes label "," ≡ false
      → includes rest "," ≡ false
      → is_blank (trim label) ≡ false
      → is_selected to_lower_case labels (trim label) ≡ false
      → handle_input_change to_lower_case (twice label rest) labels
        ≡ ((labels ++ trim label ∷ []) ++ trim label ∷ [], rest)
  unfolding handle_input_change
  handle_input_change-twice labels label rest one last given fresh =
      if_true _ _ (includes-comma label (label +text ("," +text rest)))
      ∙ ap (λ p. (add_labels to_lower_case labels (all_but_last p.0 p.1) labels, last_part p.0 p.1))
          (split-twice label rest one last)
      ∙ ap (λ ls. (ls, rest)) (add_labels-twice labels label given fresh)
