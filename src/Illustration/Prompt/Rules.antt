-- ===== src/Illustration/Prompt/Rules.antt =====
-- What every prompt of an image says.
use ai_saga.Common.{
  ℕ, zero, suc, ◌≡◌, subst, refl, inl, inr, true, List, [], ◌∷◌, ◌++◌, Text, text, text_eqb,
  text_eqb_iff, Bool-cases, contains, arith,
}
use ai_saga.Common.Int.{pos}
use ai_saga.Json.{num}
use ai_saga.Strings.{occurs, starts_with, join}
use ai_saga.Python.{Python, display}
use ai_saga.Illustration.{IllustrationSceneSpec}
use ai_saga.Illustration.Images.Slashes.{starts_with-append, append_assoc}

occurs-here : (p t : Text) → starts_with p t ≡ true → occurs p t ≡ true
unfolding occurs
occurs-here p [] h = h
occurs-here p (c ∷ cs) h = rw h refl

occurs-left : (p t : Text) → occurs p (p ++ t) ≡ true
occurs-left p t = occurs-here p (p ++ t) (starts_with-append p t)

occurs-later : (p a t : Text) → occurs p t ≡ true → occurs p (a ++ t) ≡ true
unfolding occurs
occurs-later p [] t h = h
occurs-later p (c ∷ a) t h = ground (arith, occurs-later p a t h)

starts_with-itself : (p : Text) → starts_with p p ≡ true
unfolding starts_with
starts_with-itself [] = refl
starts_with-itself (c ∷ p) = ground (arith, starts_with-itself p)

occurs-itself : (p : Text) → occurs p p ≡ true
occurs-itself p = occurs-here p p (starts_with-itself p)

-- A text of a list occurs in the list joined.
pub occurs-join :
    (sep t : Text) (ts : List Text) → contains t ts ≡ true → occurs t (join sep ts) ≡ true
unfolding join
occurs-join sep t [] h = cc
occurs-join sep t (u ∷ []) h =
    let same : t ≡ u = (text_eqb_iff t u).0 (ground arith) in
    subst (λ x. occurs t x ≡ true) same (occurs-itself t)
occurs-join sep t (u ∷ v ∷ ts) h = elim (Bool-cases (text_eqb t u)) [
  | inl same ↦ rw (append_assoc u sep (join sep (v ∷ ts))) (
      subst (λ x. occurs t (x ++ (sep ++ join sep (v ∷ ts))) ≡ true) ((text_eqb_iff t u).0 same)
        (occurs-left t (sep ++ join sep (v ∷ ts))))
  | inr other ↦
      occurs-later t (u ++ sep) (join sep (v ∷ ts)) (occurs-join sep t (v ∷ ts) (ground arith))
]

-- The n-th group of texts.
abbrev group_at : ℕ → List (List Text) → List Text
group_at n [] = []
group_at zero (ts ∷ rest) = ts
group_at (suc n) (ts ∷ rest) = group_at n rest

-- What a prompt must say of its scene.
pub record Instructed (py : Python) (scene : IllustrationSceneSpec) (p : Text) : Type 0 where
  pub no_text : occurs (text "No readable text, letters, words, numbers, captions, ") p ≡ true
  pub nowhere : occurs (text "or watermarks anywhere in the image.") p ≡ true
  pub no_documents :
      occurs (text "Do not render documents, white text boxes, book pages, ") p ≡ true
  pub no_mockup : occurs (text "This must look like a clean illustration, not a ") p ≡ true
  pub counted :
      occurs
        (text "Show exactly "
          ++ (display py (num (pos scene.visible_character_count)) ++ text " visible figures."))
        p
      ≡ true
  pub figures : (t : Text) → contains t scene.other_visible_figures ≡ true → occurs t p ≡ true
  pub props : (t : Text) → contains t scene.required_props ≡ true → occurs t p ≡ true
