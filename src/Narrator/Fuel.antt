-- ===== src/Narrator/Fuel.antt =====
-- The replacement of markup runs on fuel: the length of the text is enough.
use ai_saga.Common.{
  ℕ, zero, suc, ◌≤◌, ◌<◌, ◌≡◌, refl, Option, some, List, [], ◌∷◌, Text, text, length, arith,
  Option-cases, inl, inr, ap,
}
use ai_saga.Strings.{strip_left}
use ai_saga.Narrator.Markup.{past, past_slash, past_br, past_first, past_tag, sub}

-- What is left after a match is shorter than the text.
abbrev pub Shortens : (Text → Option Text) → Type 0
Shortens match = (t rest : Text) → match t ≡ some rest → length rest < length t

strip_left-length : (t : Text) → length (strip_left t) ≤ length t
unfolding strip_left
strip_left-length [] = omega arith
strip_left-length (c ∷ cs) = ground (arith, strip_left-length cs)

past_slash-length : (t : Text) → length (past_slash t) ≤ length t
unfolding past_slash
past_slash-length [] = omega arith
past_slash-length (c ∷ cs) = ground arith

past-length : (p t rest : Text) → past p t ≡ some rest → length rest ≤ length t
unfolding past
past-length [] t rest h = ground arith
past-length (p ∷ ps) [] rest h = ground arith
past-length (p ∷ ps) (c ∷ cs) rest h = ground (arith, past-length ps cs rest)

past_first-length :
    (ps : List Text) (t rest : Text) → past_first ps t ≡ some rest → length rest ≤ length t
unfolding past_first
past_first-length [] t rest h = ground arith
past_first-length (p ∷ ps) t rest h = grind (arith, past-length p t, past_first-length ps t rest)

past_cons-length : (p : ℕ) (ps t rest : Text) → past (p ∷ ps) t ≡ some rest → length rest < length t
unfolding past
past_cons-length p ps [] rest h = ground arith
past_cons-length p ps (c ∷ cs) rest h = ground (arith, past-length ps cs rest)

past_br-Shortens : Shortens past_br
unfolding past_br
past_br-Shortens t rest h = elim (Option-cases (past (text "<br") t)) [
  | inl plain ↦ ground arith
  | inr (r, found) ↦ omega (
    arith,
    past_cons-length b'<' (text "br") t r found,
    past-length (text ">") (past_slash (strip_left r)) rest (ground arith),
    past_slash-length (strip_left r),
    strip_left-length r,
  )
]

past_tag-Shortens : Shortens past_tag
unfolding past_tag
past_tag-Shortens t rest h = grind (
  arith,
  past_cons-length b'<' [] t,
  past_first-length (text "b>" ∷ text "strong>" ∷ text "i>" ∷ text "em>" ∷ []),
  past_slash-length,
)

sub_fuel :
    (match : Text → Option Text)
    → Shortens match
    → (f g : ℕ) (t : Text) → length t ≤ f
    → length t ≤ g
    → sub match f t ≡ sub match g t
unfolding sub
sub_fuel match short zero zero [] p q = refl
sub_fuel match short zero (suc g) [] p q = refl
sub_fuel match short (suc f) zero [] p q = refl
sub_fuel match short (suc f) (suc g) [] p q = refl
sub_fuel match short zero g (c ∷ cs) p q = ground arith
sub_fuel match short (suc f) zero (c ∷ cs) p q = ground arith
sub_fuel match short (suc f) (suc g) (c ∷ cs) p q = elim (Option-cases (match (c ∷ cs))) [
  | inl plain ↦
      rw (plain, sub) (ap (c ∷◌) (sub_fuel match short f g cs (omega arith) (omega arith)))
  | inr (rest, found) ↦
      let less : length rest < length (c ∷ cs) = short (c ∷ cs) rest found in
      rw (found, sub) (ap (32 ∷◌) (sub_fuel match short f g rest (omega arith) (omega arith)))
]

-- Any fuel from the length of the text on replaces the same breaks and the same tags.
pub markup_fuel :
    (f : ℕ) (t : Text)
    → length t ≤ f
    → (sub past_br f t ≡ sub past_br (length t) t) × (sub past_tag f t ≡ sub past_tag (length t) t)
markup_fuel f t h = (
  sub_fuel past_br past_br-Shortens f (length t) t h (omega arith),
  sub_fuel past_tag past_tag-Shortens f (length t) t h (omega arith),
)
