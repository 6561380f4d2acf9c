-- ===== src/Narrator/Markup.antt =====
-- `_normalize_for_comparison`: markup and white space become single spaces. A regular expression
-- with `IGNORECASE` folds the case of ASCII letters, of the long s and of the dotted and dotless i.
use ai_saga.Common.{
  ℕ, zero, suc, ◌+◌, Bool, false, ◌&&◌, ◌||◌, Option, none, some, List, [], ◌∷◌, eqb, leb,
  if◌then◌else◌, Text, text, length,
}
use ai_saga.Strings.{is_space, strip, strip_left}

unfoldable pub fold_case : ℕ → ℕ
fold_case c =
    if leb 65 c && leb c 90
    then c + 32
    else if eqb c 0x17f
    then b's'
    else if eqb c 0x130 || eqb c 0x131
    then b'i'
    else c

-- What follows `prefix`, compared without case.
unfoldable pub past : Text → Text → Option Text
unfolding fold_case
past [] t = some t
past (p ∷ ps) [] = none
past (p ∷ ps) (c ∷ cs) = let rest = past ps cs in if eqb p (fold_case c) then rest else none

unfoldable pub past_slash : Text → Text
past_slash [] = []
past_slash (c ∷ cs) = if eqb c b'/' then cs else c ∷ cs

-- What follows a match of `<br\s*/?>` at the start.
unfoldable pub past_br : Text → Option Text
unfolding past past_slash
past_br t = elim (past (text "<br") t) [
  | none ↦ none
  | some rest ↦ past (text ">") (past_slash (strip_left rest))
]

unfoldable pub past_first : List Text → Text → Option Text
unfolding past
past_first [] t = none
past_first (p ∷ ps) t = elim (past p t) [ some rest ↦ some rest | none ↦ past_first ps t ]

-- What follows a match of `</?(b|strong|i|em)>` at the start.
unfoldable pub past_tag : Text → Option Text
unfolding past_first past_slash
past_tag t = elim (past (text "<") t) [
  | none ↦ none
  | some rest ↦
      past_first (text "b>" ∷ text "strong>" ∷ text "i>" ∷ text "em>" ∷ []) (past_slash rest)
]

-- `re.sub` with a space, on fuel; every round takes at least one character.
unfoldable pub sub : (Text → Option Text) → ℕ → Text → Text
sub match zero t = []
sub match (suc f) [] = []
sub match (suc f) (c ∷ cs) = elim (match (c ∷ cs)) [
  | some rest ↦ 32 ∷ sub match f rest
  | none ↦ c ∷ sub match f cs
]

-- `re.sub(r"\s+", " ", t)`; the flag says that the character before was white space.
unfoldable pub collapse : Bool → Text → Text
unfolding is_space
collapse after [] = []
collapse after (c ∷ cs) =
    let rest = collapse (is_space c) cs in
    if is_space c then (if after then rest else 32 ∷ rest) else c ∷ rest

unfoldable pub normalize_for_comparison : Text → Text
unfolding past_br past_tag sub collapse
normalize_for_comparison t =
    let broken = sub past_br (length t) t in
    strip (collapse false (sub past_tag (length broken) broken))
