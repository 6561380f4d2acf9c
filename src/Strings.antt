-- ===== src/Strings.antt =====
-- Python's text operations, on lists of code points: `str.strip`, `in`, `startswith`, `join`,
-- `split`. White space is what `str.isspace` accepts.
use ai_saga.Common.{
  ℕ, Bool, true, false, ◌&&◌, ◌||◌, List, [], ◌∷◌, ◌++◌, eqb, leb, if◌then◌else◌, Text, drop,
  length,
}

-- `str.isspace` on one character.
unfoldable pub is_space : ℕ → Bool
is_space c =
    (leb 9 c && leb c 13)
    || (leb 28 c && leb c 32)
    || eqb c 133
    || eqb c 160
    || eqb c 5760
    || (leb 8192 c && leb c 8202)
    || eqb c 8232
    || eqb c 8233
    || eqb c 8239
    || eqb c 8287
    || eqb c 12288

unfoldable pub strip_left : Text → Text
strip_left [] = []
strip_left (c ∷ cs) = let rest = strip_left cs in if is_space c then rest else c ∷ cs

-- Drops the white space at the end: a character stays if it or one after it is none.
unfoldable pub strip_right : Text → Text
strip_right [] = []
strip_right (c ∷ cs) = elim (strip_right cs) [
  | [] ↦ if is_space c then [] else c ∷ []
  | d ∷ ds ↦ c ∷ d ∷ ds
]

unfoldable pub strip : Text → Text
unfolding strip_left strip_right is_space
strip t = strip_right (strip_left t)

unfoldable pub starts_with : Text → Text → Bool
starts_with [] t = true
starts_with (p ∷ ps) [] = false
starts_with (p ∷ ps) (c ∷ cs) = eqb p c && starts_with ps cs

-- `part in t`
unfoldable pub occurs : Text → Text → Bool
unfolding starts_with
occurs part [] = starts_with part []
occurs part (c ∷ cs) = starts_with part (c ∷ cs) || occurs part cs

-- `any(k in t for k in keywords)`
unfoldable pub any_occurs : List Text → Text → Bool
unfolding occurs
any_occurs [] t = false
any_occurs (k ∷ ks) t = occurs k t || any_occurs ks t

-- What follows the first occurrence of `part`, up to the next one: `t.split(part)[1]`.
unfoldable pub before : Text → Text → Text
unfolding starts_with
before part [] = []
before part (c ∷ cs) =
    let rest = before part cs in if starts_with part (c ∷ cs) then [] else c ∷ rest

unfoldable pub after : Text → Text → Text
unfolding starts_with
after part [] = []
after part (c ∷ cs) =
    let rest = after part cs in
    if starts_with part (c ∷ cs) then drop (length part) (c ∷ cs) else rest

-- `t.split(sep)` at a one-character separator.
unfoldable pub split_at : ℕ → Text → List Text
split_at sep [] = [] ∷ []
split_at sep (c ∷ cs) = elim (split_at sep cs) [
  | [] ↦ (c ∷ []) ∷ []
  | line ∷ lines ↦ if eqb c sep then [] ∷ line ∷ lines else (c ∷ line) ∷ lines
]

unfoldable pub join : Text → List Text → Text
join sep [] = []
join sep (t ∷ []) = t
join sep (t ∷ u ∷ us) = t ++ sep ++ join sep (u ∷ us)
