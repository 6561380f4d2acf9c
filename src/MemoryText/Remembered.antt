-- ===== src/MemoryText/Remembered.antt =====
-- What is remembered of an answer is never an empty text, which the memory would refuse.
use ai_saga.Common.{
  ◌≢◌, refl, true, false, Option, none, some, List, [], ◌∷◌, ◌++◌, Text, text, All, arith,
  Bool-cases, inl, inr,
}
use ai_saga.Common.Int.{is_nonzero}
use ai_saga.Strings.{strip, join}
use ai_saga.Json.{Json, null, bool, num, real, str, arr, obj, nil, cons, find}
use ai_saga.Python.{Python, display}
use ai_saga.MemoryText.{
  list_line, text_line, number_line, build_state_lines, state_lines, build_assistant_search_text,
}

-- Lines of which none is empty.
abbrev Full : List Text → Type 0
Full = All (λ t. t ≢ [])

Full-append : (xs ys : List Text) → Full xs → Full ys → Full (xs ++ ys)
Full-append [] ys p q = q
Full-append (x ∷ xs) ys p q = (Full-append xs ys p.0 q, p.1)

append_ne-nil : (a b : Text) → b ≢ [] → a ++ b ≢ []
append_ne-nil [] b h = h
append_ne-nil (x ∷ xs) b h = ground arith

label_ne-nil : (a b : Text) → a ≢ [] → a ++ b ≢ []
label_ne-nil [] b h = absurd (h refl)
label_ne-nil (x ∷ xs) b h = ground arith

stripped : (label t : Text) → Full (elim t [ [] ↦ [] | c ∷ cs ↦ (label ++ c ∷ cs) ∷ [] ])
stripped label [] = tt
stripped label (c ∷ cs) = (tt, append_ne-nil label (c ∷ cs) (ground arith))

text_line-Full : (label : Text) (j : Option Json) → Full (text_line label j)
unfolding text_line
text_line-Full label none = tt
text_line-Full label (some null) = tt
text_line-Full label (some (bool b)) = tt
text_line-Full label (some (num z)) = tt
text_line-Full label (some (real b t)) = tt
text_line-Full label (some (arr xs)) = tt
text_line-Full label (some (obj fs)) = tt
text_line-Full label (some (str t)) = stripped label (strip t)

list_line-Full :
    (py : Python) (label : Text) (j : Option Json) → label ≢ [] → Full (list_line py label j)
unfolding list_line
list_line-Full py label none h = tt
list_line-Full py label (some null) h = tt
list_line-Full py label (some (bool b)) h = tt
list_line-Full py label (some (num z)) h = tt
list_line-Full py label (some (real b t)) h = tt
list_line-Full py label (some (str t)) h = tt
list_line-Full py label (some (arr nil)) h = tt
list_line-Full py label (some (arr (cons x xs))) h = (tt, label_ne-nil label _ h)
list_line-Full py label (some (obj fs)) h = tt

number_line-Full :
    (py : Python) (label : Text) (j : Option Json) → label ≢ [] → Full (number_line py label j)
unfolding number_line
number_line-Full py label none h = tt
number_line-Full py label (some null) h = tt
number_line-Full py label (some (bool true)) h = (tt, label_ne-nil label _ h)
number_line-Full py label (some (bool false)) h = tt
number_line-Full py label (some (num z)) h = elim (Bool-cases (is_nonzero z)) [
  | inl some_change ↦ rw some_change (tt, label_ne-nil label (display py (num z)) h)
  | inr no_change ↦ rw no_change tt
]
number_line-Full py label (some (real b t)) h = tt
number_line-Full py label (some (str t)) h = tt
number_line-Full py label (some (arr xs)) h = tt
number_line-Full py label (some (obj fs)) h = tt

join_ne-nil : (sep t : Text) (ts : List Text) → t ≢ [] → join sep (t ∷ ts) ≢ []
unfolding join
join_ne-nil sep t [] h = h
join_ne-nil sep t (u ∷ us) h = label_ne-nil (t ++ sep) (join sep (u ∷ us)) (label_ne-nil t sep h)

state_lines-Full : (py : Python) (j : Option Json) → Full (state_lines py j)
unfolding state_lines build_state_lines
state_lines-Full py none = tt
state_lines-Full py (some null) = tt
state_lines-Full py (some (bool b)) = tt
state_lines-Full py (some (num z)) = tt
state_lines-Full py (some (real b t)) = tt
state_lines-Full py (some (str t)) = tt
state_lines-Full py (some (arr xs)) = tt
state_lines-Full py (some (obj fs)) =
    Full-append _ _
      (Full-append _ _
        (Full-append _ _
          (Full-append _ _
            (Full-append _ _
              (Full-append _ _ (text_line-Full (text "위치 변화: ") (find (text "location") fs)) (
                list_line-Full py (text "획득 아이템: ") (find (text "items_gained") fs) (ground arith)))
              (list_line-Full py (text "소모/분실 아이템: ") (find (text "items_lost") fs) (ground arith)))
            (list_line-Full py (text "발견: ") (find (text "discoveries") fs) (ground arith)))
          (list_line-Full py (text "만난 NPC: ") (find (text "npcs_met") fs) (ground arith)))
        (number_line-Full py (text "HP 변화: ") (find (text "hp_change") fs) (ground arith)))
      (number_line-Full py (text "경험치 변화: ") (find (text "experience_gained") fs) (ground arith))

-- Lines joined, or the raw text where there are none.
joined :
    (raw : Text) (lines : List Text)
    → Full lines
    → strip raw ≢ []
    → elim lines [ [] ↦ strip raw | t ∷ ts ↦ join (10 ∷ []) (t ∷ ts) ] ≢ []
joined raw [] full h = h
joined raw (t ∷ ts) full h = join_ne-nil (10 ∷ []) t ts full.1

-- An answer that is not blank is remembered under a text that is not empty, whatever was parsed
-- from it.
pub build_assistant_search_text-ne-nil :
    (py : Python) (raw : Text) (parsed : Option Json)
    → strip raw ≢ []
    → build_assistant_search_text py raw parsed ≢ []
unfolding build_assistant_search_text
build_assistant_search_text-ne-nil py raw none h = h
build_assistant_search_text-ne-nil py raw (some null) h = h
build_assistant_search_text-ne-nil py raw (some (bool b)) h = h
build_assistant_search_text-ne-nil py raw (some (num z)) h = h
build_assistant_search_text-ne-nil py raw (some (real b t)) h = h
build_assistant_search_text-ne-nil py raw (some (str t)) h = h
build_assistant_search_text-ne-nil py raw (some (arr xs)) h = h
build_assistant_search_text-ne-nil py raw (some (obj fs)) h =
    joined raw _
      (Full-append _ _ (text_line-Full [] (find (text "narrative") fs))
        (state_lines-Full py (find (text "state_changes") fs)))
      h
