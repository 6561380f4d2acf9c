-- ===== src/Recall/Places.antt =====
-- The candidates that agree with the place of the story, in words of their own.
use ai_saga.Common.{
  ◌≡◌, inl, inr, ◌||◌, if◌then◌else◌, is_nil, text, text_eqb, Option, none, some, Bool, Bool-cases,
  Option-cases, refl, true, List, [], ◌∷◌, All, Text, arith,
}
use ai_saga.Python.{Python}
use ai_saga.Sorting.{AreApart}
use ai_saga.Strings.{strip}
use ai_saga.Json.{Json, find, str, obj}
use ai_saga.Recall.Recency.{AreOthers}
use ai_saga.Recall.{
  is_state_consistent, extract_location, normalize_text, same_place, as_fields, text_of, Floats,
  Candidate, consistent,
}

module _ (f : Floats) where
  -- The place that a remembered answer tells.
  abbrev pub inside : Text → Option Json → Option Json
  inside key (some (obj fs)) = find key fs
  inside key _ = none

  abbrev pub told : Option Json → Option Text
  told (some (str t)) = some t
  told _ = none

  abbrev pub place_told : Option Json → Option Text
  place_told j = told (inside (text "location") (inside (text "state_changes") j))

  -- A memory agrees with a place unless it tells another one, neither of them blank.
  abbrev pub agrees : Python → Text → Candidate f → Bool
  agrees py current c = elim (place_told c.memory.parsed_response) [
    | none ↦ true
    | some place ↦
        is_nil place
        || (is_nil (py.lower (strip current))
            || is_nil (py.lower (strip place))
            || text_eqb (py.lower (strip current)) (py.lower (strip place)))
  ]

  abbrev pub agreeing : Python → Text → List (Candidate f) → List (Candidate f)
  agreeing py current [] = []
  agreeing py current (c ∷ cs) =
      let rest = agreeing py current cs in if agrees py current c then c ∷ rest else rest

  text_of-eq-told : (j : Option Json) → text_of j ≡ told j
  unfolding text_of
  text_of-eq-told j = ground arith

  find-eq-inside :
      (key : Text) (j : Option Json)
      → (elim (as_fields j) [ none ↦ none | some fs ↦ find key fs ]) ≡ inside key j
  unfolding as_fields
  find-eq-inside key j = ground arith

  extract_location-eq-place_told : (j : Option Json) → extract_location j ≡ place_told j
  unfolding extract_location
  extract_location-eq-place_told j =
      let outer = find-eq-inside (text "state_changes") j in
      let inner = find-eq-inside (text "location") (inside (text "state_changes") j) in
      let last = text_of-eq-told (inside (text "location") (inside (text "state_changes") j)) in
      let nothing = text_of-eq-told none in
      elim (Option-cases (as_fields j)) [
        | inl e ↦ grind arith
        | inr (fs, e) ↦ elim (Option-cases (as_fields (find (text "state_changes") fs))) [
          | inl k ↦ grind arith
          | inr (changes, k) ↦ grind arith
        ]
      ]

  is_state_consistent-eq-agrees :
      (py : Python) (current : Text) (c : Candidate f)
      → is_state_consistent py c.memory current ≡ agrees py current c
  unfolding is_state_consistent normalize_text same_place
  is_state_consistent-eq-agrees py current c =
      let same = extract_location-eq-place_told c.memory.parsed_response in
      elim (Option-cases (place_told c.memory.parsed_response)) [
        | inl e ↦ ground arith
        | inr (place, e) ↦ ground arith
      ]

  pub consistent-eq-agreeing :
      (py : Python) (current : Text) (cs : List (Candidate f))
      → consistent f py current cs ≡ agreeing py current cs
  unfolding consistent
  consistent-eq-agreeing py current [] = refl
  consistent-eq-agreeing py current (c ∷ cs) =
      let same = is_state_consistent-eq-agrees py current c in
      rw (same, consistent-eq-agreeing py current cs) refl

  agreeing-All :
      (py : Python) (current : Text) (P : Candidate f → Type 0) (cs : List (Candidate f))
      → All P cs
      → All P (agreeing py current cs)
  agreeing-All py current P [] h = tt
  agreeing-All py current P (c ∷ cs) h = elim (Bool-cases (agrees py current c)) [
    | inl e ↦ rw e (agreeing-All py current P cs h.0, h.1)
    | inr e ↦ rw e (agreeing-All py current P cs h.0)
  ]

  pub agreeing-AreApart :
      (py : Python) (current : Text) (cs : List (Candidate f))
      → AreApart (AreOthers f) cs
      → AreApart (AreOthers f) (agreeing py current cs)
  agreeing-AreApart py current [] h = tt
  agreeing-AreApart py current (c ∷ cs) h = elim (Bool-cases (agrees py current c)) [
    | inl e ↦
        rw e (agreeing-All py current (AreOthers f c) cs h.0, agreeing-AreApart py current cs h.1)
    | inr e ↦ rw e (agreeing-AreApart py current cs h.1)
  ]
