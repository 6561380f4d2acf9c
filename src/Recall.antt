-- ===== src/Recall.antt =====
-- app/game/application/services/rag_context_builder.py. Floats are a parameter with their order:
-- none of the scores is a NaN.
pub mod Recency
pub mod Places
pub mod Ranks
pub mod Merge
use ai_saga.Common.{
  is_nil, ℕ, suc, ◌+◌, ◌≡◌, Bool, true, false, not, ◌&&◌, ◌||◌, ltb, eqb, if◌then◌else◌, Option,
  none, some, List, [], ◌∷◌, ◌++◌, take, Text, text, text_eqb,
}
use ai_saga.Strings.{strip}
use ai_saga.Json.{Json, Fields, find, str, obj}
use ai_saga.Python.{Python}
use ai_saga.Entities.{GameMessage, GameMemory}
use ai_saga.Sorting.{sort_by}

pub record Floats : Type 1 where
  pub Float : Type 0
  pub of_nat : ℕ → Float
  pub add : Float → Float → Float
  pub sub : Float → Float → Float
  pub mul : Float → Float → Float
  pub div : Float → Float → Float
  pub lt : Float → Float → Bool
  pub lt_asym : (a b : Float) → lt a b ≡ true → lt b a ≡ false
  pub lt_cotrans : (a b c : Float) → lt b a ≡ false → lt c b ≡ false → lt c a ≡ false

-- The dictionary of a value, if it is one, and its text.
unfoldable pub as_fields : Option Json → Option Fields
as_fields (some (obj fs)) = some fs
as_fields _ = none

unfoldable pub text_of : Option Json → Option Text
text_of (some (str t)) = some t
text_of _ = none

-- `_extract_location`
unfoldable pub extract_location : Option Json → Option Text
unfolding as_fields text_of find
extract_location parsed = elim (as_fields parsed) [
  | none ↦ none
  | some fs ↦ elim (as_fields (find (text "state_changes") fs)) [
    | none ↦ none
    | some changes ↦ text_of (find (text "location") changes)
  ]
]

-- `_normalize_text`
unfoldable pub normalize_text : Python → Text → Text
unfolding strip
normalize_text py t = py.lower (strip t)

-- The comparison of `_is_state_consistent`, where a text without content agrees with every other.
unfoldable pub same_place : Text → Text → Bool
same_place current place = is_nil current || is_nil place || text_eqb current place

-- `_is_state_consistent`
unfoldable pub is_state_consistent : Python → GameMemory → Text → Bool
unfolding extract_location normalize_text same_place
is_state_consistent py m current = elim (extract_location m.parsed_response) [
  | none ↦ true
  | some place ↦ is_nil place || same_place (normalize_text py current) (normalize_text py place)
]

module _ (f : Floats) where
  -- A memory with its distance from the action, if the search gave one.
  pub record Candidate : Type 0 where
    pub memory : GameMemory
    pub similarity_distance : Option f.Float

  pub record Weights : Type 0 where
    pub similarity : f.Float
    pub recency : f.Float

  -- `==` on numbers
  unfoldable pub float_eqb : f.Float → f.Float → Bool
  float_eqb a b = not (f.lt a b) && not (f.lt b a)

  unfoldable pub consistent : Python → Text → List Candidate → List Candidate
  unfolding is_state_consistent
  consistent py current [] = []
  consistent py current (c ∷ cs) =
      let rest = consistent py current cs in
      if is_state_consistent py c.memory current then c ∷ rest else rest

  unfoldable pub non_negative : f.Float → f.Float
  non_negative w = if f.lt w (f.of_nat 0) then f.of_nat 0 else w

  -- Negative weights count as 0, and two zeros as the weights 1 and 0.
  unfoldable pub effective_weights : Weights → Weights
  unfolding non_negative float_eqb
  effective_weights w =
      let s = non_negative w.similarity in
      let r = non_negative w.recency in
      if float_eqb s (f.of_nat 0) && float_eqb r (f.of_nat 0)
      then record { similarity = f.of_nat 1; recency = r }
      else record { similarity = s; recency = r }

  -- `recency_rank_map.get(id)`: the last index at which the identifier stands.
  unfoldable pub rank_from : ℕ → ℕ → List Candidate → Option ℕ
  rank_from n i [] = none
  rank_from n i (c ∷ cs) = elim (rank_from (n + 1) i cs) [
    | some k ↦ some k
    | none ↦ if eqb c.memory.id i then some n else none
  ]

  unfoldable pub newer : Candidate → Candidate → Bool
  newer x y = ltb y.memory.created_at x.memory.created_at

  -- The map has every candidate.
  unfoldable pub recency_rank : List Candidate → Candidate → ℕ
  unfolding rank_from newer sort_by
  recency_rank candidates c = elim (rank_from 0 c.memory.id (sort_by newer candidates)) [
    | none ↦ 0
    | some k ↦ k
  ]

  unfoldable pub similarity_score : Candidate → f.Float
  similarity_score c = elim c.similarity_distance [
    | none ↦ f.of_nat 0
    | some d ↦ f.sub (f.of_nat 1) d
  ]

  unfoldable pub rank_score : Weights → List Candidate → Candidate → f.Float
  unfolding recency_rank similarity_score
  rank_score w candidates c =
      f.add (f.mul w.similarity (similarity_score c))
        (f.mul w.recency (f.div (f.of_nat 1) (f.of_nat (recency_rank candidates c + 1))))

  -- The pairs of score and time, in Python's order.
  unfoldable pub ranks_before : Weights → List Candidate → Candidate → Candidate → Bool
  unfolding rank_score float_eqb
  ranks_before w candidates x y =
      f.lt (rank_score w candidates y) (rank_score w candidates x)
      || (float_eqb (rank_score w candidates y) (rank_score w candidates x)
          && ltb y.memory.created_at x.memory.created_at)

  unfoldable pub ranked : Weights → List Candidate → List Candidate
  unfolding effective_weights ranks_before sort_by
  ranked w candidates = sort_by (ranks_before (effective_weights w) candidates) candidates

  -- `select_relevant_rag_messages`; where nothing is consistent, the slice of nothing is empty.
  unfoldable pub select_relevant_rag_messages :
      Python → List Candidate → Text → ℕ → Weights → List Candidate
  unfolding ranked consistent
  select_relevant_rag_messages py near current max_messages w =
      if eqb max_messages 0 || is_nil near
      then []
      else take max_messages (ranked w (consistent py current near))

-- A message or a memory, as the merge takes them.
pub data Context : Type 0 where
  message : GameMessage → Context
  memory : GameMemory → Context

unfoldable pub context_id : Context → ℕ
context_id (message m) = m.id
context_id (memory m) = m.id

unfoldable pub context_time : Context → ℕ
context_time (message m) = m.created_at
context_time (memory m) = m.created_at

unfoldable pub is_seen : ℕ → List ℕ → Bool
is_seen i [] = false
is_seen i (j ∷ js) = eqb i j || is_seen i js

-- The loop over all messages, with the identifiers seen so far.
unfoldable pub unseen : List ℕ → List Context → List Context
unfolding is_seen context_id
unseen seen [] = []
unseen seen (c ∷ cs) = elim (is_seen (context_id c) seen) [
  | true ↦ unseen seen cs
  | false ↦ c ∷ unseen (context_id c ∷ seen) cs
]

unfoldable pub older : Context → Context → Bool
unfolding context_time
older x y = ltb (context_time x) (context_time y)

-- `merge_contexts`
unfoldable pub merge_contexts : List Context → List Context → List Context
unfolding sort_by older unseen
merge_contexts recent_messages rag_messages =
    sort_by older (unseen [] (recent_messages ++ rag_messages))
