-- ===== src/Examples/Recalls.antt =====
-- Memories near an action, and a merge.
use ai_saga.Common.{ℕ, ◌≡◌, arith, none, some, List, [], ◌∷◌, ◌++◌, text}
use ai_saga.Values.{MessageRole}
use ai_saga.Json.{str, obj, field, end}
use ai_saga.Entities.{GameMemory, MemoryType}
use ai_saga.Recall.{
  Candidate, Weights, Context, memory, select_relevant_rag_messages, older, merge_contexts,
}
use ai_saga.Sorting.{IsOrdered, AreApart}
use ai_saga.Recall.Places
use ai_saga.Recall.Recency
use ai_saga.Recall.Ranks
use ai_saga.Recall.Merge
use ai_saga.Examples.Setup.{floats, python}

abbrev remembered : ℕ → GameMemory
remembered i = record {
  id = i;
  session_id = 1;
  source_message_id = i;
  role = MessageRole.user;
  memory_type = MemoryType.user_action;
  content = text "look";
  parsed_response = some (
      obj
        (field (text "state_changes") (obj (field (text "location") (str (text "hall")) end)) end));
  embedding = 0;
  created_at = i;
}

abbrev near : List (Candidate floats)
near =
    record { memory = remembered 3; similarity_distance = some 400 }
    ∷ record { memory = remembered 5; similarity_distance = some 300 }
    ∷ record {
      memory = record (remembered 4) { parsed_response = none };
      similarity_distance = none;
    }
    ∷ []

abbrev weights : Weights floats
weights = record { similarity = 700; recency = 300 }

near-AreApart : AreApart (Recency.AreOthers floats) near
near-AreApart = (((tt, λ h. omega arith), λ h. omega arith), ((tt, λ h. omega arith), (tt, tt)))

select_relevant_rag_messages-IsBest_example :
    Ranks.IsBest floats weights 2
      (Places.agreeing floats python (text " hall") near)
      (select_relevant_rag_messages floats python near (text " hall") 2 weights)
select_relevant_rag_messages-IsBest_example =
    Ranks.select_relevant_rag_messages-IsBest floats python near (text " hall") 2 weights
      near-AreApart

abbrev recent : List Context
recent = memory (remembered 5) ∷ memory (remembered 6) ∷ []

abbrev recalled : List Context
recalled = memory (remembered 2) ∷ memory (remembered 5) ∷ []

merge_contexts_lem_example :
    IsOrdered older (merge_contexts recent recalled)
    × ((i : ℕ)
        → Merge.occurrences i (merge_contexts recent recalled) ≡ Merge.first i (recent ++ recalled))
merge_contexts_lem_example = Merge.merge_contexts_lem recent recalled
