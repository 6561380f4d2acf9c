-- ===== src/Recall/Merge.antt =====
-- The merge of recent and recalled messages.
use ai_saga.Common.{
  ℕ, ◌≤◌, ◌≡◌, ◌∙◌, length, refl, true, false, Bool-cases, inl, inr, eqb, if◌then◌else◌, List, [],
  ◌∷◌, ◌++◌, arith,
}
use ai_saga.Sorting.{WeakOrder, IsOrdered, insert_by, sort_by, sort_by-IsOrdered}
use ai_saga.Recall.{Context, context_id, is_seen, unseen, older, merge_contexts}

older_asym : (x y : Context) → older x y ≡ true → older y x ≡ false
unfolding older
older_asym x y h = ground arith

older_cotrans : (x y z : Context) → older y x ≡ false → older z y ≡ false → older z x ≡ false
unfolding older
older_cotrans x y z h k = ground arith

abbrev age_order : WeakOrder Context
age_order = record { before = older; before_asym = older_asym; before_cotrans = older_cotrans }

-- The first element with an identifier.
abbrev pub first : ℕ → List Context → List Context
first i [] = []
first i (c ∷ cs) = let rest = first i cs in if eqb (context_id c) i then c ∷ [] else rest

-- All elements with an identifier.
abbrev pub occurrences : ℕ → List Context → List Context
occurrences i [] = []
occurrences i (c ∷ cs) =
    let rest = occurrences i cs in if eqb (context_id c) i then c ∷ rest else rest

occurrences-unseen :
    (i : ℕ) (seen : List ℕ) (cs : List Context)
    → occurrences i (unseen seen cs) ≡ (if is_seen i seen then [] else first i cs)
unfolding unseen is_seen
occurrences-unseen i seen [] = ground arith
occurrences-unseen i seen (c ∷ cs) =
    ground (arith, occurrences-unseen i seen cs, occurrences-unseen i (context_id c ∷ seen) cs)

nil_of_length : (xs : List Context) → length xs ≤ 0 → xs ≡ []
nil_of_length [] h = refl
nil_of_length (x ∷ xs) h = absurd (omega arith)

occurrences-insert_by :
    (i : ℕ) (x : Context) (ys : List Context)
    → (eqb (context_id x) i ≡ true → occurrences i ys ≡ [])
    → occurrences i (insert_by older x ys) ≡ occurrences i (x ∷ ys)
unfolding insert_by
occurrences-insert_by i x [] h = refl
occurrences-insert_by i x (y ∷ ys) h = elim (Bool-cases (eqb (context_id x) i)) [
  | inl e ↦ let none = h e in ground (arith, occurrences-insert_by i x ys (λ _. ground arith))
  | inr e ↦ ground (arith, occurrences-insert_by i x ys (λ t. cc))
]

occurrences-sort_by :
    (i : ℕ) (xs : List Context)
    → length (occurrences i xs) ≤ 1
    → occurrences i (sort_by older xs) ≡ occurrences i xs
unfolding sort_by
occurrences-sort_by i [] h = refl
occurrences-sort_by i (x ∷ xs) h =
    let same = occurrences-sort_by i xs (ground arith) in
    occurrences-insert_by i x (sort_by older xs)
      (λ e. ground (arith, nil_of_length (occurrences i xs)))
    ∙ ground arith

length-first : (i : ℕ) (xs : List Context) → length (first i xs) ≤ 1
length-first i [] = omega arith
length-first i (x ∷ xs) = ground (arith, length-first i xs)

-- The merged messages. They are ordered from the oldest, and with every identifier there is just the
-- first one of the recent and then the recalled messages that has it.
pub merge_contexts_lem :
    (recent recalled : List Context)
    → IsOrdered older (merge_contexts recent recalled)
      × ((i : ℕ) → occurrences i (merge_contexts recent recalled) ≡ first i (recent ++ recalled))
unfolding merge_contexts is_seen
merge_contexts_lem recent recalled = (
  sort_by-IsOrdered age_order (unseen [] (recent ++ recalled)),
  λ i.
      let all = recent ++ recalled in
      let kept : occurrences i (unseen [] all) ≡ first i all = occurrences-unseen i [] all in
      occurrences-sort_by i (unseen [] all) (rw kept (length-first i all)) ∙ kept,
)
