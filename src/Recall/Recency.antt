-- ===== src/Recall/Recency.antt =====
-- The ranks of candidates by their time: newer first, each its own.
use ai_saga.Common.{
  ℕ, ◌+◌, ◌≤◌, ◌<◌, ◌≡◌, ◌≢◌, refl, sym, ap, ◌∙◌, false, inl, inr, Option-cases, Option, none, some,
  List, [], ◌∷◌, length, All, arith,
}
use ai_saga.Sorting.{
  WeakOrder, sort_by, sort_by-IsOrdered, sort_by-All_back, sort_by-AreApart, AreApart, IsOrdered,
  length-sort_by,
}
use ai_saga.Recall.{Floats, Candidate, rank_from, newer, recency_rank}

pub All-map :
    {A : Type 0} {P Q : A → Type 0} → ((x : A) → P x → Q x) → (xs : List A) → All P xs → All Q xs
All-map f [] h = tt
All-map f (x ∷ xs) h = (All-map f xs h.0, f x h.1)

All-map_two :
    {A : Type 0} {P Q R : A → Type 0}
    → ((x : A) → P x → Q x → R x)
    → (xs : List A) → All P xs
    → All Q xs
    → All R xs
All-map_two f [] h k = tt
All-map_two f (x ∷ xs) h k = (All-map_two f xs h.0 k.0, f x h.1 k.1)

module _ (f : Floats) where
  -- The identifiers of two memories differ.
  abbrev pub AreOthers : Candidate f → Candidate f → Type 0
  AreOthers x y = x.memory.id ≢ y.memory.id

  -- The rank of the one and of the other: an earlier one of the newer, and never the same.
  abbrev pub Follows : ℕ → ℕ → Candidate f → Candidate f → Type 0
  Follows j k x y = (y.memory.created_at < x.memory.created_at → j < k) × (AreOthers x y → j ≢ k)

  newest : WeakOrder (Candidate f)
  unfolding newer
  newest = record {
    before = newer f;
    before_asym = λ x y h. ground arith;
    before_cotrans = λ x y z h k. ground arith;
  }

  -- A place in the list, from `n` on.
  abbrev place_or : Option ℕ → ℕ
  place_or none = 0
  place_or (some k) = k

  abbrev place : ℕ → List (Candidate f) → Candidate f → ℕ
  place n cs c = place_or (rank_from f n c.memory.id cs)

  record IsFound (n : ℕ) (cs : List (Candidate f)) (c : Candidate f) : Type 0 where
    at : ℕ
    found : rank_from f n c.memory.id cs ≡ some at
    least : n ≤ at
    most : at < n + length cs

  rank_from-bounds :
      (n i : ℕ) (cs : List (Candidate f)) (k : ℕ)
      → rank_from f n i cs ≡ some k
      → (n ≤ k) × (k < n + length cs)
  unfolding rank_from
  rank_from-bounds n i [] k h = ground arith
  rank_from-bounds n i (c ∷ cs) k h = elim (Option-cases (rank_from f (n + 1) i cs)) [
    | inl e ↦ grind arith
    | inr (j, e) ↦
        let (low, high) = rank_from-bounds (n + 1) i cs j e in
        let same : j ≡ k = grind arith in (omega arith, omega arith)
  ]

  rank_from-later :
      (n i k : ℕ) (c : Candidate f) (cs : List (Candidate f))
      → rank_from f (n + 1) i cs ≡ some k
      → rank_from f n i (c ∷ cs) ≡ some k
  unfolding rank_from
  rank_from-later n i k c cs h = rw h refl

  rank_from-some :
      (n : ℕ) (c : Candidate f) (cs : List (Candidate f))
      → (k : ℕ) × (rank_from f n c.memory.id (c ∷ cs) ≡ some k)
  unfolding rank_from
  rank_from-some n c cs = elim (Option-cases (rank_from f (n + 1) c.memory.id cs)) [
    | inl e ↦ (n, ground arith)
    | inr (j, e) ↦ (j, rw e refl)
  ]

  rank_from-IsFound : (n : ℕ) (cs : List (Candidate f)) → All (IsFound n cs) cs
  rank_from-IsFound n [] = tt
  rank_from-IsFound n (c ∷ cs) =
      let (k, here) = rank_from-some n c cs in
      let (low, high) = rank_from-bounds n c.memory.id (c ∷ cs) k here in
      (
        All-map
            (λ x there. record {
              at = there.at;
              found = rank_from-later n x.memory.id there.at c cs there.found;
              least = omega (arith, there.least);
              most = omega (arith, there.most);
            })
            cs (rank_from-IsFound (n + 1) cs),
        record { at = k; found = here; least = low; most = high },
      )

  rank_from-absent :
      (n : ℕ) (c : Candidate f) (cs : List (Candidate f))
      → All (AreOthers c) cs
      → rank_from f n c.memory.id cs ≡ none
  unfolding rank_from
  rank_from-absent n c [] h = refl
  rank_from-absent n c (x ∷ xs) h =
      let rest = rank_from-absent (n + 1) c xs h.0 in let differs = h.1 in ground arith

  rank_from-head :
      (n : ℕ) (c : Candidate f) (cs : List (Candidate f))
      → All (AreOthers c) cs
      → rank_from f n c.memory.id (c ∷ cs) ≡ some n
  unfolding rank_from
  rank_from-head n c cs h = let rest = rank_from-absent (n + 1) c cs h in ground arith

  -- How two places of a list compare.
  abbrev Compare : ℕ → List (Candidate f) → Candidate f → Candidate f → Type 0
  Compare n cs x y = Follows (place n cs x) (place n cs y) x y

  place-later :
      (n : ℕ) (c x : Candidate f) (cs : List (Candidate f))
      → IsFound (n + 1) cs x
      → place n (c ∷ cs) x ≡ place (n + 1) cs x
  place-later n c x cs i =
      ap place_or (rank_from-later n x.memory.id i.at c cs i.found) ∙ sym (ap place_or i.found)

  -- The first of the list against one that comes later.
  first-Follows :
      (n : ℕ) (c x : Candidate f) (cs : List (Candidate f))
      → All (AreOthers c) cs
      → IsFound (n + 1) cs x
      → newer f x c ≡ false
      → Compare n (c ∷ cs) c x × Compare n (c ∷ cs) x c
  unfolding newer
  first-Follows n c x cs others i older =
      let here : place n (c ∷ cs) c ≡ n = ap place_or (rank_from-head n c cs others) in
      let later : place n (c ∷ cs) x ≡ i.at = place-later n c x cs i ∙ ap place_or i.found in
      let least = i.least in
      (
        ((λ _. omega arith), (λ _ same. omega arith)),
        ((λ h. absurd (ground arith)), (λ _ same. omega arith)),
      )

  later-Follows :
      (n : ℕ) (c x y : Candidate f) (cs : List (Candidate f))
      → IsFound (n + 1) cs x
      → IsFound (n + 1) cs y
      → Compare (n + 1) cs x y
      → Compare n (c ∷ cs) x y
  later-Follows n c x y cs i j (newest_first, apart) =
      let at_x = place-later n c x cs i in
      let at_y = place-later n c y cs j in
      (
        (λ h. let less = newest_first h in omega arith),
        (λ h same. apart h (sym at_x ∙ same ∙ at_y)),
      )

  place-Compare :
      (n : ℕ) (cs : List (Candidate f))
      → AreApart AreOthers cs
      → IsOrdered (newer f) cs
      → All (λ x. All (Compare n cs x) cs) cs
  place-Compare n [] apart ordered = tt
  place-Compare n (c ∷ cs) apart ordered =
      let found = rank_from-IsFound (n + 1) cs in
      let ends = All-map_two (λ x i o. first-Follows n c x cs apart.0 i o) cs found ordered.0 in
      let rows =
        All-map_two (λ x i row. All-map_two (λ y j k. later-Follows n c x y cs i j k) cs found row)
          cs found (place-Compare (n + 1) cs apart.1 ordered.1) in
      (
        All-map_two (λ x row both. (row, both.1)) cs rows ends,
        (
          All-map (λ x both. both.0) cs ends,
          ((λ h. omega arith), (λ differ. absurd (differ refl))),
        ),
      )

  recency_rank-place :
      (cs : List (Candidate f)) (x : Candidate f)
      → recency_rank f cs x ≡ place 0 (sort_by (newer f) cs) x
  unfolding recency_rank
  recency_rank-place cs x = elim (Option-cases (rank_from f 0 x.memory.id (sort_by (newer f) cs))) [
    | inl e ↦ grind arith
    | inr (k, e) ↦ grind arith
  ]

  -- How the ranks of two candidates compare, and that a rank is one of as many as there are.
  pub record IsRanking (cs : List (Candidate f)) (rank : Candidate f → ℕ) : Type 0 where
    pub within : All (λ c. rank c < length cs) cs
    pub newest_first : All (λ x. All (λ y. Follows (rank x) (rank y) x y) cs) cs

  pub recency_rank-IsRanking :
      (cs : List (Candidate f)) → AreApart AreOthers cs → IsRanking cs (recency_rank f cs)
  unfolding recency_rank newest
  recency_rank-IsRanking cs apart =
      let before = newer f in
      let sorted = sort_by before cs in
      let ordered = sort_by-IsOrdered newest cs in
      let there = sort_by-AreApart before AreOthers (λ x y h e. h (sym e)) cs apart in
      let all = place-Compare 0 sorted there ordered in
      record {
        within = sort_by-All_back before _ cs (
            All-map
              (λ x i.
                let at : recency_rank f cs x ≡ i.at =
                  recency_rank-place cs x ∙ ap place_or i.found in
                let many = length-sort_by before cs in let most = i.most in omega arith)
              sorted (rank_from-IsFound 0 sorted));
        newest_first = sort_by-All_back before _ cs (
            All-map
              (λ x row. sort_by-All_back before _ cs (
                All-map
                  (λ y k.
                    let at_x = recency_rank-place cs x in
                    let at_y = recency_rank-place cs y in
                    (
                      (λ h. let less = k.0 h in omega arith),
                      (λ h same. k.1 h (sym at_x ∙ same ∙ at_y)),
                    ))
                  sorted row))
              sorted all);
      }
