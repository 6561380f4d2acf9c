-- ===== src/Recall/Ranks.antt =====
-- What is recalled: the best of the consistent candidates.
use ai_saga.Common.{
  ℕ, zero, suc, ◌+◌, ◌≤◌, ◌≡◌, ◌∙◌, ◌⊎◌, inl, inr, ap, none, some, refl, sym, subst, true, false,
  List, [], ◌∷◌, ◌++◌, length, take, drop, min, All, Text, arith,
}
use mathlib.Core.List.{Perm}
use ai_saga.Python.{Python}
use ai_saga.Sorting.{
  WeakOrder, sort_by, sort_by-perm, sort_by-IsOrdered, take-append-drop, length-take,
  length-sort_by, take-IsOrdered, AreApart,
}
use ai_saga.Recall.Places.{agreeing, consistent-eq-agreeing, agreeing-AreApart}
use ai_saga.Recall.Recency.{All-map, AreOthers, IsRanking, recency_rank-IsRanking}
use ai_saga.Recall.{
  non_negative, recency_rank, similarity_score, Floats, Candidate, Weights, float_eqb, consistent,
  effective_weights, rank_score, ranks_before, ranked, select_relevant_rag_messages,
}

module _ (f : Floats) where
  module _ (w : Weights f) (cs : List (Candidate f)) where
    ranks_before_asym :
        (x y : Candidate f) → ranks_before f w cs x y ≡ true → ranks_before f w cs y x ≡ false
    unfolding ranks_before float_eqb
    ranks_before_asym x y h = ground (arith, f.lt_asym (rank_score f w cs y) (rank_score f w cs x))

    ranks_before_cotrans :
        (x y z : Candidate f)
        → ranks_before f w cs y x ≡ false
        → ranks_before f w cs z y ≡ false
        → ranks_before f w cs z x ≡ false
    unfolding ranks_before float_eqb
    ranks_before_cotrans x y z h k =
        let a = rank_score f w cs x in
        let b = rank_score f w cs y in
        let c = rank_score f w cs z in
        ground (
          arith,
          f.lt_cotrans a b c,
          f.lt_cotrans b a c,
          f.lt_cotrans c b a,
          f.lt_cotrans a c b,
          f.lt_cotrans b c a,
          f.lt_cotrans c a b,
          f.lt_asym a b,
          f.lt_asym b a,
          f.lt_asym b c,
          f.lt_asym c b,
          f.lt_asym a c,
          f.lt_asym c a,
        )

    rank_order : WeakOrder (Candidate f)
    rank_order = record {
      before = ranks_before f w cs;
      before_asym = ranks_before_asym;
      before_cotrans = ranks_before_cotrans;
    }

  -- The weights that are used for those that are given: a negative one counts as 0, and where
  -- neither is above 0, similarity counts as 1.
  pub record IsUsed (w e : Weights f) : Type 0 where
    pub no_recency : f.lt w.recency (f.of_nat 0) ≡ true → e.recency ≡ f.of_nat 0
    pub recency : f.lt w.recency (f.of_nat 0) ≡ false → e.recency ≡ w.recency
    pub alone :
        f.lt (f.of_nat 0) w.similarity ≡ false
        → f.lt (f.of_nat 0) w.recency ≡ false
        → e.similarity ≡ f.of_nat 1
    pub no_similarity :
        f.lt w.similarity (f.of_nat 0) ≡ true
        → f.lt (f.of_nat 0) w.recency ≡ true
        → e.similarity ≡ f.of_nat 0
    pub similarity :
        f.lt w.similarity (f.of_nat 0) ≡ false
        → (f.lt (f.of_nat 0) w.similarity ≡ true) ⊎ (f.lt (f.of_nat 0) w.recency ≡ true)
        → e.similarity ≡ w.similarity

  -- How near a candidate is: 1 less its distance, and 0 if it has none.
  abbrev pub closeness : Candidate f → f.Float
  closeness c = elim c.similarity_distance [ none ↦ f.of_nat 0 | some d ↦ f.sub (f.of_nat 1) d ]

  -- The score of a candidate of a rank.
  abbrev pub score : Weights f → ℕ → Candidate f → f.Float
  score e rank c =
      f.add (f.mul e.similarity (closeness c))
        (f.mul e.recency (f.div (f.of_nat 1) (f.of_nat (rank + 1))))

  -- A higher score than the other's, or the same at no earlier time.
  abbrev pub IsAsGood : Weights f → (Candidate f → ℕ) → Candidate f → Candidate f → Type 0
  IsAsGood e rank c d =
      (f.lt (score e (rank c) c) (score e (rank d) d) ≡ false)
      × (f.lt (score e (rank d) d) (score e (rank c) c) ≡ false
          → d.memory.created_at ≤ c.memory.created_at)

  -- `chosen` are the best of `all`: as many as there are, up to the limit; with the rest they are all
  -- there are, in some order; and each is as good as each of the rest.
  pub record IsBest (w : Weights f) (limit : ℕ) (all chosen : List (Candidate f)) : Type 0 where
    pub used : Weights f
    pub weighed : IsUsed w used
    pub rank : Candidate f → ℕ
    pub ranking : IsRanking f all rank
    pub rest : List (Candidate f)
    pub count : length chosen ≡ min limit (length all)
    pub complete : Perm (chosen ++ rest) all
    pub best : All (λ c. All (IsAsGood used rank c) rest) chosen

  effective_weights-IsUsed : (w : Weights f) → IsUsed w (effective_weights f w)
  unfolding effective_weights non_negative float_eqb
  effective_weights-IsUsed w =
      let zero_sure = f.lt_asym (f.of_nat 0) (f.of_nat 0) in
      let s_sure = f.lt_asym (f.of_nat 0) w.similarity in
      let r_sure = f.lt_asym (f.of_nat 0) w.recency in
      record {
        no_recency = λ h. ground arith;
        recency = λ h. ground arith;
        alone = λ h k. ground arith;
        no_similarity = λ h k. ground arith;
        similarity = λ h k. elim k [ inl p ↦ ground arith | inr p ↦ ground arith ];
      }

  ranks_before-IsAsGood :
      (e : Weights f) (cs : List (Candidate f)) (c r : Candidate f)
      → ranks_before f e cs r c ≡ false
      → IsAsGood e (recency_rank f cs) c r
  unfolding ranks_before rank_score similarity_score float_eqb
  ranks_before-IsAsGood e cs c r h = (ground arith, λ k. ground arith)

  take-ranked-IsBest :
      (w : Weights f) (n : ℕ) (cs : List (Candidate f))
      → AreApart (AreOthers f) cs
      → IsBest w n cs (take n (ranked f w cs))
  unfolding ranked rank_order
  take-ranked-IsBest w n cs apart =
      let used = effective_weights f w in
      let order = rank_order used cs in
      let sorted = sort_by order.before cs in
      let same = sort_by-perm order.before cs in
      record {
        used = used;
        weighed = effective_weights-IsUsed w;
        rank = recency_rank f cs;
        ranking = recency_rank-IsRanking f cs apart;
        rest = drop n sorted;
        count = omega (arith, length-take order.before n sorted, length-sort_by order.before cs);
        complete = subst (λ l. Perm l cs) (sym (take-append-drop order.before n sorted)) same;
        best =
            All-map (λ c. All-map (ranks_before-IsAsGood used cs c) (drop n sorted)) (take n sorted)
              (take-IsOrdered order.before n sorted (sort_by-IsOrdered order cs));
      }

  select-eq-take :
      (py : Python) (near : List (Candidate f)) (current : Text) (limit : ℕ) (w : Weights f)
      → select_relevant_rag_messages f py near current limit w
        ≡ take limit (ranked f w (consistent f py current near))
  unfolding select_relevant_rag_messages
  select-eq-take py near current zero w = refl
  select-eq-take py [] current (suc n) w = ground arith
  select-eq-take py (c ∷ cs) current (suc n) w = ground arith

  -- What is recalled for a turn. Of the candidates that do not tell another place than that of the
  -- story, blank ones aside, the selection is the best, up to the limit: none that is left out has a
  -- higher score, or the same score and a later time. A score is the weight of similarity times 1
  -- less the distance, plus the weight of recency over one more than the rank; ranks start at 0, no
  -- two candidates share one, and a newer candidate has a smaller one. Negative weights count as 0,
  -- and where neither is above 0, similarity counts as 1. The identifiers of the candidates must
  -- differ.
  pub select_relevant_rag_messages-IsBest :
      (py : Python) (near : List (Candidate f)) (current : Text) (limit : ℕ) (w : Weights f)
      → AreApart (AreOthers f) near
      → IsBest w limit
          (agreeing f py current near)
          (select_relevant_rag_messages f py near current limit w)
  select_relevant_rag_messages-IsBest py near current limit w apart =
      let same = consistent-eq-agreeing f py current near in
      let others = agreeing-AreApart f py current near apart in
      subst (IsBest w limit (agreeing f py current near))
        (sym (select-eq-take py near current limit w ∙ ap (λ cs. take limit (ranked f w cs)) same))
        (take-ranked-IsBest w limit (agreeing f py current near) others)
