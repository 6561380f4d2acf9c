-- ===== src/Character/Leveling.antt =====
-- `gain_experience` ends, and climbs the ladder of levels by the total alone.
use native.Mathlib.Decide.{dec_lt}
use ai_saga.Common.{
  ℕ, zero, suc, ◌+◌, ◌*◌, ◌≤◌, ◌<◌, ◌≡◌, refl, sym, ap, ◌∙◌, inl, inr, leb, leb→le, arith,
  Bool-cases,
}
use ai_saga.Experience.{cost, cost-add_one, cost_unique}
use ai_saga.Character.{
  CharacterStats, experience_for_next_level, level_up_once, level_loop, gain_experience,
}

-- What a climb from `s` to `t` keeps, and what it changes.
pub record Climbs (s t : CharacterStats) : Type 0 where
  pub up : s.level ≤ t.level
  pub paid : cost 100 t.level + t.current_experience ≡ cost 100 s.level + s.current_experience
  pub grown : t.max_hp + cost 10 s.level ≡ s.max_hp + cost 10 t.level
  pub counted : t.experience ≡ s.experience
  pub healed : s.level < t.level → t.hp ≡ t.max_hp
  pub kept : t.level ≤ s.level → t.hp ≡ s.hp

-- One round of the loop, followed by a climb.
Climbs-once :
    (s t : CharacterStats)
    → experience_for_next_level s ≤ s.current_experience
    → Climbs (level_up_once s) t
    → Climbs s t
unfolding level_up_once
Climbs-once s t h c = record {
  up = omega arith;
  paid = omega (arith, cost-add_one 100 s.level);
  grown = omega (arith, cost-add_one 10 s.level);
  counted = c.counted;
  healed = λ _. ground (arith, c.healed, c.kept);
  kept = λ low. absurd (omega arith);
}

Climbs-refl : (s : CharacterStats) → Climbs s s
Climbs-refl s = record {
  up = omega arith;
  paid = refl;
  grown = refl;
  counted = refl;
  healed = λ h. absurd (omega arith);
  kept = λ _. refl;
}

level_loop-Climbs : (f : ℕ) (s : CharacterStats) → Climbs s (level_loop f s)
unfolding level_loop
level_loop-Climbs zero s = Climbs-refl s
level_loop-Climbs (suc f) s =
    elim (Bool-cases (leb (experience_for_next_level s) s.current_experience)) [
      | inl more ↦ rw more (
          Climbs-once s (level_loop f (level_up_once s)) (leb→le _ _ more)
            (level_loop-Climbs f (level_up_once s)))
      | inr done ↦ rw done (Climbs-refl s)
    ]

-- With fuel above the experience held, the loop stops by its test.
level_loop_ends :
    (f : ℕ) (s : CharacterStats)
    → 1 ≤ s.level
    → s.current_experience < f
    → (level_loop f s).current_experience < (level_loop f s).level * 100
unfolding level_loop
level_loop_ends zero s l h = absurd (omega arith)
level_loop_ends (suc f) s l h = ground (arith, level_loop_ends f (level_up_once s))

-- What `gain_experience` promises of its result, as a climb whose end the total decides.
pub record Gains (amount : ℕ) (s t : CharacterStats) : Type 0 where
  pub up : s.level ≤ t.level
  pub paid :
      cost 100 t.level + t.current_experience ≡ cost 100 s.level + s.current_experience + amount
  pub below : t.current_experience < t.level * 100
  pub grown : t.max_hp + cost 10 s.level ≡ s.max_hp + cost 10 t.level
  pub counted : t.experience ≡ s.experience + amount
  pub healed : s.level < t.level → t.hp ≡ t.max_hp
  pub kept : t.level ≤ s.level → t.hp ≡ s.hp

-- From level 1 on, gaining experience ends below the next threshold; the experience spent on the
-- levels climbed and the rest kept add up to what was held and gained; the maximum of the health
-- grows by ten times each level passed; health is full after a climb and unchanged without one.
pub gain_experience-Gains :
    (s : CharacterStats) (amount : ℕ) → 1 ≤ s.level → Gains amount s (gain_experience s amount)
unfolding gain_experience
gain_experience-Gains s amount h =
    let fuel : ℕ = suc (s.current_experience + amount) in
    let start : CharacterStats = record s {
      experience = s.experience + amount;
      current_experience = s.current_experience + amount;
    } in
    let c : Climbs start (level_loop fuel start) = level_loop-Climbs fuel start in
    record {
      up = c.up;
      paid = omega (arith, c.paid);
      below = level_loop_ends fuel start h (omega arith);
      grown = c.grown;
      counted = c.counted;
      healed = c.healed;
      kept = c.kept;
    }

-- The end of a gain is the only one that keeps the promise.
Gains-unique : (s t u : CharacterStats) (amount : ℕ) → Gains amount s t → Gains amount s u → t ≡ u
Gains-unique s t u amount g h =
    let (levels, rest) =
      cost_unique 100 t.level u.level t.current_experience u.current_experience g.below h.below
        (omega arith) in
    let grown : t.max_hp ≡ u.max_hp = omega (arith, ap (cost 10) levels) in
    let health : t.hp ≡ u.hp = elim (dec_lt s.level t.level) [
      | yes p ↦ g.healed p ∙ grown ∙ sym (h.healed (omega arith))
      | no p ↦ g.kept (omega arith) ∙ sym (h.kept (omega arith))
    ] in
    ground arith

Gains-trans : (s t u : CharacterStats) (a b : ℕ) → Gains a s t → Gains b t u → Gains (a + b) s u
Gains-trans s t u a b g h = record {
  up = omega arith;
  paid = omega arith;
  below = h.below;
  grown = omega arith;
  counted = omega arith;
  healed = λ climbed. elim (dec_lt t.level u.level) [
    | yes p ↦ h.healed p
    | no p ↦
        let same : u.level ≡ t.level = omega arith in
        h.kept (omega arith) ∙ g.healed (omega arith) ∙ omega (arith, ap (cost 10) same)
  ];
  kept = λ low. h.kept (omega arith) ∙ g.kept (omega arith);
}

-- How experience is split into awards does not matter: two gains in a row leave exactly the stats
-- of one gain of their sum.
pub gain_experience_add :
    (s : CharacterStats) (a b : ℕ)
    → 1 ≤ s.level
    → gain_experience (gain_experience s a) b ≡ gain_experience s (a + b)
gain_experience_add s a b h =
    let t : CharacterStats = gain_experience s a in
    let g : Gains a s t = gain_experience-Gains s a h in
    Gains-unique s (gain_experience t b) (gain_experience s (a + b)) (a + b)
      (Gains-trans s t (gain_experience t b) a b g
        (gain_experience-Gains t b (omega (arith, g.up))))
      (gain_experience-Gains s (a + b) h)
