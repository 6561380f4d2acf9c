-- ===== src/Progression/Awards.antt =====
-- Awards climb the user's ladder of levels by the total alone, and touch one row.
use ai_saga.Common.{
  ℕ, zero, suc, ◌+◌, ◌*◌, ◌≤◌, ◌<◌, ◌≡◌, refl, ◌∙◌, ◌≢◌, ◌↔◌, true, some, List, [], ◌∷◌, ok, arith,
}
use ai_saga.Experience.{cost, cost-add_one, cost_unique}
use ai_saga.Progression.{
  User, UserProgressionResult, game_level_up_once, game_level_loop, gain_game_experience, find_user,
  put_user, award, award_game_experience,
}

-- What a climb of the user's ladder keeps.
record Climbs (u v : User) : Type 0 where
  up : u.game_level ≤ v.game_level
  paid :
      cost 300 v.game_level + v.game_current_experience
      ≡ cost 300 u.game_level + u.game_current_experience
  counted : v.game_experience ≡ u.game_experience
  same : v.id ≡ u.id

game_level_loop-Climbs : (f : ℕ) (u : User) → Climbs u (game_level_loop f u)
unfolding game_level_loop
game_level_loop-Climbs zero u = record {
  up = omega arith;
  paid = refl;
  counted = refl;
  same = refl;
}
game_level_loop-Climbs (suc f) u =
    ground (arith, game_level_loop-Climbs f (game_level_up_once u), cost-add_one 300 u.game_level)

game_level_loop_ends :
    (f : ℕ) (u : User)
    → 1 ≤ u.game_level
    → u.game_current_experience < f
    → (game_level_loop f u).game_current_experience < (game_level_loop f u).game_level * 300
unfolding game_level_loop
game_level_loop_ends zero u l h = absurd (omega arith)
game_level_loop_ends (suc f) u l h = ground (arith, game_level_loop_ends f (game_level_up_once u))

-- What `gain_game_experience` promises of its result.
pub record Gains (amount : ℕ) (u v : User) : Type 0 where
  pub up : u.game_level ≤ v.game_level
  pub paid :
      cost 300 v.game_level + v.game_current_experience
      ≡ cost 300 u.game_level + u.game_current_experience + amount
  pub below : v.game_current_experience < v.game_level * 300
  pub counted : v.game_experience ≡ u.game_experience + amount
  pub same : v.id ≡ u.id

pub gain_game_experience-Gains :
    (u : User) (amount : ℕ) → 1 ≤ u.game_level → Gains amount u (gain_game_experience u amount)
unfolding gain_game_experience
gain_game_experience-Gains u amount h =
    let fuel : ℕ = suc (u.game_current_experience + amount) in
    let start : User = record u {
      game_experience = u.game_experience + amount;
      game_current_experience = u.game_current_experience + amount;
    } in
    let c : Climbs start (game_level_loop fuel start) = game_level_loop-Climbs fuel start in
    record {
      up = c.up;
      paid = omega (arith, c.paid);
      below = game_level_loop_ends fuel start h (omega arith);
      counted = c.counted;
      same = c.same;
    }

Gains-unique : (u v w : User) (amount : ℕ) → Gains amount u v → Gains amount u w → v ≡ w
Gains-unique u v w amount g h =
    let (levels, rest) =
      cost_unique 300 v.game_level w.game_level v.game_current_experience w.game_current_experience
        g.below h.below (omega arith) in
    ground arith

-- Two awards in a row leave the row of one award of their sum, from level 1 on.
pub gain_game_experience_add :
    (u : User) (a b : ℕ)
    → 1 ≤ u.game_level
    → gain_game_experience (gain_game_experience u a) b ≡ gain_game_experience u (a + b)
gain_game_experience_add u a b h =
    let v : User = gain_game_experience u a in
    let g : Gains a u v = gain_game_experience-Gains u a h in
    let k : Gains b v (gain_game_experience v b) =
      gain_game_experience-Gains v b (omega (arith, g.up)) in
    Gains-unique u (gain_game_experience v b) (gain_game_experience u (a + b)) (a + b)
      (record {
        up = omega (arith, g.up, k.up);
        paid = omega (arith, g.paid, k.paid);
        below = k.below;
        counted = omega (arith, g.counted, k.counted);
        same = k.same ∙ g.same;
      })
      (gain_game_experience-Gains u (a + b) h)

find-put_self :
    (i : ℕ) (v : User) (us : List User) {u : User}
    → v.id ≡ i
    → find_user i us ≡ some u
    → find_user i (put_user v us) ≡ some v
unfolding find_user put_user
find-put_self i v [] e h = cc
find-put_self i v (w ∷ us) {u} e h = ground (arith, find-put_self i v us {u = u})

find-put_ne :
    (v : User) (j : ℕ) (us : List User) → j ≢ v.id → find_user j (put_user v us) ≡ find_user j us
unfolding find_user put_user
find-put_ne v j [] h = refl
find-put_ne v j (w ∷ us) h = ground (arith, find-put_ne v j us h)

find_user-id : (i : ℕ) (us : List User) (u : User) → find_user i us ≡ some u → u.id ≡ i
unfolding find_user
find_user-id i [] u h = cc
find_user-id i (w ∷ us) u h = ground (arith, find_user-id i us u)

-- Awarding experience to a user of level 1 or more succeeds: the user's row becomes the climbed one,
-- what is reported is that row's level and experience with the levels gained, `leveled_up` holds
-- exactly if there are any, and no other user's row changes.
pub award_game_experience-Gains :
    (i xp : ℕ) (us : List User) (u : User)
    → find_user i us ≡ some u
    → 1 ≤ u.game_level
    → (us' : List User) × (told : UserProgressionResult) × (award_game_experience i xp us
        ≡ ok (us', told))
      × ((v : User) × (find_user i us' ≡ some v)
          × Gains xp u v
          × (told.game_level ≡ v.game_level)
          × (told.game_experience ≡ v.game_experience)
          × (v.game_level ≡ u.game_level + told.levels_gained))
      × ((told.leveled_up ≡ true) ↔ (0 < told.levels_gained))
      × ((j : ℕ) → j ≢ i → find_user j us' ≡ find_user j us)
unfolding award_game_experience award
award_game_experience-Gains i xp us u found h =
    let v : User = gain_game_experience u xp in
    let g : Gains xp u v = gain_game_experience-Gains u xp h in
    let here : v.id ≡ i = g.same ∙ find_user-id i us u found in
    (
      put_user v us,
      (award u xp).1,
      rw (found, award_game_experience),
      (v, find-put_self i v us {u = u} here found, g, refl, refl, omega (arith, g.up)),
      ground arith,
      λ j ne. find-put_ne v j us (λ e. ne (e ∙ here)),
    )
