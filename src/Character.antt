-- ===== src/Character.antt =====
-- Characters: app/game/domain/entities/character.py. The numbers of `CharacterStats` are validated
-- to be at least 0, and every caller passes amounts of at least 0 (`Turn.Changes` shows the guards),
-- so all are naturals; `max(0, hp - amount)` is the truncated subtraction.
pub mod Leveling
use ai_saga.Common.{
  ℕ, zero, suc, ◌+◌, ◌-◌, ◌*◌, min, Bool, true, false, not, ◌&&◌, Option, List, [], ◌∷◌, ◌++◌, ltb,
  leb, if◌then◌else◌, Text, text_eqb, contains, Result, ok, raise, item_not_in_inventory,
}

pub record CharacterStats : Type 0 where
  pub hp : ℕ
  pub max_hp : ℕ
  pub level : ℕ
  pub experience : ℕ
  pub current_experience : ℕ

unfoldable pub take_damage : CharacterStats → ℕ → CharacterStats
take_damage s amount = record s { hp = s.hp - amount }

unfoldable pub heal : CharacterStats → ℕ → CharacterStats
heal s amount = record s { hp = min s.max_hp (s.hp + amount) }

-- `CharacterStats.level_up`, which leaves the experience alone.
unfoldable pub level_up : CharacterStats → CharacterStats
level_up s = record s {
  level = s.level + 1;
  max_hp = s.max_hp + 10 * s.level;
  hp = s.max_hp + 10 * s.level;
}

unfoldable pub experience_for_next_level : CharacterStats → ℕ
experience_for_next_level s = s.level * 100

unfoldable pub level_up_once : CharacterStats → CharacterStats
unfolding experience_for_next_level
level_up_once s = record s {
  level = s.level + 1;
  max_hp = s.max_hp + 10 * s.level;
  hp = s.max_hp + 10 * s.level;
  current_experience = s.current_experience - experience_for_next_level s;
}

-- The `while` loop of `gain_experience`, on fuel.
unfoldable pub level_loop : ℕ → CharacterStats → CharacterStats
unfolding level_up_once
level_loop zero s = s
level_loop (suc f) s =
    let rest = level_loop f (level_up_once s) in
    if leb (experience_for_next_level s) s.current_experience then rest else s

-- Each round but one from level 0 takes experience away, so the experience held is fuel enough.
unfoldable pub gain_experience : CharacterStats → ℕ → CharacterStats
gain_experience s amount = level_loop (suc (s.current_experience + amount)) (record s {
  experience = s.experience + amount;
  current_experience = s.current_experience + amount;
})

unfoldable pub is_alive_stats : CharacterStats → Bool
is_alive_stats s = ltb 0 s.hp

pub record CharacterProfile : Type 0 where
  pub age : ℕ
  pub gender : Text
  pub appearance : Text
  pub goal : Option Text

pub record CharacterEntity : Type 0 where
  pub id : ℕ
  pub user_id : ℕ
  pub scenario_id : ℕ
  pub name : Text
  pub profile : Option CharacterProfile
  pub stats : CharacterStats
  pub inventory : List Text
  pub is_active : Bool
  pub created_at : ℕ

unfoldable pub update_stats : CharacterEntity → CharacterStats → CharacterEntity
update_stats c s = record c { stats = s }

unfoldable pub add_to_inventory : CharacterEntity → Text → CharacterEntity
add_to_inventory c item = record c { inventory = c.inventory ++ item ∷ [] }

-- `[i for i in items if i != item]`
unfoldable pub without : Text → List Text → List Text
without item [] = []
without item (i ∷ is) = let rest = without item is in if text_eqb i item then rest else i ∷ rest

unfoldable pub remove_from_inventory : CharacterEntity → Text → Result CharacterEntity
remove_from_inventory c item =
    if contains item c.inventory
    then ok (record c { inventory = without item c.inventory })
    else raise item_not_in_inventory

unfoldable pub deactivate : CharacterEntity → CharacterEntity
deactivate c = record c { is_active = false }

unfoldable pub is_alive : CharacterEntity → Bool
unfolding is_alive_stats
is_alive c = is_alive_stats c.stats && c.is_active
