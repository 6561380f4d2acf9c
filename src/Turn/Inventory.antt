-- ===== src/Turn/Inventory.antt =====
-- What a turn's changes do to the character: the inventory follows the world's item list, and the
-- health stays within its bounds.
use native.Mathlib.Decide.{dec_lt}
use ai_saga.Common.{
  ℕ, ◌≤◌, ◌≡◌, refl, ap, List, [], ◌∷◌, ◌++◌, Text, contains, ok, ◌>>=◌, Bool-cases, inl, inr,
  arith,
}
use ai_saga.Common.Int.{ℤ, pos_part, is_positive}
use ai_saga.Character.{
  CharacterEntity, CharacterStats, heal, take_damage, gain_experience, update_stats,
  add_to_inventory, remove_from_inventory,
}
use ai_saga.Character.Leveling.{Gains, gain_experience-Gains}
use ai_saga.Experience.{cost, cost-le}
use ai_saga.GameState.{
  StateChanges, StateDict, append_missing, remove_first, remove_present, apply_state_changes,
  from_dict,
}
use ai_saga.GameState.Lookup.{from_dict-to_dict}
use ai_saga.GameState.Members.{Unique, append_missing-Unique, remove_first-Unique}
use ai_saga.GameState.Parity.{remove_first-eq-without}
use ai_saga.Turn.Changes.{change_hp, change_experience, gain_items, lose_items, update_character}

gain_items_lem :
    (items : List Text) (c : CharacterEntity)
    → gain_items items c ≡ record c { inventory = append_missing c.inventory items }
unfolding gain_items append_missing add_to_inventory
gain_items_lem [] c = refl
gain_items_lem (item ∷ items) c = elim (Bool-cases (contains item c.inventory)) [
  | inl old ↦ rw old (gain_items_lem items c)
  | inr fresh ↦ rw fresh (gain_items_lem items (record c { inventory = c.inventory ++ item ∷ [] }))
]

lose_items_lem :
    (items : List Text) (c : CharacterEntity)
    → Unique c.inventory
    → lose_items items c ≡ ok (record c { inventory = remove_present c.inventory items })
unfolding lose_items remove_present remove_from_inventory
lose_items_lem [] c u = refl
lose_items_lem (item ∷ items) c u = elim (Bool-cases (contains item c.inventory)) [
  | inl there ↦
      rw (there, ◌>>=◌, ← remove_first-eq-without item c.inventory u)
        (lose_items_lem items (record c { inventory = remove_first item c.inventory })
          (remove_first-Unique item c.inventory u))
  | inr gone ↦ rw (gone, ◌>>=◌) (lose_items_lem items c u)
]

-- The stats after the health and the experience of a change.
abbrev pub changed_stats : StateChanges → CharacterStats → CharacterStats
changed_stats changes s =
    change_experience changes.experience_gained (change_hp changes.hp_change s)

-- Updating a character whose inventory repeats no item never raises, and only its stats and its
-- inventory change: the inventory by the same appends and removals as the world's item list.
pub update_character_lem :
    (changes : StateChanges) (c : CharacterEntity)
    → Unique c.inventory
    → update_character changes c
      ≡ ok (record c {
        stats = changed_stats changes c.stats;
        inventory =
            remove_present (append_missing c.inventory changes.items_gained) changes.items_lost;
      })
unfolding update_character update_stats
update_character_lem changes c u =
    let risen : CharacterEntity = record c { stats = changed_stats changes c.stats } in
    rw (gain_items_lem changes.items_gained risen) (
      lose_items_lem changes.items_lost
        (record risen { inventory = append_missing c.inventory changes.items_gained })
        (append_missing-Unique c.inventory changes.items_gained u))

-- If a character's inventory is the world's item list and repeats nothing, then after a turn's
-- changes the updated character's inventory is the updated world's item list again.
pub inventory-eq-items :
    (changes : StateChanges) (c : CharacterEntity) (d : StateDict)
    → Unique c.inventory
    → c.inventory ≡ (from_dict d).items
    → (c' : CharacterEntity) × (update_character changes c ≡ ok c')
      × (c'.inventory ≡ (from_dict (apply_state_changes d changes)).items)
unfolding apply_state_changes
inventory-eq-items changes c d u same = (
  record c {
    stats = changed_stats changes c.stats;
    inventory = remove_present (append_missing c.inventory changes.items_gained) changes.items_lost;
  },
  update_character_lem changes c u,
  rw from_dict-to_dict
      (ap (λ xs. remove_present (append_missing xs changes.items_gained) changes.items_lost) same),
)

-- Health within its maximum, which is positive, at a level of 1 or more.
pub record IsHealthy (s : CharacterStats) : Type 0 where
  pub within : s.hp ≤ s.max_hp
  pub leveled : 1 ≤ s.level

change_hp-IsHealthy : (hp : ℤ) (s : CharacterStats) → IsHealthy s → IsHealthy (change_hp hp s)
unfolding change_hp heal take_damage
change_hp-IsHealthy hp s h = ground arith

gain_experience-IsHealthy :
    (s : CharacterStats) (n : ℕ) → IsHealthy s → IsHealthy (gain_experience s n)
gain_experience-IsHealthy s n h =
    let g : Gains n s (gain_experience s n) = gain_experience-Gains s n h.leveled in
    record {
      within = elim (dec_lt s.level (gain_experience s n).level) [
        | yes p ↦ omega (arith, g.healed p)
        | no p ↦
            let level : (gain_experience s n).level ≡ s.level = omega (arith, g.up) in
            omega (arith, g.kept (omega arith), g.grown, ap (cost 10) level, h.within)
      ];
      leveled = omega (arith, g.up, h.leveled);
    }

-- How a gain of experience moves the level and the maximum.
gain_experience_up :
    (s : CharacterStats) (n : ℕ)
    → 1 ≤ s.level
    → (s.level ≤ (gain_experience s n).level) × (s.max_hp ≤ (gain_experience s n).max_hp)
gain_experience_up s n h =
    let g : Gains n s (gain_experience s n) = gain_experience-Gains s n h in
    (g.up, omega (arith, g.grown, cost-le 10 s.level (gain_experience s n).level g.up))

change_hp_keeps :
    (hp : ℤ) (s : CharacterStats)
    → ((change_hp hp s).level ≡ s.level) × ((change_hp hp s).max_hp ≡ s.max_hp)
unfolding change_hp heal take_damage
change_hp_keeps hp s = ground arith

-- A turn's changes keep the health within its maximum and never lower the level, and leave the
-- character's maximum of health no lower.
pub changed_stats-IsHealthy :
    (changes : StateChanges) (s : CharacterStats)
    → IsHealthy s
    → IsHealthy (changed_stats changes s)
      × (s.level ≤ (changed_stats changes s).level)
      × (s.max_hp ≤ (changed_stats changes s).max_hp)
unfolding change_experience
changed_stats-IsHealthy changes s h =
    let t : CharacterStats = change_hp changes.hp_change s in
    let k : IsHealthy t = change_hp-IsHealthy changes.hp_change s h in
    let n : ℕ = pos_part changes.experience_gained in
    let same = change_hp_keeps changes.hp_change s in
    elim (Bool-cases (is_positive changes.experience_gained)) [
      | inl more ↦ rw more (
        gain_experience-IsHealthy t n k,
        omega (arith, same, gain_experience_up t n k.leveled),
        omega (arith, same, gain_experience_up t n k.leveled),
      )
      | inr none_gained ↦ rw none_gained (k, omega (arith, same), omega (arith, same))
    ]
