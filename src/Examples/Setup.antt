-- ===== src/Examples/Setup.antt =====
-- Services, data and a world small enough to compute with.
use ai_saga.Recall.{Floats}
use ai_saga.Common.{
  ℕ, ◌+◌, ◌-◌, ◌*◌, ◌/◌, ◌≡◌, ltb, Option, none, some, [], ◌∷◌, text, true, false, arith, refl,
}
use ai_saga.Common.Int.{ℤ, pos, negsuc}
use ai_saga.Values.{SessionStatus, ScenarioGenre, ScenarioDifficulty, DiceCheckType}
use ai_saga.Json.{Json, Fields, num, str, arr, obj, field, end, nil, cons}
use ai_saga.Python.{Python}
use ai_saga.Dice.{Random, DiceResult}
use ai_saga.GameState.{StateChanges, StateDict}
use ai_saga.Character.{CharacterEntity, CharacterStats}
use ai_saga.Entities.{Scenario}
use ai_saga.Session.{GameSession}
use ai_saga.Store.Tables.{Db}
use ai_saga.Store.Monad.{World}
use ai_saga.Store.Services.{Services, CacheEntry}
use ai_saga.Turn.Execute.{ProcessActionInput}

-- An answer that finds a key.
abbrev pub answer_fields : Fields
answer_fields = field (text "narrative") (str (text "You find a key.")) (
    field (text "state_changes")
      (obj (field (text "items_gained") (arr (cons (str (text "key")) nil)) end)) end)

abbrev as_number : Json → Option ℤ
as_number (num z) = some z
as_number _ = none

abbrev pub python : Python
python = record {
  lower = λ t. t;
  loads = λ _. some (obj answer_fields);
  to_str = λ _. [];
  as_int = as_number;
  as_int-num = λ _. refl;
  payload_digest = λ t. t;
}

-- Every die shows its least face.
abbrev pub least : Random
least = record {
  Gen = ℕ;
  randint = λ a b g. (a, g + 1);
  randint_bounds = λ a b g h. (omega arith, h);
}

-- Numbers in thousandths.
pub ltb_asym : (a b : ℕ) → ltb a b ≡ true → ltb b a ≡ false
ltb_asym a b h = ground arith

pub ltb_cotrans : (a b c : ℕ) → ltb b a ≡ false → ltb c b ≡ false → ltb c a ≡ false
ltb_cotrans a b c h k = ground arith

abbrev pub floats : Floats
floats = record {
  Float = ℕ;
  of_nat = λ n. n * 1000;
  add = ◌+◌;
  sub = ◌-◌;
  mul = λ a b. (a * b) / 1000;
  div = λ a b. (a * 1000) / b;
  lt = ltb;
  lt_asym = ltb_asym;
  lt_cotrans = ltb_cotrans;
}

abbrev pub services : Services
services = record {
  python = python;
  random = least;
  time = λ n. n;
  uuid7 = λ n. n + 100;
  uuid_text = λ i. i ∷ [];
  embed = λ _ _. some 0;
  generate = λ _ _. some (record { content = text "{}"; total_tokens = some 12 });
  recent_messages = λ messages _ _. messages;
  similar_memories = λ _ _ _ _ _. [];
  floats = floats;
  rag_weights = record { similarity = 700; recency = 300 };
  Stored = CacheEntry;
  is_blank = λ _. false;
  encode = λ e. e;
  decode = some;
  decode-encode = λ _. refl;
  is_blank-encode = λ _. refl;
  rag_recent_messages_limit = 10;
  rag_similar_messages_limit = 2;
  game_max_turns = 30;
  tracks_progress = true;
}

abbrev pub stats : CharacterStats
stats = record { hp = 50; max_hp = 100; level = 1; experience = 0; current_experience = 0 }

abbrev pub character : CharacterEntity
character = record {
  id = 3;
  user_id = 7;
  scenario_id = 2;
  name = text "Ara";
  profile = none;
  stats = stats;
  inventory = text "rope" ∷ [];
  is_active = true;
  created_at = 0;
}

abbrev pub scenario : Scenario
scenario = record {
  id = 2;
  name = text "Ruins";
  world_setting = text "old";
  initial_location = text "gate";
  genre = ScenarioGenre.fantasy;
  difficulty = ScenarioDifficulty.normal;
  max_turns = 5;
  tags = [];
  is_active = true;
}

abbrev pub state : StateDict
state = (text "items", text "rope" ∷ []) ∷ []

abbrev pub session : GameSession
session = record {
  id = 1;
  user_id = 7;
  character_id = 3;
  scenario_id = 2;
  current_location = text "gate";
  game_state = state;
  status = SessionStatus.active;
  turn_count = 1;
  max_turns = 5;
  ending_type = none;
  started_at = 0;
  ended_at = none;
  last_activity_at = 0;
}

abbrev pub db : Db
db = record {
  sessions = session ∷ [];
  messages = [];
  memories = [];
  characters = character ∷ [];
  scenarios = scenario ∷ [];
  users = record { id = 7; game_level = 1; game_experience = 0; game_current_experience = 0 } ∷ [];
}

abbrev pub world : World ℕ CacheEntry
world = record { db = db; committed = db; cache = []; clock = 0; ids = 0; calls = 0; gen = 0 }

abbrev pub input : ProcessActionInput
input = record {
  session_id = 1;
  action = text "look around";
  action_type = none;
  idempotency_key = text "k1";
}

-- A change that wounds, finds a key and drops the rope.
abbrev pub changes : StateChanges
changes = record {
  hp_change = negsuc 4;
  experience_gained = pos 120;
  items_gained = text "key" ∷ [];
  items_lost = text "rope" ∷ [];
  location = some (text "hall");
  npcs_met = [];
  discoveries = text "map" ∷ [];
}

-- A failed check on a 1, with 3 damage.
abbrev pub fumble : DiceResult
fumble = record {
  roll = 1;
  modifier = 2;
  dc = 13;
  check_type = DiceCheckType.skill;
  damage = some 3;
}

-- Every die shows its greatest face.
abbrev pub greatest : Random
greatest = record {
  Gen = ℕ;
  randint = λ a b g. (b, g + 1);
  randint_bounds = λ a b g h. (h, omega arith);
}
