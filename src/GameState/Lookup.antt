-- ===== src/GameState/Lookup.antt =====
-- States go through their dictionaries unchanged, and what a change does to each list.
use ai_saga.Common.{◌≡◌, refl}
use ai_saga.GameState.{GameState, from_dict, to_dict}

-- Writing a state to a dictionary and reading it back gives the same state.
pub from_dict-to_dict : (s : GameState) → from_dict (to_dict s) ≡ s
unfolding from_dict to_dict
from_dict-to_dict s = refl
