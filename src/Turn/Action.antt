-- ===== src/Turn/Action.antt =====
-- Which kind of action a text is: `_resolve_action_type`, `_to_dice_check_type` and
-- `_normalize_action_options` of app/game/application/use_cases/process_action.py.
use ai_saga.Common.{Bool, Option, none, List, [], ◌∷◌, if◌then◌else◌, Text, text, Result, ok, ◌>>=◌}
use ai_saga.Strings.{strip, any_occurs}
use ai_saga.Values.{ActionType, DiceCheckType, requires_dice}
use ai_saga.Json.{Json, null, bool, num, str, arr, obj, get, iterate}
use ai_saga.Python.{Python, display}

unfoldable pub combat_keywords : List Text
combat_keywords =
    text "attack"
    ∷ text "fight"
    ∷ text "strike"
    ∷ text "hit"
    ∷ text "battle"
    ∷ text "swing"
    ∷ text "slash"
    ∷ text "stab"
    ∷ text "lunge"
    ∷ text "charge"
    ∷ text "aim"
    ∷ text "전투"
    ∷ text "공격"
    ∷ text "베기"
    ∷ text "찌르기"
    ∷ text "사격"
    ∷ text "휘두르"
    ∷ text "휘두른"
    ∷ text "후려치"
    ∷ text "내리치"
    ∷ text "겨누"
    ∷ text "돌진"
    ∷ text "습격"
    ∷ []

unfoldable pub social_keywords : List Text
social_keywords =
    text "persuade"
    ∷ text "threaten"
    ∷ text "negotiate"
    ∷ text "설득"
    ∷ text "협상"
    ∷ text "위협"
    ∷ text "거래"
    ∷ []

unfoldable pub skill_keywords : List Text
skill_keywords =
    text "hack"
    ∷ text "unlock"
    ∷ text "disarm"
    ∷ text "craft"
    ∷ text "pick lock"
    ∷ text "해킹"
    ∷ text "자물쇠"
    ∷ text "함정 해제"
    ∷ text "제작"
    ∷ text "수리"
    ∷ []

unfoldable pub rest_keywords : List Text
rest_keywords =
    text "rest"
    ∷ text "wait"
    ∷ text "sleep"
    ∷ text "camp"
    ∷ text "휴식"
    ∷ text "쉰"
    ∷ text "대기"
    ∷ text "잔다"
    ∷ []

unfoldable pub observation_keywords : List Text
observation_keywords =
    text "look"
    ∷ text "observe"
    ∷ text "inspect"
    ∷ text "search"
    ∷ text "살핀"
    ∷ text "본다"
    ∷ text "관찰"
    ∷ text "조사"
    ∷ []

unfoldable pub movement_keywords : List Text
movement_keywords = text "move" ∷ text "walk" ∷ text "go" ∷ text "이동" ∷ text "간다" ∷ text "걷" ∷ []

unfoldable pub preparation_keywords : List Text
preparation_keywords =
    text "칼을 뽑"
    ∷ text "검을 뽑"
    ∷ text "무기를 뽑"
    ∷ text "칼을 꺼"
    ∷ text "검을 꺼"
    ∷ text "무기를 꺼"
    ∷ text "칼자루를 잡"
    ∷ text "검자루를 잡"
    ∷ text "자세를 잡"
    ∷ text "전투 준비"
    ∷ text "ready weapon"
    ∷ text "draw sword"
    ∷ text "draw blade"
    ∷ text "unsheathe"
    ∷ []

unfoldable pub exploration_keywords : List Text
exploration_keywords =
    text "잠입"
    ∷ text "탈출"
    ∷ text "도망"
    ∷ text "숨"
    ∷ text "엄폐"
    ∷ text "점프"
    ∷ text "기어오르"
    ∷ text "등반"
    ∷ text "건너"
    ∷ text "열"
    ∷ text "연다"
    ∷ text "밀"
    ∷ text "sneak"
    ∷ text "escape"
    ∷ text "hide"
    ∷ text "jump"
    ∷ text "climb"
    ∷ text "cross"
    ∷ text "open"
    ∷ text "push"
    ∷ []

-- The tests on the normalised text, in their order.
unfoldable pub classify : Text → ActionType
unfolding any_occurs
classify t =
    if any_occurs combat_keywords t
    then ActionType.combat
    else if any_occurs social_keywords t
    then ActionType.social
    else if any_occurs skill_keywords t
    then ActionType.skill
    else if any_occurs exploration_keywords t
    then ActionType.exploration
    else if any_occurs rest_keywords t
    then ActionType.rest
    else if any_occurs preparation_keywords t
    then ActionType.observation
    else if any_occurs observation_keywords t
    then ActionType.observation
    else if any_occurs movement_keywords t
    then ActionType.movement
    else ActionType.exploration

-- The hint is only logged.
unfoldable pub resolve_action_type : Python → Text → Option Text → ActionType
resolve_action_type py action hint = classify (strip (py.lower action))

unfoldable pub to_dice_check_type : ActionType → DiceCheckType
to_dice_check_type ActionType.combat = DiceCheckType.combat
to_dice_check_type ActionType.social = DiceCheckType.social
to_dice_check_type ActionType.skill = DiceCheckType.skill
to_dice_check_type ActionType.exploration = DiceCheckType.exploration
to_dice_check_type ActionType.movement = DiceCheckType.exploration
to_dice_check_type ActionType.observation = DiceCheckType.exploration
to_dice_check_type ActionType.rest = DiceCheckType.exploration

-- `ActionOptionResponse`
pub record ActionOption : Type 0 where
  pub label : Text
  pub action_type : ActionType
  pub requires_dice : Bool

-- The label of one raw option; only dictionaries have one of their own.
unfoldable pub option_label : Python → Json → Result Text
option_label py (obj fs) = do
  label ← get (obj fs) (text "label") (str [])
  ok (strip (display py label))
option_label py null = ok (strip (display py null))
option_label py (bool b) = ok (strip (display py (bool b)))
option_label py (num z) = ok (strip (display py (num z)))
option_label py (Json.real b t) = ok (strip (display py (Json.real b t)))
option_label py (str t) = ok (strip (display py (str t)))
option_label py (arr xs) = ok (strip (display py (arr xs)))

-- Options with an empty label are left out.
unfoldable pub normalize_options : Python → List Json → Result (List ActionOption)
unfolding option_label
normalize_options py [] = ok []
normalize_options py (option ∷ options) = do
  label ← option_label py option
  rest ← normalize_options py options
  let kind = resolve_action_type py label none
  ok (elim label [
    | [] ↦ rest
    | c ∷ cs ↦
        record { label = c ∷ cs; action_type = kind; requires_dice = requires_dice kind } ∷ rest
  ])

unfoldable pub normalize_action_options : Python → Json → Result (List ActionOption)
normalize_action_options py raw = do options ← iterate raw; normalize_options py options
