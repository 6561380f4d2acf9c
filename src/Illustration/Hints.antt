-- ===== src/Illustration/Hints.antt =====
-- The words of a narrative that show something, with what they show: the tables of
-- app/game/application/services/illustration_scene_spec_builder.py.
use ai_saga.Common.{List, [], ◌∷◌, Text, text}

-- `_FIGURE_HINTS`
abbrev pub figure_hints : List (Text × Text)
figure_hints =
    (text "주점 주인", text "one tavern keeper behind the guild counter")
    ∷ (text "여관 주인", text "one innkeeper")
    ∷ (text "농부", text "one worried farmer")
    ∷ (text "노인", text "one elderly farmer")
    ∷ (text "경비병", text "one guard")
    ∷ (text "고블린", text "one goblin attacker")
    ∷ (text "도적", text "one bandit")
    ∷ (text "기사", text "one armored knight")
    ∷ (text "검객", text "one swordsman")
    ∷ (text "상인", text "one merchant")
    ∷ (text "늑대", text "one wolf")
    ∷ []

-- `_PROP_HINTS`
abbrev pub prop_hints : List (Text × Text)
prop_hints =
    (text "카운터", text "worn wooden counter")
    ∷ (text "촛불", text "flickering candlelight")
    ∷ (text "앞치마", text "greasy apron")
    ∷ (text "잔", text "cleaning glass")
    ∷ (text "농가", text "lonely farmhouse")
    ∷ (text "밭", text "wide crop field")
    ∷ (text "산비둘기", text "flock of pigeons pecking at grain")
    ∷ (text "언덕", text "gentle sunset-tinted hill")
    ∷ (text "흙길", text "narrow dirt path")
    ∷ (text "횃불", text "lit torch")
    ∷ (text "간판", text "weathered wooden signboard")
    ∷ (text "골목", text "narrow alley walls")
    ∷ (text "복도", text "tight corridor walls")
    ∷ (text "성문", text "broken stone gate")
    ∷ []

-- `_LOCATION_HINTS`
abbrev pub location_hints : List (List Text × Text)
location_hints =
    (text "카운터" ∷ text "길드" ∷ [], text "guild counter interior")
    ∷ (text "카운터" ∷ [], text "counter interior")
    ∷ (text "농가" ∷ text "언덕" ∷ [], text "farmhouse beneath a sunset hill")
    ∷ (text "농가" ∷ text "밭" ∷ [], text "farmhouse beside a wide crop field")
    ∷ (text "언덕" ∷ [], text "hill path at sunset")
    ∷ (text "골목" ∷ [], text "narrow alley")
    ∷ (text "복도" ∷ [], text "narrow corridor")
    ∷ (text "성문" ∷ [], text "broken fortress gate")
    ∷ (text "여관" ∷ [], text "inn frontage")
    ∷ []
