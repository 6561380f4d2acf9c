-- ===== src/Turn/Persisted.antt =====
-- What is stored of an answer reads back as what the turn has settled.
use ai_saga.Common.{
  ◌≡◌, refl, ◌∙◌, if◌then◌else◌, Bool, true, false, Option, none, some, List, [], ◌∷◌, Text, text,
  text_eqb, text_eqb_iff, ok, arith,
}
use ai_saga.Json.{
  Json, Fields, obj, end, field, find, get, set_field, pop_field, texts, items_texts, as_texts,
  as_optional_text, truthy,
}
use ai_saga.Python.{Python}
use ai_saga.GameState.{StateChanges}
use ai_saga.Narrator.{extract_state_changes, extract_narrative_from_parsed, extract_dice_applied}
use ai_saga.Turn.Normal.{
  location_json, changes_json, persisted_fields, build_persisted_parsed_response,
}

find-set_field_self : (k : Text) (v : Json) (fs : Fields) → find k (set_field k v fs) ≡ some v
unfolding find set_field
find-set_field_self k v end = ground (arith, text_eqb_iff k k)
find-set_field_self k v (field j w fs) =
    ground (arith, text_eqb_iff j k, find-set_field_self k v fs)

find-set_field_other :
    (k l : Text) (v : Json) (fs : Fields)
    → text_eqb l k ≡ false
    → find k (set_field l v fs) ≡ find k fs
unfolding find set_field
find-set_field_other k l v end h = ground arith
find-set_field_other k l v (field j w fs) h =
    ground (arith, text_eqb_iff j l, text_eqb_iff l l, find-set_field_other k l v fs h)

find-pop_field_other :
    (k l : Text) (fs : Fields) → text_eqb l k ≡ false → find k (pop_field l fs) ≡ find k fs
unfolding find pop_field
find-pop_field_other k l end h = refl
find-pop_field_other k l (field j w fs) h =
    ground (arith, text_eqb_iff j l, find-pop_field_other k l fs h)

items_texts-texts : (ts : List Text) → items_texts (texts ts) ≡ ok ts
unfolding items_texts texts
items_texts-texts [] = refl
items_texts-texts (t ∷ ts) = rw (items_texts-texts ts)

framed_find :
    (k : Text) (first : Json) (fs : Fields) (b : Bool)
    → text_eqb (text "before_narrative") k ≡ false
    → find k (
        if b
        then set_field (text "before_narrative") first fs
        else pop_field (text "before_narrative") fs)
      ≡ find k fs
framed_find k first fs true h = find-set_field_other k (text "before_narrative") first fs h
framed_find k first fs false h = find-pop_field_other k (text "before_narrative") fs h

fields-read :
    (fs : Fields) (narrative : Json) (changes : StateChanges) (applied first : Json)
    → let kept = persisted_fields fs narrative changes applied first in
      (find (text "state_changes") kept ≡ some (changes_json changes))
      × (find (text "narrative") kept ≡ some narrative)
      × (find (text "dice_applied") kept ≡ some applied)
unfolding persisted_fields
fields-read fs narrative changes applied first =
    let told =
      set_field (text "dice_applied") applied (set_field (text "narrative") narrative fs) in
    let framed =
      if truthy first
      then set_field (text "before_narrative") first told
      else pop_field (text "before_narrative") told in
    (
      find-set_field_self (text "state_changes") (changes_json changes) framed,
      find-set_field_other (text "narrative") (text "state_changes") (changes_json changes) framed
            refl
          ∙ framed_find (text "narrative") first told (truthy first) refl
          ∙ find-set_field_other (text "narrative") (text "dice_applied") applied
              (set_field (text "narrative") narrative fs) refl
          ∙ find-set_field_self (text "narrative") narrative fs,
      find-set_field_other (text "dice_applied") (text "state_changes") (changes_json changes)
            framed refl
          ∙ framed_find (text "dice_applied") first told (truthy first) refl
          ∙ find-set_field_self (text "dice_applied") applied
              (set_field (text "narrative") narrative fs),
    )

location-read : (l : Option Text) → as_optional_text (location_json l) ≡ ok l
unfolding location_json as_optional_text
location-read none = refl
location-read (some t) = refl

changes-read :
    (py : Python) (fs : Fields) (changes : StateChanges)
    → find (text "state_changes") fs ≡ some (changes_json changes)
    → extract_state_changes py (obj fs) ≡ ok changes
unfolding extract_state_changes get find changes_json as_texts
changes-read py fs changes h = rw (
  h,
  py.as_int-num changes.hp_change,
  py.as_int-num changes.experience_gained,
  items_texts-texts changes.items_gained,
  items_texts-texts changes.items_lost,
  items_texts-texts changes.npcs_met,
  items_texts-texts changes.discoveries,
  location-read changes.location,
)

-- What is stored of a parsed answer reads back as the settled changes, the narrative and the mark
-- of the dice that it was built from, whatever the answer held under these names before.
pub build_persisted-extract :
    (py : Python) (fs : Fields) (narrative : Json) (changes : StateChanges) (applied first : Json)
    (fallback : Text)
    → (kept : Json) × (build_persisted_parsed_response (obj fs) narrative changes applied first
        ≡ ok kept)
      × (extract_state_changes py kept ≡ ok changes)
      × (extract_narrative_from_parsed kept fallback ≡ ok narrative)
      × (extract_dice_applied kept ≡ ok applied)
unfolding build_persisted_parsed_response extract_narrative_from_parsed extract_dice_applied get
build_persisted-extract py fs narrative changes applied first fallback =
    let kept : Fields = persisted_fields fs narrative changes applied first in
    let (stored, told, rolled) = fields-read fs narrative changes applied first in
    (obj kept, refl, changes-read py kept changes stored, rw told, rw rolled)
