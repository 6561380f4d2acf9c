-- ===== src/Json.antt =====
-- JSON values as `json.loads` returns them, and the operations on Python dictionaries that the
-- code uses. A float is kept as its text, with a mark for whether it differs from 0.
use ai_saga.Common.{
  Bool, true, false, Option, none, some, List, [], ◌∷◌, if◌then◌else◌, Text, text_eqb, Result, ok,
  raise, ◌>>=◌, attribute_error, type_error, validation_error, map,
}
use ai_saga.Common.Int.{ℤ, is_nonzero}

mutual
  pub data Json : Type 0 where
    null : Json
    bool : Bool → Json
    num : ℤ → Json
    real : Bool → Text → Json
    str : Text → Json
    arr : Items → Json
    obj : Fields → Json

  pub data Items : Type 0 where
    nil : Items
    cons : Json → Items → Items

  pub data Fields : Type 0 where
    end : Fields
    field : Text → Json → Fields → Fields

-- `bool(x)`
unfoldable pub truthy : Json → Bool
truthy null = false
truthy (bool b) = b
truthy (num z) = is_nonzero z
truthy (real nonzero t) = nonzero
truthy (str []) = false
truthy (str (c ∷ cs)) = true
truthy (arr nil) = false
truthy (arr (cons x xs)) = true
truthy (obj end) = false
truthy (obj (field k v fs)) = true

unfoldable pub find : Text → Fields → Option Json
find k end = none
find k (field j v fs) = if text_eqb j k then some v else find k fs

-- `x.get(k, d)`; only dictionaries have the method.
unfoldable pub get : Json → Text → Json → Result Json
get (obj fs) k d = ok (elim (find k fs) [ none ↦ d | some v ↦ v ])
get null k d = raise attribute_error
get (bool b) k d = raise attribute_error
get (num z) k d = raise attribute_error
get (real b t) k d = raise attribute_error
get (str t) k d = raise attribute_error
get (arr xs) k d = raise attribute_error

-- `d[k] = v`
unfoldable pub set_field : Text → Json → Fields → Fields
set_field k v end = field k v end
set_field k v (field j w fs) = if text_eqb j k then field j v fs else field j w (set_field k v fs)

-- `d.pop(k, None)`
unfoldable pub pop_field : Text → Fields → Fields
pop_field k end = end
pop_field k (field j w fs) =
    let rest = pop_field k fs in if text_eqb j k then rest else field j w rest

-- A field of type `str`: no other value is converted.
unfoldable pub as_text : Json → Result Text
as_text (str t) = ok t
as_text null = raise validation_error
as_text (bool b) = raise validation_error
as_text (num z) = raise validation_error
as_text (real b t) = raise validation_error
as_text (arr xs) = raise validation_error
as_text (obj fs) = raise validation_error

-- A field of type `Optional[str]`.
unfoldable pub as_optional_text : Json → Result (Option Text)
as_optional_text null = ok none
as_optional_text (str t) = ok (some t)
as_optional_text (bool b) = raise validation_error
as_optional_text (num z) = raise validation_error
as_optional_text (real b t) = raise validation_error
as_optional_text (arr xs) = raise validation_error
as_optional_text (obj fs) = raise validation_error

unfoldable pub items_texts : Items → Result (List Text)
unfolding as_text
items_texts nil = ok []
items_texts (cons x xs) = do t ← as_text x; ts ← items_texts xs; ok (t ∷ ts)

-- A field of type `list[str]`.
unfoldable pub as_texts : Json → Result (List Text)
unfolding items_texts
as_texts (arr xs) = items_texts xs
as_texts null = raise validation_error
as_texts (bool b) = raise validation_error
as_texts (num z) = raise validation_error
as_texts (real b t) = raise validation_error
as_texts (str t) = raise validation_error
as_texts (obj fs) = raise validation_error

unfoldable pub texts : List Text → Items
texts [] = nil
texts (t ∷ ts) = cons (str t) (texts ts)

unfoldable pub item_list : Items → List Json
item_list nil = []
item_list (cons x xs) = x ∷ item_list xs

unfoldable pub keys : Fields → List Json
keys end = []
keys (field k v fs) = str k ∷ keys fs

-- `for x in v`: the items of a list, the keys of a dictionary, the characters of a text.
unfoldable pub iterate : Json → Result (List Json)
unfolding item_list keys
iterate (arr xs) = ok (item_list xs)
iterate (obj fs) = ok (keys fs)
iterate (str t) = ok (map (λ c. str (c ∷ [])) t)
iterate null = raise type_error
iterate (bool b) = raise type_error
iterate (num z) = raise type_error
iterate (real b t) = raise type_error
