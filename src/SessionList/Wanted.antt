-- ===== src/SessionList/Wanted.antt =====
-- The sessions that a list is asked for, in words of their own, and how many there are.
use ai_saga.Common.{
  ℕ, zero, suc, ◌+◌, ◌||◌, ◌&&◌, eqb, if◌then◌else◌, ◌≡◌, ◌≤◌, refl, ap, ◌∙◌, true, false, Bool,
  Option, none, some, List, [], ◌∷◌, is_nil, length, take, ltb, ok, All, arith,
}
use ai_saga.Values.{SessionStatus}
use ai_saga.Session.{GameSession}
use ai_saga.Character.{CharacterEntity}
use ai_saga.Store.Tables.{Db, find_session}
use ai_saga.SessionList.{
  SessionListItem, character_ids, is_among, status_number, has_status, listed, cursor_row,
  is_earlier,
}

pub All-listed :
    (p : GameSession → Bool) (ss : List GameSession) → All (λ s. p s ≡ true) (listed p ss)
unfolding listed
All-listed p [] = tt
All-listed p (s ∷ ss) = ground (arith, All-listed p ss)

pub All-map :
    (P Q : GameSession → Type 0) (f : (s : GameSession) → P s → Q s) (ss : List GameSession)
    → All P ss
    → All Q ss
All-map P Q f [] a = tt
All-map P Q f (s ∷ ss) a = (All-map P Q f ss a.0, f s a.1)

pub ok_lem : (a b : List SessionListItem) → ok a ≡ ok b → a ≡ b
ok_lem a b h = ground arith

pub All-take : {A : Type 0} (P : A → Type 0) (n : ℕ) (xs : List A) → All P xs → All P (take n xs)
All-take P zero xs a = tt
All-take P (suc n) [] a = tt
All-take P (suc n) (x ∷ xs) a = (All-take P n xs a.0, a.1)

length-take_le : {A : Type 0} (n : ℕ) (xs : List A) → length (take n xs) ≤ n
length-take_le zero xs = omega arith
length-take_le (suc n) [] = omega arith
length-take_le (suc n) (x ∷ xs) = ground (arith, length-take_le n xs)

-- What the list is asked for, in words of its own: a session of a character of the user, in the
-- status if one is given, and less recent than the cursor's if the cursor is a session.
abbrev pub is_users : ℕ → ℕ → List CharacterEntity → Bool
is_users u i [] = false
is_users u i (c ∷ cs) = (eqb c.user_id u && eqb i c.id) || is_users u i cs

abbrev pub is_in : Option SessionStatus → SessionStatus → Bool
is_in none x = true
is_in (some SessionStatus.active) x = eqb (status_number x) 0
is_in (some SessionStatus.paused) x = eqb (status_number x) 1
is_in (some SessionStatus.completed) x = eqb (status_number x) 2
is_in (some SessionStatus.ended) x = eqb (status_number x) 3

abbrev pub is_past : Option GameSession → GameSession → Bool
is_past none s = true
is_past (some c) s =
    ltb s.last_activity_at c.last_activity_at
    || (eqb s.last_activity_at c.last_activity_at && ltb s.id c.id)

abbrev pub cursor_of : Db → Option ℕ → Option GameSession
cursor_of db none = none
cursor_of db (some i) = find_session i db.sessions

abbrev pub wanted : Db → ℕ → Option SessionStatus → Option ℕ → GameSession → Bool
wanted db u status cursor s =
    is_users u s.character_id db.characters
    && (is_past (cursor_of db cursor) s && is_in status s.status)

-- How many sessions there are of a kind.
abbrev pub count : (GameSession → Bool) → List GameSession → ℕ
count p [] = 0
count p (s ∷ ss) = (if p s then 1 else 0) + count p ss

pub is_among-character_ids :
    (u i : ℕ) (cs : List CharacterEntity) → is_among i (character_ids u cs) ≡ is_users u i cs
unfolding is_among character_ids
is_among-character_ids u i [] = refl
is_among-character_ids u i (c ∷ cs) = ground (arith, is_among-character_ids u i cs)

pub cursor_row_lem :
    (db : Db) (cursor : Option ℕ) → cursor_row cursor db.sessions ≡ cursor_of db cursor
unfolding cursor_row
cursor_row_lem db none = refl
cursor_row_lem db (some i) = refl

pub is_earlier_lem : (c : Option GameSession) (s : GameSession) → is_earlier c s ≡ is_past c s
unfolding is_earlier
is_earlier_lem none s = refl
is_earlier_lem (some c) s = refl

pub has_status_eq : (x : Option SessionStatus) (s : GameSession) → has_status x s ≡ is_in x s.status
unfolding has_status
has_status_eq none s = refl
has_status_eq (some SessionStatus.active) s = refl
has_status_eq (some SessionStatus.paused) s = refl
has_status_eq (some SessionStatus.completed) s = refl
has_status_eq (some SessionStatus.ended) s = refl

pub length-listed :
    (p q : GameSession → Bool) (ss : List GameSession)
    → ((s : GameSession) → p s ≡ q s)
    → length (listed p ss) ≡ count q ss
unfolding listed
length-listed p q [] same = refl
length-listed p q (s ∷ ss) same = let here = same s in ground (arith, length-listed p q ss same)

is_nil_lem : (is : List ℕ) → is_nil is ≡ true → is ≡ []
is_nil_lem [] h = refl
is_nil_lem (i ∷ is) h = ground arith

is_among-nil : (i : ℕ) → is_among i [] ≡ false
unfolding is_among
is_among-nil i = refl

pub count_none :
    (db : Db) (u : ℕ) (status : Option SessionStatus) (cursor : Option ℕ) (ss : List GameSession)
    → is_nil (character_ids u db.characters) ≡ true
    → count (wanted db u status cursor) ss ≡ 0
count_none db u status cursor [] h = refl
count_none db u status cursor (s ∷ ss) h =
    let none_left : character_ids u db.characters ≡ [] =
      is_nil_lem (character_ids u db.characters) h in
    let nobody : is_among s.character_id (character_ids u db.characters) ≡ false =
      ap (is_among s.character_id) none_left ∙ is_among-nil s.character_id in
    rw
      (
        ← is_among-character_ids u s.character_id db.characters,
        nobody,
        count_none db u status cursor ss h,
      )
      refl
