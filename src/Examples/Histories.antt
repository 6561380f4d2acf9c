-- ===== src/Examples/Histories.antt =====
-- An older page, read twice with a message in between.
use ai_saga.Common.{
  ℕ, ◌≡◌, refl, ap, true, false, none, some, List, [], ◌∷◌, ◌++◌, Bool, text, ok, arith,
}
use ai_saga.Values.{MessageRole}
use ai_saga.Entities.{GameMessage}
use ai_saga.Store.Tables.{find_session}
use ai_saga.History.{
  select_rows, find_message, is_older, get_messages_with_cursor, rows_after, session_rows, cut,
  last_id,
}
use ai_saga.SessionHistory.{HistoryPage, HistoryServices, HistoryWorld, ownership, to_page}
use ai_saga.SessionHistory.Queries.{
  read_page, read_with_cursor, cached_page, keep_page, read_cached, validate_session_ownership,
  execute_with_cursor,
}
use ai_saga.SessionHistory.Cached
use ai_saga.Examples.Setup.{session}

++-nil : (xs : List GameMessage) → xs ++ [] ≡ xs
++-nil [] = refl
++-nil (x ∷ xs) = ap (x ∷◌) (++-nil xs)

abbrev reversed : List GameMessage → List GameMessage
reversed [] = []
reversed (m ∷ ms) = reversed ms ++ m ∷ []

select_rows-last :
    (p : GameMessage → Bool) (xs : List GameMessage) (m : GameMessage)
    → select_rows p (xs ++ m ∷ []) ≡ (select_rows p xs ++ select_rows p (m ∷ []))
unfolding select_rows
select_rows-last p [] m = refl
select_rows-last p (x ∷ xs) m = ground (arith, select_rows-last p xs m)

select_rows-reversed :
    (p : GameMessage → Bool) (xs : List GameMessage)
    → select_rows p (reversed xs) ≡ reversed (select_rows p xs)
unfolding select_rows
select_rows-reversed p [] = refl
select_rows-reversed p (x ∷ xs) =
    grind (arith, select_rows-last p (reversed xs) x, select_rows-reversed p xs, ++-nil)

-- The messages of this run are in the order of their times.
abbrev histories : HistoryServices
histories = record {
  newest_first = reversed;
  by_time = λ ms. ms;
  oldest_first = λ ms. ms;
  uuid_text = λ i. i ∷ [];
  number_text = λ n. n ∷ [];
  has_redis = true;
  Stored = HistoryPage;
  is_blank = λ p. false;
  encode = λ p. p;
  decode = ok;
  decode-encode = λ p. refl;
  is_blank-encode = λ p. refl;
}

abbrev said : ℕ → GameMessage
said n = record {
  id = n;
  session_id = 1;
  role = MessageRole.user;
  content = text "look";
  parsed_response = none;
  token_count = none;
  image_url = none;
  created_at = n;
}

abbrev opened : HistoryWorld HistoryPage
opened = record { sessions = session ∷ []; messages = said 10 ∷ said 11 ∷ said 12 ∷ []; cache = [] }

first_page :
    (p : HistoryPage) × (w' : HistoryWorld HistoryPage) × (execute_with_cursor histories 1 7 1
        (some 12)
        opened
      ≡ (ok p, w'))
unfolding execute_with_cursor read_cached cached_page keep_page read_with_cursor
    validate_session_ownership ownership find_session read_page to_page get_messages_with_cursor
    rows_after session_rows select_rows find_message is_older cut last_id
first_page = (_, _, refl)

twelve : find_message 12 opened.messages ≡ some (said 12)
unfolding find_message
twelve = refl

thirteen : Cached.AreLater histories 1 (said 12) (said 13 ∷ [])
unfolding is_older
thirteen = ground arith

execute_with_cursor-read_page_example :
    execute_with_cursor histories 1 7 1
      (some 12)
      (record first_page.1 { messages = first_page.1.messages ++ said 13 ∷ [] })
    ≡ (
      ok (read_page histories 1 1 (some 12) (first_page.1.messages ++ said 13 ∷ [])),
      record first_page.1 { messages = first_page.1.messages ++ said 13 ∷ [] },
    )
execute_with_cursor-read_page_example =
    Cached.execute_with_cursor-read_page histories 1 7 1 12 first_page.0 opened first_page.1
      (said 12) (said 13 ∷ []) select_rows-reversed refl refl twelve thirteen first_page.2
