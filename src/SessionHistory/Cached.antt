-- ===== src/SessionHistory/Cached.antt =====
-- Older pages from the cache are the pages that the database would give.
use ai_saga.Common.{
  ℕ, ◌≡◌, refl, sym, ap, ◌∙◌, Bool, true, false, ◌&&◌, none, some, List, [], ◌∷◌, ◌++◌, eqb, All,
  lookup, lookup-insert_self, ok, arith, Result-cases, inl, inr,
}
use ai_saga.Entities.{GameMessage}
use ai_saga.Store.Tables.{find_session}
use ai_saga.History.{
  find_message, is_older, select_rows, session_rows, rows_after, get_messages_with_cursor, cut,
}
use ai_saga.SessionHistory.{HistoryPage, HistoryServices, HistoryWorld, ownership, to_page}
use ai_saga.SessionHistory.Queries.{
  page_key, read_page, read_with_cursor, cached_page, keep_page, read_cached,
  validate_session_ownership, execute_with_cursor,
}

find_message-append :
    (i : ℕ) (xs ys : List GameMessage) (m : GameMessage)
    → find_message i xs ≡ some m
    → find_message i (xs ++ ys) ≡ some m
unfolding find_message
find_message-append i [] ys m h = ground arith
find_message-append i (x ∷ xs) ys m h = ground (arith, find_message-append i xs ys m)

-- No row of the list meets both conditions.
abbrev pub Neither : (GameMessage → Bool) → (GameMessage → Bool) → List GameMessage → Type 0
Neither p q ys = All (λ n. (p n && q n) ≡ false) ys

select_rows-Neither :
    (p q : GameMessage → Bool) (ys : List GameMessage)
    → Neither p q ys
    → select_rows q (select_rows p ys) ≡ []
unfolding select_rows
select_rows-Neither p q [] h = refl
select_rows-Neither p q (y ∷ ys) h = ground (arith, select_rows-Neither p q ys)

select_rows-append :
    (p q : GameMessage → Bool) (xs ys : List GameMessage)
    → Neither p q ys
    → select_rows q (select_rows p (xs ++ ys)) ≡ select_rows q (select_rows p xs)
unfolding select_rows
select_rows-append p q [] ys h = select_rows-Neither p q ys h
select_rows-append p q (x ∷ xs) ys h = ground (arith, select_rows-append p q xs ys h)

module _ (svc : HistoryServices) where
  -- A condition on the rows may be tested before or after they are put in order.
  abbrev pub Commutes : Type 0
  Commutes =
      (p : GameMessage → Bool) (xs : List GameMessage)
      → select_rows p (svc.newest_first xs) ≡ svc.newest_first (select_rows p xs)

  -- Messages of other sessions, or that come no earlier than the cursor's message.
  abbrev pub AreLater : ℕ → GameMessage → List GameMessage → Type 0
  AreLater i m new = Neither (λ n. eqb n.session_id i) (is_older m) new

  rows_after_lem :
      (i c : ℕ) (m : GameMessage) (table : List GameMessage)
      → find_message c table ≡ some m
      → rows_after svc.newest_first i table (some c)
        ≡ select_rows (is_older m) (session_rows svc.newest_first i table)
  unfolding rows_after
  rows_after_lem i c m table found = grind arith

  read_page-append :
      (i limit c : ℕ) (m : GameMessage) (table new : List GameMessage)
      → Commutes
      → find_message c table ≡ some m
      → AreLater i m new
      → read_page svc i limit (some c) (table ++ new) ≡ read_page svc i limit (some c) table
  unfolding read_page get_messages_with_cursor session_rows
  read_page-append i limit c m table new commutes found later =
      let mine : GameMessage → Bool = λ n. eqb n.session_id i in
      let same : select_rows (is_older m) (svc.newest_first (select_rows mine (table ++ new)))
          ≡ select_rows (is_older m) (svc.newest_first (select_rows mine table)) =
        commutes (is_older m) (select_rows mine (table ++ new))
        ∙ ap svc.newest_first (select_rows-append mine (is_older m) table new later)
        ∙ sym (commutes (is_older m) (select_rows mine table)) in
      ap (λ rows. to_page (cut limit rows))
        (rows_after_lem i c m (table ++ new) (find_message-append c table new m found)
          ∙ same
          ∙ sym (rows_after_lem i c m table found))

  -- A page that was asked for and was not in the cache is kept there as the database gave it.
  first_read :
      (i u limit c : ℕ) (p : HistoryPage) (w w' : HistoryWorld svc.Stored)
      → svc.has_redis ≡ true
      → lookup (page_key svc i c limit) w.cache ≡ none
      → execute_with_cursor svc i u limit (some c) w ≡ (ok p, w')
      → (ownership (find_session i w.sessions) u ≡ ok tt)
        × (p ≡ read_page svc i limit (some c) w.messages)
        × (w'.sessions ≡ w.sessions)
        × (w'.messages ≡ w.messages)
        × (lookup (page_key svc i c limit) w'.cache ≡ some (svc.encode p))
  unfolding execute_with_cursor read_cached cached_page keep_page read_with_cursor
      validate_session_ownership
  first_read i u limit c p w w' has fresh h =
      elim (Result-cases (ownership (find_session i w.sessions) u)) [
        | inr (e, refused) ↦ ground arith
        | inl (x, owned) ↦
            grind (arith, lookup-insert_self (page_key svc i c limit) (svc.encode p) w.cache)
      ]

  second_read :
      (i u limit c : ℕ) (p : HistoryPage) (w : HistoryWorld svc.Stored)
      → svc.has_redis ≡ true
      → ownership (find_session i w.sessions) u ≡ ok tt
      → lookup (page_key svc i c limit) w.cache ≡ some (svc.encode p)
      → execute_with_cursor svc i u limit (some c) w ≡ (ok p, w)
  unfolding execute_with_cursor read_cached cached_page validate_session_ownership
  second_read i u limit c p w has owned hit =
      grind (arith, svc.decode-encode p, svc.is_blank-encode p)

  -- With a Redis, and where the database may test a condition before or after it sorts: after a
  -- page before a known message was read that was not in the cache, and then any messages came that
  -- are later than that message or of other sessions, the same request is answered without a change
  -- and with the page that the database would give now.
  pub execute_with_cursor-read_page :
      (i u limit c : ℕ) (p : HistoryPage) (w w' : HistoryWorld svc.Stored) (m : GameMessage)
      (new : List GameMessage)
      → Commutes
      → svc.has_redis ≡ true
      → lookup (page_key svc i c limit) w.cache ≡ none
      → find_message c w.messages ≡ some m
      → AreLater i m new
      → execute_with_cursor svc i u limit (some c) w ≡ (ok p, w')
      → execute_with_cursor svc i u limit (some c) (record w' { messages = w'.messages ++ new }) ≡ (
        ok (read_page svc i limit (some c) (w'.messages ++ new)),
        record w' { messages = w'.messages ++ new },
      )
  execute_with_cursor-read_page i u limit c p w w' m new commutes has fresh found later h =
      let (owned, page, sessions, messages, kept) = first_read i u limit c p w w' has fresh h in
      let still = ap (λ ss. ownership (find_session i ss) u) sessions ∙ owned in
      let known = ap (find_message c) messages ∙ found in
      let now =
        page
        ∙ ap (read_page svc i limit (some c)) (sym messages)
        ∙ sym (read_page-append i limit c m w'.messages new commutes known later) in
      let next : HistoryWorld svc.Stored = record w' { messages = w'.messages ++ new } in
      second_read i u limit c p next has still kept ∙ ap (λ q. (ok q, next)) now
