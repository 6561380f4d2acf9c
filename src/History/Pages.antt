-- ===== src/History/Pages.antt =====
-- Following the cursors reads every message once, newest first.
use native.Mathlib.Decide.{dec_lt}
use ai_saga.Common.{
  ℕ, zero, suc, ◌+◌, ◌≤◌, ◌<◌, ◌≡◌, refl, sym, ap, subst, ◌∙◌, true, false, Option, none, some,
  List, [], ◌∷◌, ◌++◌, length, take, drop, All, arith,
}
use ai_saga.Entities.{GameMessage}
use ai_saga.History.{
  find_message, is_older, select_rows, last_id, cut, session_rows, rows_after,
  get_messages_with_cursor,
}

-- Newest first, with no two messages alike in time and identifier.
abbrev pub Descending : List GameMessage → Type 0
Descending [] = Unit
Descending (m ∷ ms) = All (λ n. is_older m n ≡ true) ms × Descending ms

++-nil : (xs : List GameMessage) → xs ++ [] ≡ xs
++-nil [] = refl
++-nil (x ∷ xs) = ap (x ∷◌) (++-nil xs)

++-assoc : (xs ys zs : List GameMessage) → (xs ++ ys) ++ zs ≡ xs ++ (ys ++ zs)
++-assoc [] ys zs = refl
++-assoc (x ∷ xs) ys zs = ap (x ∷◌) (++-assoc xs ys zs)

older_asym : (c m : GameMessage) → is_older m c ≡ true → is_older c m ≡ false
unfolding is_older
older_asym c m h = ground arith

older_irrefl : (c : GameMessage) → is_older c c ≡ false
unfolding is_older
older_irrefl c = ground arith

select_whole :
    (c : GameMessage) (ms : List GameMessage)
    → All (λ n. is_older c n ≡ true) ms
    → select_rows (is_older c) ms ≡ ms
unfolding select_rows
select_whole c [] a = refl
select_whole c (m ∷ ms) a = ground (arith, select_whole c ms)

All-middle :
    (P : GameMessage → Type 0) (xs : List GameMessage) (c : GameMessage) (ys : List GameMessage)
    → All P (xs ++ c ∷ ys)
    → P c
All-middle P [] c ys a = a.1
All-middle P (x ∷ xs) c ys a = All-middle P xs c ys a.0

-- The rows older than one of them are those that follow it.
select-after :
    (xs : List GameMessage) (c : GameMessage) (ys : List GameMessage)
    → Descending (xs ++ c ∷ ys)
    → select_rows (is_older c) (xs ++ c ∷ ys) ≡ ys
unfolding select_rows
select-after [] c ys d = rw (older_irrefl c) (select_whole c ys d.0)
select-after (x ∷ xs) c ys d =
    rw (older_asym c x (All-middle (λ n. is_older x n ≡ true) xs c ys d.0))
      (select-after xs c ys d.1)

-- A row list of more than `suc l` rows is cut after a row, whose identifier is the next cursor.
split-last :
    (l : ℕ) (ys : List GameMessage)
    → suc l ≤ length ys
    → (zs : List GameMessage) × (c : GameMessage) × (take (suc l) ys ≡ zs ++ c ∷ [])
      × (last_id (take (suc l) ys) ≡ some c.id)
      × (ys ≡ zs ++ c ∷ drop (suc l) ys)
unfolding last_id
split-last l [] h = absurd (omega arith)
split-last zero (y ∷ ys) h = ([], y, refl, refl, refl)
split-last (suc l) (y ∷ []) h = absurd (omega arith)
split-last (suc l) (y ∷ z ∷ ys) h =
    let (zs, c, front, named, whole) = split-last l (z ∷ ys) (omega arith) in
    (y ∷ zs, c, ap (y ∷◌) front, named, ap (y ∷◌) whole)

take-all : (n : ℕ) (ys : List GameMessage) → length ys ≤ n → take n ys ≡ ys
take-all zero [] h = refl
take-all (suc n) [] h = refl
take-all zero (y ∷ ys) h = absurd (omega arith)
take-all (suc n) (y ∷ ys) h = ap (y ∷◌) (take-all n ys (omega arith))

take-append-drop : (n : ℕ) (ys : List GameMessage) → take n ys ++ drop n ys ≡ ys
take-append-drop zero ys = refl
take-append-drop (suc n) [] = refl
take-append-drop (suc n) (y ∷ ys) = ap (y ∷◌) (take-append-drop n ys)

-- A page that is not empty leaves fewer rows.
length-drop : (n : ℕ) (ys : List GameMessage) → n < length ys → n + length (drop n ys) ≡ length ys
length-drop zero ys h = omega arith
length-drop (suc n) [] h = absurd (omega arith)
length-drop (suc n) (y ∷ ys) h = omega (arith, length-drop n ys (omega arith))

length-take : (n : ℕ) (ys : List GameMessage) → n ≤ length ys → length (take n ys) ≡ n
length-take zero ys h = refl
length-take (suc n) [] h = absurd (omega arith)
length-take (suc n) (y ∷ ys) h = omega (arith, length-take n ys (omega arith))

take-take : (n : ℕ) (ys : List GameMessage) → take n (take (suc n) ys) ≡ take n ys
take-take zero ys = refl
take-take (suc n) [] = refl
take-take (suc n) (y ∷ ys) = ap (y ∷◌) (take-take n ys)

cut_short :
    (l : ℕ) (ys : List GameMessage)
    → length ys ≤ l
    → cut l ys ≡ record { messages = ys; next_cursor = none; has_more = false }
unfolding cut
cut_short l ys h = ground (arith, take-all (suc l) ys)

cut_long :
    (l : ℕ) (ys : List GameMessage)
    → l < length ys
    → cut l ys ≡ record { messages = take l ys; next_cursor = last_id (take l ys); has_more = true }
unfolding cut
cut_long l ys h = ground (arith, length-take (suc l) ys, take-take l ys)

-- The rows of a session, and that each is found under its identifier.
module _ (order : List GameMessage → List GameMessage) (session_id : ℕ)
    (table : List GameMessage) where
  abbrev pub rows : List GameMessage
  rows = session_rows order session_id table

  abbrev pub Known : List GameMessage → Type 0
  Known ms = All (λ m. find_message m.id table ≡ some m) ms

  -- A client that follows the cursors, with fuel for the number of pages.
  abbrev pub read_on : ℕ → ℕ → Option ℕ → List GameMessage
  read_on zero limit cursor = []
  read_on (suc f) limit cursor =
      let page = get_messages_with_cursor order session_id table limit cursor in
      page.messages ++ (elim page.next_cursor [ none ↦ [] | some i ↦ read_on f limit (some i) ])

  page-eq-cut :
      (limit : ℕ) (cursor : Option ℕ) (ys : List GameMessage)
      → rows_after order session_id table cursor ≡ ys
      → get_messages_with_cursor order session_id table limit cursor ≡ cut limit ys
  unfolding get_messages_with_cursor
  page-eq-cut limit cursor ys after = ap (cut limit) after

  rows_after-Known :
      (xs : List GameMessage) (c : GameMessage) (ys : List GameMessage)
      → Descending rows
      → Known rows
      → rows ≡ xs ++ c ∷ ys
      → rows_after order session_id table (some c.id) ≡ ys
  unfolding rows_after
  rows_after-Known xs c ys d k r =
      let found : find_message c.id table ≡ some c =
        All-middle (λ m. find_message m.id table ≡ some m) xs c ys (subst Known r k) in
      rw (found, rows_after)
        (ap (select_rows (is_older c)) r ∙ select-after xs c ys (subst Descending r d))

  after_row :
      (xs zs : List GameMessage) (c : GameMessage) (left ys : List GameMessage)
      → rows ≡ xs ++ ys
      → ys ≡ zs ++ c ∷ left
      → (rows ≡ (xs ++ zs) ++ c ∷ left) × (rows ≡ ((xs ++ zs) ++ c ∷ []) ++ left)
  after_row xs zs c left ys r whole =
      let here : rows ≡ (xs ++ zs) ++ c ∷ left =
        r ∙ ap (λ t. xs ++ t) whole ∙ sym (++-assoc xs zs (c ∷ left)) in
      (here, here ∙ sym (++-assoc (xs ++ zs) (c ∷ []) left))

  -- What is read from a cursor after which the rows `ys` come.
  read_cut :
      (f limit : ℕ) (xs ys : List GameMessage) (cursor : Option ℕ)
      → Descending rows
      → Known rows
      → rows ≡ xs ++ ys
      → rows_after order session_id table cursor ≡ ys
      → length ys < f
      → read_on f (suc limit) cursor ≡ ys
  read_cut zero limit xs ys cursor d k r after enough = absurd (omega arith)
  read_cut (suc f) limit xs ys cursor d k r after enough = elim (dec_lt (suc limit) (length ys)) [
    | no short ↦
        rw (page-eq-cut (suc limit) cursor ys after, cut_short (suc limit) ys (omega arith))
          (++-nil ys)
    | yes long ↦
        let (zs, c, front, named, whole) = split-last limit ys (omega arith) in
        rw (page-eq-cut (suc limit) cursor ys after, cut_long (suc limit) ys long, named)
          (ap (λ t. take (suc limit) ys ++ t)
              (read_cut f limit ((xs ++ zs) ++ c ∷ []) (drop (suc limit) ys) (some c.id) d k
                (after_row xs zs c (drop (suc limit) ys) ys r whole).1
                (rows_after-Known (xs ++ zs) c (drop (suc limit) ys) d k
                  (after_row xs zs c (drop (suc limit) ys) ys r whole).0)
                (omega (arith, length-drop (suc limit) ys long)))
            ∙ take-append-drop (suc limit) ys)
  ]

  -- If the order puts the session's messages newest first, and each is found in the table under its
  -- identifier, then a client that starts without a cursor and follows the cursors, with pages of
  -- one message or more, reads every message of the session exactly once, newest first.
  pub read_on-rows :
      (limit : ℕ)
      → 1 ≤ limit
      → Descending rows
      → Known rows
      → read_on (suc (length rows)) limit none ≡ rows
  unfolding rows_after
  read_on-rows zero l d k = absurd (omega arith)
  read_on-rows (suc limit) l d k =
      read_cut (suc (length rows)) limit [] rows none d k refl refl (omega arith)
