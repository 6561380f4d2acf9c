-- ===== src/Routes/Replays.antt =====
-- Starts of a game that are repeated.
use ai_saga.Common.{
  ℕ, ◌≡◌, lookup-insert_self, ◌∙◌, refl, ap, subst, true, false, Option, none, some, inl, inr,
  Option-cases, Result-cases, Bool-cases, List, ◌∷◌, Text, text_eqb, text_eqb_iff, raise, ok, arith,
  lookup, conflict,
}
use ai_saga.Program.{>>=-ok, >>=-step}
use ai_saga.Turn.Effects.{Act}
use ai_saga.Store.Monad.{World, ◌>>=◌, pure}
use ai_saga.Store.Services.{Services}
use ai_saga.Turn.Execute.{cached}
use ai_saga.Start.{StartGameInput}
use ai_saga.SessionHistory.{SessionDetailResult}
use ai_saga.Routes.{
  reply, refusal, Lock, locked, api_refusal, value_error_text, refuse_with, respond,
}
use ai_saga.Routes.Refusals.{respond-ok, respond-raise}
use ai_saga.Routes.Game.{
  Web, StartEntry, given_key, replay_key, answer_start, replayed, keep_start, start_now,
  start_and_keep, or_do, start_keyed, start_by_key, start_game_route,
}

module _ (svc : Services) (web : Web svc) where
  abbrev Base : Type 0
  Base = World svc.random.Gen svc.Stored

  -- The entry that a cache holds under a key.
  record Kept (key : Text) (input : StartGameInput) (r : SessionDetailResult)
      (cache : List (Text × svc.Stored)) : Type 0 where
    stored : svc.Stored
    entry : StartEntry
    there : lookup key cache ≡ some stored
    full : svc.is_blank stored ≡ false
    readable : web.decode_start stored ≡ some entry
    same : text_eqb entry.payload_hash (web.start_digest input) ≡ true
    told : entry.response ≡ r

  replayed-Kept :
      (key : Text) (input : StartGameInput) (r : SessionDetailResult) (w w' : Base)
      → replayed svc web key input w ≡ (ok (some r), w')
      → Kept key input r w.cache × (w' ≡ w)
  unfolding replayed answer_start cached
  replayed-Kept key input r w w' h = elim (Option-cases (lookup key w.cache)) [
    | inl bare ↦ grind arith
    | inr (stored, there) ↦ elim (Bool-cases (svc.is_blank stored)) [
      | inl blank ↦ grind arith
      | inr full ↦ elim (Option-cases (web.decode_start stored)) [
        | inl broken ↦ grind arith
        | inr (entry, readable) ↦
            elim (Bool-cases (text_eqb entry.payload_hash (web.start_digest input))) [
              | inr other ↦ grind arith
              | inl same ↦ (
                record {
                  stored = stored;
                  entry = entry;
                  there = there;
                  full = full;
                  readable = readable;
                  same = same;
                  told = grind arith;
                },
                grind arith,
              )
            ]
      ]
    ]
  ]

  keep_start-Kept :
      (key : Text) (input : StartGameInput) (r : SessionDetailResult) (w : Base)
      → Kept key input r (keep_start svc web key input r w).1.cache
  unfolding keep_start
  keep_start-Kept key input r w =
      let entry : StartEntry = record { payload_hash = web.start_digest input; response = r } in
      record {
        stored = web.encode_start entry;
        entry = entry;
        there = lookup-insert_self key (web.encode_start entry) w.cache;
        full = web.is_blank-encode_start entry;
        readable = web.decode_start-encode entry;
        same = (text_eqb_iff (web.start_digest input) (web.start_digest input)).1 refl;
        told = refl;
      }

  Kept-replayed :
      (key : Text) (input : StartGameInput) (r : SessionDetailResult) (w : Base)
      → Kept key input r w.cache
      → replayed svc web key input w ≡ (ok (some r), w)
  unfolding replayed answer_start cached
  Kept-replayed key input r w k = grind (arith, k.there, k.full, k.readable, k.same, k.told)

  -- Another body under the key of a kept entry.
  Kept-other :
      (key : Text) (input input' : StartGameInput) (r : SessionDetailResult) (w : Base)
      → Kept key input r w.cache
      → text_eqb (web.start_digest input) (web.start_digest input') ≡ false
      → replayed svc web key input' w ≡ (raise conflict, w)
  unfolding replayed answer_start cached
  Kept-other key input input' r w k other =
      let digest = (text_eqb_iff k.entry.payload_hash (web.start_digest input)).0 k.same in
      let differs : text_eqb k.entry.payload_hash (web.start_digest input') ≡ false =
        ap (λ d. text_eqb d (web.start_digest input')) digest ∙ other in
      grind (arith, k.there, k.full, k.readable)

  start_and_keep-Kept :
      (u : ℕ) (input : StartGameInput) (key : Text) (r : SessionDetailResult) (w w' : Base)
      → start_and_keep svc web u input key w ≡ (ok r, w')
      → Kept key input r w'.cache
  unfolding start_and_keep
  start_and_keep-Kept u input key r w w' h =
      let (r', v, started, rest) =
        >>=-ok (start_now svc web u input)
          (λ response. keep_start svc web key input response >>= λ _. pure response) w w' r h in
      let kept = keep_start-Kept key input r' v in
      let answer : r' ≡ r = grind arith in
      let left : (keep_start svc web key input r' v).1.cache ≡ w'.cache = grind arith in
      subst (λ x. Kept key input x w'.cache) answer (subst (λ c. Kept key input r' c) left kept)

  -- What was found under the key, or else came of starting.
  found_or_started :
      (key : Text) (input : StartGameInput) (m : Act svc SessionDetailResult)
      (r : SessionDetailResult) (w w' : Base)
      → ((v : Base) → m v ≡ (ok r, w') → Kept key input r w'.cache)
      → (replayed svc web key input >>= λ found. or_do svc web found m) w ≡ (ok r, w')
      → Kept key input r w'.cache
  unfolding or_do
  found_or_started key input m r w w' started h =
      let (found, v, looked, rest) =
        >>=-ok (replayed svc web key input) (λ found. or_do svc web found m) w w' r h in
      found_cases found v looked rest
    where
      found_cases :
          (found : Option SessionDetailResult) (v : Base)
          → replayed svc web key input w ≡ (ok found, v)
          → or_do svc web found m v ≡ (ok r, w')
          → Kept key input r w'.cache
      found_cases none v looked rest = started v rest
      found_cases (some r') v looked rest =
          let (kept, same) = replayed-Kept key input r' w v looked in
          let answer : r' ≡ r = grind arith in
          let left : w.cache ≡ w'.cache = grind arith in
          subst (λ x. Kept key input x w'.cache) answer (subst (λ c. Kept key input r' c) left kept)

  start_keyed-Kept :
      (u : ℕ) (input : StartGameInput) (key : Text) (lock : Lock Base) (r : SessionDetailResult)
      (w w' : Base)
      → start_keyed svc web u input key lock w ≡ (ok r, w')
      → Kept key input r w'.cache
  unfolding start_keyed locked
  start_keyed-Kept u input key lock r w w' h =
      found_or_started key input
        (locked lock (
          replayed svc web key input >>= λ again.
          or_do svc web again (start_and_keep svc web u input key)))
        r w w' (under_lock lock) h
    where
      under_lock :
          (lock : Lock Base) (v : Base)
          → locked lock
              (replayed svc web key input >>= λ again.
                or_do svc web again (start_and_keep svc web u input key))
              v
            ≡ (ok r, w')
          → Kept key input r w'.cache
      under_lock none v k = ground arith
      under_lock (some meanwhile) v k =
          found_or_started key input (start_and_keep svc web u input key) r (meanwhile v) w'
            (λ x. start_and_keep-Kept u input key r x w') k

  keyed_again :
      (u : ℕ) (input : StartGameInput) (key : Text) (lock : Lock Base) (r : SessionDetailResult)
      (w : Base)
      → Kept key input r w.cache
      → start_keyed svc web u input key lock w ≡ (ok r, w)
  unfolding start_keyed or_do
  keyed_again u input key lock r w kept =
      >>=-step (replayed svc web key input)
        (λ first. or_do svc web first (
          locked lock (
            replayed svc web key input >>= λ again.
            or_do svc web again (start_and_keep svc web u input key))))
        w w (some r) (Kept-replayed key input r w kept)

  keyed_conflict :
      (u : ℕ) (input input' : StartGameInput) (key : Text) (lock : Lock Base)
      (r : SessionDetailResult) (w : Base)
      → Kept key input r w.cache
      → text_eqb (web.start_digest input) (web.start_digest input') ≡ false
      → start_keyed svc web u input' key lock w ≡ (raise conflict, w)
  unfolding start_keyed
  keyed_conflict u input input' key lock r w kept other =
      let clash = Kept-other key input input' r w kept other in grind arith

  -- A start under a key that was answered.
  answered :
      (u : ℕ) (input : StartGameInput) (c : ℕ) (cs : Text) (lock : Lock Base)
      (r : SessionDetailResult) (w w' : Base)
      → start_game_route svc web u input (some (c ∷ cs)) lock w ≡ (reply 201 r, w')
      → Kept (replay_key svc web u (c ∷ cs)) input r w'.cache × (w'.committed ≡ w'.db)
  unfolding start_game_route respond given_key start_by_key
  answered u input c cs lock r w w' h =
      elim (Result-cases (start_keyed svc web u input (replay_key svc web u (c ∷ cs)) lock w).0) [
        | inr (e, bad) ↦ ground arith
        | inl (r', fine) ↦
            let key = replay_key svc web u (c ∷ cs) in
            let kept =
              start_keyed-Kept u input key lock r' w (start_keyed svc web u input key lock w).1
                (grind arith) in
            let answer : r' ≡ r = grind arith in
            let left : (start_keyed svc web u input key lock w).1.cache ≡ w'.cache = grind arith in
            (
              subst (λ x. Kept key input x w'.cache) answer
                  (subst (λ c. Kept key input r' c) left kept),
              grind arith,
            )
      ]

  -- A start under an idempotency key that was answered is answered again with the same session,
  -- even while another request holds the lock, and nothing changes.
  pub start_game_route_replays :
      (u : ℕ) (input : StartGameInput) (c : ℕ) (cs : Text) (lock lock' : Lock Base)
      (r : SessionDetailResult) (w w' : Base)
      → start_game_route svc web u input (some (c ∷ cs)) lock w ≡ (reply 201 r, w')
      → start_game_route svc web u input (some (c ∷ cs)) lock' w' ≡ (reply 201 r, w')
  unfolding start_game_route given_key start_by_key
  start_game_route_replays u input c cs lock lock' r w w' h =
      let (kept, settled) = answered u input c cs lock r w w' h in
      respond-ok svc _ 201 (start_by_key svc web u input (some (c ∷ cs)) lock') r w'
        (keyed_again u input (replay_key svc web u (c ∷ cs)) lock' r w' kept) settled

  -- After an answered start under a key, a body with another digest under the same key is refused
  -- as a conflict and nothing changes.
  pub start_game_route_conflicts :
      (u : ℕ) (input input' : StartGameInput) (c : ℕ) (cs : Text) (lock lock' : Lock Base)
      (r : SessionDetailResult) (w w' : Base)
      → start_game_route svc web u input (some (c ∷ cs)) lock w ≡ (reply 201 r, w')
      → text_eqb (web.start_digest input) (web.start_digest input') ≡ false
      → start_game_route svc web u input' (some (c ∷ cs)) lock' w'
        ≡ (refusal 409 (web.said conflict), w')
  unfolding start_game_route given_key start_by_key refuse_with value_error_text api_refusal
  start_game_route_conflicts u input input' c cs lock lock' r w w' h other =
      let (kept, settled) = answered u input c cs lock r w w' h in
      respond-raise svc _ 201 (start_by_key svc web u input' (some (c ∷ cs)) lock') conflict 409
        (web.said conflict) w'
        (keyed_conflict u input input' (replay_key svc web u (c ∷ cs)) lock' r w' kept other)
        settled refl
