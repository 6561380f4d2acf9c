-- ===== src/Lib.antt =====
-- The game core of the ai_saga server: a text role-playing game in which a language model tells the
-- story, dice decide what succeeds, and every player action is one turn of a stored session.
--
-- A request for a turn reaches `ProcessActionUseCase.execute`. It answers from the idempotency cache
-- if it can; otherwise it loads the session, checks owner and status, counts the turn, stores the
-- player's message and its memory, and either ends the game (the last turn) or plays a normal turn:
-- the text is classified, a check is rolled if the kind calls for one, the model is asked, its answer
-- is parsed, its changes are settled by the dice and carried over to the session's state and to the
-- character, who may die of them. Then the session is saved, the transaction committed and the
-- response cached.
--
-- Which file models which part (paths from the repository's root):
--   Values         app/game/domain/value_objects: the enumerations and their methods.
--   Dice           app/game/domain/services/dice_service.py and value_objects/dice.py; the random
--                  generator is explicit. Dice/Bounds and Dice/Checks hold the theorems.
--   Character      app/game/domain/entities/character.py; Character/Leveling on gaining levels,
--                  Experience on the arithmetic of level costs.
--   GameState      app/game/domain/value_objects/game_state.py and services/game_state_service.py.
--   Session        app/game/domain/entities/game_session.py; Session/Lifecycle takes its methods as a
--                  step relation.
--   Progression    app/game/domain/services/user_progression_service.py, the levels of
--                  app/auth/domain/entities/user.py, and
--                  app/auth/infrastructure/repositories/user_progression_repository.py.
--   Narrator       app/game/domain/services/game_master_service.py; Narrator/Markup is its
--                  `_normalize_for_comparison`.
--   Entities       the messages, memories and scenarios of app/game/domain/entities.
--   MemoryText     app/game/application/services/game_memory_text_builder.py.
--   Store          the tables with the repositories' reads and writes (Store/Tables), the state of the
--                  world with the transaction (Store/Monad), and what lives outside (Store/Services).
--   Turn           app/game/application/use_cases/process_action.py: Turn/Action for
--                  `_resolve_action_type` and `_normalize_action_options`, Turn/Changes for the
--                  changes of a turn, Turn/Prompt for the prompts of
--                  app/game/application/services/turn_prompt_composer.py and
--                  app/llm/prompts/game_master.py, Turn/Effects for its single calls, Turn/Endings for
--                  `_handle_ending` and `_handle_death_ending`, Turn/Normal for `_handle_normal_turn`,
--                  Turn/Execute for `execute`. The other files of Turn hold theorems.
--   Start          app/game/application/use_cases/start_game.py without an image service.
--   Manage         app/game/application/use_cases/create_character.py and delete_session.py.
--   GenerateEnding app/game/application/use_cases/generate_ending.py.
--   EmbeddingCache app/game/application/services/embedding_cache_service.py, over a cache that may fail.
--   History        `get_messages_with_cursor` of
--                  app/game/infrastructure/repositories/game_message_repository.py; the database's
--                  order is a parameter.
--   Recall         app/game/application/services/rag_context_builder.py, over floats as a parameter;
--                  Sorting is Python's stable sort. The files below Recall hold theorems.
--   Auth           app/auth. Auth/Entities has the users and accounts with their repositories,
--                  Auth/Services what lives outside (the clock, the signatures of tokens, Google),
--                  Auth/Realm the state (tables and Redis), Auth/Cache the adapter of the cache and the
--                  client of app/common/storage/redis.py, Auth/Tokens the adapter of tokens,
--                  Auth/Google the adapter of Google with its retries, Auth/Login the callback of a
--                  sign-in, Auth/Create `CreateUserUseCase`, Auth/Requests the other use cases, the
--                  queries and `get_current_user` of app/auth/dependencies.py. The other files of
--                  Auth hold theorems.
--   Program        programs over a state that return or raise.
--   SessionHistory app/game/application/queries/get_session_history.py and get_session.py;
--                  SessionHistory/Queries has the queries, SessionHistory/Cached a theorem.
--   Illustration   the pictures of messages: app/game/application/services/illustration_*.py (Hints and
--                  Scene for the scene, Profile for the direction, Prompt for the texts),
--                  app/game/infrastructure/adapters/image_service.py (Images) and
--                  app/game/application/use_cases/generate_illustration.py (Requests). The files
--                  below those hold theorems.
--   Routes         app/common/exception.py, app/common/middleware/exception_handler.py and the lock of
--                  app/game/infrastructure/adapters/cache_service.py; Routes/Game is
--                  app/game/presentation/routes/game_routes.py. The other files of Routes hold
--                  theorems.
--   SessionList    the list of sessions: `list_by_user` of
--                  app/game/infrastructure/repositories/game_session_repository.py,
--                  app/game/application/queries/get_user_sessions.py and the route.
--   Strings, Json, Python   what the code uses of Python's texts, of JSON values and dictionaries, and
--                  of libraries (lower-casing, the JSON parser, SHA-256) as parameters.
--   Common         shared names: Boolean tests on the native numbers, lists, texts as lists of code
--                  points, association lists, exceptions as values, signed integers.
--   Examples       a small world with concrete services, in which the theorems are applied.
--
-- How code becomes definitions. An entity is a record, and a method a function to the new record.
-- An exception is a value of `Error`; a method that may raise returns `Result`. The use case is a
-- program over the state of the world (tables, committed tables, cache, counters of the outside
-- calls, random generator) that returns a result and the new world; what was written before a raise
-- stays written until the surrounding transaction rolls it back. The clock, identifiers, both
-- models, and the queries that the database ranks are parameters. The cache's text of an entry is
-- abstract: all that is assumed is that decoding what was encoded gives the entry back and that it
-- is not empty. In the authentication, signing and checking a token, Google's replies and the clock
-- are parameters; Redis answers every call, and an entry lives until the second it was set for.
--
-- A request for a picture runs over the tables, the cached results, the keys of the stored objects and
-- counters of the calls and identifiers. The image model, the storage and `urlparse` are parameters,
-- any single call may fail, and one that fails has done nothing.
--
-- A route takes its lock as an argument: none if the lock is not had in time, and otherwise what other
-- requests do to the world until it is. The request then runs in one transaction, and an exception
-- becomes a status and a message. Which words a message holds depends on `str.lower`, of which the
-- theorems assume only what it does to ASCII letters.
--
-- Loops. The `while` loops on experience run on one more than the experience held, and the theorems on
-- them show that they stop by their own test. The replacements of markup run on the length of the
-- text, and the retries of a request to Google on the attempts left (three). All other loops are over
-- lists.
--
-- What is not modelled: the picture of a game's opening, the lists of characters and scenarios,
-- the routes of the sign-in, and the adapters of PostgreSQL and the language models. Where a character
-- had several running games, the search for one takes the first, and the repository's
-- `scalar_one_or_none` would raise. The answers of a route to an `IntegrityError` are left out. The
-- caches of turns and pages keep an entry until it is overwritten, whatever time it was stored for, and
-- the tag that tells the kinds of entries apart is part of their abstract text. Log lines, and a failure of Redis (but for the cache of
-- embeddings) or of the database, are left out too.
pub mod Common
pub mod Program
pub mod Values
pub mod Dice
pub mod Experience
pub mod Character
pub mod GameState
pub mod Session
pub mod Progression
pub mod Strings
pub mod Json
pub mod Python
pub mod Sorting
pub mod Recall
pub mod Narrator
pub mod Turn
pub mod Entities
pub mod MemoryText
pub mod Store
pub mod Start
pub mod History
pub mod Auth
pub mod Manage
pub mod GenerateEnding
pub mod EmbeddingCache
pub mod SessionHistory
pub mod Illustration
pub mod Routes
pub mod SessionList
pub mod Examples
