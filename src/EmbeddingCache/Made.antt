-- ===== src/EmbeddingCache/Made.antt =====
-- Every embedding that is handed out was made by the model.
use ai_saga.Common.{
  ℕ, ◌≡◌, ◌⊎◌, inl, inr, refl, sym, ap, subst, ◌+◌, ◌∙◌, Bool, true, false, ◌||◌, Option, none,
  some, Text, Result, ok, raise, value_error, arith, Bool-cases, Result-cases,
}
use ai_saga.Strings.{strip}
use ai_saga.EmbeddingCache.{
  EmbeddingServices, EmbeddingWorld, is_empty, embed_text, compute_hash, hash_key, parse_cached,
  get_from_cache, store_in_cache, embed_or, generate_embedding,
}

-- A text with nothing to embed.
abbrev pub is_blank : Text → Bool
is_blank t = is_empty t || is_empty (strip t)

module _ (svc : EmbeddingServices) where
  -- The model gave the embedding for a text with the same hash.
  abbrev pub MadeFor : Text → svc.Vector → Type 0
  MadeFor t v = (u : Text) × (n : ℕ) × (svc.sha256 u ≡ svc.sha256 t) × (svc.embed n u ≡ ok v)

  -- The embeddings in the cache were made for the texts that they are found under.
  abbrev pub IsSound : svc.Cache → Type 0
  IsSound c =
      (t s : Text) (v : svc.Vector)
      → svc.entry (hash_key svc t) c ≡ some s
      → svc.loads s ≡ ok v
      → MadeFor t v

  -- What a request for an embedding comes to.
  abbrev pub Embedded : Text → ℕ → Result svc.Vector → Type 0
  Embedded t n (ok v) = (is_blank t ≡ false) × MadeFor t v
  Embedded t n (raise e) =
      ((is_blank t ≡ true) × (e ≡ value_error)) ⊎ ((is_blank t ≡ false) × (svc.embed n t ≡ raise e))

  parse_cached_lem :
      (found : Option Text) (v : svc.Vector)
      → parse_cached svc found ≡ ok (some v)
      → (s : Text) × (found ≡ some s) × (svc.loads s ≡ ok v)
  unfolding parse_cached
  parse_cached_lem found v h = grind arith

  hash_key_injective : (u t : Text) → hash_key svc u ≡ hash_key svc t → svc.sha256 u ≡ svc.sha256 t
  unfolding hash_key compute_hash
  hash_key_injective u t h = grind arith

  get-IsSound : (k : Text) (c : svc.Cache) → IsSound c → IsSound (svc.get k c).1
  get-IsSound k c sound t s v h l = sound t s v (svc.entry-get k (hash_key svc t) s c h) l

  -- A vector stored under the key of a text that it was made for.
  set-IsSound :
      (t : Text) (v : svc.Vector) (ttl n : ℕ) (c : svc.Cache)
      → svc.embed n t ≡ ok v
      → IsSound c
      → IsSound (svc.set (hash_key svc t) (svc.dumps v) ttl c).1
  set-IsSound t v ttl n c made sound u s x h l =
      elim (svc.entry-set (hash_key svc t) (svc.dumps v) ttl (hash_key svc u) s c h) [
        | inl (same, kept) ↦ (
          t,
          n,
          sym (hash_key_injective u t same),
          made ∙ sym (svc.loads-dumps v) ∙ ap svc.loads (sym kept) ∙ l,
        )
        | inr old ↦ sound u s x old l
      ]

  found_lem :
      (t : Text) (c : svc.Cache) (found : Option Text) (x : svc.Vector)
      → IsSound c
      → (svc.get (hash_key svc t) c).0 ≡ ok found
      → parse_cached svc found ≡ ok (some x)
      → MadeFor t x
  found_lem t c found x sound given parsed =
      let (s, same, loaded) = parse_cached_lem found x parsed in
      sound t s x (svc.get-entry (hash_key svc t) s c (given ∙ ap ok same)) loaded

  -- The look into the cache returns, and what it finds was made for the text.
  get_from_cache_lem :
      (t : Text) (w : EmbeddingWorld svc.Cache)
      → IsSound w.cache
      → (found : Option svc.Vector) × (get_from_cache svc (hash_key svc t) w
          ≡ (ok found, record w { cache = (svc.get (hash_key svc t) w.cache).1 }))
        × ((x : svc.Vector) → found ≡ some x → MadeFor t x)
  unfolding get_from_cache
  get_from_cache_lem t w sound = elim (Result-cases (svc.get (hash_key svc t) w.cache).0) [
    | inr (e, failed) ↦ (none, grind arith, λ x h. ground arith)
    | inl (found, given) ↦ elim (Result-cases (parse_cached svc found)) [
      | inr (e, failed) ↦ (none, grind arith, λ x h. ground arith)
      | inl (hit, parsed) ↦
          (hit, grind arith, λ x h. found_lem t w.cache found x sound given (parsed ∙ ap ok h))
    ]
  ]

  store_in_cache_lem :
      (k : Text) (v : svc.Vector) (w : EmbeddingWorld svc.Cache)
      → store_in_cache svc k v w
        ≡ (ok tt, record w { cache = (svc.set k (svc.dumps v) 86400 w.cache).1 })
  unfolding store_in_cache
  store_in_cache_lem k v w = elim (Result-cases (svc.set k (svc.dumps v) 86400 w.cache).0) [
    | inl (a, fine) ↦ grind arith
    | inr (e, failed) ↦ grind arith
  ]

  -- A state and a result as they should be after a request.
  abbrev IsGood : Text → ℕ → Result svc.Vector × EmbeddingWorld svc.Cache → Type 0
  IsGood t n (r, w) = IsSound w.cache × Embedded t n r

  embed_or_lem :
      (t : Text) (found : Option svc.Vector) (w : EmbeddingWorld svc.Cache)
      → is_blank t ≡ false
      → IsSound w.cache
      → ((x : svc.Vector) → found ≡ some x → MadeFor t x)
      → IsGood t w.calls (embed_or svc t found w)
  unfolding embed_or embed_text
  embed_or_lem t (some v) w full sound made = (sound, (full, made v refl))
  embed_or_lem t none w full sound made = elim (Result-cases (svc.embed w.calls t)) [
    | inr (e, failed) ↦
        let stopped : embed_or svc t none w ≡ (raise e, record w { calls = w.calls + 1 }) =
          grind arith in
        subst (IsGood t w.calls) (sym stopped) (sound, inr (full, failed))
    | inl (v, fine) ↦
        let given : embed_or svc t none w ≡ (
          ok v,
          record w {
            cache = (svc.set (hash_key svc t) (svc.dumps v) 86400 w.cache).1;
            calls = w.calls + 1;
          },
        ) =
          grind (arith, store_in_cache_lem) in
        subst (IsGood t w.calls) (sym given)
          (set-IsSound t v 86400 w.calls w.cache fine sound, (full, (t, w.calls, refl, fine)))
  ]

  -- While the embeddings in the cache were made by the model for texts with the hash that they are
  -- found under, the same holds after a request for an embedding. The request gives an embedding
  -- that the model made for a text with the same hash, or it is refused because the text is blank,
  -- or it fails as the model does on the text; a failure of the cache never shows.
  pub generate_embedding-Made :
      (t : Text) (w : EmbeddingWorld svc.Cache)
      → IsSound w.cache
      → IsSound (generate_embedding svc t w).1.cache
        × Embedded t w.calls (generate_embedding svc t w).0
  unfolding generate_embedding
  generate_embedding-Made t w sound = elim (Bool-cases (is_blank t)) [
    | inl blank ↦
        let refused : generate_embedding svc t w ≡ (raise value_error, w) = grind arith in
        subst (IsGood t w.calls) (sym refused) (sound, inl (blank, refl))
    | inr full ↦
        let (found, looked, made) = get_from_cache_lem t w sound in
        let w' : EmbeddingWorld svc.Cache = record w {
          cache = (svc.get (hash_key svc t) w.cache).1;
        } in
        let goes_on : generate_embedding svc t w ≡ embed_or svc t found w' = grind arith in
        subst (IsGood t w.calls) (sym goes_on)
          (embed_or_lem t found w' full (get-IsSound (hash_key svc t) w.cache sound) made)
  ]
