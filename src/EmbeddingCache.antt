-- ===== src/EmbeddingCache.antt =====
-- app/game/application/services/embedding_cache_service.py. The cache, the model and the texts of
-- vectors are parameters; each call of the cache may fail.
pub mod Made
use ai_saga.Common.{
  ℕ, ◌+◌, ◌≡◌, ◌⊎◌, Bool, true, false, ◌||◌, Option, none, some, List, [], ◌∷◌, ◌++◌, if◌then◌else◌,
  Text, text, Result, ok, raise, value_error,
}
use ai_saga.Strings.{strip}
use ai_saga.Program.{Program, ◌>>=◌, ◌>>◌, pure, lift, attempt}

pub record EmbeddingServices : Type 1 where
  -- SHA-256 in hexadecimal digits
  pub sha256 : Text → Text
  pub Vector : Type 0
  pub dumps : Vector → Text
  pub loads : Text → Result Vector
  pub loads-dumps : (v : Vector) → loads (dumps v) ≡ ok v
  -- the model at the n-th call
  pub embed : ℕ → Text → Result Vector
  -- the cache, with the entry under a key that it could still give
  pub Cache : Type 0
  pub entry : Text → Cache → Option Text
  pub get : Text → Program Cache (Option Text)
  pub set : Text → Text → ℕ → Program Cache (Unit {0})
  pub get-entry : (k t : Text) (c : Cache) → (get k c).0 ≡ ok (some t) → entry k c ≡ some t
  pub entry-get : (k j t : Text) (c : Cache) → entry j (get k c).1 ≡ some t → entry j c ≡ some t
  pub entry-set :
      (k value : Text) (ttl : ℕ) (j t : Text) (c : Cache)
      → entry j (set k value ttl c).1 ≡ some t
      → ((j ≡ k) × (t ≡ value)) ⊎ (entry j c ≡ some t)

pub record EmbeddingWorld (C : Type 0) : Type 0 where
  pub cache : C
  pub calls : ℕ

unfoldable pub is_empty : Text → Bool
is_empty [] = true
is_empty (c ∷ cs) = false

module _ (svc : EmbeddingServices) where
  abbrev pub Act : Type 0 → Type 0
  Act = Program (EmbeddingWorld svc.Cache)

  -- A call of the cache.
  abbrev pub on_cache : {A : Type 0} → Program svc.Cache A → Act A
  on_cache m w = let (r, c) = m w.cache in (r, record w { cache = c })

  -- `self._embedding.generate_embedding`
  unfoldable pub embed_text : Text → Act svc.Vector
  embed_text t w = (svc.embed w.calls t, record w { calls = w.calls + 1 })

  unfoldable pub compute_hash : Text → Text
  compute_hash t = svc.sha256 t

  unfoldable pub hash_key : Text → Text
  unfolding compute_hash
  hash_key t = text "embedding:hash:" ++ compute_hash t

  -- `if cached_data: return json.loads(cached_data)`
  unfoldable pub parse_cached : Option Text → Result (Option svc.Vector)
  parse_cached none = ok none
  parse_cached (some []) = ok none
  parse_cached (some (c ∷ cs)) = elim (svc.loads (c ∷ cs)) [
    | ok v ↦ ok (some v)
    | raise e ↦ raise e
  ]

  unfoldable pub get_from_cache : Text → Act (Option svc.Vector)
  get_from_cache key = attempt (do found ← on_cache (svc.get key); lift (parse_cached found)) none

  unfoldable pub store_in_cache : Text → svc.Vector → Act (Unit {0})
  store_in_cache key v = attempt (on_cache (svc.set key (svc.dumps v) 86400)) tt

  -- The embedding that was found, or else the model's, which is then stored.
  unfoldable pub embed_or : Text → Option svc.Vector → Act svc.Vector
  embed_or t (some v) = pure v
  embed_or t none = do v ← embed_text t; store_in_cache (hash_key t) v; pure v

  unfoldable pub generate_embedding : Text → Act svc.Vector
  generate_embedding t =
      if is_empty t || is_empty (strip t)
      then lift (raise value_error)
      else (do found ← get_from_cache (hash_key t); embed_or t found)
