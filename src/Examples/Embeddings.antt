-- ===== src/Examples/Embeddings.antt =====
-- A cache of embeddings that is a list.
use ai_saga.Common.{
  ◌≡◌, ◌⊎◌, refl, Option, some, List, [], ◌∷◌, Text, text, text_eqb_iff, lookup, ok, arith, Result,
}
use ai_saga.EmbeddingCache.{EmbeddingServices, EmbeddingWorld, generate_embedding}
use ai_saga.EmbeddingCache.Made

abbrev Texts : Type 0
Texts = List (Text × Text)

entry-put :
    (k value j t : Text) (c : Texts)
    → lookup j ((k, value) ∷ c) ≡ some t
    → ((j ≡ k) × (t ≡ value)) ⊎ (lookup j c ≡ some t)
entry-put k value j t c h = ground (arith, text_eqb_iff k j)

get-lookup :
    (k t : Text) (c : Texts)
    → (r : Result (Option Text)) → r ≡ ok (lookup k c)
    → r ≡ ok (some t)
    → lookup k c ≡ some t
get-lookup k t c r h l = grind arith

-- A vector is its text, and the model gives a text back.
abbrev embeddings : EmbeddingServices
embeddings = record {
  sha256 = λ t. t;
  Vector = Text;
  dumps = λ v. v;
  loads = ok;
  loads-dumps = λ v. refl;
  embed = λ n t. ok t;
  Cache = Texts;
  entry = lookup;
  get = λ k c. (ok (lookup k c), c);
  set = λ k value ttl c. (ok tt, (k, value) ∷ c);
  get-entry = λ k t c h. get-lookup k t c (ok (lookup k c)) refl h;
  entry-get = λ k j t c h. h;
  entry-set = λ k value ttl j t c h. entry-put k value j t c h;
}

-- The world after a request that found nothing in an empty cache.
abbrev asked : EmbeddingWorld Texts
asked = (generate_embedding embeddings (text "go east") (record { cache = []; calls = 1 })).1

asked-IsSound : Made.IsSound embeddings asked.cache
asked-IsSound =
    (Made.generate_embedding-Made embeddings (text "go east") (record { cache = []; calls = 1 })
      (λ t s v h l. ground arith)).0

generate_embedding-Made_example :
    Made.IsSound embeddings (generate_embedding embeddings (text "go east") asked).1.cache
    × Made.Embedded embeddings
        (text "go east")
        asked.calls
        (generate_embedding embeddings (text "go east") asked).0
generate_embedding-Made_example =
    Made.generate_embedding-Made embeddings (text "go east") asked asked-IsSound
