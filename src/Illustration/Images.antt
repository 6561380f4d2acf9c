-- ===== src/Illustration/Images.antt =====
-- The images: app/game/infrastructure/adapters/image_service.py over an object storage. The image
-- model, the storage and `urlparse` are parameters. Any call may fail, and one that fails does
-- nothing.
pub mod Slashes
pub mod Urls
use ai_saga.Common.{
  ℕ, ◌+◌, ◌≡◌, Bool, true, false, not, ◌&&◌, ◌||◌, Option, none, some, List, [], ◌∷◌, ◌++◌,
  if◌then◌else◌, is_nil, length, drop, eqb, Text, text, text_eqb, ok, raise, service_error, Result,
}
use ai_saga.Strings.{strip, starts_with, occurs}
use ai_saga.Store.Tables.{Db}
use ai_saga.Python.{Python}
use ai_saga.Program.{Program, ◌>>=◌, ◌>>◌, pure, lift, attempt}

-- What a model answers with: parts of which some carry an image, or images.
pub data ImageReply : Type 0 where
  parts : List (Option Text) → ImageReply
  images : List Text → ImageReply

-- `urlparse`: the scheme, the host and the path of a text.
pub record ParsedUrl : Type 0 where
  pub scheme : Text
  pub netloc : Text
  pub path : Text

pub record ImageServices : Type 0 where
  pub python : Python
  pub uuid7 : ℕ → ℕ
  pub uuid_text : ℕ → Text
  -- whether the n-th call fails, and the models' answers at it
  pub fails : ℕ → Bool
  pub answer : ℕ → Text → ImageReply
  pub urlparse : Text → ParsedUrl
  -- the settings
  pub image_generation_enabled : Bool
  pub bucket : Text
  pub public_url : Text
  pub endpoint_url : Text
  pub region : Text

-- The tables, the cached results, the keys of the storage's objects, and the counters of calls and
-- identifiers.
pub record Studio : Type 0 where
  pub db : Db
  pub results : List (Text × Text)
  pub objects : List Text
  pub calls : ℕ
  pub ids : ℕ

abbrev pub Act : Type 0 → Type 0
Act = Program Studio

-- `t.rstrip("/")`
unfoldable pub rstrip_slashes : Text → Text
rstrip_slashes [] = []
rstrip_slashes (c ∷ cs) = elim (rstrip_slashes cs) [
  | [] ↦ if eqb c 47 then [] else c ∷ []
  | d ∷ ds ↦ c ∷ d ∷ ds
]

-- `t.lstrip("/")`
unfoldable pub lstrip_slashes : Text → Text
lstrip_slashes [] = []
lstrip_slashes (c ∷ cs) = let rest = lstrip_slashes cs in if eqb c 47 then rest else c ∷ cs

-- What follows a prefix, if the text starts with it.
unfoldable pub after_prefix : Text → Text → Option Text
unfolding starts_with
after_prefix prefix t = if starts_with prefix t then some (drop (length prefix) t) else none

unfoldable pub or_none : Text → Option Text
or_none [] = none
or_none (c ∷ cs) = some (c ∷ cs)

-- The first part with an image.
unfoldable pub first_inline : List (Option Text) → Option Text
first_inline [] = none
first_inline (none ∷ rest) = first_inline rest
first_inline (some image ∷ rest) = some image

unfoldable pub answered_image : ImageReply → Option Text
unfolding first_inline
answered_image (parts ps) = first_inline ps
answered_image (images []) = none
answered_image (images (image ∷ rest)) = some image

unfoldable pub drop_object : Text → List Text → List Text
drop_object key [] = []
drop_object key (k ∷ ks) =
    let rest = drop_object key ks in if text_eqb k key then rest else k ∷ rest

abbrev pub dummy_url : Text
dummy_url = text "https://pub-3c25697921ae4f12aac4c4cfdbb57cc4.r2.dev/dummy.png"

module _ (svc : ImageServices) where
  -- A call that fails raises; any other has its effect.
  abbrev pub call : {A : Type 0} → Act A → Act A
  call m w =
      let w' = record w { calls = w.calls + 1 } in
      elim (svc.fails w.calls) [ true ↦ (raise service_error, w') | false ↦ m w' ]

  unfoldable pub s3_virtual_host : Option Text
  unfolding strip
  s3_virtual_host = elim (strip svc.region) [
    | [] ↦ none
    | c ∷ cs ↦ some (svc.bucket ++ (text ".s3." ++ ((c ∷ cs) ++ text ".amazonaws.com")))
  ]

  abbrev pub endpoint_prefix : Text → Text
  endpoint_prefix base = base ++ (text "/" ++ (svc.bucket ++ text "/"))

  unfoldable pub build_fallback_object_url : Text → Option Text
  unfolding rstrip_slashes s3_virtual_host
  build_fallback_object_url key = elim (rstrip_slashes svc.endpoint_url) [
    | c ∷ cs ↦ some (endpoint_prefix (c ∷ cs) ++ key)
    | [] ↦ elim s3_virtual_host [
      | some host ↦ some (text "https://" ++ (host ++ (text "/" ++ key)))
      | none ↦ none
    ]
  ]

  -- The URL under which an uploaded object is public.
  unfoldable pub object_url : Text → Option Text
  unfolding rstrip_slashes build_fallback_object_url
  object_url key =
      if is_nil svc.public_url
      then build_fallback_object_url key
      else some (rstrip_slashes svc.public_url ++ (text "/" ++ key))

  -- The key under a base that is not empty.
  unfoldable pub key_under : Text → Text → Text → Option Text
  unfolding after_prefix
  key_under base prefix url = if is_nil base then none else after_prefix prefix url

  -- The path of a URL at the storage's own host.
  unfoldable pub key_of_parsed : ParsedUrl → Option Text
  unfolding s3_virtual_host or_none lstrip_slashes
  key_of_parsed parsed =
      if is_nil parsed.scheme || is_nil parsed.netloc then none else elim s3_virtual_host [
        | none ↦ none
        | some host ↦
            if text_eqb parsed.netloc host then or_none (lstrip_slashes parsed.path) else none
      ]

  unfoldable pub key_of_host : Text → Option Text
  unfolding key_of_parsed
  key_of_host url = key_of_parsed (svc.urlparse url)

  unfoldable pub first_some : Option Text → Option Text → Option Text
  first_some none b = b
  first_some (some k) b = some k

  unfoldable pub extract_object_key : Text → Option Text
  unfolding key_under key_of_host first_some rstrip_slashes
  extract_object_key url =
      let base = rstrip_slashes svc.public_url in
      let endpoint = rstrip_slashes svc.endpoint_url in
      first_some (key_under base (base ++ text "/") url)
        (first_some (key_under endpoint (endpoint_prefix endpoint) url) (key_of_host url))

  -- `_generate_google_imagen`: nothing where the call fails.
  unfoldable pub generate_google_imagen : Text → Act (Option Text)
  unfolding answered_image
  generate_google_imagen prompt =
      attempt (λ w. call (pure (answered_image (svc.answer w.calls prompt))) w) none

  unfoldable pub draw_id : Act ℕ
  draw_id w = (ok (svc.uuid7 w.ids), record w { ids = w.ids + 1 })

  unfoldable pub put_object : Text → Act (Unit {0})
  put_object key = call λ w. (ok tt, record w { objects = key ∷ w.objects })

  unfoldable pub delete_object : Text → Act (Unit {0})
  unfolding drop_object
  delete_object key = call λ w. (ok tt, record w { objects = drop_object key w.objects })

  abbrev pub object_key : Text → Text → ℕ → Text
  object_key user session id =
      user ++ (text "/" ++ (session ++ (text "/" ++ (svc.uuid_text id ++ text ".png"))))

  -- The image is uploaded, and its URL handed on.
  unfoldable pub upload : Text → Text → Act (Option Text)
  unfolding draw_id put_object object_url
  upload user session = do
    id ← draw_id
    put_object (object_key user session id)
    pure (object_url (object_key user session id))

  unfoldable pub upload_image : Text → Text → Option Text → Act (Option Text)
  unfolding upload
  upload_image user session none = pure none
  upload_image user session (some []) = pure none
  upload_image user session (some (b ∷ bs)) = upload user session

  unfoldable pub generate_image : Text → Text → Text → Act (Option Text)
  generate_image prompt session user =
      if svc.image_generation_enabled
      then attempt (do image ← generate_google_imagen prompt; upload_image user session image) none
      else pure (some dummy_url)

  unfoldable pub delete_image : Text → Act (Unit {0})
  unfolding extract_object_key delete_object
  delete_image url = elim (extract_object_key url) [ none ↦ pure tt | some key ↦ delete_object key ]
