-- ===== src/Illustration/Images/Urls.antt =====
-- The URL of an uploaded object leads back to its key.
use ai_saga.Common.{
  ◌≡◌, ◌≢◌, ◌⊎◌, inl, inr, refl, sym, subst, ap, ◌∙◌, Option, none, some, Option-cases, [], ◌∷◌,
  ◌++◌, Text, text, text_eqb_iff, arith, if◌then◌else◌,
}
use ai_saga.Strings.{strip}
use ai_saga.Illustration.Images.{
  ImageServices, rstrip_slashes, lstrip_slashes, s3_virtual_host, endpoint_prefix,
  build_fallback_object_url, object_url, key_under, key_of_parsed, key_of_host, first_some,
  extract_object_key,
}
use ai_saga.Illustration.Images.Slashes.{
  append_assoc, after_prefix-append, Text-cases, append-ne-nil, some_lem, or_none-full,
  lstrip-slash, is_nil-full,
}

-- A key that is not empty and has no slash in front.
pub record IsKey (key : Text) : Type 0 where
  pub full : key ≢ []
  pub plain : lstrip_slashes key ≡ key

module _ (svc : ImageServices) where
  -- `urlparse` at a URL of the storage's own host.
  abbrev pub ReadsHost : Text → Type 0
  ReadsHost key =
      (host : Text)
      → s3_virtual_host svc ≡ some host
      → svc.urlparse (text "https://" ++ (host ++ (text "/" ++ key)))
        ≡ record { scheme = text "https"; netloc = host; path = text "/" ++ key }

  -- The public URL is not set, or more than slashes.
  abbrev pub HasBase : Type 0
  HasBase = (svc.public_url ≡ []) ⊎ (rstrip_slashes svc.public_url ≢ [])

  key_under-append : (base p key : Text) → base ≢ [] → key_under svc base p (p ++ key) ≡ some key
  unfolding key_under
  key_under-append [] p key h = absurd (h refl)
  key_under-append (c ∷ base) p key h = after_prefix-append p key

  host-ne-nil : (host : Text) → s3_virtual_host svc ≡ some host → host ≢ []
  unfolding s3_virtual_host
  host-ne-nil host h = host_cases (strip svc.region) h
    where
      host_cases :
          (r : Text)
          → (elim r as (λ x. Option Text) [
            | [] ↦ none
            | c ∷ cs ↦ some (svc.bucket ++ (text ".s3." ++ ((c ∷ cs) ++ text ".amazonaws.com")))
          ])
            ≡ some host
          → host ≢ []
      host_cases [] e = cc
      host_cases (c ∷ cs) e =
          subst (λ t. t ≢ [])
            (some_lem (svc.bucket ++ (text ".s3." ++ ((c ∷ cs) ++ text ".amazonaws.com"))) host e)
            (append-ne-nil svc.bucket (text ".s3." ++ ((c ∷ cs) ++ text ".amazonaws.com"))
              (λ n. cc))

  key_of_parsed_lem :
      (host key : Text)
      → IsKey key
      → s3_virtual_host svc ≡ some host
      → key_of_parsed svc (record { scheme = text "https"; netloc = host; path = text "/" ++ key })
        ≡ some key
  unfolding key_of_parsed
  key_of_parsed_lem host key k h = rw (
    is_nil-full host (host-ne-nil host h),
    h,
    (text_eqb_iff host host).1 refl,
    lstrip-slash key k.plain,
    or_none-full key k.full,
  )

  key_of_host-url :
      (host key : Text)
      → IsKey key
      → ReadsHost key
      → s3_virtual_host svc ≡ some host
      → key_of_host svc (text "https://" ++ (host ++ (text "/" ++ key))) ≡ some key
  unfolding key_of_host
  key_of_host-url host key k reads h =
      ap (key_of_parsed svc) (reads host h) ∙ key_of_parsed_lem host key k h

  key_under-nil : (base p url : Text) → base ≡ [] → key_under svc base p url ≡ none
  unfolding key_under
  key_under-nil [] p url h = refl
  key_under-nil (c ∷ base) p url h = cc

  public_unset : svc.public_url ≡ [] → rstrip_slashes svc.public_url ≡ []
  unfolding rstrip_slashes
  public_unset h = rw h refl

  fallback_endpoint :
      (key url : Text)
      → rstrip_slashes svc.endpoint_url ≢ []
      → build_fallback_object_url svc key ≡ some url
      → endpoint_prefix svc (rstrip_slashes svc.endpoint_url) ++ key ≡ url
  unfolding build_fallback_object_url
  fallback_endpoint key url set h = fallback_cases (rstrip_slashes svc.endpoint_url) set h
    where
      fallback_cases :
          (r : Text)
          → r ≢ []
          → (elim r as (λ x. Option Text) [
            | c ∷ cs ↦ some (endpoint_prefix svc (c ∷ cs) ++ key)
            | [] ↦ elim (s3_virtual_host svc) [
              | some host ↦ some (text "https://" ++ (host ++ (text "/" ++ key)))
              | none ↦ none
            ]
          ])
            ≡ some url
          → endpoint_prefix svc r ++ key ≡ url
      fallback_cases [] full e = absurd (full refl)
      fallback_cases (c ∷ cs) full e = some_lem _ _ e

  fallback_host :
      (key url : Text)
      → rstrip_slashes svc.endpoint_url ≡ []
      → build_fallback_object_url svc key ≡ some url
      → (host : Text) × (s3_virtual_host svc ≡ some host)
        × (text "https://" ++ (host ++ (text "/" ++ key)) ≡ url)
  unfolding build_fallback_object_url
  fallback_host key url bare h = elim (Option-cases (s3_virtual_host svc)) [
    | inl missing ↦ ground arith
    | inr (host, known) ↦ (host, known, ground arith)
  ]

  extract_lem :
      (url : Text)
      → extract_object_key svc url
        ≡ first_some svc
            (key_under svc
              (rstrip_slashes svc.public_url)
              (rstrip_slashes svc.public_url ++ text "/")
              url)
            (first_some svc
              (key_under svc
                (rstrip_slashes svc.endpoint_url)
                (endpoint_prefix svc (rstrip_slashes svc.endpoint_url))
                url)
              (key_of_host svc url))
  unfolding extract_object_key
  extract_lem url = refl

  fallback_lem :
      (key url : Text)
      → IsKey key
      → ReadsHost key
      → svc.public_url ≡ []
      → build_fallback_object_url svc key ≡ some url
      → extract_object_key svc url ≡ some key
  unfolding first_some
  fallback_lem key url k reads unset h = elim (Text-cases (rstrip_slashes svc.endpoint_url)) [
    | inl bare ↦
        let (host, known, same) = fallback_host key url bare h in
        rw
          (
            extract_lem url,
            key_under-nil _ (rstrip_slashes svc.public_url ++ text "/") url (public_unset unset),
            key_under-nil _ (endpoint_prefix svc (rstrip_slashes svc.endpoint_url)) url bare,
            ← same,
          )
          (key_of_host-url host key k reads known)
    | inr set ↦
        rw
          (
            extract_lem url,
            key_under-nil _ (rstrip_slashes svc.public_url ++ text "/") url (public_unset unset),
            ← fallback_endpoint key url set h,
            key_under-append _ (endpoint_prefix svc (rstrip_slashes svc.endpoint_url)) key set,
          )
          refl
  ]

  object_url-unset :
      (key : Text) → svc.public_url ≡ [] → build_fallback_object_url svc key ≡ object_url svc key
  unfolding object_url
  object_url-unset key h = ground arith

  public_lem :
      (key url : Text)
      → svc.public_url ≢ []
      → object_url svc key ≡ some url
      → rstrip_slashes svc.public_url ++ (text "/" ++ key) ≡ url
  unfolding object_url
  public_lem key url there h = some_lem _ _ (
      ap
        (λ b.
          if b
          then build_fallback_object_url svc key
          else some (rstrip_slashes svc.public_url ++ (text "/" ++ key)))
        (sym (is_nil-full svc.public_url there))
      ∙ h)

  object_url-set :
      (key url : Text)
      → rstrip_slashes svc.public_url ≢ []
      → object_url svc key ≡ some url
      → (rstrip_slashes svc.public_url ++ text "/") ++ key ≡ url
  object_url-set key url set h =
      append_assoc (rstrip_slashes svc.public_url) (text "/") key
      ∙ public_lem key url (λ unset. set (public_unset unset)) h

  pub object_url-ne-nil : (key url : Text) → object_url svc key ≡ some url → url ≢ []
  object_url-ne-nil key url h = elim (Text-cases svc.public_url) [
    | inr there ↦
        subst (λ t. t ≢ []) (public_lem key url there h)
          (append-ne-nil (rstrip_slashes svc.public_url) (text "/" ++ key) (λ e. cc))
    | inl unset ↦ elim (Text-cases (rstrip_slashes svc.endpoint_url)) [
      | inl bare ↦
          let (host, known, same) = fallback_host key url bare (object_url-unset key unset ∙ h) in
          subst (λ t. t ≢ []) same (λ e. cc)
      | inr set ↦
          subst (λ t. t ≢ [])
            (sym (
                append_assoc (rstrip_slashes svc.endpoint_url)
                  (text "/" ++ (svc.bucket ++ text "/")) key)
              ∙ fallback_endpoint key url set (object_url-unset key unset ∙ h))
            (append-ne-nil (rstrip_slashes svc.endpoint_url)
              ((text "/" ++ (svc.bucket ++ text "/")) ++ key) (λ e. cc))
    ]
  ]

  -- Where the public URL is not set or more than slashes, and where `urlparse` takes the URLs of the
  -- storage's own host apart, the URL of an uploaded object leads back to its key.
  pub extract_object_key-object_url :
      (key url : Text)
      → HasBase
      → ReadsHost key
      → IsKey key
      → object_url svc key ≡ some url
      → extract_object_key svc url ≡ some key
  unfolding first_some
  extract_object_key-object_url key url based reads k h = elim based [
    | inl unset ↦ fallback_lem key url k reads unset (object_url-unset key unset ∙ h)
    | inr set ↦
        rw
          (
            extract_lem url,
            ← object_url-set key url set h,
            key_under-append _ (rstrip_slashes svc.public_url ++ text "/") key set,
          )
          refl
  ]
