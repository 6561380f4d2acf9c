-- ===== src/Program.antt =====
-- Programs over a state of type `W` that return a value or raise, as the use cases are written: what
-- was written before a raise stays written.
use ai_saga.Common.{◌≡◌, refl, ap, Result, Error, ok, raise}

abbrev pub Program : Type 0 → Type 0 → Type 0
Program W A = W → Result A × W

module _ {W : Type 0} where
  infixl 5 ◌>>=◌ ◌>>◌
  abbrev pub ◌>>=◌ : {A B : Type 0} → Program W A → (A → Program W B) → Program W B
  ◌>>=◌ m f w = let (r, w') = m w in elim r [ ok a ↦ f a w' | raise e ↦ (raise e, w') ]

  abbrev pub ◌>>◌ : {A B : Type 0} → Program W A → Program W B → Program W B
  m >> k = m >>= λ _. k

  abbrev pub pure : {A : Type 0} → A → Program W A
  pure a w = (ok a, w)

  abbrev pub lift : {A : Type 0} → Result A → Program W A
  lift r w = (r, w)

  -- `try: m` with `except Exception: h`
  abbrev pub attempt : {A : Type 0} → Program W A → A → Program W A
  attempt m h w = let (r, w') = m w in elim r [ ok a ↦ (ok a, w') | raise e ↦ (ok h, w') ]

  -- `try: m` with `except Exception: h; raise`
  abbrev pub on_raise : {A : Type 0} → Program W A → Program W (Unit {0}) → Program W A
  on_raise m h w =
      let (r, w') = m w in elim r [ ok a ↦ (ok a, w') | raise e ↦ (h >> lift (raise e)) w' ]

  -- A program whose first part raises does nothing more.
  pub >>=-raise :
      {A B : Type 0} (m : Program W A) (f : A → Program W B) (w : W) (e : Error)
      → (m w).0 ≡ raise e
      → ((m >>= f) w).0 ≡ raise e
  >>=-raise {A = A} {B = B} m f w e h = raise_cases (m w) h
    where
      raise_cases :
          (p : Result A × W)
          → p.0 ≡ raise e
          → (elim p.0 as (λ x. Result B × W) [ ok a ↦ f a p.1 | raise x ↦ (raise x, p.1) ]).0
            ≡ raise e
      raise_cases (ok a, v) k = cc
      raise_cases (raise x, v) k = cc

  -- Both parts raise the same.
  pub >>=-raise_all :
      {A B : Type 0} (m : Program W A) (f : A → Program W B) (w : W) (e : Error)
      → ((a : A) → (m w).0 ≡ ok a → (f a (m w).1).0 ≡ raise e)
      → ((x : Error) → (m w).0 ≡ raise x → x ≡ e)
      → ((m >>= f) w).0 ≡ raise e
  >>=-raise_all {A = A} {B = B} m f w e good bad = raise_cases (m w) good bad
    where
      raise_cases :
          (p : Result A × W)
          → ((a : A) → p.0 ≡ ok a → (f a p.1).0 ≡ raise e)
          → ((x : Error) → p.0 ≡ raise x → x ≡ e)
          → (elim p.0 as (λ x. Result B × W) [ ok a ↦ f a p.1 | raise x ↦ (raise x, p.1) ]).0
            ≡ raise e
      raise_cases (ok a, v) g b = g a refl
      raise_cases (raise x, v) g b = ap raise (b x refl)

  -- What the first part comes to is handed on.
  pub >>=-step :
      {A B : Type 0} (m : Program W A) (f : A → Program W B) (w v : W) (a : A)
      → m w ≡ (ok a, v)
      → (m >>= f) w ≡ f a v
  >>=-step {A = A} {B = B} m f w v a h =
      ap
        (λ (p : Result A × W). elim p.0 as (λ x. Result B × W) [
          | ok b ↦ f b p.1
          | raise e ↦ (raise e, p.1)
        ])
        h

  -- A program that returns a value has run both parts.
  pub >>=-ok :
      {A B : Type 0} (m : Program W A) (f : A → Program W B) (w w' : W) (b : B)
      → (m >>= f) w ≡ (ok b, w')
      → (a : A) × (v : W) × (m w ≡ (ok a, v)) × (f a v ≡ (ok b, w'))
  >>=-ok {A = A} {B = B} m f w w' b h = bind_cases (m w) refl h
    where
      bind_cases :
          (p : Result A × W)
          → m w ≡ p
          → (elim p.0 as (λ x. Result B × W) [ ok a ↦ f a p.1 | raise e ↦ (raise e, p.1) ])
            ≡ (ok b, w')
          → (a : A) × (v : W) × (m w ≡ (ok a, v)) × (f a v ≡ (ok b, w'))
      bind_cases (ok a, v) e k = (a, v, e, k)
      bind_cases (raise x, v) e k = cc
