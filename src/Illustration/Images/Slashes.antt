-- ===== src/Illustration/Images/Slashes.antt =====
-- Prefixes and slashes of texts.
use ai_saga.Common.{
  ◌≡◌, ◌≢◌, ◌⊎◌, inl, inr, refl, ap, true, false, some, [], ◌∷◌, ◌++◌, is_nil, length, drop, Text,
  text, arith,
}
use ai_saga.Strings.{starts_with}
use ai_saga.Illustration.Images.{lstrip_slashes, after_prefix, or_none}

pub drop-append : (p t : Text) → drop (length p) (p ++ t) ≡ t
drop-append [] t = refl
drop-append (c ∷ p) t = drop-append p t

pub starts_with-append : (p t : Text) → starts_with p (p ++ t) ≡ true
unfolding starts_with
starts_with-append [] t = refl
starts_with-append (c ∷ p) t = ground (arith, starts_with-append p t)

pub append_assoc : (a b c : Text) → (a ++ b) ++ c ≡ a ++ (b ++ c)
append_assoc [] b c = refl
append_assoc (x ∷ a) b c = ap (x ∷◌) (append_assoc a b c)

pub after_prefix-append : (p t : Text) → after_prefix p (p ++ t) ≡ some t
unfolding after_prefix
after_prefix-append p t = rw (starts_with-append p t, drop-append p t)

pub Text-cases : (t : Text) → (t ≡ []) ⊎ (t ≢ [])
Text-cases [] = inl refl
Text-cases (c ∷ cs) = inr (λ h. cc)

pub append-ne-nil : (a b : Text) → b ≢ [] → a ++ b ≢ []
append-ne-nil [] b h = h
append-ne-nil (c ∷ a) b h = λ e. cc

pub some_lem : (a b : Text) → some a ≡ some b → a ≡ b
some_lem a b h = ground arith

pub or_none-full : (t : Text) → t ≢ [] → or_none t ≡ some t
unfolding or_none
or_none-full [] h = absurd (h refl)
or_none-full (c ∷ cs) h = refl

pub lstrip-slash : (t : Text) → lstrip_slashes t ≡ t → lstrip_slashes (text "/" ++ t) ≡ t
unfolding lstrip_slashes
lstrip-slash t h = ground arith

pub is_nil-full : (t : Text) → t ≢ [] → is_nil t ≡ false
is_nil-full [] h = absurd (h refl)
is_nil-full (c ∷ cs) h = refl
