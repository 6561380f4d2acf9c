-- ===== src/Examples/Signed.antt =====
-- Tokens that spell their claims out, number by number.
use ai_saga.Common.{
  ℕ, zero, suc, ◌/◌, ◌≤◌, ◌<◌, ◌≡◌, refl, ap, ◌∙◌, sym, leb, if◌then◌else◌, Option-cases, inl, inr,
  Option, none, some, [], ◌∷◌, ◌++◌, length, take, drop, Text, arith,
}
use ai_saga.Auth.Services.{Claims}

abbrev spell_text : Option Text → Text
spell_text none = 0 ∷ []
spell_text (some t) = suc (length t) ∷ t

abbrev spell_number : Option ℕ → Text
spell_number none = 0 ∷ []
spell_number (some n) = suc n ∷ []

abbrev pub sign : Claims → Text
sign c =
    spell_text c.sub
    ++ (spell_text c.email
        ++ (spell_number c.user_level
            ++ (spell_number c.exp
                ++ (spell_number c.iat ++ (spell_text c.jti ++ (spell_text c.kind ++ []))))))

abbrev read_text : Text → Option Text
read_text [] = none
read_text (zero ∷ r) = none
read_text (suc n ∷ r) = some (take n r)

abbrev after_text : Text → Text
after_text [] = []
after_text (zero ∷ r) = r
after_text (suc n ∷ r) = drop n r

abbrev read_number : Text → Option ℕ
read_number [] = none
read_number (zero ∷ r) = none
read_number (suc n ∷ r) = some n

abbrev after_number : Text → Text
after_number [] = []
after_number (n ∷ r) = r

abbrev pub parse : Text → Claims
parse t0 =
    let t1 = after_text t0 in
    let t2 = after_text t1 in
    let t3 = after_number t2 in
    let t4 = after_number t3 in
    let t5 = after_number t4 in
    let t6 = after_text t5 in
    record {
      sub = read_text t0;
      email = read_text t1;
      user_level = read_number t2;
      exp = read_number t3;
      iat = read_number t4;
      jti = read_text t5;
      kind = read_text t6;
    }

take-length-append : (t r : Text) → take (length t) (t ++ r) ≡ t
take-length-append [] r = refl
take-length-append (x ∷ t) r = ap (λ (u : Text). x ∷ u) (take-length-append t r)

drop-length-append : (t r : Text) → drop (length t) (t ++ r) ≡ r
drop-length-append [] r = refl
drop-length-append (x ∷ t) r = drop-length-append t r

read_text-spell_text : (o : Option Text) (r : Text) → read_text (spell_text o ++ r) ≡ o
read_text-spell_text none r = refl
read_text-spell_text (some t) r = ap some (take-length-append t r)

after_text-spell_text : (o : Option Text) (r : Text) → after_text (spell_text o ++ r) ≡ r
after_text-spell_text none r = refl
after_text-spell_text (some t) r = drop-length-append t r

read_number-spell_number : (o : Option ℕ) (r : Text) → read_number (spell_number o ++ r) ≡ o
read_number-spell_number none r = refl
read_number-spell_number (some n) r = refl

after_number-spell_number : (o : Option ℕ) (r : Text) → after_number (spell_number o ++ r) ≡ r
after_number-spell_number none r = refl
after_number-spell_number (some n) r = refl

parse-sign : (c : Claims) → parse (sign c) ≡ c
parse-sign c = simp (
  read_text-spell_text, after_text-spell_text, read_number-spell_number, after_number-spell_number,
)

-- A token holds until its expiry, and through the second that it names.
abbrev holds : ℕ → Claims → Option Claims
holds t c = elim c.exp [ none ↦ some c | some e ↦ if leb (t / 1000000) e then some c else none ]

abbrev pub decode : ℕ → Text → Option Claims
decode t x = holds t (parse x)

holds_same : (t : ℕ) (c d : Claims) → holds t c ≡ some d → c ≡ d
holds_same t c d h = elim (Option-cases c.exp) [ inl e ↦ ground arith | inr (x, e) ↦ ground arith ]

holds_exp : (t e : ℕ) (c d : Claims) → holds t c ≡ some d → d.exp ≡ some e → t / 1000000 ≤ e
holds_exp t e c d h x = elim (Option-cases c.exp) [
  | inl y ↦ ground (arith, holds_same t c d h)
  | inr (z, y) ↦ ground (arith, holds_same t c d h)
]

holds_before : (t e : ℕ) (c : Claims) → c.exp ≡ some e → t / 1000000 < e → holds t c ≡ some c
holds_before t e c h l = ground arith

pub decode-sign :
    (t e : ℕ) (c : Claims) → c.exp ≡ some e → t / 1000000 < e → decode t (sign c) ≡ some c
decode-sign t e c h l = ap (holds t) (parse-sign c) ∙ holds_before t e c h l

pub decode-sign_eq : (t : ℕ) (c d : Claims) → decode t (sign c) ≡ some d → d ≡ c
decode-sign_eq t c d h = sym (holds_same t c d (ap (holds t) (sym (parse-sign c)) ∙ h))

pub decode-agree :
    (s t : ℕ) (x : Text) (c d : Claims) → decode s x ≡ some c → decode t x ≡ some d → c ≡ d
decode-agree s t x c d h k = sym (holds_same s (parse x) c h) ∙ holds_same t (parse x) d k

pub decode-later :
    (s t e : ℕ) (x : Text) (c : Claims)
    → decode s x ≡ some c
    → c.exp ≡ some e
    → s ≤ t
    → t / 1000000 < e
    → decode t x ≡ some c
decode-later s t e x c h k le l = ap (holds t) (holds_same s (parse x) c h) ∙ holds_before t e c k l

pub decode-exp :
    (t e : ℕ) (x : Text) (c : Claims) → decode t x ≡ some c → c.exp ≡ some e → t / 1000000 ≤ e
decode-exp t e x c h k = holds_exp t e (parse x) c h k
