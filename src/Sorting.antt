-- ===== src/Sorting.antt =====
-- Python's stable sort by a test that says when one element goes strictly before another.
use ai_saga.Common.{
  ℕ, zero, suc, ◌≡◌, refl, ap, subst, Bool, true, false, Bool-cases, inl, inr, if◌then◌else◌, List,
  [], ◌∷◌, ◌++◌, length, take, drop, min, All, arith,
}
use mathlib.Core.List.{Perm}
use mathlib.Core.List.Perm

-- A strict order in which elements may tie, as keys compare.
pub record WeakOrder {ℓ} (A : Type ℓ) : Type ℓ where
  pub before : A → A → Bool
  pub before_asym : (x y : A) → before x y ≡ true → before y x ≡ false
  pub before_cotrans : (x y z : A) → before y x ≡ false → before z y ≡ false → before z x ≡ false

-- Each is apart from all that come later.
abbrev pub AreApart {ℓ} : {A : Type ℓ} → (A → A → Type 0) → List A → Type 0
AreApart R [] = Unit
AreApart R (x ∷ xs) = All (R x) xs × AreApart R xs

module _ {ℓ} {A : Type ℓ} (before : A → A → Bool) where
  -- Ahead of all that it ties with.
  unfoldable pub insert_by : A → List A → List A
  insert_by x [] = x ∷ []
  insert_by x (y ∷ ys) = let rest = insert_by x ys in if before y x then y ∷ rest else x ∷ y ∷ ys

  unfoldable pub sort_by : List A → List A
  sort_by [] = []
  sort_by (x ∷ xs) = insert_by x (sort_by xs)

  insert_by-perm : (x : A) (ys : List A) → Perm (insert_by x ys) (x ∷ ys)
  unfolding insert_by
  insert_by-perm x [] = Perm.refl (x ∷ [])
  insert_by-perm x (y ∷ ys) = elim (Bool-cases (before y x)) [
    | inl h ↦ rw h (Perm.trans (Perm.cons y (insert_by-perm x ys)) (Perm.swap x y ys))
    | inr h ↦ rw h (Perm.refl (x ∷ y ∷ ys))
  ]

  pub sort_by-perm : (xs : List A) → Perm (sort_by xs) xs
  unfolding sort_by
  sort_by-perm [] = Perm.refl []
  sort_by-perm (x ∷ xs) = Perm.trans (insert_by-perm x (sort_by xs)) (Perm.cons x (sort_by-perm xs))

  length-insert_by : (x : A) (ys : List A) → length (insert_by x ys) ≡ suc (length ys)
  unfolding insert_by
  length-insert_by x [] = refl
  length-insert_by x (y ∷ ys) = ground (arith, length-insert_by x ys)

  pub length-sort_by : (xs : List A) → length (sort_by xs) ≡ length xs
  unfolding sort_by
  length-sort_by [] = refl
  length-sort_by (x ∷ xs) = omega (arith, length-insert_by x (sort_by xs), length-sort_by xs)

  insert_by-All : (P : A → Type 0) (x : A) (ys : List A) → P x → All P ys → All P (insert_by x ys)
  unfolding insert_by
  insert_by-All P x [] p h = (tt, p)
  insert_by-All P x (y ∷ ys) p h = elim (Bool-cases (before y x)) [
    | inl e ↦ rw e (insert_by-All P x ys p h.0, h.1)
    | inr e ↦ rw e (h, p)
  ]

  insert_by-after :
      (x y : A) (ys : List A) → before y x ≡ true → insert_by x (y ∷ ys) ≡ y ∷ insert_by x ys
  unfolding insert_by
  insert_by-after x y ys e = rw e refl

  insert_by-here : (x y : A) (ys : List A) → before y x ≡ false → insert_by x (y ∷ ys) ≡ x ∷ y ∷ ys
  unfolding insert_by
  insert_by-here x y ys e = rw e refl

  insert_by-All_back :
      (P : A → Type 0) (x : A) (ys : List A) → All P (insert_by x ys) → P x × All P ys
  unfolding insert_by
  insert_by-All_back P x [] h = (h.1, tt)
  insert_by-All_back P x (y ∷ ys) h = elim (Bool-cases (before y x)) [
    | inl e ↦
        let there = subst (All P) (insert_by-after x y ys e) h in
        let (p, rest) = insert_by-All_back P x ys there.0 in (p, (rest, there.1))
    | inr e ↦ let there = subst (All P) (insert_by-here x y ys e) h in (there.1, there.0)
  ]

  pub sort_by-All : (P : A → Type 0) (xs : List A) → All P xs → All P (sort_by xs)
  unfolding sort_by
  sort_by-All P [] h = tt
  sort_by-All P (x ∷ xs) h = insert_by-All P x (sort_by xs) h.1 (sort_by-All P xs h.0)

  pub sort_by-All_back : (P : A → Type 0) (xs : List A) → All P (sort_by xs) → All P xs
  unfolding sort_by
  sort_by-All_back P [] h = tt
  sort_by-All_back P (x ∷ xs) h =
      let (p, rest) = insert_by-All_back P x (sort_by xs) h in (sort_by-All_back P xs rest, p)

  module _ (R : A → A → Type 0) (turned : (x y : A) → R x y → R y x) where
    insert_by-AreApart :
        (x : A) (ys : List A) → All (R x) ys → AreApart R ys → AreApart R (insert_by x ys)
    unfolding insert_by
    insert_by-AreApart x [] a h = (tt, tt)
    insert_by-AreApart x (y ∷ ys) a h = elim (Bool-cases (before y x)) [
      | inl e ↦
          rw e (insert_by-All (R y) x ys (turned x y a.1) h.0, insert_by-AreApart x ys a.0 h.1)
      | inr e ↦ rw e (a, h)
    ]

    pub sort_by-AreApart : (xs : List A) → AreApart R xs → AreApart R (sort_by xs)
    unfolding sort_by
    sort_by-AreApart [] h = tt
    sort_by-AreApart (x ∷ xs) h =
        insert_by-AreApart x (sort_by xs) (sort_by-All (R x) xs h.0) (sort_by-AreApart xs h.1)

  -- Nothing that comes later goes before.
  abbrev pub IsOrdered : List A → Type 0
  IsOrdered [] = Unit
  IsOrdered (x ∷ xs) = All (λ y. before y x ≡ false) xs × IsOrdered xs

  pub take-append-drop : (n : ℕ) (xs : List A) → take n xs ++ drop n xs ≡ xs
  take-append-drop zero xs = refl
  take-append-drop (suc n) [] = refl
  take-append-drop (suc n) (x ∷ xs) = ap (λ (ys : List A). x ∷ ys) (take-append-drop n xs)

  pub length-take : (n : ℕ) (xs : List A) → length (take n xs) ≡ min n (length xs)
  length-take zero xs = ground arith
  length-take (suc n) [] = ground arith
  length-take (suc n) (x ∷ xs) = omega (arith, length-take n xs)

  All-drop : (P : A → Type 0) (n : ℕ) (xs : List A) → All P xs → All P (drop n xs)
  All-drop P zero xs h = h
  All-drop P (suc n) [] h = h
  All-drop P (suc n) (x ∷ xs) h = All-drop P n xs h.0

  -- What is taken from the front, and what stays.
  pub take-IsOrdered :
      (n : ℕ) (xs : List A)
      → IsOrdered xs
      → All (λ x. All (λ y. before y x ≡ false) (drop n xs)) (take n xs)
  take-IsOrdered zero xs h = tt
  take-IsOrdered (suc n) [] h = tt
  take-IsOrdered (suc n) (x ∷ xs) h = (take-IsOrdered n xs h.1, All-drop _ n xs h.0)

module _ {ℓ} {A : Type ℓ} (o : WeakOrder A) where
  All-before :
      (x y : A) (ys : List A)
      → o.before y x ≡ false
      → All (λ z. o.before z y ≡ false) ys
      → All (λ z. o.before z x ≡ false) ys
  All-before x y [] h a = tt
  All-before x y (z ∷ ys) h a = (All-before x y ys h a.0, o.before_cotrans x y z h a.1)

  insert_by-IsOrdered :
      (x : A) (ys : List A) → IsOrdered o.before ys → IsOrdered o.before (insert_by o.before x ys)
  unfolding insert_by
  insert_by-IsOrdered x [] h = (tt, tt)
  insert_by-IsOrdered x (y ∷ ys) h = elim (Bool-cases (o.before y x)) [
    | inl e ↦ rw e (
      insert_by-All o.before (λ z. o.before z y ≡ false) x ys (o.before_asym y x e) h.0,
      insert_by-IsOrdered x ys h.1,
    )
    | inr e ↦ rw e ((All-before x y ys e h.0, e), h)
  ]

  pub sort_by-IsOrdered : (xs : List A) → IsOrdered o.before (sort_by o.before xs)
  unfolding sort_by
  sort_by-IsOrdered [] = tt
  sort_by-IsOrdered (x ∷ xs) = insert_by-IsOrdered x (sort_by o.before xs) (sort_by-IsOrdered xs)
