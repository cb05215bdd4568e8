-- ===== src/Prelude/Lists.antt =====
-- Lists over the native numbers, predicates on all members and on all pairs, permutations, and
-- Python's stable `sorted`.
use Prim.Native.Nat.{ℕ, zero, suc, ◌+◌, ◌≤◌}
use mathlib.Core.Path.{◌≡◌, refl, subst, ◌∙◌, ap}
use mathlib.Core.Logic.{inl, inr}
use mathlib.Core.Bool.{Bool, true, false}
use mathlib.Core.Option.{Option, none, some}
use mathlib.Core.List.{List, [], ◌∷◌, ◌++◌, map}
use mathlib.Core.List.{Permᴰ}
use mathlib.Core.List.Permᴰ
use native.Mathlib.Omega.{arith}
use opticutter_api.Prelude.Tests.{if◌then◌else◌, Bool-cases}

module _ {ℓ} {A : Type ℓ} where
  abbrev pub length : List A → ℕ
  length [] = 0
  length (x ∷ xs) = suc (length xs)

  abbrev pub get_elem? : List A → ℕ → Option A
  get_elem? [] i = none
  get_elem? (x ∷ xs) zero = some x
  get_elem? (x ∷ xs) (suc i) = get_elem? xs i

  -- `[x for x in xs if p x]`
  abbrev pub filter_by : (A → Bool) → List A → List A
  filter_by p [] = []
  filter_by p (x ∷ xs) = if p x then x ∷ filter_by p xs else filter_by p xs

  -- `any(p x for x in xs)` and `all(p x for x in xs)`
  abbrev pub any_by : (A → Bool) → List A → Bool
  any_by p [] = false
  any_by p (x ∷ xs) = if p x then true else any_by p xs

  abbrev pub all_by : (A → Bool) → List A → Bool
  all_by p [] = true
  all_by p (x ∷ xs) = if p x then all_by p xs else false

  abbrev pub All {κ} : (A → Type κ) → List A → Type κ
  All P [] = Unit
  All P (x ∷ xs) = P x × All P xs

  abbrev pub Pairwise {κ} : (A → A → Type κ) → List A → Type κ
  Pairwise R [] = Unit
  Pairwise R (x ∷ xs) = All (R x) xs × Pairwise R xs

  pub length-append : (xs ys : List A) → length (xs ++ ys) ≡ length xs + length ys
  length-append [] ys = omega arith
  length-append (x ∷ xs) ys = omega (arith, length-append xs ys)

  pub get_elem?-middle : (xs ys : List A) (x : A) → get_elem? (xs ++ x ∷ ys) (length xs) ≡ some x
  get_elem?-middle [] ys x = refl
  get_elem?-middle (y ∷ xs) ys x = get_elem?-middle xs ys x

module _ {ℓ κ} {A : Type ℓ} (P : A → Type κ) where
  pub All-append : (xs ys : List A) → All P xs → All P ys → All P (xs ++ ys)
  All-append [] ys hx hy = hy
  All-append (x ∷ xs) ys hx hy = (hx.0, All-append xs ys hx.1 hy)

  pub All-append_split : (xs ys : List A) → All P (xs ++ ys) → All P xs × All P ys
  All-append_split [] ys h = (tt, h)
  All-append_split (x ∷ xs) ys h = let (hx, hy) = All-append_split xs ys h.1 in ((h.0, hx), hy)

  pub All-filter_by : (p : A → Bool) (xs : List A) → All P xs → All P (filter_by p xs)
  All-filter_by p [] h = tt
  All-filter_by p (x ∷ xs) h = elim (Bool-cases (p x)) [
    | inl e ↦ rw e (h.0, All-filter_by p xs h.1)
    | inr e ↦ rw e (All-filter_by p xs h.1)
  ]

  pub All-perm : {xs ys : List A} → Permᴰ xs ys → All P xs → All P ys
  All-perm Permᴰ.nil h = tt
  All-perm (Permᴰ.cons e p) h = (subst P e h.0, All-perm p h.1)
  All-perm (Permᴰ.swap e f) h = (subst P f h.1.0, (subst P e h.0, h.1.1))
  All-perm (Permᴰ.trans p q) h = All-perm q (All-perm p h)

module _ {ℓ κ μ} {A : Type ℓ} {P : A → Type κ} {Q : A → Type μ} where
  pub All-mono : ((a : A) → P a → Q a) → (xs : List A) → All P xs → All Q xs
  All-mono f [] h = tt
  All-mono f (x ∷ xs) h = (f x h.0, All-mono f xs h.1)

module _ {ℓ κ} {A : Type ℓ} (R : A → A → Type κ) (sym_R : (a b : A) → R a b → R b a) where
  pub Pairwise-append :
      (xs ys : List A)
      → Pairwise R xs
      → Pairwise R ys
      → All (λ x. All (R x) ys) xs
      → Pairwise R (xs ++ ys)
  Pairwise-append [] ys hx hy hxy = hy
  Pairwise-append (x ∷ xs) ys hx hy hxy =
      (All-append (R x) xs ys hx.0 hxy.0, Pairwise-append xs ys hx.1 hy hxy.1)

  pub Pairwise-perm : {xs ys : List A} → Permᴰ xs ys → Pairwise R xs → Pairwise R ys
  Pairwise-perm Permᴰ.nil h = tt
  Pairwise-perm (Permᴰ.cons {l₂ = l} e p) h =
      (subst (λ a. All (R a) l) e (All-perm (R _) p h.0), Pairwise-perm p h.1)
  Pairwise-perm (Permᴰ.swap {a = x} {b = y} {b' = y'} {l = l} e f) h = (
    (
      subst (λ a. R a y') f (subst (λ b. R y b) e (sym_R x y h.0.0)),
      subst (λ a. All (R a) l) f h.1.0,
    ),
    (subst (λ a. All (R a) l) e h.0.1, h.1.1),
  )
  Pairwise-perm (Permᴰ.trans p q) h = Pairwise-perm q (Pairwise-perm p h)

module _ {ℓ κ} {A : Type ℓ} (R : A → A → Type κ) where
  pub Pairwise-filter_by :
      (p : A → Bool) (xs : List A) → Pairwise R xs → Pairwise R (filter_by p xs)
  Pairwise-filter_by p [] h = tt
  Pairwise-filter_by p (x ∷ xs) h = elim (Bool-cases (p x)) [
    | inl e ↦ rw e (All-filter_by (R x) p xs h.0, Pairwise-filter_by p xs h.1)
    | inr e ↦ rw e (Pairwise-filter_by p xs h.1)
  ]

-- Python's `sorted`: stable, `lt a b` says that `a`'s key is less than `b`'s.
module _ {ℓ} {A : Type ℓ} (lt : A → A → Bool) where
  abbrev pub insert_by : A → List A → List A
  insert_by x [] = x ∷ []
  insert_by x (y ∷ ys) = if lt y x then y ∷ insert_by x ys else x ∷ y ∷ ys

  abbrev pub sort_by : List A → List A
  sort_by [] = []
  sort_by (x ∷ xs) = insert_by x (sort_by xs)

  pub insert_by-perm : (x : A) (ys : List A) → Permᴰ (insert_by x ys) (x ∷ ys)
  insert_by-perm x [] = Permᴰ.refl _
  insert_by-perm x (y ∷ ys) = elim (Bool-cases (lt y x)) [
    | inl e ↦ rw e (Permᴰ.trans (Permᴰ.cons refl (insert_by-perm x ys)) (Permᴰ.swap refl refl))
    | inr e ↦ rw e (Permᴰ.refl _)
  ]

  pub sort_by-perm : (xs : List A) → Permᴰ (sort_by xs) xs
  sort_by-perm [] = Permᴰ.nil
  sort_by-perm (x ∷ xs) =
      Permᴰ.trans (insert_by-perm x (sort_by xs)) (Permᴰ.cons refl (sort_by-perm xs))

-- A total of a measure over a list, and its laws.
module _ {ℓ} {A : Type ℓ} (f : A → ℕ) where
  abbrev pub sum_of : List A → ℕ
  sum_of [] = 0
  sum_of (x ∷ xs) = f x + sum_of xs

  pub sum_of-append : (xs ys : List A) → sum_of (xs ++ ys) ≡ sum_of xs + sum_of ys
  sum_of-append [] ys = omega arith
  sum_of-append (x ∷ xs) ys = omega (arith, sum_of-append xs ys)

  pub sum_of-perm : {xs ys : List A} → Permᴰ xs ys → sum_of xs ≡ sum_of ys
  sum_of-perm Permᴰ.nil = refl
  sum_of-perm (Permᴰ.cons e p) = omega (arith, ap f e, sum_of-perm p)
  sum_of-perm (Permᴰ.swap e g) = omega (arith, ap f e, ap f g)
  sum_of-perm (Permᴰ.trans p q) = sum_of-perm p ∙ sum_of-perm q

  pub sum_of-filter_by-le : (p : A → Bool) (xs : List A) → sum_of (filter_by p xs) ≤ sum_of xs
  sum_of-filter_by-le p [] = omega arith
  sum_of-filter_by-le p (x ∷ xs) = elim (Bool-cases (p x)) [
    | inl e ↦ rw e (omega (arith, sum_of-filter_by-le p xs))
    | inr e ↦ rw e (omega (arith, sum_of-filter_by-le p xs))
  ]

module _ {ℓ κ} {A : Type ℓ} {B : Type κ} (f : A → B) (p : A → Bool) where
  pub All-map-filter_by {μ} :
      (P : B → Type μ) (xs : List A) → All P (map f xs) → All P (map f (filter_by p xs))
  All-map-filter_by P [] h = tt
  All-map-filter_by P (x ∷ xs) h = elim (Bool-cases (p x)) [
    | inl e ↦ rw e (h.0, All-map-filter_by P xs h.1)
    | inr e ↦ rw e (All-map-filter_by P xs h.1)
  ]

  pub Pairwise-map-filter_by {μ} :
      (R : B → B → Type μ) (xs : List A)
      → Pairwise R (map f xs)
      → Pairwise R (map f (filter_by p xs))
  Pairwise-map-filter_by R [] h = tt
  Pairwise-map-filter_by R (x ∷ xs) h = elim (Bool-cases (p x)) [
    | inl e ↦ rw e (All-map-filter_by (R (f x)) xs h.0, Pairwise-map-filter_by R xs h.1)
    | inr e ↦ rw e (Pairwise-map-filter_by R xs h.1)
  ]

-- Members of a filtered list, of a list that passes `all`, and of a mapped one.
module _ {ℓ κ} {A : Type ℓ} (P : A → Type κ) where
  pub All-filter_by_both :
      (p : A → Bool) (xs : List A) → All P xs → All (λ x. P x × (p x ≡ true)) (filter_by p xs)
  All-filter_by_both p [] h = tt
  All-filter_by_both p (x ∷ xs) h = elim (Bool-cases (p x)) [
    | inl e ↦ rw e ((h.0, e), All-filter_by_both p xs h.1)
    | inr e ↦ rw e (All-filter_by_both p xs h.1)
  ]

pub all_by-All {ℓ} :
    {A : Type ℓ} (p : A → Bool) (xs : List A) → all_by p xs ≡ true → All (λ x. p x ≡ true) xs
all_by-All p [] h = tt
all_by-All p (x ∷ xs) h = elim (Bool-cases (p x)) [
  | inl e ↦ (e, all_by-All p xs (ground arith))
  | inr e ↦ absurd (ground arith)
]

pub All-map {ℓ κ μ} :
    {A : Type ℓ} {B : Type κ} (P : B → Type μ) (f : A → B) (xs : List A)
    → All (λ x. P (f x)) xs
    → All P (map f xs)
All-map P f [] h = tt
All-map P f (x ∷ xs) h = (h.0, All-map P f xs h.1)
