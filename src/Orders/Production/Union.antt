-- ===== src/Orders/Production/Union.antt =====
-- src/modules/orders/production.py, `_union_seconds`: an overlap counts once.
use opticutter_api.Prelude.{
  ℕ, zero, suc, ◌+◌, ◌-◌, ◌≤◌, ◌<◌, ◌≡◌, refl, sym, ap, ◌∙◌, Bool, true, false, ◌&&◌, List, [], ◌∷◌,
  ◌++◌, none, some, sort_by, insert_by, sort_by-perm, insert_by-perm, All, All-mono, All-perm,
  any_by, leb, ltb, if◌then◌else◌, arith, Bool-cases, inl, inr, Permᴰ,
}
use mathlib.Core.List.Permᴰ
use opticutter_api.Shared.Schedule.{window_lt}
use opticutter_api.Shared.Windows.{Interval}
use opticutter_api.Orders.Production.Days.{union_from, union_seconds}

-- The instant lies in one of the intervals.
abbrev pub is_covered : List Interval → ℕ → Bool
is_covered xs t = any_by (λ i. leb (i.0) t && ltb t (i.1)) xs

-- How many of the `n` instants from `a` on pass the test.
abbrev pub count : (ℕ → Bool) → ℕ → ℕ → ℕ
count p a zero = 0
count p a (suc n) = (if p a then 1 else 0) + count p (suc a) n

module _ (p : ℕ → Bool) where
  pub count-add : (a n m : ℕ) → count p a (n + m) ≡ count p a n + count p (a + n) m
  count-add a zero m =
      rw (let e : 0 + m ≡ m = omega arith in e)
        (rw (let d : a + 0 ≡ a = omega arith in d) (omega arith))
  count-add a (suc n) m =
      rw (let e : suc n + m ≡ suc (n + m) = omega arith in e) (
        rw (let d : a + suc n ≡ suc a + n = omega arith in d)
          (omega (arith, count-add (suc a) n m)))

  count_all : (a n : ℕ) → ((t : ℕ) → a ≤ t → t < a + n → p t ≡ true) → count p a n ≡ n
  count_all a zero h = refl
  count_all a (suc n) h =
      rw (h a (omega arith) (omega arith))
        (omega (arith, count_all (suc a) n (λ t l u. h t (omega arith) (omega arith))))

  pub count-le : (a n : ℕ) → count p a n ≤ n
  count-le a zero = omega arith
  count-le a (suc n) = elim (Bool-cases (p a)) [
    | inl e ↦ rw e (omega (arith, count-le (suc a) n))
    | inr e ↦ rw e (omega (arith, count-le (suc a) n))
  ]

pub count_none :
    (p : ℕ → Bool) (a n : ℕ) → ((t : ℕ) → a ≤ t → t < a + n → p t ≡ false) → count p a n ≡ 0
count_none p a zero h = refl
count_none p a (suc n) h =
    rw (h a (omega arith) (omega arith))
      (omega (arith, count_none p (suc a) n (λ t l u. h t (omega arith) (omega arith))))

-- The instants up to `hi`, those before `mid` and the others.
count_split :
    (p : ℕ → Bool) (lo mid hi : ℕ)
    → lo ≤ mid
    → mid ≤ hi
    → count p lo (hi - lo) ≡ count p lo (mid - lo) + count p mid (hi - mid)
count_split p lo mid hi l u =
    let size : hi - lo ≡ (mid - lo) + (hi - mid) = omega arith in
    let from : lo + (mid - lo) ≡ mid = omega arith in
    ap (count p lo) size
    ∙ count-add p lo (mid - lo) (hi - mid)
    ∙ ap (λ a. count p lo (mid - lo) + count p a (hi - mid)) from

pub count_mono :
    (p q : ℕ → Bool) (a n : ℕ) → ((t : ℕ) → p t ≡ true → q t ≡ true) → count p a n ≤ count q a n
count_mono p q a zero h = omega arith
count_mono p q a (suc n) h =
    let ih = count_mono p q (suc a) n h in
    elim (Bool-cases (p a)) [ inl e ↦ rw e (rw (h a e) (omega arith)) | inr e ↦ rw e (omega arith) ]

count_ext :
    (p q : ℕ → Bool) (a n : ℕ)
    → ((t : ℕ) → a ≤ t → t < a + n → p t ≡ q t)
    → count p a n ≡ count q a n
count_ext p q a zero h = refl
count_ext p q a (suc n) h = rw (h a (omega arith) (omega arith)) (
    ap (λ c. (if q a then 1 else 0) + c)
      (count_ext p q (suc a) n (λ t l u. h t (omega arith) (omega arith))))

-- Earlier starts first.
abbrev AreSorted : List Interval → Type 0
AreSorted [] = Unit
AreSorted (x ∷ xs) = All (λ y. x.0 ≤ y.0) xs × AreSorted xs

insert_by-AreSorted :
    (x : Interval) (ys : List Interval) → AreSorted ys → AreSorted (insert_by window_lt x ys)
insert_by-AreSorted x [] h = (tt, tt)
insert_by-AreSorted x (y ∷ ys) h = elim (Bool-cases (window_lt y x)) [
  | inl e ↦ rw e (
    All-perm (λ z. y.0 ≤ z.0) (Permᴰ.symm (insert_by-perm window_lt x ys)) (ground arith, h.0),
    insert_by-AreSorted x ys h.1,
  )
  | inr e ↦
      let first : x.0 ≤ y.0 = ground arith in
      rw e ((first, All-mono (λ z l. omega arith) ys h.0), h)
]

sort_by-AreSorted : (xs : List Interval) → AreSorted (sort_by window_lt xs)
sort_by-AreSorted [] = tt
sort_by-AreSorted (x ∷ xs) = insert_by-AreSorted x _ (sort_by-AreSorted xs)

-- Whether an instant is covered does not depend on the order of the intervals.
is_covered-perm : {xs ys : List Interval} (t : ℕ) → Permᴰ xs ys → is_covered xs t ≡ is_covered ys t
is_covered-perm t Permᴰ.nil = refl
is_covered-perm t (Permᴰ.cons {l₁ = l₁} {l₂ = l₂} e p) =
    let ih = is_covered-perm t p in rw e (rw ih refl)
is_covered-perm t (Permᴰ.swap e f) = ground arith
is_covered-perm t (Permᴰ.trans p q) = is_covered-perm t p ∙ is_covered-perm t q

pub is_covered-append :
    (t : ℕ) (xs ys : List Interval) → is_covered xs t ≡ true → is_covered (xs ++ ys) t ≡ true
is_covered-append t [] ys e = absurd (cc)
is_covered-append t (x ∷ xs) ys e = elim (Bool-cases (leb (x.0) t && ltb t (x.1))) [
  | inl d ↦ rw d refl
  | inr d ↦ rw d (is_covered-append t xs ys (rw d at e))
]

module _ (horizon : ℕ) where
  -- No interval ends before it begins or past the horizon.
  abbrev pub AreBounded : List Interval → Type 0
  AreBounded = All (λ i. (i.0 ≤ i.1) × (i.1 ≤ horizon))

  pub is_covered-late :
      (a t : ℕ) (xs : List Interval) → All (λ y. a ≤ y.0) xs → t < a → is_covered xs t ≡ false
  is_covered-late a t [] h l = refl
  is_covered-late a t (x ∷ xs) h l =
      let e : (leb (x.0) t && ltb t (x.1)) ≡ false = ground arith in
      rw e (is_covered-late a t xs h.1 l)

  -- An interval covers its instants, and none from its end on.
  is_covered-first :
      (a z t : ℕ) (xs : List Interval) → a ≤ t → t < z → is_covered ((a, z) ∷ xs) t ≡ true
  is_covered-first a z t xs l u = ground arith

  is_covered-past :
      (a z t : ℕ) (xs : List Interval) → z ≤ t → is_covered ((a, z) ∷ xs) t ≡ is_covered xs t
  is_covered-past a z t xs l = let e : (leb a t && ltb t z) ≡ false = ground arith in rw e refl

  union_from-count :
      (reach : ℕ) (xs : List Interval)
      → reach ≤ horizon
      → AreSorted xs
      → AreBounded xs
      → union_from (some reach) xs ≡ count (is_covered xs) reach (horizon - reach)
  unfolding union_from
  union_from-count reach [] e s b =
      sym (count_none (λ t. false) reach (horizon - reach) (λ t l u. refl))
  union_from-count reach ((a, z) ∷ xs) e s b =
      let ih = union_from-count z xs (b.0.1) s.1 b.1 in
      let past =
        count_ext (is_covered ((a, z) ∷ xs)) (is_covered xs) z (horizon - z)
          (λ t l u. is_covered-past a z t xs l) in
      elim (Bool-cases (ltb reach a)) [
        | inl d ↦
            let all =
              count_split (is_covered ((a, z) ∷ xs)) reach a horizon (ground arith) (omega arith) in
            let skipped =
              count_none (is_covered ((a, z) ∷ xs)) reach (a - reach)
                (λ t l u. is_covered-late a t ((a, z) ∷ xs) (omega arith, s.0) (ground arith)) in
            let parts =
              count_split (is_covered ((a, z) ∷ xs)) a z horizon (omega arith) (omega arith) in
            let here =
              count_all (is_covered ((a, z) ∷ xs)) a (z - a)
                (λ t l u. is_covered-first a z t xs l (omega arith)) in
            rw d (omega (arith, all, skipped, parts, here, past, ih))
        | inr d ↦ elim (Bool-cases (ltb reach z)) [
          | inl f ↦
              let parts =
                count_split (is_covered ((a, z) ∷ xs)) reach z horizon (ground arith)
                  (omega arith) in
              let here =
                count_all (is_covered ((a, z) ∷ xs)) reach (z - reach)
                  (λ t l u. is_covered-first a z t xs (ground arith) (ground arith)) in
              rw d (rw f (omega (arith, parts, here, past, ih)))
          | inr f ↦ rw d (
              rw f (
                union_from-count reach xs e s.1 b.1
                ∙ sym (
                    count_ext (is_covered ((a, z) ∷ xs)) (is_covered xs) reach (horizon - reach)
                      (λ t l u. is_covered-past a z t xs (ground arith)))))
        ]
      ]

  union_from-none :
      (xs : List Interval) → AreBounded xs → union_from none xs ≡ union_from (some 0) xs
  unfolding union_from
  union_from-none [] b = refl
  union_from-none ((a, z) ∷ xs) b = elim (Bool-cases (ltb 0 a)) [
    | inl d ↦ rw d refl
    | inr d ↦
        let none_before : a ≡ 0 = ground arith in
        rw d (elim (Bool-cases (ltb 0 z)) [
          | inl e ↦ rw e (omega arith)
          | inr e ↦
              let empty : z ≡ 0 = ground arith in
              rw e (ap (λ k. k - a + union_from (some k) xs) empty ∙ omega arith)
        ])
  ]

  -- An overlap counts once: the microseconds that the intervals have together are the instants that lie in one of
  -- them, whatever their order. No interval ends before it begins.
  pub union_seconds-count :
      (xs : List Interval) → AreBounded xs → union_seconds xs ≡ count (is_covered xs) 0 horizon
  unfolding union_seconds
  union_seconds-count xs b =
      let sorted = sort_by-perm window_lt xs in
      let bounded =
        All-perm (λ (i : Interval). (i.0 ≤ i.1) × (i.1 ≤ horizon)) (Permᴰ.symm sorted) b in
      union_from-none (sort_by window_lt xs) bounded
      ∙ union_from-count 0 (sort_by window_lt xs) (omega arith) (sort_by-AreSorted xs) bounded
      ∙ ap (count (is_covered (sort_by window_lt xs)) 0)
          (let e : horizon - 0 ≡ horizon = omega arith in e)
      ∙ count_ext (is_covered (sort_by window_lt xs)) (is_covered xs) 0 horizon
          (λ t l u. is_covered-perm t sorted)

-- Intervals within a span have together no more than the span.
pub union_seconds-le :
    (lo span : ℕ) (xs : List Interval)
    → All (λ i. (lo ≤ i.0) × (i.0 ≤ i.1) × (i.1 ≤ lo + span)) xs
    → union_seconds xs ≤ span
union_seconds-le lo span xs h =
    let total = union_seconds-count (lo + span) xs (All-mono (λ i b. (b.1, b.2)) xs h) in
    let parts = count-add (is_covered xs) 0 lo span in
    let early =
      count_none (is_covered xs) 0 lo
        (λ t l u. is_covered-late (lo + span) lo t xs (All-mono (λ i b. b.0) xs h) (omega arith)) in
    let rest = count-le (is_covered xs) (0 + lo) span in omega (arith, total, parts, early, rest)
