-- ===== src/Shared/Intervals.antt =====
-- src/shared/work_schedule.py: intervals of time in order, and the part of them between two instants.
use opticutter_api.Prelude.{
  ℕ, ◌-◌, ◌≤◌, ◌<◌, ◌↔◌, ◌⊎◌, inl, inr, max, min, ◌&&◌, List, [], ◌∷◌, ◌++◌, map, ltb, arith,
  Bool-cases,
}
use opticutter_api.Shared.Windows.{Interval, clip, seconds}

-- Intervals one after the other, between two instants.
abbrev pub AreWithin : ℕ → ℕ → List Interval → Type 0
AreWithin lo hi [] = lo ≤ hi
AreWithin lo hi ((a, b) ∷ rest) = (lo ≤ a) × (a ≤ b) × AreWithin b hi rest

abbrev pub Any {ℓ} : {A : Type ℓ} → (A → Type 0) → List A → Type 0
Any P [] = ⊥
Any P (x ∷ xs) = P x ⊎ Any P xs

abbrev pub Lies : ℕ → Interval → Type 0
Lies t i = (i.0 ≤ t) × (t < i.1)

pub AreWithin-le : (lo hi : ℕ) (xs : List Interval) → AreWithin lo hi xs → lo ≤ hi
AreWithin-le lo hi [] h = h
AreWithin-le lo hi ((a, b) ∷ xs) h = omega (arith, AreWithin-le b hi xs h.2)

pub AreWithin-lower :
    (lo lo' hi : ℕ) (xs : List Interval) → lo' ≤ lo → AreWithin lo hi xs → AreWithin lo' hi xs
AreWithin-lower lo lo' hi [] l h = omega arith
AreWithin-lower lo lo' hi ((a, b) ∷ xs) l h = (omega arith, h.1, h.2)

pub AreWithin-append :
    (lo mid hi : ℕ) (xs ys : List Interval)
    → AreWithin lo mid xs
    → AreWithin mid hi ys
    → AreWithin lo hi (xs ++ ys)
AreWithin-append lo mid hi [] ys h k = AreWithin-lower mid lo hi ys h k
AreWithin-append lo mid hi ((a, b) ∷ xs) ys h k = (h.0, h.1, AreWithin-append b mid hi xs ys h.2 k)

-- Intervals in order between two instants are no longer than what lies between.
pub seconds-le : (lo hi : ℕ) (xs : List Interval) → AreWithin lo hi xs → seconds xs ≤ hi - lo
seconds-le lo hi [] h = omega arith
seconds-le lo hi ((a, b) ∷ xs) h = omega (arith, seconds-le b hi xs h.2, AreWithin-le b hi xs h.2)

pub clip-AreWithin :
    (start end lo hi : ℕ) (ws : List Interval)
    → start < end
    → AreWithin lo hi ws
    → AreWithin (min end (max start lo)) end (clip start end ws)
unfolding clip
clip-AreWithin start end lo hi [] l h = ground arith
clip-AreWithin start end lo hi ((a, b) ∷ ws) l h =
    let ih = clip-AreWithin start end b hi ws l h.2 in
    elim (Bool-cases (ltb start b && ltb a end)) [
      | inl e ↦ rw e (ground arith, ground arith, AreWithin-lower _ _ end _ (ground arith) ih)
      | inr e ↦ rw e (AreWithin-lower _ _ end _ (ground arith) ih)
    ]

pub clip_iff :
    (start end t : ℕ) (ws : List Interval)
    → start ≤ t
    → t < end
    → Any (Lies t) (clip start end ws) ↔ Any (Lies t) ws
unfolding clip
clip_iff start end t [] l u = (λ h. h, λ h. h)
clip_iff start end t ((a, b) ∷ ws) l u =
    let ih = clip_iff start end t ws l u in
    elim (Bool-cases (ltb start b && ltb a end)) [
      | inl e ↦ rw e (
        λ h. elim h [ inl k ↦ inl (ground arith) | inr k ↦ inr (ih.0 k) ],
        λ h. elim h [ inl k ↦ inl (ground arith) | inr k ↦ inr (ih.1 k) ],
      )
      | inr e ↦
          rw e (λ h. inr (ih.0 h), λ h. elim h [ inl k ↦ absurd (ground arith) | inr k ↦ ih.1 k ])
    ]

pub Any-append_split :
    {A : Type 0} (P : A → Type 0) (xs ys : List A) → Any P (xs ++ ys) → Any P xs ⊎ Any P ys
Any-append_split P [] ys h = inr h
Any-append_split P (x ∷ xs) ys (inl h) = inl (inl h)
Any-append_split P (x ∷ xs) ys (inr h) = elim (Any-append_split P xs ys h) [
  | inl k ↦ inl (inr k)
  | inr k ↦ inr k
]

pub Any-append_left : {A : Type 0} (P : A → Type 0) (xs ys : List A) → Any P xs → Any P (xs ++ ys)
Any-append_left P [] ys h = absurd h
Any-append_left P (x ∷ xs) ys (inl h) = inl h
Any-append_left P (x ∷ xs) ys (inr h) = inr (Any-append_left P xs ys h)

pub Any-append_right : {A : Type 0} (P : A → Type 0) (xs ys : List A) → Any P ys → Any P (xs ++ ys)
Any-append_right P [] ys h = h
Any-append_right P (x ∷ xs) ys h = inr (Any-append_right P xs ys h)

pub Any-map :
    {A B : Type 0} (P : B → Type 0) (f : A → B) (xs : List A)
    → Any P (map f xs) ↔ Any (λ x. P (f x)) xs
Any-map P f [] = (λ h. h, λ h. h)
Any-map P f (x ∷ xs) =
    let ih = Any-map P f xs in
    (
      λ h. elim h [ inl k ↦ inl k | inr k ↦ inr (ih.0 k) ],
      λ h. elim h [ inl k ↦ inl k | inr k ↦ inr (ih.1 k) ],
    )

pub Any-Lies :
    (t lo hi : ℕ) (xs : List Interval) → AreWithin lo hi xs → Any (Lies t) xs → (lo ≤ t) × (t < hi)
Any-Lies t lo hi [] h k = absurd k
Any-Lies t lo hi ((a, b) ∷ xs) h (inl k) = omega (arith, AreWithin-le b hi xs h.2)
Any-Lies t lo hi ((a, b) ∷ xs) h (inr k) = let u = Any-Lies t b hi xs h.2 k in omega arith
