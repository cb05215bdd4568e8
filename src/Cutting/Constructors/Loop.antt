-- ===== src/Cutting/Constructors/Loop.antt =====
-- `strip_fill`: its loop ends, and what every round keeps holds at its end.
use opticutter_api.Prelude.{
  ℕ, ◌≤◌, ◌≡◌, refl, Bool, true, false, Bool-cases, inl, inr, Option, none, some, List, [], ◌∷◌,
  ◌++◌, All, All-append, All-perm, ◌&&◌, ltb, leb, any_by, sort_by-perm, ◌==◌, arith, if◌then◌else◌,
}
use mathlib.Core.List.Permᴰ
use opticutter_api.Cutting.Models.{Piece}
use opticutter_api.Cutting.Constructors.Strip.{
  StripJob, Strip, add_dim, add_dims, strip_candidate_dims, best_strip,
}
use opticutter_api.Cutting.Constructors.Packs.{MayBe, Chosen, best_strip-Chosen}
use opticutter_api.Cutting.Constructors.Rounds.{Progress, sizes_to_try, commit, round, next_room}

add_dim-All :
    (limit d : ℕ) (dims : List ℕ)
    → d ≤ limit
    → All (λ e. e ≤ limit) dims
    → All (λ e. e ≤ limit) (add_dim d dims)
unfolding add_dim
add_dim-All limit d dims l h = elim (Bool-cases (any_by (λ e. e == d) dims)) [
  | inl e ↦ rw e h
  | inr e ↦ rw e (l, h)
]

-- A dimension is added only where it is within the limit.
add_if :
    (limit d : ℕ) (b : Bool) (dims : List ℕ)
    → (b ≡ true → d ≤ limit)
    → All (λ e. e ≤ limit) dims
    → All (λ e. e ≤ limit) (if b then add_dim d dims else dims)
add_if limit d true dims l h = add_dim-All limit d dims (l refl) h
add_if limit d false dims l h = h

add_dims-All :
    (ps : List Piece) (limit : ℕ) (across : Bool) (dims : List ℕ)
    → All (λ e. e ≤ limit) dims
    → All (λ e. e ≤ limit) (add_dims ps limit across dims)
unfolding add_dims
add_dims-All [] limit across dims h = h
add_dims-All (p ∷ ps) limit across dims h =
    let primary = if across then p.height else p.width in
    let secondary = if across then p.width else p.height in
    add_dims-All ps limit across _ (
      add_if limit secondary (p.can_rotate && leb secondary limit) _ (λ e. ground arith)
        (add_if limit primary (leb primary limit) dims (λ e. ground arith) h))

strip_candidate_dims-All :
    (pool : List Piece) (limit : ℕ) (across : Bool)
    → All (λ e. e ≤ limit) (strip_candidate_dims pool limit across)
unfolding strip_candidate_dims
strip_candidate_dims-All pool limit across =
    All-perm _ (Permᴰ.symm (sort_by-perm (λ a b. ltb b a) (add_dims pool limit across [])))
      (add_dims-All pool limit across [] tt)

sizes_to_try-All :
    (j : StripJob) (first : Bool) (dims : List ℕ) (room : ℕ)
    → All (λ e. e ≤ room) dims
    → All (λ e. e ≤ room) (sizes_to_try j first dims room)
unfolding sizes_to_try
sizes_to_try-All j first dims room h = go j.first_dim
  where
    every : All (λ e. e ≤ room) (if any_by (λ d. d == room) dims then dims else dims ++ room ∷ [])
    every = elim (Bool-cases (any_by (λ d. d == room) dims)) [
      | inl e ↦ rw e h
      | inr e ↦ rw e (All-append _ dims (room ∷ []) h (omega arith, tt))
    ]

    go :
        (o : Option ℕ)
        → All
            (λ e. e ≤ room)
            (elim o [
              | none ↦ if any_by (λ d. d == room) dims then dims else dims ++ room ∷ []
              | some d ↦
                  if first && leb d room
                  then d ∷ []
                  else (if any_by (λ d. d == room) dims then dims else dims ++ room ∷ [])
            ])
    go none = every
    go (some d) = elim (Bool-cases (first && leb d room)) [
      | inl e ↦ rw e (ground arith, tt)
      | inr e ↦ rw e every
    ]

-- A round either leaves the loop or puts a strip that was packed and fits into the room.
abbrev pub Goes : StripJob → Progress → ℕ → Progress → Type 0
Goes j pr room pr' =
    (strip : Strip) × Chosen j pr.remaining room strip × (pr' ≡ commit j pr room strip)

pub round-Goes :
    (j : StripJob) (pr : Progress) (room : ℕ)
    → (o : Option Progress) × (round j pr room ≡ some o) × MayBe (Goes j pr room) o
unfolding round
round-Goes j pr room =
    go (strip_candidate_dims pr.remaining room j.horizontal)
      (strip_candidate_dims-All pr.remaining room j.horizontal)
  where
    go :
        (dims : List ℕ)
        → All (λ e. e ≤ room) dims
        → (o : Option Progress) × (elim dims [
          | [] ↦ some none
          | d ∷ ds ↦
              elim (best_strip j pr.remaining pr.repeat_counts
                (sizes_to_try j pr.first (d ∷ ds) room)
                none) [
                  | none ↦ none
                  | some none ↦ some none
                  | some (some strip) ↦ some (some (commit j pr room strip))
                ]
        ]
            ≡ some o)
          × MayBe (Goes j pr room) o
    go [] l = (none, refl, tt)
    go (d ∷ ds) l =
        let (o, e, h) =
          best_strip-Chosen j pr.remaining pr.repeat_counts room
            (sizes_to_try j pr.first (d ∷ ds) room) none
            (sizes_to_try-All j pr.first (d ∷ ds) room l) tt in
        ended o e h
      where
        ended :
            (o : Option Strip)
            → best_strip j pr.remaining pr.repeat_counts
                (sizes_to_try j pr.first (d ∷ ds) room)
                none
              ≡ some o
            → MayBe (Chosen j pr.remaining room) o
            → (r : Option Progress) × (elim (best_strip j pr.remaining pr.repeat_counts
                  (sizes_to_try j pr.first (d ∷ ds) room)
                  none) [
                    | none ↦ none
                    | some none ↦ some none
                    | some (some strip) ↦ some (some (commit j pr room strip))
                  ]
                ≡ some r)
              × MayBe (Goes j pr room) r
        ended none e h = (none, rw e refl, tt)
        ended (some strip) e h = (some (commit j pr room strip), rw e refl, (strip, h, refl))

pub next_room_lem :
    (j : StripJob) (pr : Progress)
    → MayBe (λ room. (pr.room ≡ some room) × (j.min_rect_size ≤ room)) (next_room j pr)
unfolding next_room
next_room_lem j pr = go pr.remaining pr.room refl
  where
    go :
        (ps : List Piece) (o : Option ℕ)
        → pr.room ≡ o
        → MayBe
            (λ room. (pr.room ≡ some room) × (j.min_rect_size ≤ room))
            (elim ps [
              | [] ↦ none
              | _ ∷ _ ↦ elim o [
                | none ↦ none
                | some room ↦ if leb j.min_rect_size room then some room else none
              ]
            ])
    go [] o e = tt
    go (p ∷ ps) none e = tt
    go (p ∷ ps) (some room) e = elim (Bool-cases (leb j.min_rect_size room)) [
      | inl l ↦ rw l (e, ground arith)
      | inr l ↦ rw l tt
    ]
