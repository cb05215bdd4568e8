-- ===== src/Cutting/Constructors/Filled.antt =====
-- `strip_fill` always returns, and its fill keeps its distances.
use opticutter_api.Prelude.{
  ℕ, zero, suc, ◌≤◌, ◌<◌, ◌≡◌, refl, Bool-cases, inl, inr, Option, none, some, leb, arith,
}
use opticutter_api.Cutting.Constructors.Strip.{StripJob, Strip}
use opticutter_api.Cutting.Constructors.Packs.{MayBe, Chosen}
use opticutter_api.Cutting.Constructors.Rounds.{
  Progress, minus, advance, commit, round, next_room, fill_strips,
}
use opticutter_api.Cutting.Constructors.Loop.{Goes, round-Goes, next_room_lem}

-- The fuel that the room left needs.
unfoldable pub room_left : Progress → ℕ
room_left pr = elim pr.room [ none ↦ 0 | some room ↦ suc room ]

room_left-some : (pr : Progress) (room : ℕ) → pr.room ≡ some room → room_left pr ≡ suc room
unfolding room_left
room_left-some pr room e = rw e refl

minus-lt : (room step : ℕ) → 0 < step → MayBe (λ left. left < room) (minus room step)
unfolding minus
minus-lt room step l = elim (Bool-cases (leb step room)) [
  | inl e ↦ rw e (ground arith)
  | inr e ↦ rw e tt
]

module _ (j : StripJob) (P : Progress → Type 0)
    (keep : (pr : Progress) (room : ℕ) (strip : Strip)
      → pr.room ≡ some room
      → j.min_rect_size ≤ room
      → Chosen j pr.remaining room strip
      → P pr
      → P (commit j pr room strip)) where
  shorter :
      (pr : Progress) (room : ℕ) (strip : Strip)
      → Chosen j pr.remaining room strip
      → room_left (commit j pr room strip) < suc room
  unfolding room_left commit
  shorter pr room strip chosen =
      go (minus room (advance j room strip.size))
        (minus-lt room (advance j room strip.size) (ground (arith, chosen.0.positive)))
    where
      go :
          (o : Option ℕ)
          → MayBe (λ left. left < room) o
          → (elim o [ none ↦ 0 | some left ↦ suc left ]) < suc room
      go none h = omega arith
      go (some left) h = omega arith

  -- The loop ends within its fuel, and what every round keeps holds at its end.
  pub fill_strips-keeps :
      (fuel : ℕ) (pr : Progress)
      → room_left pr < fuel
      → P pr
      → (pr' : Progress) × (fill_strips j fuel pr ≡ some pr') × P pr'
  unfolding fill_strips
  fill_strips-keeps zero pr l h = absurd (omega arith)
  fill_strips-keeps (suc fuel) pr l h =
      go (next_room j pr) (next_room_lem j pr) (fill_strips-keeps fuel)
    where
      go :
          (o : Option ℕ)
          → MayBe (λ room. (pr.room ≡ some room) × (j.min_rect_size ≤ room)) o
          → ((pr₁ : Progress)
              → room_left pr₁ < fuel
              → P pr₁
              → (pr' : Progress) × (fill_strips j fuel pr₁ ≡ some pr') × P pr')
          → (pr' : Progress) × (elim o [
            | none ↦ some pr
            | some room ↦ elim (round j pr room) [
              | none ↦ none
              | some none ↦ some pr
              | some (some pr₁) ↦ fill_strips j fuel pr₁
            ]
          ]
              ≡ some pr')
            × P pr'
      go none t rec = (pr, refl, h)
      go (some room) (e, m) rec = let (o, done, goes) = round-Goes j pr room in rounded o done goes
        where
          rounded :
              (o : Option Progress)
              → round j pr room ≡ some o
              → MayBe (Goes j pr room) o
              → (pr' : Progress) × (elim (round j pr room) [
                | none ↦ none
                | some none ↦ some pr
                | some (some pr₁) ↦ fill_strips j fuel pr₁
              ]
                  ≡ some pr')
                × P pr'
          rounded none done goes = (pr, rw done refl, h)
          rounded (some pr₁) done (strip, chosen, made) =
              let less = shorter pr room strip chosen in
              let (pr', e', h') =
                rec pr₁ (rw made (omega (arith, l, less, room_left-some pr room e)))
                  (rw made (keep pr room strip e m chosen h)) in
              (pr', rw done e', h')
