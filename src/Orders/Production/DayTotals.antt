-- ===== src/Orders/Production/DayTotals.antt =====
-- src/modules/orders/production.py, `work_by_day`: the work of a day is no more than the day.
use opticutter_api.Prelude.{
  ℕ, ◌+◌, ◌≢◌, Pairwise, ◌≤◌, ◌≡◌, refl, sym, ap, subst, List, [], ◌∷◌, ◌++◌, Option, none, some,
  map, All, All-mono, All-append, ltb, ◌==◌, arith, Bool-cases, inl, inr,
}
use opticutter_api.Shared.Windows.{day_span, Zone, IsFixed, Interval, local_date, local_midnight}
use opticutter_api.Orders.Production.Days.{
  Phase, loading, sawing, WorkSegment, DayWork, work_seconds, union_seconds, clip_span, raised_to,
  lowered_to, DayPieces, add_to, add_piece, add_pieces, add_split, add_span, collect, day_work,
  each_day, work_by_day,
}
use opticutter_api.Orders.Production.Union.{
  is_covered, count_mono, is_covered-append, union_seconds-le, union_seconds-count,
}
use opticutter_api.Orders.Production.DayLaws.{
  midnight_lem, local_date_bounds, AreDays, split_by_day-AreDays,
}

-- Intervals within one business day.
module _ (z : Zone) where
  abbrev pub AreOfDay : ℕ → List Interval → Type 0
  AreOfDay d =
      All (λ i. (local_midnight z d ≤ i.0) × (i.0 ≤ i.1) × (i.1 ≤ local_midnight z d + day_span))

  abbrev pub IsOneDay : DayPieces → Type 0
  IsOneDay d = AreOfDay d.day d.loading_pieces × AreOfDay d.day d.sawing_pieces

-- Each day once.
abbrev pub AreApartDays : {A : Type 0} → (A → ℕ) → List A → Type 0
AreApartDays day = Pairwise (λ a b. day a ≢ day b)

add_to-day : (phase : Phase) (piece : Interval) (d : DayPieces) → (add_to phase piece d).day ≡ d.day
add_to-day loading piece d = refl
add_to-day sawing piece d = refl

module _ (day : ℕ) (phase : Phase) (piece : Interval) where
  All-add_piece :
      (P : ℕ → Type 0) (ds : List DayPieces)
      → P day
      → All (λ e. P e.day) ds
      → All (λ e. P e.day) (add_piece day phase piece ds)
  unfolding add_piece
  All-add_piece P [] h k = (subst P (sym (add_to-day phase piece _)) h, tt)
  All-add_piece P (d ∷ ds) h k = elim (Bool-cases (d.day == day)) [
    | inl e ↦ rw e (subst P (sym (add_to-day phase piece d)) k.0, k.1)
    | inr e ↦ rw e (k.0, All-add_piece P ds h k.1)
  ]

  add_piece-AreApartDays :
      (ds : List DayPieces)
      → AreApartDays (λ e. e.day) ds
      → AreApartDays (λ e. e.day) (add_piece day phase piece ds)
  unfolding add_piece
  add_piece-AreApartDays [] h = (tt, tt)
  add_piece-AreApartDays (d ∷ ds) h = elim (Bool-cases (d.day == day)) [
    | inl e ↦
        rw e (subst (λ n. All (λ e'. n ≢ e'.day) ds) (sym (add_to-day phase piece d)) h.0, h.1)
    | inr e ↦
        rw e (All-add_piece (λ n. d.day ≢ n) ds (ground arith) h.0, add_piece-AreApartDays ds h.1)
  ]

  module _ (z : Zone)
      (inside : (local_midnight z day ≤ piece.0)
        × (piece.0 ≤ piece.1)
        × (piece.1 ≤ local_midnight z day + day_span)) where
    add_to-IsOneDay :
        (p : Phase) (d : DayPieces) → d.day ≡ day → IsOneDay z d → IsOneDay z (add_to p piece d)
    add_to-IsOneDay loading d e h = (
      All-append _ d.loading_pieces (piece ∷ []) h.0
          (subst (λ n. AreOfDay z n (piece ∷ [])) (sym e) (inside, tt)),
      h.1,
    )
    add_to-IsOneDay sawing d e h = (
      h.0,
      All-append _ d.sawing_pieces (piece ∷ []) h.1
          (subst (λ n. AreOfDay z n (piece ∷ [])) (sym e) (inside, tt)),
    )

    add_piece-IsOneDay :
        (ds : List DayPieces)
        → All (IsOneDay z) ds
        → All (IsOneDay z) (add_piece day phase piece ds)
    unfolding add_piece
    add_piece-IsOneDay [] h = (add_to-IsOneDay phase _ refl (tt, tt), tt)
    add_piece-IsOneDay (d ∷ ds) h = elim (Bool-cases (d.day == day)) [
      | inl e ↦ rw e (add_to-IsOneDay phase d (ground arith) h.0, h.1)
      | inr e ↦ rw e (h.0, add_piece-IsOneDay ds h.1)
    ]

module _ (z : Zone) (fixed : IsFixed z) where
  abbrev AreFiled : List DayPieces → Type 0
  AreFiled days = All (IsOneDay z) days × AreApartDays (λ e. e.day) days

  abbrev Files : Option (List DayPieces) → Type 0
  Files o = (days : List DayPieces) × (o ≡ some days) × AreFiled days

  add_pieces-AreFiled :
      (phase : Phase) (start end : ℕ) (pieces : List Interval) (days : List DayPieces)
      → z.of_wall 0 ≤ start
      → AreDays z start end pieces
      → AreFiled days
      → AreFiled (add_pieces z phase pieces days)
  unfolding add_pieces
  add_pieces-AreFiled phase start end [] days o t h = h
  add_pieces-AreFiled phase start end ((a, b) ∷ pieces) days o t h =
      let today = local_date_bounds z fixed a (omega arith) in
      let inside : b ≤ local_midnight z (local_date z a) + day_span =
        omega (
          arith,
          midnight_lem z fixed (local_date z a),
          midnight_lem z fixed (local_date z a + 1),
        ) in
      add_pieces-AreFiled phase b end pieces _ (omega arith) t.3 (
        add_piece-IsOneDay (local_date z a) phase (a, b) z (today.0, omega arith, inside) days h.0,
        add_piece-AreApartDays (local_date z a) phase (a, b) days h.1,
      )

  -- The bounds cut nothing off before the span.
  add_span-Files :
      (phase : Phase) (start end : ℕ) (lower upper : Option ℕ) (days : List DayPieces)
      → z.of_wall 0 ≤ start
      → AreFiled days
      → Files (add_span z phase (clip_span start end lower upper) days)
  unfolding add_span clip_span add_split
  add_span-Files phase start end lower upper days o h =
      elim (Bool-cases (ltb (raised_to lower start) (lowered_to upper end))) [
        | inl e ↦
            let from : start ≤ raised_to lower start = raised_later lower in
            let (pieces, d, t) =
              split_by_day-AreDays z fixed (raised_to lower start) (lowered_to upper end)
                (omega arith) (ground arith) in
            rw e (
              rw d (
                _,
                refl,
                add_pieces-AreFiled phase (raised_to lower start) (lowered_to upper end) pieces days
                    (omega arith) t h,
              ))
        | inr e ↦ rw e (days, refl, h)
      ]
    where
      raised_later : (l : Option ℕ) → start ≤ raised_to l start
      raised_later none = omega arith
      raised_later (some l) = omega arith

  collect-Files :
      (start end : Option ℕ) (segments : List WorkSegment) (o : Option (List DayPieces))
      → All (λ s. z.of_wall 0 ≤ s.start) segments
      → Files o
      → Files (collect z start end segments o)
  unfolding collect
  collect-Files start end [] o h k = k
  collect-Files start end (s ∷ segments) none h k = absurd (none-some k.1)
    where
      none-some : {A : Type 0} {a : A} → ◌≡◌ {A = Option A} none (some a) → ⊥
      none-some e = cc
  collect-Files start end (s ∷ segments) (some days) h k = collect-Files start end segments _ h.1 (
      add_span-Files s.phase s.start s.end start end days h.0
        (subst AreFiled (let e : k.0 ≡ days = ground arith in e) k.2))

  -- All that the intervals of a day have together is no more than the day.
  union_seconds-day : (d : ℕ) (xs : List Interval) → AreOfDay z d xs → union_seconds xs ≤ day_span
  union_seconds-day d xs h = union_seconds-le (local_midnight z d) day_span xs h

  -- More intervals have no less together.
  union_seconds-append :
      (d : ℕ) (xs ys : List Interval)
      → AreOfDay z d xs
      → AreOfDay z d ys
      → union_seconds xs ≤ union_seconds (xs ++ ys)
  union_seconds-append d xs ys h k =
      let horizon = local_midnight z d + day_span in
      let both = All-append _ xs ys h k in
      omega (
        arith,
        union_seconds-count horizon xs (All-mono (λ i b. (b.1, b.2)) xs h),
        union_seconds-count horizon (xs ++ ys) (All-mono (λ i b. (b.1, b.2)) (xs ++ ys) both),
        count_mono (is_covered xs) (is_covered (xs ++ ys)) 0 horizon
            (λ t e. is_covered-append t xs ys e),
      )

  day_work-le :
      (d : DayPieces)
      → IsOneDay z d
      → ((day_work d).sawing_seconds ≡ union_seconds d.sawing_pieces)
        × (work_seconds (day_work d) ≡ union_seconds (d.sawing_pieces ++ d.loading_pieces))
        × (work_seconds (day_work d) ≤ day_span)
  unfolding day_work
  day_work-le d h =
      let less = union_seconds-append d.day d.sawing_pieces d.loading_pieces h.1 h.0 in
      let all =
        union_seconds-day d.day (d.sawing_pieces ++ d.loading_pieces)
          (All-append _ d.sawing_pieces d.loading_pieces h.1 h.0) in
      (refl, omega arith, omega arith)

  -- Whatever the segments and the bounds of the report are, `work_by_day` gives its days, each of them once, and no
  -- day holds more work, its loading and its sawing together, than the microseconds that it has. No segment
  -- begins before the calendar, and the zone's offset never changes.
  pub work_by_day-le :
      (segments : List WorkSegment) (start end : Option ℕ)
      → All (λ s. z.of_wall 0 ≤ s.start) segments
      → (days : List DayWork) × (work_by_day z segments start end ≡ some days)
        × AreApartDays (λ d. d.day) days
        × All (λ d. work_seconds d ≤ day_span) days
  unfolding work_by_day
  work_by_day-le segments start end h =
      let (days, e, filed) = collect-Files start end segments (some []) h ([], refl, (tt, tt)) in
      (map day_work days, ap (each_day day_work) e, apart days filed.1, short days filed.0)
    where
      apart_row :
          (n : ℕ) (days : List DayPieces)
          → All (λ d. n ≢ d.day) days
          → All (λ d. n ≢ d.day) (map day_work days)
      apart_row n [] k = tt
      apart_row n (d ∷ days) k = (unfold day_work in k.0, apart_row n days k.1)

      apart :
          (days : List DayPieces)
          → AreApartDays (λ d. d.day) days
          → AreApartDays (λ d. d.day) (map day_work days)
      apart [] k = tt
      apart (d ∷ days) k = (unfold day_work in apart_row d.day days k.0, apart days k.1)

      short :
          (days : List DayPieces)
          → All (IsOneDay z) days
          → All (λ d. work_seconds d ≤ day_span) (map day_work days)
      short [] k = tt
      short (d ∷ days) k = ((day_work-le d k.0).2, short days k.1)
