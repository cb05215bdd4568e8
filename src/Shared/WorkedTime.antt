-- ===== src/Shared/WorkedTime.antt =====
-- src/shared/work_schedule.py, `overlap` and `worked`: the working time between two instants,
-- against the clock.
use opticutter_api.Prelude.{
  ℕ, ◌+◌, ◌-◌, ◌≤◌, ◌<◌, ◌≡◌, ◌↔◌, ◌⊎◌, inl, inr, false, ◌&&◌, List, [], ◌∷◌, any_by, leb, ltb,
  arith, Bool-cases,
}
use opticutter_api.Shared.Schedule.{WorkSchedule}
use opticutter_api.Shared.ScheduleLaws.{AreWorkdays}
use opticutter_api.Shared.Windows.{
  Zone, IsFixed, Interval, OpenDays, windows, clip, overlap, overtime_limit, stay_late, worked,
  seconds,
}
use opticutter_api.Shared.Intervals.{
  AreWithin, Any, Lies, AreWithin-lower, seconds-le, clip-AreWithin, clip_iff,
}
use opticutter_api.Shared.WindowLaws.{
  IsWorking, local_date_mono, windows_from-AreWithin, windows_from-IsWorking,
  IsWorking-windows_from,
}

module _ (end : ℕ) where
  stay_late-AreWithin :
      (lo : ℕ) (xs : List Interval) → AreWithin lo end xs → AreWithin lo end (stay_late end xs)
  unfolding stay_late
  stay_late-AreWithin lo [] h = h
  stay_late-AreWithin lo ((a, b) ∷ []) h = elim (Bool-cases (leb (end - b) overtime_limit)) [
    | inl e ↦ rw e (h.0, omega arith, omega arith)
    | inr e ↦ rw e h
  ]
  stay_late-AreWithin lo ((a, b) ∷ j ∷ xs) h = (h.0, h.1, stay_late-AreWithin b (j ∷ xs) h.2)

  seconds-stay_late :
      (lo : ℕ) (xs : List Interval) → AreWithin lo end xs → seconds xs ≤ seconds (stay_late end xs)
  unfolding stay_late
  seconds-stay_late lo [] h = omega arith
  seconds-stay_late lo ((a, b) ∷ []) h = elim (Bool-cases (leb (end - b) overtime_limit)) [
    | inl e ↦ rw e (omega arith)
    | inr e ↦ rw e (omega arith)
  ]
  seconds-stay_late lo ((a, b) ∷ j ∷ xs) h = omega (arith, seconds-stay_late b (j ∷ xs) h.2)

  module _ (t : ℕ) where
    stay_late_keeps :
        (lo : ℕ) (xs : List Interval)
        → AreWithin lo end xs
        → Any (Lies t) xs
        → Any (Lies t) (stay_late end xs)
    unfolding stay_late
    stay_late_keeps lo [] h k = k
    stay_late_keeps lo ((a, b) ∷ []) h k = elim (Bool-cases (leb (end - b) overtime_limit)) [
      | inl e ↦ rw e (elim k [ inl l ↦ inl (omega arith) | inr l ↦ inr l ])
      | inr e ↦ rw e k
    ]
    stay_late_keeps lo ((a, b) ∷ j ∷ xs) h (inl k) = inl k
    stay_late_keeps lo ((a, b) ∷ j ∷ xs) h (inr k) = inr (stay_late_keeps b (j ∷ xs) h.2 k)

    stay_late_adds :
        (xs : List Interval)
        → Any (Lies t) (stay_late end xs)
        → Any (Lies t) xs ⊎ (end ≤ t + overtime_limit)
    unfolding stay_late
    stay_late_adds [] k = inl k
    stay_late_adds ((a, b) ∷ []) k = elim (Bool-cases (leb (end - b) overtime_limit)) [
      | inl e ↦ last (ground arith) (rw e at k)
      | inr e ↦ inl (rw e at k)
    ]
      where
        last :
            end - b ≤ overtime_limit
            → Any (Lies t) ((a, end) ∷ [])
            → Any (Lies t) ((a, b) ∷ []) ⊎ (end ≤ t + overtime_limit)
        last u (inl l) = elim (Bool-cases (ltb t b)) [
          | inl d ↦ inl (inl (ground arith))
          | inr d ↦ inr (ground arith)
        ]
        last u (inr l) = absurd l
    stay_late_adds ((a, b) ∷ j ∷ xs) (inl k) = inl (inl k)
    stay_late_adds ((a, b) ∷ j ∷ xs) (inr k) = elim (stay_late_adds (j ∷ xs) k) [
      | inl l ↦ inl (inr l)
      | inr l ↦ inr l
    ]

module _ (z : Zone) (fixed : IsFixed z) (s : WorkSchedule) (valid : AreWorkdays s.days)
    (open_days : OpenDays) where
  windows-IsWorking :
      (start end t : ℕ)
      → z.of_wall 0 ≤ start
      → start ≤ t
      → t < end
      → Any (Lies t) (windows z s start end open_days) ↔ IsWorking z s open_days t
  unfolding windows
  windows-IsWorking start end t o l u =
      let first = local_date_mono z fixed s valid open_days start t o l in
      let last = local_date_mono z fixed s valid open_days t end (omega arith) (omega arith) in
      (
        windows_from-IsWorking z fixed s valid open_days t _ _,
        IsWorking-windows_from z fixed s valid open_days t _ _ (omega arith) (omega arith),
      )

  -- An instant between the two ends is in the overlap exactly when it falls in a working window of its own local day and
  -- that day, where the open days are given, is one of them. The schedule is one of seven days in order, and the
  -- zone's offset never changes.
  pub overlap_iff :
      (start end t : ℕ)
      → z.of_wall 0 ≤ start
      → start ≤ t
      → t < end
      → Any (Lies t) (overlap z s start end open_days) ↔ IsWorking z s open_days t
  unfolding overlap
  overlap_iff start end t o l u =
      let clipped = clip_iff start end t (windows z s start end open_days) l u in
      let opened = windows-IsWorking start end t o l u in
      rw (not-leb end start (omega arith))
        (λ h. opened.0 (clipped.0 h), λ h. clipped.1 (opened.1 h))
    where
      not-leb : (a b : ℕ) → b < a → leb a b ≡ false
      not-leb a b h = ground arith

  clip-windows :
      (start end : ℕ)
      → start < end
      → AreWithin start end (clip start end (windows z s start end open_days))
  unfolding windows
  clip-windows start end l =
      AreWithin-lower _ start end _ (ground arith)
        (clip-AreWithin start end _ _ _ l (windows_from-AreWithin z fixed s valid open_days _ _))

  -- What counts as work of a stretch: intervals in order within it, which hold at least its overlap with the working
  -- hours, and so count no less than that and no more than the whole stretch.
  pub worked-AreWithin :
      (start end : ℕ)
      → start ≤ end
      → AreWithin start end (worked z s start end open_days)
        × (seconds (overlap z s start end open_days) ≤ seconds (worked z s start end open_days))
        × (seconds (worked z s start end open_days) ≤ end - start)
  unfolding worked overlap
  worked-AreWithin start end l = elim (Bool-cases (leb end start)) [
    | inl e ↦ rw e (l, omega arith, omega arith)
    | inr e ↦
        let within = clip-windows start end (ground arith) in
        let clipped = clip start end (windows z s start end open_days) in
        rw e (elim (Bool-cases (leb (end - start) overtime_limit)) [
          | inl d ↦ rw d (
            (omega arith, l, omega arith),
            omega (arith, seconds-le start end clipped within),
            omega arith,
          )
          | inr d ↦
              rw d
                (elim (Bool-cases (
                  any_by (λ w. leb (w.0) end && ltb end (w.1)) (windows z s start end open_days))) [
                    | inl c ↦ rw c (within, omega arith, seconds-le start end clipped within)
                    | inr c ↦
                        let late = stay_late-AreWithin end start clipped within in
                        rw c (
                          late,
                          seconds-stay_late end start clipped within,
                          seconds-le start end _ late,
                        )
                  ])
        ])
  ]

  -- An instant between the two ends that is working time counts as work; one that counts without being
  -- working time lies in the last hour before the event at the end. The schedule is one of seven days in
  -- order, and the zone's offset never changes.
  pub worked_iff :
      (start end t : ℕ)
      → z.of_wall 0 ≤ start
      → start ≤ t
      → t < end
      → (IsWorking z s open_days t → Any (Lies t) (worked z s start end open_days))
        × (Any (Lies t) (worked z s start end open_days)
            → IsWorking z s open_days t ⊎ (end ≤ t + overtime_limit))
  unfolding worked
  worked_iff start end t o l u =
      let working = windows-IsWorking start end t o l u in
      let clipped = clip_iff start end t (windows z s start end open_days) l u in
      let within = clip-windows start end (omega arith) in
      let pieces = clip start end (windows z s start end open_days) in
      elim (Bool-cases (leb end start)) [
        | inl e ↦ absurd (ground arith)
        | inr e ↦ rw e (elim (Bool-cases (leb (end - start) overtime_limit)) [
          | inl d ↦ rw d (λ h. inl (omega arith), λ h. inr (ground arith))
          | inr d ↦
              rw d
                (elim (Bool-cases (
                  any_by (λ w. leb (w.0) end && ltb end (w.1)) (windows z s start end open_days))) [
                    | inl c ↦
                        rw c (λ h. clipped.1 (working.1 h), λ h. inl (working.0 (clipped.0 h)))
                    | inr c ↦ rw c (
                      λ h. stay_late_keeps end t start pieces within (clipped.1 (working.1 h)),
                      λ h. elim (stay_late_adds end t pieces h) [
                        | inl k ↦ inl (working.0 (clipped.0 k))
                        | inr k ↦ inr k
                      ],
                    )
                  ])
        ])
      ]
