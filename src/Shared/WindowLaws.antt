-- ===== src/Shared/WindowLaws.antt =====
-- src/shared/work_schedule.py, `windows`: the days that it runs over and what falls in them.
use opticutter_api.Prelude.{
  ℕ, zero, suc, ◌+◌, ◌*◌, ◌≤◌, ◌<◌, ◌≡◌, inl, inr, refl, sym, subst, ◌∙◌, true, List, [], ◌∷◌,
  Option, none, some, map, get_elem?, All, ltb, arith, Bool-cases,
}
use opticutter_api.Shared.Schedule.{Window, WorkSchedule}
use opticutter_api.Shared.ScheduleLaws.{AreSpaced, IsWorkday, AreWorkdays}
use opticutter_api.Shared.Windows.{
  minute, day_span, Zone, IsFixed, local_date, local_midnight, weekday, OpenDays, is_open_day,
  windows_on, window_at, day_windows, windows_from,
}
use opticutter_api.Shared.Intervals.{
  AreWithin, Any, Lies, AreWithin-lower, AreWithin-append, Any-append_split, Any-append_left,
  Any-append_right, Any-map, Any-Lies,
}

map-AreWithin :
    (midnight previous : ℕ) (ws : List Window)
    → previous ≤ 1440
    → AreSpaced previous ws
    → All (λ w. w.1 ≤ 1440) ws
    → AreWithin (midnight + previous * minute) (midnight + day_span) (map (window_at midnight) ws)
map-AreWithin midnight previous [] l s h = omega arith
map-AreWithin midnight previous ((a, b) ∷ ws) l s h =
    (omega arith, omega arith, map-AreWithin midnight b ws h.0 s.2 h.1)

get_elem?-All :
    (P : List Window → Type 0) (days : List (List Window)) (i : ℕ) (ws : List Window)
    → All P days
    → get_elem? days i ≡ some ws
    → P ws
get_elem?-All P [] i ws h e = absurd (cc)
get_elem?-All P (d ∷ days) zero ws h e = subst P (let f : d ≡ ws = ground arith in f) h.0
get_elem?-All P (d ∷ days) (suc i) ws h e = get_elem?-All P days i ws h.1 e

-- The instant falls in a window of its own day, and the shop worked that day.
abbrev pub IsWorking : Zone → WorkSchedule → OpenDays → ℕ → Type 0
IsWorking z s open_days t =
    (is_open_day open_days (local_date z t) ≡ true)
    × Any (λ w. Lies t (window_at (local_midnight z (local_date z t)) w))
        (windows_on s (local_date z t))

module _ (z : Zone) (fixed : IsFixed z) (s : WorkSchedule) (valid : AreWorkdays s.days)
    (open_days : OpenDays) where
  windows_on-IsWorkday : (day : ℕ) → IsWorkday (windows_on s day)
  windows_on-IsWorkday day = found (get_elem? s.days (weekday day)) refl
    where
      found :
          (o : Option (List Window))
          → get_elem? s.days (weekday day) ≡ o
          → IsWorkday (elim o [ none ↦ [] | some ws ↦ ws ])
      found none e = (tt, tt, omega arith)
      found (some ws) e = get_elem?-All IsWorkday s.days _ ws valid.1 e

  midnight_lem : (day : ℕ) → local_midnight z day ≡ z.of_wall 0 + day * day_span
  unfolding local_midnight
  midnight_lem day = fixed.of_wall_lem (day * day_span)

  instant_lem : (t : ℕ) → z.of_wall 0 ≤ t → z.of_wall 0 + z.to_wall t ≡ t
  instant_lem t l = sym (fixed.of_wall_lem (z.to_wall t)) ∙ fixed.of_wall-to_wall t l

  local_date_unique :
      (t day : ℕ)
      → local_midnight z day ≤ t
      → t < local_midnight z day + day_span
      → local_date z t ≡ day
  unfolding local_date
  local_date_unique t day l u =
      omega (arith, midnight_lem day, instant_lem t (omega (arith, midnight_lem day)))

  pub local_date_mono : (t u : ℕ) → z.of_wall 0 ≤ t → t ≤ u → local_date z t ≤ local_date z u
  unfolding local_date
  local_date_mono t u l m = omega (arith, instant_lem t l, instant_lem u (omega arith))

  day_windows-AreWithin :
      (day : ℕ)
      → AreWithin
          (local_midnight z day)
          (local_midnight z day + day_span)
          (day_windows z s open_days day)
  unfolding day_windows
  day_windows-AreWithin day = elim (Bool-cases (is_open_day open_days day)) [
    | inl e ↦
        let w = windows_on-IsWorkday day in
        rw e (
          AreWithin-lower _ (local_midnight z day) _ _ (omega arith)
            (map-AreWithin (local_midnight z day) 0 (windows_on s day) (omega arith) w.0 w.1))
    | inr e ↦
        rw e (let l : local_midnight z day ≤ local_midnight z day + day_span = omega arith in l)
  ]

  pub windows_from-AreWithin :
      (day n : ℕ)
      → AreWithin
          (local_midnight z day)
          (local_midnight z (day + n))
          (windows_from z s open_days day n)
  unfolding windows_from
  windows_from-AreWithin day zero = omega (arith, midnight_lem day, midnight_lem (day + 0))
  windows_from-AreWithin day (suc n) =
      AreWithin-append _ _ _ (day_windows z s open_days day)
        (windows_from z s open_days (suc day) n) (day_windows-AreWithin day)
        (AreWithin-lower (local_midnight z (suc day)) _ _ _
          (omega (arith, midnight_lem day, midnight_lem (suc day)))
          (subst
            (λ d.
              AreWithin (local_midnight z (suc day)) (local_midnight z d)
                (windows_from z s open_days (suc day) n))
            (let e : suc day + n ≡ day + suc n = omega arith in e)
            (windows_from-AreWithin (suc day) n)))

  day_windows-IsWorking :
      (t day : ℕ) → Any (Lies t) (day_windows z s open_days day) → IsWorking z s open_days t
  unfolding day_windows
  day_windows-IsWorking t day h =
      let at = Any-Lies t _ _ _ (day_windows-AreWithin day) h in
      let same = local_date_unique t day at.0 at.1 in
      rw same (elim (Bool-cases (is_open_day open_days day)) [
        | inl e ↦ (
          e,
          (Any-map (Lies t) (window_at (local_midnight z day)) (windows_on s day)).0 (rw e at h),
        )
        | inr e ↦ absurd (rw e at h)
      ])

  IsWorking-day_windows :
      (t : ℕ)
      → IsWorking z s open_days t
      → Any (Lies t) (day_windows z s open_days (local_date z t))
  unfolding day_windows
  IsWorking-day_windows t h = rw (h.0) (
      (Any-map (Lies t) (window_at (local_midnight z (local_date z t)))
          (windows_on s (local_date z t))).1
        h.1)

  pub windows_from-IsWorking :
      (t day n : ℕ) → Any (Lies t) (windows_from z s open_days day n) → IsWorking z s open_days t
  unfolding windows_from
  windows_from-IsWorking t day zero h = absurd h
  windows_from-IsWorking t day (suc n) h =
      elim (Any-append_split (Lies t) (day_windows z s open_days day) _ h) [
        | inl k ↦ day_windows-IsWorking t day k
        | inr k ↦ windows_from-IsWorking t (suc day) n k
      ]

  pub IsWorking-windows_from :
      (t day n : ℕ)
      → day ≤ local_date z t
      → local_date z t < day + n
      → IsWorking z s open_days t
      → Any (Lies t) (windows_from z s open_days day n)
  unfolding windows_from
  IsWorking-windows_from t day zero l u h = absurd (omega arith)
  IsWorking-windows_from t day (suc n) l u h = elim (Bool-cases (ltb day (local_date z t))) [
    | inl e ↦
        Any-append_right (Lies t) (day_windows z s open_days day) _
          (IsWorking-windows_from t (suc day) n (ground arith) (omega arith) h)
    | inr e ↦ Any-append_left (Lies t) _ _ (
        subst (λ d. Any (Lies t) (day_windows z s open_days d))
          (let same : local_date z t ≡ day = ground arith in same) (IsWorking-day_windows t h))
  ]
