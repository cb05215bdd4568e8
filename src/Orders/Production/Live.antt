-- ===== src/Orders/Production/Live.antt =====
-- src/modules/orders/production.py: the weight of a sheet, who is credited with it, and the live states of
-- a branch. Weights are in half boards.
use opticutter_api.Prelude.{
  ℕ, ◌+◌, ◌-◌, ◌≤◌, ◌≡◌, ◌↔◌, ◌⊎◌, Bool, true, false, not, ◌&&◌, List, [], ◌∷◌, Option, none, some,
  sort_by, leb, ltb, ◌==◌, if◌then◌else◌, arith,
}

-- The sources of `OFFCUT_SOURCES`, and the others.
pub data BoardSource : Type 0 where
  company_offcut client_offcut other_source : BoardSource

abbrev pub is_offcut : BoardSource → Bool
is_offcut company_offcut = true
is_offcut client_offcut = true
is_offcut other_source = false

unfoldable pub board_weight : Bool → BoardSource → ℕ
board_weight half_board source = if is_offcut source then 0 else if half_board then 1 else 2

pub data SheetKind : Type 0 where
  whole half offcut : SheetKind

unfoldable pub sheet_kind : Bool → BoardSource → SheetKind
sheet_kind half_board source =
    if is_offcut source then offcut else if half_board then half else whole

pub data SheetCredit : Type 0 where
  credited credited_to_other incomplete outside_range : SheetCredit

abbrev pub is_user : Option ℕ → ℕ → Bool
is_user none user = false
is_user (some closed_by) user = closed_by == user

unfoldable pub sheet_credit : ℕ → Option ℕ → Option ℕ → ℕ → ℕ → SheetCredit
sheet_credit user closed_by none start end = incomplete
sheet_credit user closed_by (some done_at) start end =
    if not (is_user closed_by user)
    then credited_to_other
    else if not (leb start done_at && ltb done_at end)
    then outside_range
    else credited

pub data LiveState : Type 0 where
  cutting paused stopped idle : LiveState

unfoldable pub live_state : Option ℕ → ℕ → ℕ → Bool → Bool → LiveState
live_state none now idle_gap has_work is_paused =
    if is_paused then paused else if has_work then stopped else idle
live_state (some last_event_at) now idle_gap has_work is_paused =
    if leb now (last_event_at + idle_gap)
    then cutting
    else if is_paused
    then paused
    else if has_work
    then stopped
    else idle

-- Walks from `start` back over the stamps, the latest first.
unfoldable pub walk_back : ℕ → ℕ → List ℕ → ℕ
walk_back idle_gap start [] = start
walk_back idle_gap start (prev ∷ rest) =
    let further = walk_back idle_gap prev rest in
    if ltb idle_gap (start - prev) then start else further

-- The latest first: the order of equal stamps does not show.
unfoldable pub latest_first : List ℕ → List ℕ
latest_first times = sort_by (λ a b. ltb b a) times

abbrev pub run_of : ℕ → List ℕ → Option ℕ
run_of idle_gap [] = none
run_of idle_gap (t ∷ ts) = some (walk_back idle_gap t ts)

unfoldable pub run_start : List ℕ → ℕ → Option ℕ
run_start times idle_gap = run_of idle_gap (latest_first times)

pub data ActivityLiveState : Type 0 where
  working activity_paused waiting activity_idle : ActivityLiveState

unfoldable pub activity_live_state : ℕ → ℕ → ℕ → ActivityLiveState
activity_live_state in_progress ready stopped_ones =
    if ltb 0 in_progress
    then working
    else if ltb 0 stopped_ones
    then activity_paused
    else if ltb 0 ready
    then waiting
    else activity_idle

-- A report's range falls into two: a sheet is credited in the whole exactly when it is in one of the parts, never
-- in both, and never to two users.
pub sheet_credit_split :
    (user other : ℕ) (closed_by done_at : Option ℕ) (start middle end : ℕ)
    → start ≤ middle
    → middle ≤ end
    → ((sheet_credit user closed_by done_at start end ≡ credited) ↔ (
        (sheet_credit user closed_by done_at start middle ≡ credited)
        ⊎ (sheet_credit user closed_by done_at middle end ≡ credited)))
      × ((sheet_credit user closed_by done_at start middle ≡ credited)
          → (sheet_credit user closed_by done_at middle end ≡ credited)
          → ⊥)
      × ((sheet_credit user closed_by done_at start end ≡ credited)
          → (sheet_credit other closed_by done_at start end ≡ credited)
          → user ≡ other)
unfolding sheet_credit
sheet_credit_split user other closed_by none start middle end l m =
    ((λ h. absurd (cc), λ h. absurd (ground arith)), (λ h k. cc), (λ h k. absurd (cc)))
sheet_credit_split user other none (some done_at) start middle end l m =
    ((λ h. absurd (cc), λ h. absurd (ground arith)), (λ h k. cc), (λ h k. absurd (cc)))
sheet_credit_split user other (some by) (some done_at) start middle end l m =
    ((λ h. ground arith, λ h. ground arith), (λ h k. ground arith), (λ h k. ground arith))
