-- ===== src/Control/Heartbeat.antt =====
-- control.go, setupHeartbeat: the counter of failed ticks.
use waveguide.Base.{
  ℕ, zero, suc, ◌+◌, ◌-◌, ◌<◌, ◌≤◌, ◌≡◌, refl, ◌∙◌, Bool, true, false, ◌||◌, List, [], ◌∷◌, arith,
  ltb, leb, if◌then◌else◌,
}

-- The errors of the three calls of one tick.
pub record Tick : Type 0 where
  pub thumbnail_failed : Bool
  pub metadata_failed : Bool
  pub orchestrator_failed : Bool

abbrev pub has_errors : Tick → Bool
has_errors t = t.thumbnail_failed || (t.metadata_failed || t.orchestrator_failed)

unfoldable pub count_tick : ℕ → Tick → ℕ
count_tick failed t =
    if has_errors t then failed + 1 else if ltb 0 failed then failed - 1 else failed

-- The ticks that are handled, and whether the last one stopped the stream: the goroutine returns at
-- a count of five.
unfoldable pub heartbeat : ℕ → List Tick → ℕ × Bool
heartbeat failed [] = (0, false)
heartbeat failed (t ∷ ts) =
    let failed' = count_tick failed t in
    let (handled, stopped) = heartbeat failed' ts in
    if leb 5 failed' then (1, true) else (suc handled, stopped)

-- How many ticks of a run fail, and how many do not.
abbrev pub failures : List Tick → ℕ
failures [] = 0
failures (t ∷ ts) = (if has_errors t then 1 else 0) + failures ts

abbrev pub successes : List Tick → ℕ
successes [] = 0
successes (t ∷ ts) = (if has_errors t then 0 else 1) + successes ts

-- A run that stops the stream holds more failures than are missing to five, one more than the count
-- for each success that it outlives.
heartbeat_needs :
    (failed : ℕ) (ts : List Tick) → (heartbeat failed ts).1 ≡ true → 5 ≤ failed + failures ts
unfolding heartbeat count_tick
heartbeat_needs failed [] e = cc
heartbeat_needs failed (t ∷ ts) e = ground (arith, heartbeat_needs (count_tick failed t) ts)

-- With at least five more failures than successes the stream is stopped.
heartbeat_stops_from :
    (failed : ℕ) (ts : List Tick)
    → failed < 5
    → 5 + successes ts ≤ failed + failures ts
    → (heartbeat failed ts).1 ≡ true
unfolding heartbeat count_tick
heartbeat_stops_from failed [] small h = absurd (omega arith)
heartbeat_stops_from failed (t ∷ ts) small h =
    ground (arith, heartbeat_stops_from (count_tick failed t) ts)

-- A stream whose heartbeat stops it has had five failed ticks at least; and five more failed ticks
-- than good ones stop it.
pub heartbeat_verdict :
    (ts : List Tick)
    → ((heartbeat 0 ts).1 ≡ true → 5 ≤ failures ts)
      × (5 + successes ts ≤ failures ts → (heartbeat 0 ts).1 ≡ true)
heartbeat_verdict ts = (
  λ e. omega (arith, heartbeat_needs 0 ts e),
  λ h. heartbeat_stops_from 0 ts (omega arith) (omega arith),
)

-- A bad tick, then a good one, `n` times over.
abbrev pub alternating : ℕ → Tick → Tick → List Tick
alternating zero bad good = []
alternating (suc n) bad good = bad ∷ good ∷ alternating n bad good

pair_step :
    (bad good : Tick) (ts : List Tick)
    → has_errors bad ≡ true
    → has_errors good ≡ false
    → (heartbeat 0 (bad ∷ good ∷ ts)).1 ≡ (heartbeat 0 ts).1
unfolding heartbeat
pair_step bad good ts b g = rw (up, down)
  where
    up : count_tick 0 bad ≡ 1
    up = unfold count_tick in rw b

    down : count_tick 1 good ≡ 0
    down = unfold count_tick in rw g

-- Failed ticks that alternate with good ones never stop the stream, however many there are.
pub heartbeat-alternating :
    (n : ℕ) (bad good : Tick)
    → has_errors bad ≡ true
    → has_errors good ≡ false
    → ((heartbeat 0 (alternating n bad good)).1 ≡ false) × (failures (alternating n bad good) ≡ n)
heartbeat-alternating zero bad good b g = (unfold heartbeat in refl, refl)
heartbeat-alternating (suc n) bad good b g =
    let (calm, count) = heartbeat-alternating n bad good b g in
    (pair_step bad good (alternating n bad good) b g ∙ calm, ground (arith, count))
