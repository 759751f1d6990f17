-- ===== src/AiPlane/Graduation/Earned.antt =====
-- internal/aiplane/graduation.go: the mode as a function of a history of outcomes.
use open_mal_lab.Common.{
  ℕ, ◌+◌, ◌*◌, ◌≤◌, ◌<◌, ◌≡◌, ◌≢◌, refl, ◌∙◌, Bool, true, false, ◌&&◌, Str, List, [], ◌∷◌, arith,
  if◌then◌else◌, str_eq, str_eq_iff, str_eq_refl,
}
use open_mal_lab.Common.Assoc.{lookup, lookup-insert}
use open_mal_lab.Common.Floats.{Float64, IsRounded, exact_bound}
use open_mal_lab.AiPlane.Graduation.{
  Mode, shadow, supervised, autonomous, count_of, increment, Graduation, new_graduation,
  record_outcome, mode_of, mode,
}

-- How many outcomes, and how many right ones, a history holds for a category.
abbrev pub observed : Str → List (Str × Bool) → ℕ
observed k [] = 0
observed k ((j, b) ∷ hist) = (if str_eq j k then 1 else 0) + observed k hist

abbrev pub right : Str → List (Str × Bool) → ℕ
right k [] = 0
right k ((j, b) ∷ hist) = (if str_eq j k && b then 1 else 0) + right k hist

count_of-increment :
    (m : List (Str × ℕ)) (j k : Str)
    → count_of (increment m j) k ≡ (if str_eq j k then 1 else 0) + count_of m k
unfolding count_of increment
count_of-increment m j k = ground (arith, lookup-insert j k (count_of m j + 1) m, str_eq_iff j k)

module _ (fl : Float64) where
  -- The outcomes are recorded from the last of the list to the first.
  unfoldable pub replay : Graduation fl → List (Str × Bool) → Graduation fl
  replay g [] = g
  replay g ((j, b) ∷ hist) = record_outcome fl (replay g hist) j b

  counts-record :
      (g : Graduation fl) (j k : Str) (b : Bool)
      → k ≢ []
      → (count_of (record_outcome fl g j b).total k
          ≡ (if str_eq j k then 1 else 0) + count_of g.total k)
        × (count_of (record_outcome fl g j b).correct k
            ≡ (if str_eq j k && b then 1 else 0) + count_of g.correct k)
  unfolding record_outcome
  counts-record g [] k b h = ground (arith, str_eq_iff [] k)
  counts-record g (c ∷ j) k b h =
      ground (arith, count_of-increment g.total (c ∷ j) k, count_of-increment g.correct (c ∷ j) k)

  counts-replay :
      (hist : List (Str × Bool)) (k : Str)
      → k ≢ []
      → (count_of (replay (new_graduation fl) hist).total k ≡ observed k hist)
        × (count_of (replay (new_graduation fl) hist).correct k ≡ right k hist)
  unfolding replay
  counts-replay [] k h = unfold new_graduation count_of lookup in (refl, refl)
  counts-replay ((j, b) ∷ hist) k h =
      let now = counts-record (replay (new_graduation fl) hist) j k b h in
      let before = counts-replay hist k h in
      (omega (arith, now.0, before.0), omega (arith, now.1, before.1))

  policy-record :
      (g : Graduation fl) (j : Str) (b : Bool)
      → ((record_outcome fl g j b).min_to_autonomous ≡ g.min_to_autonomous)
        × ((record_outcome fl g j b).accuracy_floor ≡ g.accuracy_floor)
  unfolding record_outcome
  policy-record g j b = ground arith

  policy-replay :
      (g : Graduation fl) (hist : List (Str × Bool))
      → ((replay g hist).min_to_autonomous ≡ g.min_to_autonomous)
        × ((replay g hist).accuracy_floor ≡ g.accuracy_floor)
  unfolding replay
  policy-replay g [] = (refl, refl)
  policy-replay g ((j, b) ∷ hist) = (
    (policy-record (replay g hist) j b).0 ∙ (policy-replay g hist).0,
    (policy-record (replay g hist) j b).1 ∙ (policy-replay g hist).1,
  )

  pub mode_of-record :
      (g : Graduation fl) (j : Str) (b : Bool) (c t : ℕ)
      → mode_of fl (record_outcome fl g j b) c t ≡ mode_of fl g c t
  unfolding mode_of record_outcome
  mode_of-record g j b c t = ground arith

  mode-autonomous :
      (g : Graduation fl) (c t : ℕ)
      → mode_of fl g c t ≡ autonomous
      → (g.min_to_autonomous ≤ t) × (fl.le g.accuracy_floor (fl.ratio c t) ≡ true)
  unfolding mode_of
  mode-autonomous g c t h = ground arith

  -- From a fresh policy, a category is autonomous only after at least twenty outcomes recorded for
  -- that category itself, of which the right ones reach the accuracy floor of 0.90; outcomes of
  -- other categories count for nothing.
  pub autonomy_is_earned :
      (hist : List (Str × Bool)) (k : Str)
      → k ≢ []
      → mode fl (replay (new_graduation fl) hist) k ≡ autonomous
      → (20 ≤ observed k hist)
        × (fl.le (fl.ratio 9 10) (fl.ratio (right k hist) (observed k hist)) ≡ true)
  unfolding mode
  autonomy_is_earned hist k h e =
      let g = replay (new_graduation fl) hist in
      let counts = counts-replay hist k h in
      let policy = policy-replay (new_graduation fl) hist in
      let earned =
        mode-autonomous g (right k hist) (observed k hist) (rw (counts.0, counts.1) at e) in
      unfold new_graduation in (omega (arith, earned.0, policy.0), rw policy.1 at (earned.1))

abbrev pub standing : Mode → ℕ
standing shadow = 0
standing supervised = 1
standing autonomous = 2

module _ (fl : Float64) (rounded : IsRounded fl) (g : Graduation fl)
    (real : fl.le g.shadow_floor g.shadow_floor ≡ true) where
  mode_of-right :
      (c t : ℕ)
      → 0 < t
      → t < exact_bound
      → g.min_to_autonomous ≤ t
      → c ≤ t
      → standing (mode_of fl g c t) ≤ standing (mode_of fl g (c + 1) (t + 1))
  unfolding mode_of
  mode_of-right c t p small m h =
      let cross : c * (t + 1) ≤ (c + 1) * t = grind arith in
      let reaches : (x : fl.F)
          → fl.le x (fl.ratio c t) ≡ true
          → fl.le x (fl.ratio (c + 1) (t + 1)) ≡ true =
        λ x.
          rounded.reach_mono x c t (c + 1) (t + 1) p (omega arith) (omega arith) (omega arith)
            (omega arith) (omega arith) cross in
      ground (
        arith,
        reaches g.accuracy_floor,
        reaches g.shadow_floor,
        rounded.lt_not_le g.shadow_floor c t real p (omega arith) (omega arith),
        rounded.lt_not_le g.shadow_floor (c + 1) (t + 1) real (omega arith) (omega arith)
            (omega arith),
      )

  mode_of-wrong :
      (c t : ℕ)
      → 0 < t
      → t < exact_bound
      → g.min_to_autonomous ≤ t
      → c ≤ t
      → standing (mode_of fl g c (t + 1)) ≤ standing (mode_of fl g c t)
  unfolding mode_of
  mode_of-wrong c t p small m h =
      let cross : c * t ≤ c * (t + 1) = grind arith in
      let reaches : (x : fl.F)
          → fl.le x (fl.ratio c (t + 1)) ≡ true
          → fl.le x (fl.ratio c t) ≡ true =
        λ x.
          rounded.reach_mono x c (t + 1) c t (omega arith) p (omega arith) (omega arith)
            (omega arith) (omega arith) cross in
      ground (
        arith,
        reaches g.accuracy_floor,
        reaches g.shadow_floor,
        rounded.lt_not_le g.shadow_floor c t real p (omega arith) (omega arith),
        rounded.lt_not_le g.shadow_floor c (t + 1) real (omega arith) (omega arith) (omega arith),
      )

  -- In a category that has the observations its policy asks for, fewer than 2^53 of them, and no
  -- more right outcomes than outcomes, under a policy whose lower floor is not NaN, recording a
  -- right outcome never lowers the mode and recording a wrong one never raises it.
  pub outcome_moves_mode :
      (k : Str)
      → k ≢ []
      → 0 < count_of g.total k
      → count_of g.total k < exact_bound
      → g.min_to_autonomous ≤ count_of g.total k
      → count_of g.correct k ≤ count_of g.total k
      → (standing (mode fl g k) ≤ standing (mode fl (record_outcome fl g k true) k))
        × (standing (mode fl (record_outcome fl g k false) k) ≤ standing (mode fl g k))
  unfolding mode
  outcome_moves_mode k h p small m c =
      let yes_counts = counts-record fl g k k true h in
      let no_counts = counts-record fl g k k false h in
      let yes_total : count_of (record_outcome fl g k true).total k ≡ count_of g.total k + 1 =
        ground (arith, yes_counts.0, str_eq_refl k) in
      let yes_right : count_of (record_outcome fl g k true).correct k ≡ count_of g.correct k + 1 =
        ground (arith, yes_counts.1, str_eq_refl k) in
      let no_total : count_of (record_outcome fl g k false).total k ≡ count_of g.total k + 1 =
        ground (arith, no_counts.0, str_eq_refl k) in
      let no_right : count_of (record_outcome fl g k false).correct k ≡ count_of g.correct k =
        ground (arith, no_counts.1, str_eq_refl k) in
      (
        rw (yes_total, yes_right, mode_of-record fl g k true)
            (mode_of-right (count_of g.correct k) (count_of g.total k) p small m c),
        rw (no_total, no_right, mode_of-record fl g k false)
            (mode_of-wrong (count_of g.correct k) (count_of g.total k) p small m c),
      )
