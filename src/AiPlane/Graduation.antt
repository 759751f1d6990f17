-- ===== src/AiPlane/Graduation.antt =====
-- internal/aiplane/graduation.go: the track record of a category, and the mode it gives.
pub mod Earned
use open_mal_lab.Common.{
  ℕ, zero, suc, ◌+◌, Bool, true, false, Str, List, [], ◌∷◌, Option, none, some, ltb, if◌then◌else◌,
  length, ◌==◌,
}
use open_mal_lab.Common.Assoc.{lookup, insert}
use open_mal_lab.Common.Floats.{Float64}

pub data Mode : Type 0 where
  shadow supervised autonomous : Mode

-- m[k] of a map to integers: a missing key reads as 0
abbrev pub or_zero : Option ℕ → ℕ
or_zero none = 0
or_zero (some n) = n

unfoldable pub count_of : List (Str × ℕ) → Str → ℕ
count_of m k = or_zero (lookup k m)

-- m[k]++
unfoldable pub increment : List (Str × ℕ) → Str → List (Str × ℕ)
unfolding count_of
increment m k = insert k (count_of m k + 1) m

module _ (fl : Float64) where
  pub record Graduation : Type 0 where
    pub correct : List (Str × ℕ)
    pub total : List (Str × ℕ)
    pub min_to_autonomous : ℕ
    pub accuracy_floor : fl.F
    pub shadow_floor : fl.F

  abbrev pub default_min_to_autonomous : ℕ
  default_min_to_autonomous = 20

  -- The floors are the literals 0.90 and 0.30.
  unfoldable pub new_graduation : Graduation
  new_graduation = record {
    correct = [];
    total = [];
    min_to_autonomous = default_min_to_autonomous;
    accuracy_floor = fl.ratio 9 10;
    shadow_floor = fl.ratio 3 10;
  }

  -- A `min` that is not positive falls back to the default; a negative one is read as 0 here.
  unfoldable pub new_graduation_with_policy : ℕ → fl.F → fl.F → Graduation
  unfolding new_graduation
  new_graduation_with_policy min accuracy_floor shadow_floor = record {
    correct = [];
    total = [];
    min_to_autonomous = if ltb 0 min then min else default_min_to_autonomous;
    accuracy_floor = if fl.lt (fl.ratio 0 1) accuracy_floor then accuracy_floor else fl.ratio 9 10;
    shadow_floor = if fl.lt (fl.ratio 0 1) shadow_floor then shadow_floor else fl.ratio 3 10;
  }

  -- func (g *Graduation) Record
  unfoldable pub record_outcome : Graduation → Str → Bool → Graduation
  unfolding increment
  record_outcome g category is_correct = if length category == 0 then g else (record g {
    total = increment g.total category;
    correct = if is_correct then increment g.correct category else g.correct;
  })

  -- modeLocked, from the two counts of the category
  unfoldable pub mode_of : Graduation → ℕ → ℕ → Mode
  mode_of g correct total =
      let acc = fl.ratio correct total in
      if ltb total g.min_to_autonomous
      then supervised
      else if fl.le g.accuracy_floor acc
      then autonomous
      else if fl.lt acc g.shadow_floor
      then shadow
      else supervised

  unfoldable pub mode : Graduation → Str → Mode
  mode g category = mode_of g (count_of g.correct category) (count_of g.total category)
