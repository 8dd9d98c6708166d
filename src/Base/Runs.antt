-- ===== src/Base/Runs.antt =====
-- Runs of any number of steps of a relation.
pub data Run {A : Type 0} (Step : A → A → Type 0) (s : A) : A → Type 0 where
  stay : Run Step s s
  step : {t u : A} → Run Step s t → Step t u → Run Step s u

module _ {A : Type 0} {Step : A → A → Type 0} where
  pub before-Run : {s t u : A} → Step s t → Run Step t u → Run Step s u
  before-Run st stay = step stay st
  before-Run st (step run st') = step (before-Run st run) st'
