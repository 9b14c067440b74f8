-- ===== src/Alert/Episodes.antt =====
-- One check over a whole run: the state that `evaluate_one` keeps is a summary of the observations
-- so far, and an alert is reported once for each breach that lasts long enough.
use application_monitoring.Prelude.{
  ℤ, pos, ◌≡◌, refl, Bool, true, false, not, ◌&&◌, ◌||◌, List, [], ◌∷◌, arith, Option, none, some,
  ◌⊎◌, inr, if◌then◌else◌,
}
use application_monitoring.Double.{Double}
use application_monitoring.Alert.{Check, evaluate_one}

pub record Observation (D : Type 0) : Type 0 where
  pub now : ℤ
  pub value : D

abbrev pub unbreached : Check
unbreached = record { breached = false; breach_start = pos 0; fired = false }

module _ {D : Type 0} (F : Double D) (threshold sustain : D) where
  -- The code over a history, the latest observation first.
  unfoldable pub replay : List (Observation D) → Check
  replay [] = unbreached
  replay (o ∷ h) = (evaluate_one F o.now o.value threshold sustain (replay h)).0

  unfoldable pub reports : List (Observation D) → Bool
  reports [] = false
  reports (o ∷ h) = (evaluate_one F o.now o.value threshold sustain (replay h)).1

  -- The specification, which keeps no state. Is an observation at or above an enabled threshold?
  abbrev pub over : Observation D → Bool
  over o = not (F.le threshold (F.ratio 0 1)) && not (F.lt o.value threshold)

  abbrev or_now : Option ℤ → ℤ → ℤ
  or_now none now = now
  or_now (some t) now = t

  -- When the observations last went over the threshold, if they are over it now.
  unfoldable pub since : List (Observation D) → Option ℤ
  since [] = none
  since (o ∷ h) = if over o then some (or_now (since h) o.now) else none

  -- Has the present breach been seen to last for `sustain`?
  unfoldable pub sustained : List (Observation D) → Bool
  sustained [] = false
  sustained (o ∷ h) =
      over o && (sustained h || F.le sustain (F.difftime o.now (or_now (since h) o.now)))

  pub record Summary (c : Check) (h : List (Observation D)) : Type 0 where
    pub started : since h ≡ (if c.breached then some c.breach_start else none)
    pub quiet : (c.breached ≡ true) ⊎ (sustained h ≡ false)
    pub fired : c.fired ≡ sustained h

  step_Summary :
      (o : Observation D) (c : Check) (h : List (Observation D))
      → Summary c h
      → Summary (evaluate_one F o.now o.value threshold sustain c).0 (o ∷ h)
  unfolding evaluate_one since sustained
  step_Summary o c h s = ground (arith, s.started, s.quiet, s.fired)

  step_report :
      (o : Observation D) (c : Check) (h : List (Observation D))
      → Summary c h
      → (evaluate_one F o.now o.value threshold sustain c).1
        ≡ sustained (o ∷ h) && not (sustained h)
  unfolding evaluate_one since sustained
  step_report o c h s = ground (arith, s.started, s.quiet, s.fired)

  -- After any run the state says when the present breach began and whether it was reported, as the
  -- specification reads them off the observations alone.
  pub replay-Summary : (h : List (Observation D)) → Summary (replay h) h
  unfolding replay since sustained
  replay-Summary [] = record { started = refl; quiet = inr refl; fired = refl }
  replay-Summary (o ∷ h) = step_Summary o (replay h) h (replay-Summary h)

  -- An alert is reported at exactly those observations at which the present breach is first seen to
  -- have lasted for `sustain`; so never while the values are under the threshold, and once a breach.
  pub reports_iff_newly_sustained :
      (o : Observation D) (h : List (Observation D))
      → reports (o ∷ h) ≡ sustained (o ∷ h) && not (sustained h)
  unfolding reports
  reports_iff_newly_sustained o h = step_report o (replay h) h (replay-Summary h)
