-- ===== src/Processes/Tests.antt =====
-- The samples of two processes.
use application_monitoring.Prelude.{
  ℕ, pos, ◌≡◌, refl, true, List, [], ◌∷◌, some, eqb_ℤ, if◌then◌else◌,
}
use application_monitoring.Text.{codes}
use application_monitoring.Types.{NeoProcess, NeoPreviousSample}
use application_monitoring.Examples.{process_of}
use application_monitoring.Processes.{sample_of, previous_set}
use application_monitoring.Processes.Previous.{previous_sample, previous_sample-previous_set}

abbrev shell : NeoProcess ℕ
shell = process_of (pos 7) (codes "sh") 40

abbrev editor : NeoProcess ℕ
editor = process_of (pos 9) (codes "vi") 50

abbrev samples : List NeoPreviousSample
samples = sample_of shell ∷ []

added : previous_set (λ n. true) samples editor ≡ some (sample_of shell ∷ sample_of editor ∷ [])
unfolding previous_set
added = refl

previous_sample-previous_set_example :
    previous_sample (sample_of shell ∷ sample_of editor ∷ []) (pos 9)
    ≡ (if eqb_ℤ (pos 9) (pos 9) then some (sample_of editor) else previous_sample samples (pos 9))
previous_sample-previous_set_example =
    previous_sample-previous_set (λ n. true) samples editor added (pos 9)
