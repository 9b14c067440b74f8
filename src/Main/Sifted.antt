-- ===== src/Main/Sifted.antt =====
-- What the remote monitor shows.
use application_monitoring.Prelude.{ℤ, true, false, List, [], ◌∷◌, if◌then◌else◌}
use application_monitoring.Text.{Bytes}
use application_monitoring.Double.{Double}
use application_monitoring.Types.{NeoConfig, NeoProcess}
use application_monitoring.Processes.{process_list_init}
use application_monitoring.Sort.{Qsort, sort_processes}
use application_monitoring.Remote.Hosts.{NeoRemoteTarget}
use application_monitoring.Remote.Commands.{Reached, reached, denied, out_of_bounds}
use application_monitoring.Remote.Contact.{Scan}
use application_monitoring.Main.{
  Event, json_output, csv_output, table_output, acted, logged, slept, wrote_csv, wrote_html,
  printed,
}
use application_monitoring.Main.Filters.{matching}
use application_monitoring.Main.Remote.{
  RemoteRound, RemoteRun, remote_runs, remote_ends, remote_overruns, fetched,
}

module _ {D : Type 0} where
  -- What is printed of the processes, output by output.
  unfoldable pub shown : List (Event D) → List (List (NeoProcess D))
  shown [] = []
  shown (json_output config system items ∷ events) = items ∷ shown events
  shown (csv_output config items ∷ events) = items ∷ shown events
  shown (table_output config system count items ∷ events) = items ∷ shown events
  shown (acted action ∷ events) = shown events
  shown (logged level message ∷ events) = shown events
  shown (slept seconds ∷ events) = shown events
  shown (wrote_csv path samples ∷ events) = shown events
  shown (wrote_html path samples ∷ events) = shown events

module _ {D : Type 0} (F : Double D) (strtod : Bytes → D) (decimal : ℤ → Bytes)
    (qsort : Qsort (NeoProcess D)) (config : NeoConfig D) where
  abbrev pub events_of : RemoteRun D → List (Event D)
  events_of (remote_runs events) = events
  events_of (remote_ends code events) = events
  events_of (remote_overruns events) = events

  -- Of the processes that the host brought: those that match, in the order asked for, up to the limit.
  abbrev pub sifted : List (NeoProcess D) → List (NeoProcess D)
  sifted brought =
      printed config
        (sort_processes F qsort (matching config brought) config.sort_mode config.reverse)

  -- What a scan shows, and `rest` unless it is the only one.
  unfoldable pub sifted_after :
      Reached (Scan D) → List (List (NeoProcess D)) → List (List (NeoProcess D))
  sifted_after (reached scan) rest = sifted scan.0.items ∷ (if config.once then [] else rest)
  sifted_after (denied message) rest = []
  sifted_after out_of_bounds rest = []

  -- What the rounds show, each by its own scan, until one ends the run.
  unfoldable pub sifted_rounds : NeoRemoteTarget → List RemoteRound → List (List (NeoProcess D))
  unfolding sifted_after
  sifted_rounds target [] = []
  sifted_rounds target (r ∷ rounds) = elim r.running [
    | false ↦ []
    | true ↦
        sifted_after (fetched F strtod decimal qsort config r target process_list_init).result
          (sifted_rounds target rounds)
  ]
