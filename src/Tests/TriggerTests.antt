-- ===== src/Tests/TriggerTests.antt =====
-- The reconcile loop at concrete inputs.
use gh_runner_scaler.Prelude.{◌≡◌, refl, true, false, List, [], ◌∷◌, All, ◌==◌, nat_eq, text_eq}
use gh_runner_scaler.Prelude.Strings.{text}
use gh_runner_scaler.Daemon.Routing.{RunnerGroup}
use gh_runner_scaler.Daemon.Trigger.{
  idle, draining, counting, reconciling, Loop, selected_groups, count_trigger, begin, drain,
  count_start, finish, stay, after, drained, Reachable, initial, reach_tick, reach_drain,
  reach_count,
}
use gh_runner_scaler.Daemon.Trigger.Missed.{
  next_pass, IsSelected, trigger_in_pass, trigger_before_count_lost,
}

abbrev first : Loop
first = record {
  capacity = 3;
  phase = idle;
  running = false;
  seq = 0;
  start_seq = 0;
  requested = [];
  trigger_ch = [];
  senders = [];
  reconcile_runs = 0;
  reconcile_failures = 0;
}

abbrev ticked : Loop
ticked = count_start (drain counting (begin [] first))

ticked-Reachable : Reachable 3 ticked
unfolding begin drain
ticked-Reachable = reach_count (reach_drain (reach_tick initial refl) refl) refl

abbrev groups : List RunnerGroup
groups =
    record {
      id = text "b";
      target = [];
      repo_scoped = false;
      prefix = [];
      match_labels = [];
      baseline_name = [];
      cache_pool = [];
    }
    ∷ []

trigger_in_pass_example :
    ((finish [] (drain reconciling (count_trigger (text "b") ticked))).phase ≡ draining)
    × ((finish [] (drain reconciling (count_trigger (text "b") ticked))).running ≡ true)
    × ((finish [] (drain reconciling (count_trigger (text "b") ticked))).requested ≡ [])
    × IsSelected [] groups (
        selected_groups groups
          (next_pass [] (drain reconciling (count_trigger (text "b") ticked))).requested)
unfolding count_start count_trigger drain
trigger_in_pass_example =
    trigger_in_pass 3 ticked (drain reconciling (count_trigger (text "b") ticked)) (text "b") groups
      [] ticked-Reachable refl (after stay (drained refl))

abbrev received : Loop
received = record first { phase = counting; running = true; requested = text "a" ∷ [] }

trigger_before_count_lost_example :
    let pass = drain reconciling (count_start (count_trigger (text "b") received)) in
    All (λ g. (g.id == text "b") ≡ false) (selected_groups groups pass.requested)
    × ((finish [] pass).phase ≡ idle)
    × ((finish [] pass).trigger_ch ≡ [])
    × ((finish [] pass).senders ≡ [])
trigger_before_count_lost_example =
    trigger_before_count_lost received groups (text "b") [] refl refl refl (λ e. cc) refl refl
