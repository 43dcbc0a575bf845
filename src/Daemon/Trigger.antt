-- ===== src/Daemon/Trigger.antt =====
-- internal/daemon/daemon.go: triggerGroup and doReconcileGroups, as the steps between which other
-- goroutines can run. The context is not done; a drain of the channel is one step.
pub mod Missed
use gh_runner_scaler.Prelude.{
  ℕ, ◌+◌, ◌≡◌, Bool, true, false, not, Option, none, some, List, [], ◌∷◌, ◌++◌, ltb, nat_beq,
  if◌then◌else◌, length, filter, nat_eq, Text, text_eq, contains,
}
use gh_runner_scaler.Prelude.Strings.{text}
use gh_runner_scaler.Daemon.Routing.{RunnerGroup}

-- Where the reconcile loop is: waiting, before the first drain, before triggerSeq is read, before
-- the second drain, and in the pass itself.
pub data Phase : Type 0 where
  idle draining counting draining_again reconciling : Phase

-- `senders` are the callers of triggerGroup that have read `running` as false and not yet sent.
pub record Loop : Type 0 where
  pub capacity : ℕ
  pub phase : Phase
  pub running : Bool
  pub seq : ℕ
  pub start_seq : ℕ
  pub requested : List Text
  pub trigger_ch : List Text
  pub senders : List Text
  pub reconcile_runs : ℕ
  pub reconcile_failures : ℕ

unfoldable pub merge_requested_groups : List Text → List Text → List Text
merge_requested_groups current [] = current
merge_requested_groups [] (p ∷ pending) = p ∷ pending
merge_requested_groups (c ∷ current) (p ∷ pending) = (c ∷ current) ++ (p ∷ pending)

unfoldable pub selected_groups : List RunnerGroup → List Text → List RunnerGroup
selected_groups groups [] = groups
selected_groups groups (r ∷ requested) =
    if contains [] (r ∷ requested)
    then groups
    else filter (λ g. contains g.id (r ∷ requested)) groups

-- The errors of the groups; `run` is the reconciler of a group.
unfoldable pub reconcile_targets : (RunnerGroup → Option Text) → List RunnerGroup → List Text
reconcile_targets run [] = []
reconcile_targets run (g ∷ gs) = elim (run g) [
  | none ↦ reconcile_targets run gs
  | some e ↦ (g.id ++ (text ": " ++ e)) ∷ reconcile_targets run gs
]

-- triggerGroup up to the unlocking of the mutex
unfoldable pub count_trigger : Text → Loop → Loop
count_trigger group s = record s {
  seq = s.seq + 1;
  senders = if s.running then s.senders else group ∷ s.senders;
}

-- The send of one caller; it is dropped when the channel is full.
unfoldable pub send_trigger : Text → List Text → Loop → Loop
send_trigger group others s = record s {
  senders = others;
  trigger_ch =
      if ltb (length s.trigger_ch) s.capacity then s.trigger_ch ++ group ∷ [] else s.trigger_ch;
}

unfoldable pub begin : List Text → Loop → Loop
begin requested s = record s { running = true; phase = draining; requested = requested }

unfoldable pub drain : Phase → Loop → Loop
unfolding merge_requested_groups
drain next s = record s {
  requested = merge_requested_groups s.requested s.trigger_ch;
  trigger_ch = [];
  phase = next;
}

unfoldable pub count_start : Loop → Loop
count_start s = record s { start_seq = s.seq; phase = draining_again }

unfoldable pub rerun : Loop → Bool
rerun s = not (nat_beq s.seq s.start_seq)

unfoldable pub finish : List Text → Loop → Loop
unfolding rerun
finish errors s = record s {
  reconcile_runs = s.reconcile_runs + 1;
  reconcile_failures = elim errors [ [] ↦ s.reconcile_failures | _ ↦ s.reconcile_failures + 1 ];
  running = rerun s;
  phase = if rerun s then draining else idle;
  requested = if rerun s then [] else s.requested;
}

abbrev pub in_pass : Phase → Bool
in_pass Phase.draining_again = true
in_pass Phase.reconciling = true
in_pass _ = false

-- What can happen while a pass is under way, short of its end.
pub data Step : Loop → Loop → Type 0 where
  counted : {s : Loop} (group : Text) → Step s (count_trigger group s)
  sent : {s : Loop} (group : Text) (others : List Text) → Step s (send_trigger group others s)
  drained : {s : Loop} → s.phase ≡ draining_again → Step s (drain reconciling s)

pub data Steps : Loop → Loop → Type 0 where
  stay : {s : Loop} → Steps s s
  after : {s t u : Loop} → Steps s t → Step t u → Steps s u

-- What can happen at all.
pub data Reachable (capacity : ℕ) : Loop → Type 0 where
  initial : Reachable capacity (record {
    capacity = capacity;
    phase = idle;
    running = false;
    seq = 0;
    start_seq = 0;
    requested = [];
    trigger_ch = [];
    senders = [];
    reconcile_runs = 0;
    reconcile_failures = 0;
  })
  reach_step : {s t : Loop} → Reachable capacity s → Step s t → Reachable capacity t
  reach_tick : {s : Loop} → Reachable capacity s → s.phase ≡ idle → Reachable capacity (begin [] s)
  reach_receive :
      {s : Loop} (group : Text) (rest : List Text)
      → Reachable capacity s
      → s.phase ≡ idle
      → s.trigger_ch ≡ group ∷ rest
      → Reachable capacity (begin (group ∷ []) (record s { trigger_ch = rest }))
  reach_drain :
      {s : Loop} → Reachable capacity s → s.phase ≡ draining → Reachable capacity (drain counting s)
  reach_count :
      {s : Loop} → Reachable capacity s → s.phase ≡ counting → Reachable capacity (count_start s)
  reach_finish :
      {s : Loop} (errors : List Text)
      → Reachable capacity s
      → s.phase ≡ reconciling
      → Reachable capacity (finish errors s)
