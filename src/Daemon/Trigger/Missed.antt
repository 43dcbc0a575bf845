-- ===== src/Daemon/Trigger/Missed.antt =====
-- internal/daemon/daemon.go: which triggers the reconcile loop answers.
use gh_runner_scaler.Prelude.{
  ℕ, ◌+◌, ◌≤◌, ◌≡◌, refl, ◌∙◌, ◌≢◌, ◌⊎◌, inl, inr, true, false, List, [], ◌∷◌, arith, nat_beq,
  Bool-cases, filter, All, ◌==◌, nat_eq, Text, text_eq, contains,
}
use gh_runner_scaler.Daemon.Routing.{RunnerGroup}
use gh_runner_scaler.Daemon.Trigger.{
  Phase, idle, draining, counting, reconciling, Loop, merge_requested_groups, selected_groups,
  count_trigger, send_trigger, begin, drain, count_start, rerun, finish, in_pass, Step, counted,
  sent, drained, Steps, stay, after, Reachable, initial, reach_step, reach_tick, reach_receive,
  reach_drain, reach_count, reach_finish,
}

Step-InPass :
    {s t : Loop}
    → Step s t
    → in_pass s.phase ≡ true
    → (in_pass t.phase ≡ true) × (s.seq ≤ t.seq) × (t.start_seq ≡ s.start_seq)
unfolding count_trigger send_trigger drain
Step-InPass (counted group) h = (h, omega arith, refl)
Step-InPass (sent group others) h = (h, omega arith, refl)
Step-InPass (drained e) h = (refl, omega arith, refl)

Steps-InPass :
    {s t : Loop}
    → Steps s t
    → in_pass s.phase ≡ true
    → (in_pass t.phase ≡ true) × (s.seq ≤ t.seq) × (t.start_seq ≡ s.start_seq)
Steps-InPass stay h = (h, omega arith, refl)
Steps-InPass (after ss step) h =
    let before = Steps-InPass ss h in
    let last = Step-InPass step before.0 in
    (last.0, omega (arith, before.1, last.1), last.2 ∙ before.2)

-- The number read at the start of a pass is never ahead of the counter, and the loop is marked as
-- running exactly when it is not idle.
pub record IsValid (s : Loop) : Type 0 where
  pub not_ahead : s.start_seq ≤ s.seq
  pub marked : s.running ≡ (elim s.phase [ Phase.idle ↦ false | _ ↦ true ])

Step-IsValid : {s t : Loop} → Step s t → IsValid s → IsValid t
unfolding count_trigger send_trigger drain
Step-IsValid (counted group) v = record {
  not_ahead = omega (arith, v.not_ahead);
  marked = v.marked;
}
Step-IsValid (sent group others) v = record { not_ahead = v.not_ahead; marked = v.marked }
Step-IsValid (drained e) v = record {
  not_ahead = v.not_ahead;
  marked = ground (arith, v.marked, e);
}

-- In every reachable state the number read at the start of a pass is at most the counter, and the
-- loop is marked as running exactly when it is not idle.
pub Reachable-IsValid : (capacity : ℕ) (s : Loop) → Reachable capacity s → IsValid s
unfolding begin drain count_start finish rerun
Reachable-IsValid capacity s initial = record { not_ahead = omega arith; marked = refl }
Reachable-IsValid capacity s (reach_step r step) =
    Step-IsValid step (Reachable-IsValid capacity _ r)
Reachable-IsValid capacity s (reach_tick {s = s₀} r e) =
    let v = Reachable-IsValid capacity s₀ r in record { not_ahead = v.not_ahead; marked = refl }
Reachable-IsValid capacity s (reach_receive {s = s₀} group rest r e q) =
    let v = Reachable-IsValid capacity s₀ r in record { not_ahead = v.not_ahead; marked = refl }
Reachable-IsValid capacity s (reach_drain {s = s₀} r e) =
    let v = Reachable-IsValid capacity s₀ r in
    record { not_ahead = v.not_ahead; marked = ground (arith, v.marked, e) }
Reachable-IsValid capacity s (reach_count {s = s₀} r e) =
    let v = Reachable-IsValid capacity s₀ r in
    record { not_ahead = omega arith; marked = ground (arith, v.marked, e) }
Reachable-IsValid capacity s (reach_finish {s = s₀} errors r e) =
    let v = Reachable-IsValid capacity s₀ r in
    record { not_ahead = v.not_ahead; marked = ground arith }

overtaken :
    (start seq start' seq' : ℕ)
    → start ≤ seq
    → seq + 1 ≤ seq'
    → start' ≡ start
    → nat_beq seq' start' ≡ false
overtaken start seq start' seq' h l e = ground arith

omits :
    (groups : List RunnerGroup) (requested : List Text) (group : Text)
    → contains group requested ≡ false
    → All (λ g. (g.id == group) ≡ false) (filter (λ g. contains g.id requested) groups)
omits [] requested group h = tt
omits (g ∷ gs) requested group h = elim (Bool-cases (contains g.id requested)) [
  | inr other ↦ rw other (omits gs requested group h)
  | inl asked ↦
      rw asked (ground (arith, asked, h, text_eq.beq_iff g.id group), omits gs requested group h)
]

selected_groups_omits :
    (groups : List RunnerGroup) (requested : List Text) (group : Text)
    → requested ≢ []
    → contains [] requested ≡ false
    → contains group requested ≡ false
    → All (λ g. (g.id == group) ≡ false) (selected_groups groups requested)
unfolding selected_groups
selected_groups_omits groups [] group n e m = ground (arith, n)
selected_groups_omits groups (r ∷ rs) group n e m = rw e (omits groups (r ∷ rs) group m)

-- The pass after the end of this one, up to the second drain, with nothing else in between.
abbrev pub next_pass : List Text → Loop → Loop
next_pass errors t = drain reconciling (count_start (drain counting (finish errors t)))

-- Which groups a pass that starts with no group requested selects, by the signals that wait.
abbrev pub IsSelected : List Text → List RunnerGroup → List RunnerGroup → Type 0
IsSelected waiting groups selected =
    ((waiting ≡ []) × (selected ≡ groups))
    ⊎ ((contains [] waiting ≡ true) × (selected ≡ groups))
    ⊎ ((waiting ≢ [])
        × (contains [] waiting ≡ false)
        × (selected ≡ filter (λ g. contains g.id waiting) groups))

selected_groups-IsSelected :
    (groups : List RunnerGroup) (waiting : List Text)
    → IsSelected waiting groups
        (selected_groups groups (merge_requested_groups (merge_requested_groups [] waiting) []))
unfolding selected_groups merge_requested_groups
selected_groups-IsSelected groups [] = inl (refl, refl)
selected_groups-IsSelected groups (w ∷ ws) = elim (Bool-cases (contains [] (w ∷ ws))) [
  | inl whole ↦ inr (inl (whole, rw whole refl))
  | inr named ↦ inr (inr ((λ e. cc), named, rw named refl))
]

-- A trigger that is counted in a reachable state after the pass has read the counter is not
-- forgotten: whatever happens until the pass ends, its end starts another one, with no group
-- requested. If nothing else comes in until that pass selects its groups, it selects all of them
-- where no signal waits in the channel or a waiting one names no group, and otherwise only the
-- groups that a waiting signal names, which need not include the group of the trigger.
pub trigger_in_pass :
    (capacity : ℕ) (s t : Loop) (group : Text) (groups : List RunnerGroup) (errors : List Text)
    → Reachable capacity s
    → in_pass s.phase ≡ true
    → Steps (count_trigger group s) t
    → ((finish errors t).phase ≡ draining)
      × ((finish errors t).running ≡ true)
      × ((finish errors t).requested ≡ [])
      × IsSelected t.trigger_ch groups (selected_groups groups (next_pass errors t).requested)
unfolding finish rerun count_trigger drain count_start
trigger_in_pass capacity s t group groups errors r h ss =
    let v = Reachable-IsValid capacity s r in
    let moved = Steps-InPass ss h in
    let stale = overtaken s.start_seq s.seq t.start_seq t.seq v.not_ahead moved.1 moved.2 in
    (
      ground (arith, stale),
      ground (arith, stale),
      ground (arith, stale),
      rw stale (selected_groups-IsSelected groups t.trigger_ch),
    )

-- A trigger for a group that is counted while a pass for other groups has begun but not yet read
-- the counter is lost: with an empty channel the pass leaves the group out, and it ends idle with
-- no signal in the channel and no new sender.
pub trigger_before_count_lost :
    (s : Loop) (groups : List RunnerGroup) (group : Text) (errors : List Text)
    → s.phase ≡ counting
    → s.running ≡ true
    → s.trigger_ch ≡ []
    → s.requested ≢ []
    → contains [] s.requested ≡ false
    → contains group s.requested ≡ false
    → let pass = drain reconciling (count_start (count_trigger group s)) in
      All (λ g. (g.id == group) ≡ false) (selected_groups groups pass.requested)
      × ((finish errors pass).phase ≡ idle)
      × ((finish errors pass).trigger_ch ≡ [])
      × ((finish errors pass).senders ≡ s.senders)
unfolding drain count_start count_trigger finish rerun merge_requested_groups
trigger_before_count_lost s groups group errors p r c n e m =
    rw (c, r) (selected_groups_omits groups s.requested group n e m, ground arith, refl, refl)
