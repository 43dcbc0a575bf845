-- ===== src/Wiring/Groups.antt =====
-- cmd/scaler/main.go with internal/config/config.go: what the daemon can rely on of its groups.
use gh_runner_scaler.Prelude.{
  ◌≡◌, refl, sym, ap, subst, ◌∙◌, ◌≢◌, Bool, true, false, List, [], ◌∷◌, arith, All, nat_eq, Text,
  text_eq, IsNodup,
}
use gh_runner_scaler.Prelude.Dict.{Dict}
use gh_runner_scaler.Prelude.Results.{valid, and_then_valid}
use gh_runner_scaler.Config.{RunnerClass, Config}
use gh_runner_scaler.Config.Target.{is_blank}
use gh_runner_scaler.Config.Classes.{runner_class_configs}
use gh_runner_scaler.Config.Classes.Runnable.{IsRunnable}
use gh_runner_scaler.Config.Validate.{validate}
use gh_runner_scaler.Config.Sound.{ids, prefixes, IsSound, validate-IsSound}
use gh_runner_scaler.Wiring.{
  Makers, WiredGroup, for_class, wire_runtime_and_cache, wire_ci_provider, wire_state, state_dir_of,
  runner_group, reconciler_config, wire_class, wire_classes, wire_runner_groups,
}

abbrev pub group_ids : List WiredGroup → List Text
group_ids [] = []
group_ids (w ∷ ws) = w.group.id ∷ group_ids ws

abbrev pub group_prefixes : List WiredGroup → List Text
group_prefixes [] = []
group_prefixes (w ∷ ws) = w.group.prefix ∷ group_prefixes ws

-- A group with a name and a prefix, which its reconciler shares with it.
pub record IsNamed (w : WiredGroup) : Type 0 where
  pub identified : is_blank w.group.id ≡ false
  pub prefixed : is_blank w.group.prefix ≡ false
  pub same_prefix : w.reconciler.prefix ≡ w.group.prefix
  pub same_baseline : w.reconciler.baseline_name ≡ w.group.baseline_name

pub record IsRouted (groups : List WiredGroup) : Type 0 where
  pub nonempty : groups ≢ []
  pub unique_ids : IsNodup (group_ids groups)
  pub unique_prefixes : IsNodup (group_prefixes groups)
  pub named : All IsNamed groups

-- The group of a class.
record IsWiredFrom (cfg : Config) (class : RunnerClass) (w : WiredGroup) : Type 0 where
  grouped : w.group ≡ runner_group class
  configured : w.reconciler ≡ reconciler_config cfg class

wire_class-IsWiredFrom :
    (makers : Makers) (cfg : Config) (class : RunnerClass) (providers after : Dict Text Text)
    (w : WiredGroup)
    → wire_class makers cfg class providers ≡ valid (w, after)
    → IsWiredFrom cfg class w
unfolding wire_class
wire_class-IsWiredFrom makers cfg class providers after w h =
    let runtime =
      and_then_valid (for_class class (wire_runtime_and_cache makers cfg class)) _ (w, after) h in
    let (ci, made, rest) =
      and_then_valid (for_class class (wire_ci_provider cfg class providers)) _ (w, after)
        runtime.2 in
    let state =
      and_then_valid (for_class class (wire_state makers cfg (state_dir_of cfg class))) _ (w, after)
        rest in
    record { grouped = ground (arith, state.2); configured = ground (arith, state.2) }

abbrev AreWiredFrom : Config → List RunnerClass → List WiredGroup → Type 0
AreWiredFrom cfg [] ws = ws ≡ []
AreWiredFrom cfg (class ∷ classes) [] = false ≡ true
AreWiredFrom cfg (class ∷ classes) (w ∷ ws) = IsWiredFrom cfg class w × AreWiredFrom cfg classes ws

wire_classes-AreWiredFrom :
    (makers : Makers) (cfg : Config) (classes : List RunnerClass) (providers : Dict Text Text)
    (ws : List WiredGroup)
    → wire_classes makers cfg classes providers ≡ valid ws
    → AreWiredFrom cfg classes ws
unfolding wire_classes
wire_classes-AreWiredFrom makers cfg [] providers ws h = ground (arith, h)
wire_classes-AreWiredFrom makers cfg (class ∷ classes) providers ws h =
    let ((w, after), made, more) = and_then_valid (wire_class makers cfg class providers) _ ws h in
    let (rest, found, last) = and_then_valid (wire_classes makers cfg classes after) _ ws more in
    let all_of : w ∷ rest ≡ ws = ground (arith, last) in
    subst (AreWiredFrom cfg (class ∷ classes)) all_of (
      wire_class-IsWiredFrom makers cfg class providers after w made,
      wire_classes-AreWiredFrom makers cfg classes after rest found,
    )

wired-ids :
    (cfg : Config) (classes : List RunnerClass) (ws : List WiredGroup)
    → AreWiredFrom cfg classes ws
    → (group_ids ws ≡ ids classes) × (group_prefixes ws ≡ prefixes classes)
unfolding runner_group
wired-ids cfg [] ws h = rw h (refl, refl)
wired-ids cfg (class ∷ classes) [] h = cc
wired-ids cfg (class ∷ classes) (w ∷ ws) h =
    let rest = wired-ids cfg classes ws h.1 in
    (
      ap (λ g. g.id ∷ group_ids ws) h.0.grouped ∙ ap (λ ks. class.id ∷ ks) rest.0,
      ap (λ g. g.prefix ∷ group_prefixes ws) h.0.grouped ∙ ap (λ ks. class.prefix ∷ ks) rest.1,
    )

wired-IsNamed :
    (cfg : Config) (classes : List RunnerClass) (ws : List WiredGroup)
    → AreWiredFrom cfg classes ws
    → All IsRunnable classes
    → All IsNamed ws
unfolding runner_group reconciler_config
wired-IsNamed cfg [] ws h r = rw h tt
wired-IsNamed cfg (class ∷ classes) [] h r = cc
wired-IsNamed cfg (class ∷ classes) (w ∷ ws) h r = (
  record {
    identified = ap (λ g. is_blank g.id) h.0.grouped ∙ r.0.identified;
    prefixed = ap (λ g. is_blank g.prefix) h.0.grouped ∙ r.0.prefixed;
    same_prefix = ap (λ k. k.prefix) h.0.configured ∙ sym (ap (λ g. g.prefix) h.0.grouped);
    same_baseline =
        ap (λ k. k.baseline_name) h.0.configured ∙ sym (ap (λ g. g.baseline_name) h.0.grouped);
  },
  wired-IsNamed cfg classes ws h.1 r.1,
)

wired-nonempty :
    (cfg : Config) (classes : List RunnerClass) (ws : List WiredGroup)
    → AreWiredFrom cfg classes ws
    → classes ≢ []
    → ws ≢ []
wired-nonempty cfg [] ws h n = λ e. n refl
wired-nonempty cfg (class ∷ classes) [] h n = cc
wired-nonempty cfg (class ∷ classes) (w ∷ ws) h n = λ e. cc

pub wire_runner_groups-IsRouted :
    (is_absolute_url : Text → Bool) (makers : Makers) (cfg checked : Config)
    (groups : List WiredGroup) (target : Text)
    → validate is_absolute_url cfg ≡ valid checked
    → wire_runner_groups makers checked ≡ valid (groups, target)
    → IsRouted groups
unfolding wire_runner_groups
wire_runner_groups-IsRouted is_absolute_url makers cfg checked groups target v h =
    let (sound_classes, resolved, sound) = validate-IsSound is_absolute_url cfg checked v in
    let (classes, found, more) =
      and_then_valid (runner_class_configs checked) _ (groups, target) h in
    let (ws, wired, last) =
      and_then_valid (wire_classes makers checked classes []) _ (groups, target) more in
    let same_groups : ws ≡ groups = ground (arith, last) in
    let same_classes : sound_classes ≡ classes = ground (arith, resolved, found) in
    let sound_of : IsSound classes = subst IsSound same_classes sound in
    let from = wire_classes-AreWiredFrom makers checked classes [] ws wired in
    let keys_of_groups = wired-ids checked classes ws from in
    subst IsRouted same_groups (record {
      nonempty = wired-nonempty checked classes ws from sound_of.nonempty;
      unique_ids = subst IsNodup (sym keys_of_groups.0) sound_of.unique_ids;
      unique_prefixes = subst IsNodup (sym keys_of_groups.1) sound_of.unique_prefixes;
      named = wired-IsNamed checked classes ws from sound_of.runnable;
    })
