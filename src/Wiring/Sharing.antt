-- ===== src/Wiring/Sharing.antt =====
-- cmd/scaler/main.go: which groups share an inventory of runners.
use gh_runner_scaler.Prelude.{
  ℕ, ◌≡◌, sym, ap, subst, ◌∙◌, ◌↔◌, inl, inr, Bool, false, some, List, [], ◌∷◌, arith, get_elem?,
  All, All-get_elem, some_injective, beq_refl, nat_eq, Text, text_eq, contains, IsNodup,
}
use gh_runner_scaler.Prelude.Dict.{Dict, get}
use gh_runner_scaler.Prelude.Results.{valid, and_then_valid}
use gh_runner_scaler.Config.{RunnerClass, Config}
use gh_runner_scaler.Config.Classes.{runner_class_configs}
use gh_runner_scaler.Config.Validate.{validate}
use gh_runner_scaler.Config.Sound.{ids, validate-IsSound}
use gh_runner_scaler.Wiring.{
  Makers, WiredGroup, github_target_cache_key, wire_class, wire_classes, wire_runner_groups,
}
use gh_runner_scaler.Wiring.Targets.{
  IsSameTarget, group_key, class-group_key, group_key-IsSameTarget, IsShared, wire_class_lem,
}

abbrev IsOneToOne : Dict Text Text → Type 0
IsOneToOne d = (j k o : Text) → get j d ≡ some o → get k d ≡ some o → j ≡ k

abbrev IsUnused : List Text → Dict Text Text → Type 0
IsUnused names d = (k o : Text) → get k d ≡ some o → contains o names ≡ false

-- The providers at the end, which every group finds its inventory in.
record IsShareOut (providers final : Dict Text Text) (ws : List WiredGroup) : Type 0 where
  one_to_one : IsOneToOne final
  extends : (k o : Text) → get k providers ≡ some o → get k final ≡ some o
  found : All (λ w. get (group_key w.group) final ≡ some w.ci.inventory) ws

shared-IsOneToOne :
    (key id owner : Text) (names : List Text) (providers after : Dict Text Text)
    → IsShared key id owner providers after
    → IsOneToOne providers
    → IsUnused (id ∷ names) providers
    → IsOneToOne after
shared-IsOneToOne key id owner names providers after s one unused j k o hj hk =
    elim (s.only j o hj) [
      | inl a ↦ elim (s.only k o hk) [
        | inl b ↦ one j k o a b
        | inr (e, f) ↦ ground (arith, unused j o a, f, beq_refl id)
      ]
      | inr (e, f) ↦ elim (s.only k o hk) [
        | inl b ↦ ground (arith, unused k o b, f, beq_refl id)
        | inr (g, i) ↦ e ∙ sym g
      ]
    ]

shared-IsUnused :
    (key id owner : Text) (names : List Text) (providers after : Dict Text Text)
    → IsShared key id owner providers after
    → contains id names ≡ false
    → IsUnused (id ∷ names) providers
    → IsUnused names after
shared-IsUnused key id owner names providers after s new_id unused k o h = elim (s.only k o h) [
  | inl a ↦ ground (arith, unused k o a)
  | inr (e, f) ↦ subst (λ x. contains x names ≡ false) (sym f) new_id
]

wire_classes-IsShareOut :
    (makers : Makers) (cfg : Config) (classes : List RunnerClass) (providers : Dict Text Text)
    (ws : List WiredGroup)
    → IsNodup (ids classes)
    → IsOneToOne providers
    → IsUnused (ids classes) providers
    → wire_classes makers cfg classes providers ≡ valid ws
    → (final : Dict Text Text) × IsShareOut providers final ws
unfolding wire_classes
wire_classes-IsShareOut makers cfg [] providers ws nodup one unused h =
    let same : [] ≡ ws = ground (arith, h) in
    (
      providers,
      subst (IsShareOut providers providers) same
          (record { one_to_one = one; extends = λ k o e. e; found = tt }),
    )
wire_classes-IsShareOut makers cfg (class ∷ classes) providers ws nodup one unused h =
    let key = github_target_cache_key class in
    let ((w, after), made, more) = and_then_valid (wire_class makers cfg class providers) _ ws h in
    let (rest, wired, last) = and_then_valid (wire_classes makers cfg classes after) _ ws more in
    let all_of : w ∷ rest ≡ ws = ground (arith, last) in
    let (grouped, shared) = wire_class_lem makers cfg class providers after w made in
    let (final, out) =
      wire_classes-IsShareOut makers cfg classes after rest nodup.1
        (shared-IsOneToOne key class.id w.ci.inventory (ids classes) providers after shared one
          unused)
        (shared-IsUnused key class.id w.ci.inventory (ids classes) providers after shared nodup.0
          unused)
        wired in
    let same_key : key ≡ group_key w.group = class-group_key class ∙ ap group_key (sym grouped) in
    (
      final,
      subst (IsShareOut providers final) all_of (record {
        one_to_one = out.one_to_one;
        extends = λ k o e. out.extends k o (shared.kept k o e);
        found = (
          subst (λ k. get k final ≡ some w.ci.inventory) same_key
              (out.extends key w.ci.inventory shared.held),
          out.found,
        );
      }),
    )

-- Of the groups that a validated configuration is wired into, two share an inventory of runners
-- exactly if their targets are both a repository or both an organisation, with the same name up to
-- case.
pub wire_runner_groups-IsSameTarget :
    (is_absolute_url : Text → Bool) (makers : Makers) (cfg checked : Config)
    (groups : List WiredGroup) (target : Text) (i j : ℕ) (v w : WiredGroup)
    → validate is_absolute_url cfg ≡ valid checked
    → wire_runner_groups makers checked ≡ valid (groups, target)
    → get_elem? groups i ≡ some v
    → get_elem? groups j ≡ some w
    → (v.ci.inventory ≡ w.ci.inventory) ↔ IsSameTarget v.group w.group
unfolding wire_runner_groups
wire_runner_groups-IsSameTarget is_absolute_url makers cfg checked groups target i j v w ok h vi
      wj =
    let (sound_classes, resolved, sound) = validate-IsSound is_absolute_url cfg checked ok in
    let (classes, found, more) =
      and_then_valid (runner_class_configs checked) _ (groups, target) h in
    let (ws, wired, last) =
      and_then_valid (wire_classes makers checked classes []) _ (groups, target) more in
    let same_groups : ws ≡ groups = ground (arith, last) in
    let same_classes : sound_classes ≡ classes = ground (arith, resolved, found) in
    let (final, out) =
      wire_classes-IsShareOut makers checked classes [] ws
        (subst (λ cs. IsNodup (ids cs)) same_classes sound.unique_ids)
        (λ k l o a b. ground (arith, a)) (λ k o a. ground (arith, a)) wired in
    let shares = subst (IsShareOut [] final) same_groups out in
    let of_v =
      All-get_elem (λ g. get (group_key g.group) final ≡ some g.ci.inventory) groups i v
        shares.found vi in
    let of_w =
      All-get_elem (λ g. get (group_key g.group) final ≡ some g.ci.inventory) groups j w
        shares.found wj in
    let (to_same, to_key) = group_key-IsSameTarget v.group w.group in
    (
      λ same. to_same (
          shares.one_to_one (group_key v.group) (group_key w.group) w.ci.inventory
            (of_v ∙ ap some same) of_w),
      λ same. some_injective (sym of_v ∙ ap (λ k. get k final) (to_key same) ∙ of_w),
    )
