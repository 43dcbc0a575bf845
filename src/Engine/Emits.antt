-- ===== src/Engine/Emits.antt =====
-- Which calls a computation adds to the history, one rule for each way to build one.
use gh_runner_scaler.Prelude.{
  ◌≡◌, refl, sym, ap, ◌∙◌, inl, inr, Bool, true, false, Option, none, some, [], ◌∷◌, ◌++◌,
  append_assoc, if◌then◌else◌, Bool-cases, All, All-append, nat_eq, Text, text_eq,
}
use gh_runner_scaler.Engine.Calls.{
  Call, list_containers, get_container_status, list_runners, get_registration_token,
  get_remove_token, suspend_inventory, resume_inventory, get_last_active, read_clock, History,
  Reply, ok, err, Env, M, ◌>>=◌, pure, or_else, on_reply, perform, ask_runners,
  ask_registration_token, ask_remove_token, ask_containers, ask_status, ask_last_active, ask_clock,
  suspend_runner_inventory_cache, resume_runner_inventory_cache,
}

-- `m` adds calls that all satisfy `P`.
pub record Emits {A : Type 0} (P : Call → Type 0) (m : M A) : Type 0 where
  pub at : (h : History) → (added : History) × ((m h).1 ≡ added ++ h) × All P added

All-map : {P Q : Call → Type 0} (h : History) → ((c : Call) → P c → Q c) → All P h → All Q h
All-map [] f a = tt
All-map (c ∷ h) f a = (f c a.0, All-map h f a.1)

module _ {A : Type 0} {P : Call → Type 0} where
  pub Emits-pure : (a : A) → Emits P (pure a)
  unfolding pure
  Emits-pure a = record { at = λ h. ([], refl, tt) }

  pub Emits-if :
      (b : Bool) (m n : M A)
      → (b ≡ true → Emits P m)
      → (b ≡ false → Emits P n)
      → Emits P (if b then m else n)
  Emits-if true m n km kn = km refl
  Emits-if false m n km kn = kn refl

  pub Emits-or_else :
      (e : Option Text) (fail : Text → M A) (next : M A)
      → ((t : Text) → Emits P (fail t))
      → Emits P next
      → Emits P (or_else e fail next)
  unfolding or_else
  Emits-or_else none fail next kf kn = kn
  Emits-or_else (some t) fail next kf kn = kf t

  pub Emits-weaken :
      {Q : Call → Type 0} (m : M A) → ((c : Call) → P c → Q c) → Emits P m → Emits Q m
  Emits-weaken m f k = record {
    at = λ h. let (added, e, a) = k.at h in (added, e, All-map added f a);
  }

module _ {A B : Type 0} {P : Call → Type 0} where
  pub Emits-bind :
      (m : M A) (f : A → M B) → Emits P m → ((a : A) → Emits P (f a)) → Emits P (m >>= f)
  unfolding ◌>>=◌
  Emits-bind m f km kf = record {
    at = λ h.
        let (first, e, a) = km.at h in
        let (second, e', a') = (kf (m h).0).at (m h).1 in
        (
          second ++ first,
          e' ∙ ap (λ t. second ++ t) e ∙ sym (append_assoc second first h),
          All-append P second first a' a,
        );
  }

  pub Emits-on_reply :
      (r : Reply A) (fail : Text → M B) (next : A → M B)
      → ((t : Text) → Emits P (fail t))
      → ((a : A) → Emits P (next a))
      → Emits P (on_reply r fail next)
  unfolding on_reply
  Emits-on_reply (ok a) fail next kf kn = kn a
  Emits-on_reply (err t) fail next kf kn = kf t

module _ {P : Call → Type 0} (env : Env) where
  pub Emits-perform : (c : Call) → P c → Emits P (perform env c)
  unfolding perform
  Emits-perform c p = record { at = λ h. (c ∷ [], refl, (p, tt)) }

  pub Emits-ask_runners : P list_runners → Emits P (ask_runners env)
  unfolding ask_runners
  Emits-ask_runners p = record { at = λ h. (list_runners ∷ [], refl, (p, tt)) }

  pub Emits-ask_registration_token : P get_registration_token → Emits P (ask_registration_token env)
  unfolding ask_registration_token
  Emits-ask_registration_token p = record { at = λ h. (get_registration_token ∷ [], refl, (p, tt)) }

  pub Emits-ask_remove_token : P get_remove_token → Emits P (ask_remove_token env)
  unfolding ask_remove_token
  Emits-ask_remove_token p = record { at = λ h. (get_remove_token ∷ [], refl, (p, tt)) }

  pub Emits-ask_containers : (n : Text) → P (list_containers n) → Emits P (ask_containers env n)
  unfolding ask_containers
  Emits-ask_containers n p = record { at = λ h. (list_containers n ∷ [], refl, (p, tt)) }

  pub Emits-ask_status : (n : Text) → P (get_container_status n) → Emits P (ask_status env n)
  unfolding ask_status
  Emits-ask_status n p = record { at = λ h. (get_container_status n ∷ [], refl, (p, tt)) }

  pub Emits-ask_last_active : (n : Text) → P (get_last_active n) → Emits P (ask_last_active env n)
  unfolding ask_last_active
  Emits-ask_last_active n p = record { at = λ h. (get_last_active n ∷ [], refl, (p, tt)) }

  pub Emits-ask_clock : P read_clock → Emits P (ask_clock env)
  unfolding ask_clock
  Emits-ask_clock p = record { at = λ h. (read_clock ∷ [], refl, (p, tt)) }

  pub Emits-suspend : P suspend_inventory → Emits P (suspend_runner_inventory_cache env)
  unfolding suspend_runner_inventory_cache
  Emits-suspend p = record {
    at = λ h. elim (Bool-cases env.can_suspend) [
      | inl e ↦ (suspend_inventory ∷ [], rw (e, suspend_runner_inventory_cache), (p, tt))
      | inr e ↦ ([], rw (e, suspend_runner_inventory_cache), tt)
    ];
  }

  pub Emits-resume : P resume_inventory → Emits P (resume_runner_inventory_cache env)
  unfolding resume_runner_inventory_cache
  Emits-resume p = record {
    at = λ h. elim (Bool-cases env.can_suspend) [
      | inl e ↦ (resume_inventory ∷ [], rw (e, resume_runner_inventory_cache), (p, tt))
      | inr e ↦ ([], rw (e, resume_runner_inventory_cache), tt)
    ];
  }

pub ruleset emits_rules = (
  Emits-pure, Emits-if, Emits-or_else, Emits-bind, Emits-on_reply, Emits-perform, Emits-ask_runners,
  Emits-ask_registration_token, Emits-ask_remove_token, Emits-ask_containers, Emits-ask_status,
  Emits-ask_last_active, Emits-ask_clock, Emits-suspend, Emits-resume,
)
