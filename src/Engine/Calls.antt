-- ===== src/Engine/Calls.antt =====
-- internal/iface: the calls that the engine makes to its providers. The providers are an environment
-- whose replies may depend on every call made before; what the engine does is a function from the
-- history of calls to a result and the longer history, newest call first.
use gh_runner_scaler.Prelude.{
  ℕ, ◌≡◌, refl, ◌⊎◌, inl, inr, Bool, Option, none, some, List, ◌∷◌, if◌then◌else◌, nat_eq, Text,
  text_eq,
}
use gh_runner_scaler.Domain.{ContainerStatus, Container, Runner}

-- The commands that the engine runs in a container.
pub data Command : Type 0 where
  service_stop service_uninstall service_install : Command
  config_remove : Text → Command
  -- url, token, name, labels, work directory, and whether the runner is ephemeral
  config_runner : Text → Text → Text → Text → Text → Bool → Command

pub data Call : Type 0 where
  -- iface.ContainerRuntime
  clone_from_template start_container stop_container delete_container : Text → Call
  exec_command : Text → Command → Call
  wait_for_ready : Text → List Text → ℕ → Call
  list_containers get_container_status : Text → Call
  -- iface.CacheManager
  attach_cache setup_cache_symlinks prune_cache : Text → Call
  -- iface.CIProvider, with the optional suspension of its inventory
  list_runners get_registration_token get_remove_token suspend_inventory resume_inventory : Call
  delete_runner : ℕ → Call
  -- iface.StateStore
  get_last_active create_state delete_state : Text → Call
  set_last_active : Text → ℕ → Call
  -- runnerobs.Bootstrapper, and time.Now
  prepare_observability : Text → Call
  read_clock : Call

abbrev pub History : Type 0
History = List Call

-- A reply with a value, or the message of an error.
pub data Reply (A : Type 0) : Type 0 where
  ok : A → Reply A
  err : Text → Reply A

pub record Env : Type 0 where
  -- the error, if any, of a call that returns nothing else that is used
  pub attempt : History → Call → Option Text
  pub runners : History → Reply (List Runner)
  pub registration_token : History → Reply Text
  pub remove_token : History → Reply Text
  pub containers : History → Text → Reply (List Container)
  pub status : History → Text → Reply ContainerStatus
  pub last_active : History → Text → Reply ℕ
  pub clock : History → ℕ
  pub registration_url : Text
  -- whether the provider can suspend its inventory
  pub can_suspend : Bool

abbrev pub M : Type 0 → Type 0
M A = History → A × History

unfoldable pub pure : {A : Type 0} → A → M A
pure a h = (a, h)

infixl 5 ◌>>=◌ ◌>>◌
unfoldable pub ◌>>=◌ : {R S : Type 0} (first : M R) (next : R → M S) → M S
unfolding pure
◌>>=◌ first next before = let (r, after) = first before in next r after

abbrev pub ◌>>◌ : {A B : Type 0} → M A → M B → M B
m >> n = m >>= λ _. n

-- if err := …; err != nil { return fail(err) }
unfoldable pub or_else : {A : Type 0} → Option Text → (Text → M A) → M A → M A
or_else none fail next = next
or_else (some e) fail next = fail e

unfoldable pub on_reply : {A B : Type 0} → Reply A → (Text → M B) → (A → M B) → M B
on_reply (ok a) fail next = next a
on_reply (err e) fail next = fail e

module _ (env : Env) where
  unfoldable pub perform : Call → M (Option Text)
  perform c h = (env.attempt h c, c ∷ h)

  unfoldable pub ask_runners : M (Reply (List Runner))
  ask_runners h = (env.runners h, list_runners ∷ h)

  unfoldable pub ask_registration_token : M (Reply Text)
  ask_registration_token h = (env.registration_token h, get_registration_token ∷ h)

  unfoldable pub ask_remove_token : M (Reply Text)
  ask_remove_token h = (env.remove_token h, get_remove_token ∷ h)

  unfoldable pub ask_containers : Text → M (Reply (List Container))
  ask_containers prefix h = (env.containers h prefix, list_containers prefix ∷ h)

  unfoldable pub ask_status : Text → M (Reply ContainerStatus)
  ask_status name h = (env.status h name, get_container_status name ∷ h)

  unfoldable pub ask_last_active : Text → M (Reply ℕ)
  ask_last_active name h = (env.last_active h name, get_last_active name ∷ h)

  unfoldable pub ask_clock : M ℕ
  ask_clock h = (env.clock h, read_clock ∷ h)

  -- suspendRunnerInventoryCache, resumeRunnerInventoryCache
  unfoldable pub suspend_runner_inventory_cache : M (Unit {0})
  suspend_runner_inventory_cache h =
      if env.can_suspend then (tt, suspend_inventory ∷ h) else (tt, h)

  unfoldable pub resume_runner_inventory_cache : M (Unit {0})
  resume_runner_inventory_cache h = if env.can_suspend then (tt, resume_inventory ∷ h) else (tt, h)

pub Reply-cases : {A : Type 0} (r : Reply A) → ((a : A) × (r ≡ ok a)) ⊎ ((t : Text) × (r ≡ err t))
Reply-cases (ok a) = inl (a, refl)
Reply-cases (err t) = inr (t, refl)
