-- ===== src/Daemon/Debounce.antt =====
-- internal/daemon/webhook.go: the debouncer. A timer is the key and the generation that its
-- function has captured; which timer runs out next is up to the caller. The critical sections are
-- the steps: `schedule`, the first half of the function of a timer (`fire`), and its second half,
-- after `fn` has returned (`finish`).
use gh_runner_scaler.Prelude.{
  ℕ, ◌+◌, ◌<◌, ◌≡◌, ◌≢◌, Bool, true, false, none, some, arith, nat_beq, if◌then◌else◌, beq_refl,
  nat_eq, Text, text_eq,
}
use gh_runner_scaler.Prelude.Dict.{Dict, get, put, delete, HasUniqueKeys, get-put, get-delete}

-- The generation of the entry of each key.
abbrev pub Timers : Type 0
Timers = Dict Text ℕ

abbrev pub generation_of : Text → Timers → ℕ
generation_of key timers = elim (get key timers) [ none ↦ 0 | some g ↦ g ]

-- The entries afterwards and the generation of the timer that was started.
unfoldable pub schedule : Text → Timers → Timers × ℕ
schedule key timers =
    let generation = generation_of key timers + 1 in (put key generation timers, generation)

abbrev pub is_current : Text → ℕ → Timers → Bool
is_current key generation timers = elim (get key timers) [
  | none ↦ false
  | some g ↦ nat_beq g generation
]

-- Whether `fn` is called, unless the context is done, and the entries while it runs.
unfoldable pub fire : Text → ℕ → Timers → Bool × Timers
fire key generation timers =
    if is_current key generation timers then (true, delete key timers) else (false, timers)

unfoldable pub finish : Text → ℕ → Timers → Timers
finish key generation timers =
    if is_current key generation timers then delete key timers else timers

-- What happens between a call of schedule for the key and the end of its timer, whose generation
-- is `bound`: anything for other keys, and for the key the two halves of timers of a smaller
-- generation.
pub data Step (key : Text) (bound : ℕ) : Timers → Timers → Type 0 where
  schedule_other :
      {timers : Timers} (other : Text)
      → other ≢ key
      → Step key bound timers ((schedule other timers).0)
  fire_other :
      {timers : Timers} (other : Text) (generation : ℕ)
      → other ≢ key
      → Step key bound timers ((fire other generation timers).1)
  finish_other :
      {timers : Timers} (other : Text) (generation : ℕ)
      → other ≢ key
      → Step key bound timers (finish other generation timers)
  fire_older :
      {timers : Timers} (generation : ℕ)
      → generation < bound
      → Step key bound timers ((fire key generation timers).1)
  finish_older :
      {timers : Timers} (generation : ℕ)
      → generation < bound
      → Step key bound timers (finish key generation timers)

pub data Steps (key : Text) (bound : ℕ) : Timers → Timers → Type 0 where
  stay : {timers : Timers} → Steps key bound timers timers
  after : {s t u : Timers} → Steps key bound s t → Step key bound t u → Steps key bound s u

Step-get :
    {key : Text} {bound : ℕ} {s t : Timers}
    → Step key bound s t
    → get key s ≡ some bound
    → get key t ≡ some bound
unfolding schedule fire finish
Step-get {key} {bound} {s} (schedule_other other d) h =
    ground (arith, h, get-put other key (generation_of other s + 1) s, text_eq.beq_iff other key)
Step-get {key} {bound} {s} (fire_other other generation d) h =
    ground (arith, h, get-delete other key s, text_eq.beq_iff other key)
Step-get {key} {bound} {s} (finish_other other generation d) h =
    ground (arith, h, get-delete other key s, text_eq.beq_iff other key)
Step-get {key} {bound} {s} (fire_older generation l) h = ground (arith, h, l)
Step-get {key} {bound} {s} (finish_older generation l) h = ground (arith, h, l)

Steps-get :
    {key : Text} {bound : ℕ} {s t : Timers}
    → Steps key bound s t
    → get key s ≡ some bound
    → get key t ≡ some bound
Steps-get stay h = h
Steps-get (after ss step) h = Step-get step (Steps-get ss h)

get-schedule :
    (key : Text) (timers : Timers) → get key (schedule key timers).0 ≡ some (schedule key timers).1
unfolding schedule
get-schedule key timers =
    ground (arith, get-put key key (generation_of key timers + 1) timers, beq_refl key)

pub fire_last :
    (key : Text) (timers later : Timers)
    → Steps key (schedule key timers).1 (schedule key timers).0 later
    → ((fire key (schedule key timers).1 later).0 ≡ true)
      × ((fire key (schedule key timers).1 later).1 ≡ delete key later)
      × ((smaller : ℕ)
          → smaller < (schedule key timers).1
          → (fire key smaller later ≡ (false, later)) × (finish key smaller later ≡ later))
unfolding fire finish
fire_last key timers later ss =
    let current = Steps-get ss (get-schedule key timers) in
    (
      ground (arith, current),
      ground (arith, current),
      λ smaller l. (ground (arith, current, l), ground (arith, current, l)),
    )

-- With unique keys and no entry for a key, a call of schedule that comes while the function of the
-- first timer of the key runs, with nothing else in between, is lost: the second half of the old
-- timer drops the new entry, and the new timer does not run its function.
pub schedule-finish_loses :
    (key : Text) (timers : Timers)
    → HasUniqueKeys timers
    → get key timers ≡ none
    → let first = schedule key timers in
      let running = (fire key first.1 first.0).1 in
      let second = schedule key running in
      (fire key second.1 (finish key first.1 second.0)).0 ≡ false
unfolding schedule fire finish
schedule-finish_loses key timers u h = ground (
  arith,
  h,
  get-put key key 1 timers,
  get-delete key key (put key 1 timers),
  get-put key key 1 (delete key (put key 1 timers)),
  get-delete key key (put key 1 (delete key (put key 1 timers))),
  beq_refl key,
)
