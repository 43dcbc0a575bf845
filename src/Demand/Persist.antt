-- ===== src/Demand/Persist.antt =====
-- internal/demand/tracker.go, persistLocked: the state is written to a temporary file that is then
-- renamed over the old one. Which of the calls into the operating system fail is an argument.
use gh_runner_scaler.Prelude.{
  ◌≡◌, ◌≢◌, ◌⊎◌, Bool, Option, none, some, true, arith, if◌then◌else◌, nat_eq, text_eq,
}

pub data PersistError : Type 0 where
  create_directory encode create_temp chmod write sync close replace : PersistError

-- Which calls of one run fail.
pub record Faults : Type 0 where
  pub mkdir_all : Bool
  pub create_temp : Bool
  pub chmod : Bool
  pub write : Bool
  pub sync : Bool
  pub close : Bool
  pub rename : Bool
  pub remove : Bool

-- The state file, and the temporary file of the last call that made one, while it is there. Each
-- call makes one under a new name.
pub record Files (Bytes : Type 0) : Type 0 where
  pub target : Option Bytes
  pub temp : Option Bytes

module _ {Bytes : Type 0} where
  -- defer os.Remove(tmpPath), whose error is ignored
  remove_temp : Faults → Files Bytes → Files Bytes
  remove_temp faults f = if faults.remove then f else record f { temp = none }

  -- From the temporary file's creation on. The content written is visible in the temporary file,
  -- whichever later call fails.
  write_temp : Faults → Bytes → Bytes → Files Bytes → Files Bytes × Option PersistError
  unfolding remove_temp
  write_temp faults empty bytes files =
      let created : Files Bytes = record files { temp = some empty } in
      let written : Files Bytes = record files { temp = some bytes } in
      let renamed : Files Bytes = record { target = some bytes; temp = none } in
      if faults.chmod
      then (remove_temp faults created, some chmod)
      else if faults.write
      then (remove_temp faults created, some write)
      else if faults.sync
      then (remove_temp faults written, some sync)
      else if faults.close
      then (remove_temp faults written, some close)
      else if faults.rename
      then (remove_temp faults written, some replace)
      else (remove_temp faults renamed, none)

  -- `encoded` is what json.MarshalIndent gives for the state, `none` for its error.
  unfoldable pub persist_locked :
      Faults → Bytes → Option Bytes → Files Bytes → Files Bytes × Option PersistError
  unfolding write_temp
  persist_locked faults empty encoded files =
      if faults.mkdir_all then (files, some create_directory) else elim encoded [
        | none ↦ (files, some encode)
        | some bytes ↦
            if faults.create_temp
            then (files, some create_temp)
            else write_temp faults empty bytes files
      ]

  -- The write is atomic: with an error the old state file is as it was, and a temporary file of the
  -- call is left behind only if its removal fails too; without one the state file holds the whole
  -- new state and no temporary file is left.
  pub persist_locked_atomic :
      (faults : Faults) (empty : Bytes) (encoded : Option Bytes) (files : Files Bytes)
      → let (after, failure) = persist_locked faults empty encoded files in
        (((failure ≡ none) × (encoded ≢ none) × (after.target ≡ encoded) × (after.temp ≡ none))
          ⊎ ((failure ≢ none)
              × (after.target ≡ files.target)
              × ((faults.remove ≡ true) ⊎ (after.temp ≡ none) ⊎ (after.temp ≡ files.temp))))
  unfolding persist_locked remove_temp
  persist_locked_atomic faults empty encoded files = ground arith
