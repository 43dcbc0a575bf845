-- ===== src/Daemon/SeenCache.antt =====
-- internal/daemon/seen_cache.go: the keys that were delivered, in the order of their delivery. The
-- set of keys is a list used through membership only. The file is what the last write has left.
pub mod Delivery
use gh_runner_scaler.Prelude.{
  ℕ, Option, none, some, List, [], ◌∷◌, ◌++◌, ltb, if◌then◌else◌, length, nat_eq, Text, text_eq,
  contains, remove,
}

-- `order` is oldest first.
pub record SeenCache : Type 0 where
  pub limit : ℕ
  pub keys : List Text
  pub order : List Text

unfoldable pub new_seen_cache : ℕ → SeenCache
new_seen_cache limit = record { limit = limit; keys = []; order = [] }

module _ {T : Type 0} (key : T → Text) where
  -- The loop of filterNew with the keys seen so far in the batch.
  unfoldable pub fresh_items : List Text → List Text → List T → List T
  fresh_items delivered batch_seen [] = []
  fresh_items delivered batch_seen (item ∷ items) =
      let k = key item in
      let skipped = fresh_items delivered batch_seen items in
      let kept = fresh_items delivered (k ∷ batch_seen) items in
      if contains k delivered
      then skipped
      else if contains k batch_seen
      then skipped
      else item ∷ kept

  unfoldable pub filter_new : SeenCache → List T → List T
  filter_new c items = fresh_items c.keys [] items

  -- The loop of markDelivered.
  unfoldable pub record_keys : List T → SeenCache → SeenCache
  record_keys [] c = c
  record_keys (item ∷ items) c =
      let k = key item in
      let known = record_keys items c in
      let added = record_keys items (record c { keys = k ∷ c.keys; order = c.order ++ k ∷ [] }) in
      if contains k c.keys then known else added

-- The loop of trim: the oldest key goes until the limit is met.
abbrev pub trim_keys : ℕ → List Text → List Text → List Text × List Text
trim_keys limit keys [] = (keys, [])
trim_keys limit keys (oldest ∷ order) =
    let rest = trim_keys limit (remove oldest keys) order in
    if ltb limit (length (oldest ∷ order)) then rest else (keys, oldest ∷ order)

unfoldable pub trim : SeenCache → SeenCache
trim c =
    let (keys, order) = trim_keys c.limit c.keys c.order in record c { keys = keys; order = order }

unfoldable pub mark_delivered : {T : Type 0} → (T → Text) → List T → SeenCache → SeenCache
unfolding trim record_keys
mark_delivered key items c = trim (record_keys key items c)

-- The keys of a list, each once.
abbrev pub add_keys : List Text → List Text → List Text
add_keys [] keys = keys
add_keys (k ∷ ks) keys = add_keys ks (if contains k keys then keys else k ∷ keys)

-- What the file holds, `none` where there is no path, no file or no valid content.
unfoldable pub load : Option (List Text) → SeenCache → SeenCache
unfolding trim
load none c = c
load (some stored) c = trim (record c { keys = add_keys stored c.keys; order = stored })

-- What persistLocked writes, where it succeeds.
unfoldable pub persisted : SeenCache → List Text
persisted c = c.order
