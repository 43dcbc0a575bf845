-- ===== src/Daemon/SeenCache/Delivery.antt =====
-- internal/daemon/seen_cache.go: nothing is delivered twice while the cache remembers it.
use gh_runner_scaler.Prelude.{
  ℕ, ◌+◌, ◌≤◌, ◌≡◌, refl, sym, ap, ◌∙◌, inl, inr, true, false, not, ◌&&◌, ◌||◌, some, List, [], ◌∷◌,
  ◌++◌, arith, ltb, Bool-cases, length, length-append, beq_refl, nat_eq, Text, text_eq, contains,
  IsNodup, remove, contains-append, contains-remove, append-IsNodup,
}
use gh_runner_scaler.Daemon.SeenCache.{
  SeenCache, new_seen_cache, fresh_items, filter_new, record_keys, trim_keys, trim, mark_delivered,
  add_keys, load, persisted,
}

-- The set of keys is that of the order, and the order has each key once.
pub record IsSynced (keys order : List Text) : Type 0 where
  pub same : (k : Text) → contains k keys ≡ contains k order
  pub unique : IsNodup order

pub record IsValid (c : SeenCache) : Type 0 where
  pub synced : IsSynced c.keys c.order
  pub bounded : length c.order ≤ c.limit

remove_oldest-IsSynced :
    (oldest : Text) (keys order : List Text)
    → IsSynced keys (oldest ∷ order)
    → IsSynced (remove oldest keys) order
remove_oldest-IsSynced oldest keys order s = record {
  same = λ k.
      ground (arith, s.same k, contains-remove k oldest keys, s.unique.0, text_eq.beq_iff oldest k);
  unique = s.unique.1;
}

trim_keys-IsSynced :
    (limit : ℕ) (keys order : List Text)
    → IsSynced keys order
    → IsSynced (trim_keys limit keys order).0 (trim_keys limit keys order).1
      × (length (trim_keys limit keys order).1 ≤ limit)
trim_keys-IsSynced limit keys [] s = (s, omega arith)
trim_keys-IsSynced limit keys (oldest ∷ order) s =
    elim (Bool-cases (ltb limit (length (oldest ∷ order)))) [
      | inl over ↦ rw over (
          trim_keys-IsSynced limit (remove oldest keys) order
            (remove_oldest-IsSynced oldest keys order s))
      | inr fits ↦ rw fits (s, ground (arith, fits))
    ]

trim_keys_fits :
    (limit : ℕ) (keys order : List Text)
    → length order ≤ limit
    → trim_keys limit keys order ≡ (keys, order)
trim_keys_fits limit keys [] h = refl
trim_keys_fits limit keys (oldest ∷ order) h = ground (arith, h)

add-IsSynced :
    (k : Text) (keys order : List Text)
    → contains k keys ≡ false
    → IsSynced keys order
    → IsSynced (k ∷ keys) (order ++ k ∷ [])
add-IsSynced k keys order h s = record {
  same = λ j. ground (arith, s.same j, contains-append j order (k ∷ []));
  unique = append-IsNodup k order (sym (s.same k) ∙ h) s.unique;
}

contains-add_keys :
    (k : Text) (ks keys : List Text)
    → contains k (add_keys ks keys) ≡ (contains k keys || contains k ks)
contains-add_keys k [] keys = ground arith
contains-add_keys k (j ∷ ks) keys =
    ground
      (arith, contains-add_keys k ks keys, contains-add_keys k ks (j ∷ keys), text_eq.beq_iff j k)

contains-load :
    (k : Text) (stored : List Text) (limit : ℕ)
    → length stored ≤ limit
    → contains k (load (some stored) (new_seen_cache limit)).keys ≡ contains k stored
unfolding load trim new_seen_cache
contains-load k stored limit h =
    rw (trim_keys_fits limit (add_keys stored []) stored h) (contains-add_keys k stored [])

module _ {T : Type 0} (key : T → Text) where
  abbrev pub keys_of : List T → List Text
  keys_of [] = []
  keys_of (t ∷ ts) = key t ∷ keys_of ts

  record_keys-IsSynced :
      (items : List T) (c : SeenCache)
      → IsSynced c.keys c.order
      → IsSynced (record_keys key items c).keys (record_keys key items c).order
  unfolding record_keys
  record_keys-IsSynced [] c s = s
  record_keys-IsSynced (item ∷ items) c s = elim (Bool-cases (contains (key item) c.keys)) [
    | inl known ↦ rw known (record_keys-IsSynced items c s)
    | inr new ↦ rw new (record_keys-IsSynced items _ (add-IsSynced (key item) c.keys c.order new s))
  ]

  record_keys-limit : (items : List T) (c : SeenCache) → (record_keys key items c).limit ≡ c.limit
  unfolding record_keys
  record_keys-limit [] c = refl
  record_keys-limit (item ∷ items) c = elim (Bool-cases (contains (key item) c.keys)) [
    | inl known ↦ rw known (record_keys-limit items c)
    | inr new ↦ rw new (record_keys-limit items _)
  ]

  length-record_keys :
      (items : List T) (c : SeenCache)
      → length (record_keys key items c).order ≤ length c.order + length items
  unfolding record_keys
  length-record_keys [] c = omega arith
  length-record_keys (item ∷ items) c = elim (Bool-cases (contains (key item) c.keys)) [
    | inl known ↦ rw known (omega (arith, length-record_keys items c))
    | inr new ↦ rw new (
        omega (
          arith,
          length-record_keys items
              (record c { keys = key item ∷ c.keys; order = c.order ++ key item ∷ [] }),
          length-append c.order (key item ∷ []),
        ))
  ]

  pub contains-record_keys :
      (k : Text) (items : List T) (c : SeenCache)
      → contains k (record_keys key items c).keys
        ≡ (contains k c.keys || contains k (keys_of items))
  unfolding record_keys
  contains-record_keys k [] c = ground arith
  contains-record_keys k (item ∷ items) c = ground (
    arith,
    contains-record_keys k items c,
    contains-record_keys k items
        (record c { keys = key item ∷ c.keys; order = c.order ++ key item ∷ [] }),
    text_eq.beq_iff (key item) k,
  )

  -- Marking items as delivered keeps a valid cache valid: its set and its order hold the same keys,
  -- each once, and no more of them than the limit.
  pub mark_delivered-IsValid :
      (items : List T) (c : SeenCache) → IsValid c → IsValid (mark_delivered key items c)
  unfolding mark_delivered trim
  mark_delivered-IsValid items c v =
      let added = record_keys-IsSynced items c v.synced in
      let trimmed =
        trim_keys-IsSynced (record_keys key items c).limit (record_keys key items c).keys
          (record_keys key items c).order added in
      record { synced = trimmed.0; bounded = trimmed.1 }

  contains-fresh_items :
      (k : Text) (delivered batch_seen : List Text) (items : List T)
      → contains k (keys_of (fresh_items key delivered batch_seen items))
        ≡ (contains k (keys_of items) && not (contains k delivered || contains k batch_seen))
  unfolding fresh_items
  contains-fresh_items k delivered batch_seen [] = refl
  contains-fresh_items k delivered batch_seen (item ∷ items) = ground (
    arith,
    contains-fresh_items k delivered batch_seen items,
    contains-fresh_items k delivered (key item ∷ batch_seen) items,
    text_eq.beq_iff (key item) k,
  )

  fresh_items-IsNodup :
      (delivered batch_seen : List Text) (items : List T)
      → IsNodup (keys_of (fresh_items key delivered batch_seen items))
  unfolding fresh_items
  fresh_items-IsNodup delivered batch_seen [] = tt
  fresh_items-IsNodup delivered batch_seen (item ∷ items) = ground (
    arith,
    fresh_items-IsNodup delivered batch_seen items,
    fresh_items-IsNodup delivered (key item ∷ batch_seen) items,
    contains-fresh_items (key item) delivered (key item ∷ batch_seen) items,
    beq_refl (key item),
  )

  -- What is let through has each key once, and its keys are exactly those of the batch that the
  -- cache does not hold.
  pub filter_new_lem :
      (items : List T) (c : SeenCache)
      → IsNodup (keys_of (filter_new key c items))
        × ((k : Text)
            → contains k (keys_of (filter_new key c items))
              ≡ (contains k (keys_of items) && not (contains k c.keys)))
  unfolding filter_new
  filter_new_lem items c = (
    fresh_items-IsNodup c.keys [] items,
    λ k. ground (arith, contains-fresh_items k c.keys [] items),
  )

  nil_of_no_key : (items : List T) → ((k : Text) → contains k (keys_of items) ≡ false) → items ≡ []
  nil_of_no_key [] h = refl
  nil_of_no_key (item ∷ items) h = ground (arith, h (key item), beq_refl (key item))

  pub filter_new_nil :
      (items : List T) (c : SeenCache)
      → ((k : Text) → contains k (keys_of items) ≡ true → contains k c.keys ≡ true)
      → filter_new key c items ≡ []
  filter_new_nil items c h = nil_of_no_key (filter_new key c items) (λ k.
      elim (Bool-cases (contains k (keys_of items))) [
        | inl asked ↦ ground (arith, asked, h k asked, (filter_new_lem items c).1 k)
        | inr other ↦ ground (arith, other, (filter_new_lem items c).1 k)
      ])

  pub mark_delivered_room :
      (items : List T) (c : SeenCache)
      → length c.order + length items ≤ c.limit
      → mark_delivered key items c ≡ record_keys key items c
  unfolding mark_delivered trim
  mark_delivered_room items c room =
      let fits =
        trim_keys_fits (record_keys key items c).limit (record_keys key items c).keys
          (record_keys key items c).order
          (omega (arith, length-record_keys items c, record_keys-limit items c, room)) in
      ap (λ p. record (record_keys key items c) { keys = p.0; order = p.1 }) fits

  -- In a valid cache with room for them, items that are marked as delivered are not let through
  -- again, neither by this cache nor by one that is loaded after a restart from what it writes.
  pub filter_new-mark_delivered :
      (items : List T) (c : SeenCache)
      → IsValid c
      → length c.order + length items ≤ c.limit
      → (filter_new key (mark_delivered key items c) items ≡ [])
        × (filter_new key
              (load (some (persisted (mark_delivered key items c))) (new_seen_cache c.limit))
              items
            ≡ [])
  unfolding persisted
  filter_new-mark_delivered items c v room = rw (mark_delivered_room items c room) (
    filter_new_nil items _ (λ k asked. ground (arith, asked, contains-record_keys k items c)),
    filter_new_nil items _ (λ k asked. ground (
      arith,
      asked,
      contains-record_keys k items c,
      (record_keys-IsSynced items c v.synced).same k,
      contains-load k (record_keys key items c).order c.limit
          (omega (arith, length-record_keys items c, room)),
    )),
  )
