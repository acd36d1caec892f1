-- ===== src/Limiter/Rates.antt =====
-- The token buckets of internal/limiter against the speed limits of the users.
use cpanelde.Prelude.{
  ℕ, ◌≡◌, refl, ap, sym, ◌∙◌, true, false, ◌||◌, [], ◌∷◌, length, arith, if◌then◌else◌, Text,
  Option, none, some, ◌==◌, nat_eq, text_eq, Map, lookup, insert, has_key, ltb, lookup-insert,
  lookup-erase, lookup-keep_keys, UniqueKeys, Bool-cases, Option-cases, inl, inr, ◌⊎◌, eq_of_beq,
}
use cpanelde.Prelude.Int.{ℤ, pos, negsuc}
use cpanelde.Model.Types.{UserSpec}
use cpanelde.Limiter.Users.{is_positive, Filed}
use cpanelde.Limiter.Speed.{
  Bucket, SpeedTracker, refreshed, created, sync_user, sync_users, active_ids, update_buckets,
  install, wants_limit, get_limiter,
}

-- The cap that `GetLimiter` puts on the burst never applies: for every positive speed limit a
-- bucket is created with the rate and burst that `UpdateBuckets` would set.
pub created-refreshed : (speed : ℤ) → is_positive speed ≡ true → created speed ≡ refreshed speed
unfolding created refreshed
created-refreshed (pos n) p = ground arith
created-refreshed (negsuc n) p = cc

-- What a refresh makes of the bucket of a user.
abbrev pub resync : Option UserSpec → Option Bucket → Option Bucket
resync o none = none
resync none (some b) = none
resync (some u) (some b) =
    if is_positive u.speed_limit then some (refreshed u.speed_limit) else none

lookup-sync_user :
    (id : ℕ) (u : UserSpec) (b : Map ℕ Bucket)
    → lookup id (sync_user u b)
      ≡ (if id == u.id then resync (some u) (lookup id b) else lookup id b)
unfolding sync_user
lookup-sync_user id u b = elim (Bool-cases (id == u.id)) [
  | inl same ↦ rw (eq_of_beq id u.id same) (
      ground (arith, lookup-insert u.id u.id (refreshed u.speed_limit) b, lookup-erase u.id u.id b))
  | inr other ↦
      ground (arith, lookup-insert id u.id (refreshed u.speed_limit) b, lookup-erase id u.id b)
]

abbrev touched : Option UserSpec → Option Bucket → Option Bucket
touched none b = b
touched (some u) b = resync (some u) b

lookup-sync_users :
    (id : ℕ) (users : Map ℕ UserSpec) (b : Map ℕ Bucket)
    → UniqueKeys users
    → Filed users
    → lookup id (sync_users users b) ≡ touched (lookup id users) (lookup id b)
unfolding sync_users lookup
lookup-sync_users id [] b k f = refl
lookup-sync_users id ((n, u) ∷ users) b k f = elim (Bool-cases (id == n)) [
  | inl same ↦
      let absent = ap (λ j. lookup j users) (eq_of_beq id n same) ∙ k.0 in
      lookup-sync_users id users (sync_user u b) k.1 f.1
      ∙ ground (arith, same, absent, f.0, lookup-sync_user id u b)
  | inr other ↦
      lookup-sync_users id users (sync_user u b) k.1 f.1
      ∙ ground (arith, other, f.0, lookup-sync_user id u b)
]

has_key-active_ids :
    (id : ℕ) (users : Map ℕ UserSpec) (active : Map ℕ (Unit {0}))
    → Filed users
    → has_key id (active_ids users active) ≡ has_key id users || has_key id active
unfolding active_ids lookup
has_key-active_ids id [] active f = refl
has_key-active_ids id ((n, u) ∷ users) active f = ground (
  arith,
  has_key-active_ids id users (insert u.id tt active) f.1,
  lookup-insert id u.id tt active,
)

-- For users that are filed under their own ids, each once, after `UpdateBuckets` a bucket is there exactly for those users that had one and still have a
-- positive speed limit, and it is set to that limit.
pub lookup-update_buckets :
    (t : SpeedTracker) (users : Map ℕ UserSpec) (id : ℕ)
    → UniqueKeys users
    → Filed users
    → lookup id (update_buckets t users).buckets ≡ resync (lookup id users) (lookup id t.buckets)
unfolding update_buckets lookup
lookup-update_buckets t users id k f =
    lookup-keep_keys (λ n. has_key n (active_ids users [])) id (sync_users users t.buckets)
    ∙ ground (arith, has_key-active_ids id users [] f, lookup-sync_users id users t.buckets k f)

-- Every bucket is that of a user with a positive speed limit, and the flag says whether there are
-- any buckets.
pub record IsSynced (t : SpeedTracker) (users : Map ℕ UserSpec) : Type 0 where
  pub current : (id : ℕ) → resync (lookup id users) (lookup id t.buckets) ≡ lookup id t.buckets
  pub flag : t.has_limits ≡ ltb 0 (length t.buckets)

resync_idem : (o : Option UserSpec) (b : Option Bucket) → resync o (resync o b) ≡ resync o b
resync_idem none none = refl
resync_idem none (some b) = refl
resync_idem (some u) none = refl
resync_idem (some u) (some b) = ground arith

-- `UpdateBuckets` brings any tracker in step with users that are filed under their own ids, each
-- once.
pub update_buckets-IsSynced :
    (t : SpeedTracker) (users : Map ℕ UserSpec)
    → UniqueKeys users
    → Filed users
    → IsSynced (update_buckets t users) users
unfolding update_buckets
update_buckets-IsSynced t users k f = record {
  current = λ id.
      ap (resync (lookup id users)) (lookup-update_buckets t users id k f)
      ∙ resync_idem (lookup id users) (lookup id t.buckets)
      ∙ sym (lookup-update_buckets t users id k f);
  flag = refl;
}

length-insert-pos : (id : ℕ) (b : Bucket) (m : Map ℕ Bucket) → ltb 0 (length (insert id b m)) ≡ true
unfolding insert
length-insert-pos id b [] = refl
length-insert-pos id b ((n, c) ∷ m) = ground arith

-- The limiter that a user is entitled to by the tables.
abbrev pub entitled : SpeedTracker → Map ℕ UserSpec → Text → Option Bucket
entitled t users user = elim (lookup user t.uuid_map) [
  | none ↦ none
  | some uid ↦ elim (wants_limit (lookup uid users)) [
    | none ↦ none
    | some speed ↦ some (refreshed speed)
  ]
]

wants_limit-positive :
    (o : Option UserSpec) (speed : ℤ) → wants_limit o ≡ some speed → is_positive speed ≡ true
wants_limit-positive none speed e = cc
wants_limit-positive (some u) speed e = ground arith

resync-created :
    (o : Option UserSpec) (speed : ℤ)
    → wants_limit o ≡ some speed
    → resync o (some (created speed)) ≡ some (created speed)
resync-created none speed e = cc
resync-created (some u) speed e =
    ground (arith, created-refreshed u.speed_limit, created-refreshed speed)

module _ (t : SpeedTracker) (users : Map ℕ UserSpec) (s : IsSynced t users) (user : Text) where
  -- In step with the users, `GetLimiter` answers what the tables say, whether or not it finds a
  -- bucket that an earlier call has made.
  pub get_limiter-entitled : (get_limiter t users user).1 ≡ entitled t users user
  unfolding get_limiter install
  get_limiter-entitled = elim (Option-cases (lookup user t.uuid_map)) [
    | inl e ↦ ground (arith, e)
    | inr (uid, e) ↦ elim (Option-cases (lookup uid t.buckets)) [
      | inl missing ↦ elim (Option-cases (wants_limit (lookup uid users))) [
        | inl w ↦ ground (arith, e, missing, w)
        | inr (speed, w) ↦ ground (
          arith,
          e,
          missing,
          w,
          created-refreshed speed (wants_limit-positive (lookup uid users) speed w),
        )
      ]
      | inr (b, found) ↦ ground (arith, e, found, s.current uid)
    ]
  ]

  install-IsSynced :
      (uid : ℕ) (speed : ℤ)
      → lookup uid t.buckets ≡ none
      → wants_limit (lookup uid users) ≡ some speed
      → IsSynced (install t uid (created speed)).0 users
  unfolding install
  install-IsSynced uid speed missing w =
      rw (missing, install)
        (record {
          current = λ id. entry id (Bool-cases (id == uid));
          flag = sym (length-insert-pos uid (created speed) t.buckets);
        })
    where
      next : Map ℕ Bucket
      next = insert uid (created speed) t.buckets

      entry :
          (id : ℕ)
          → ((id == uid) ≡ true) ⊎ ((id == uid) ≡ false)
          → resync (lookup id users) (lookup id next) ≡ lookup id next
      entry id (inl same) = rw (eq_of_beq id uid same) (
          ground (
            arith,
            lookup-insert uid uid (created speed) t.buckets,
            resync-created (lookup uid users) speed w,
          ))
      entry id (inr other) =
          ground (arith, other, lookup-insert id uid (created speed) t.buckets, s.current id)

  -- And it stays in step.
  pub get_limiter-IsSynced : IsSynced (get_limiter t users user).0 users
  unfolding get_limiter
  get_limiter-IsSynced = elim (Option-cases (lookup user t.uuid_map)) [
    | inl e ↦ rw (e, get_limiter) s
    | inr (uid, e) ↦ elim (Option-cases (lookup uid t.buckets)) [
      | inl missing ↦ elim (Option-cases (wants_limit (lookup uid users))) [
        | inl w ↦ rw (e, get_limiter, missing, w) s
        | inr (speed, w) ↦ rw (e, get_limiter, missing, w) (install-IsSynced uid speed missing w)
      ]
      | inr (b, found) ↦ rw (e, get_limiter, found) s
    ]
  ]

-- Two callers that race to create the bucket of a user get the same one.
pub install_race :
    (t : SpeedTracker) (uid : ℕ) (a b : Bucket)
    → (install (install t uid a).0 uid b).1 ≡ (install t uid a).1
unfolding install
install_race t uid a b = elim (Option-cases (lookup uid t.buckets)) [
  | inl missing ↦ ground (arith, missing, lookup-insert uid uid a t.buckets)
  | inr (c, found) ↦ ground (arith, found)
]
