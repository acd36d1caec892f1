-- ===== src/ControlPlane/Platform.antt =====
-- internal/controlplane/device_platform.go: the reports of applied revisions and of devices, which
-- are retried under their idempotency key until the panel confirms them. A key is a number that
-- `NewIdempotencyKey` has not given before. What the panel answers to each request is an argument:
-- true is a confirmation. The requests that were sent are returned, the last one first.

pub mod Filed
pub mod Keys
pub mod Queue
use cpanelde.Prelude.{
  ℕ, suc, ◌+◌, Bool, true, false, not, ◌||◌, ◌&&◌, List, [], ◌∷◌, ◌++◌, all, map, if◌then◌else◌,
  Text, Option, none, some, ◌==◌, nat_eq, text_eq, codes, Map, lookup, insert, keep_keys, ltb, leb,
}
use cpanelde.Prelude.Int.{ℤ, pos, negsuc}
use cpanelde.Prelude.Sorting.{sort_strings}

pub record ApplicationResult : Type 0 where
  pub revision : ℕ
  pub status : Text
  pub stage : Text
  pub error : Text

abbrev pub Devices : Type 0
Devices = Map ℕ (List Text)

-- What is sent under a key: an event with its time.
pub data Content : Type 0 where
  application : ApplicationResult → ℕ → Content
  devices_at : Devices → ℕ → Content

pub record Sent : Type 0 where
  pub key : ℕ
  pub content : Content

pub record DeviceReport : Type 0 where
  pub key : ℕ
  pub occurred_at : ℕ
  pub devices : Devices
  pub next : Option Devices

pub record PlatformControl : Type 0 where
  pub revision : ℕ
  pub application_last : Map ℕ ApplicationResult
  pub pending_applications : List Sent
  pub pending_device : Option DeviceReport
  pub next_key : ℕ

unfoldable pub new_control : PlatformControl
new_control = record {
  revision = 0;
  application_last = [];
  pending_applications = [];
  pending_device = none;
  next_key = 0;
}

-- The loop of `flushApplications`: the first request that fails ends it.
unfoldable pub send_pending : List Sent → List Bool → List Sent × List Sent
send_pending [] replies = ([], [])
send_pending (r ∷ rs) [] = (r ∷ rs, r ∷ [])
send_pending (r ∷ rs) (ok ∷ replies) =
    let (left, sent) = send_pending rs replies in
    if ok then (left, sent ++ r ∷ []) else (r ∷ rs, r ∷ [])

unfoldable pub flush_applications : PlatformControl → List Bool → PlatformControl × List Sent
flush_applications p replies =
    let (left, sent) = send_pending p.pending_applications replies in
    (record p { pending_applications = left }, sent)

abbrev pub same_result : ApplicationResult → ApplicationResult → Bool
same_result a b =
    (a.revision == b.revision)
    && ((a.status == b.status) && ((a.stage == b.stage) && (a.error == b.error)))

abbrev pub is_applied : ApplicationResult → Bool
is_applied r = r.status == codes "applied"

-- Whether the result repeats what was reported last for its revision.
abbrev pub is_repeated : Option ApplicationResult → ApplicationResult → Bool
is_repeated none r = false
is_repeated (some previous) r = same_result previous r || (r.status == codes "received")

-- The new entry, without those more than 8 revisions older.
abbrev pub remember : ApplicationResult → Map ℕ ApplicationResult → Map ℕ ApplicationResult
remember r m = keep_keys (λ revision. not (ltb (revision + 8) r.revision)) (insert r.revision r m)

abbrev pub enqueue : PlatformControl → ApplicationResult → ℕ → PlatformControl
enqueue p r now = record p {
  application_last = remember r p.application_last;
  pending_applications =
      p.pending_applications ++ record { key = p.next_key; content = application r now } ∷ [];
  next_key = suc p.next_key;
}

-- The highest revision that was applied.
abbrev pub raise_revision : PlatformControl → ApplicationResult → PlatformControl
raise_revision p r =
    if is_applied r && ltb p.revision r.revision then record p { revision = r.revision } else p

-- A revision that is not positive is the number 0.
unfoldable pub report_application :
    PlatformControl → ApplicationResult → ℕ → List Bool → PlatformControl × List Sent
report_application p r now replies =
    let q = raise_revision p r in
    if r.revision == 0
    then (p, [])
    else if not (is_applied r) && leb r.revision q.revision
    then (q, [])
    else if is_repeated (lookup r.revision q.application_last) r
    then flush_applications q replies
    else flush_applications (enqueue q r now) replies

-- The IPs of each user in order.
unfoldable pub clone_device_map : Devices → Devices
clone_device_map = map (λ e. (e.0, sort_strings e.1))

abbrev pub same_ips : List Text → List Text → Bool
same_ips [] [] = true
same_ips [] (b ∷ bs) = false
same_ips (a ∷ more) [] = false
same_ips (a ∷ more) (b ∷ bs) = (a == b) && same_ips more bs

abbrev pub has_entry : Option (List Text) → List Text → Bool
has_entry none ips = false
has_entry (some js) ips = same_ips js ips

abbrev pub within : Devices → Devices → Bool
within a b = all (λ e. has_entry (lookup e.0 b) e.1) a

-- reflect.DeepEqual on two maps.
unfoldable pub same_devices : Devices → Devices → Bool
same_devices a b = within a b && within b a

abbrev pub new_report : ℕ → Devices → ℕ → DeviceReport
new_report key devices now = record { key = key; occurred_at = now; devices = devices; next = none }

-- The report that the call works on, and the number of keys used.
unfoldable pub stage_devices :
    Option DeviceReport → ℕ → Option Devices → ℕ → Option DeviceReport × ℕ
stage_devices none key none now = (none, key)
stage_devices none key (some devices) now = (some (new_report key devices now), suc key)
stage_devices (some r) key none now = (some r, key)
stage_devices (some r) key (some devices) now = (
  if same_devices devices r.devices then some r else some (record r { next = some devices }),
  key,
)

-- What a confirmation leaves: the snapshot that was kept aside gets a key of its own.
abbrev pub after_confirm : DeviceReport → Option Devices → ℕ → ℕ → Option DeviceReport × ℕ
after_confirm r none key later = (none, key)
after_confirm r (some devices) key later = (some (new_report key devices later), suc key)

abbrev pub device_sent : DeviceReport → Sent
device_sent r = record { key = r.key; content = devices_at r.devices r.occurred_at }

abbrev pub with_device : PlatformControl → Option DeviceReport × ℕ → PlatformControl
with_device p (d, key) = record p { pending_device = d; next_key = key }

abbrev pub send_devices :
    PlatformControl → Option DeviceReport × ℕ → Bool → ℕ → PlatformControl × List Sent
send_devices p (none, key) confirmed later = (with_device p (none, key), [])
send_devices p (some r, key) confirmed later = (
  with_device p (if confirmed then after_confirm r r.next key later else (some r, key)),
  device_sent r ∷ [],
)

abbrev pub normalized : Option Devices → Option Devices
normalized none = none
normalized (some d) = some (clone_device_map d)

-- `now` is the time of a new report, `later` that of the next one after a confirmation.
unfoldable pub report_devices :
    PlatformControl → Option Devices → ℕ → ℕ → Bool → PlatformControl × List Sent
unfolding stage_devices
report_devices p devices now later confirmed =
    send_devices p (stage_devices p.pending_device p.next_key (normalized devices) now) confirmed
      later
