-- ===== src/Service/Kernels.antt =====
-- What a kernel takes of what the service gives it, by the calls of internal/kernel/kernel.go.
use cpanelde.Prelude.{◌≡◌, ◌⊎◌, true, false, List, [], Text, Option, none, some, nat_eq, text_eq}
use cpanelde.Model.Types.{NodeSpec, UserSpec}
use cpanelde.Service.{Kernel, Service}

-- A kernel that takes a configuration and users: it is reloaded if it runs and started if not, and
-- reports no error; without users it is stopped, and without a configuration there is nothing to
-- take.
pub data Configured {K : Type 0} (k : Kernel K) (before : K) (c : Option NodeSpec)
    (us : List UserSpec) (after : K) : Type 0 where
  by_reload :
      k.is_running before ≡ true
      → k.reload before c us ≡ (after, none)
      → Configured k before c us after
  by_start :
      k.is_running before ≡ false
      → k.start before c us ≡ (after, none)
      → Configured k before c us after
  by_stop : us ≡ [] → after ≡ k.stop before → Configured k before c us after
  without_config : c ≡ none → after ≡ before → Configured k before c us after

-- A kernel that takes users: a running one updates them, or is started again when that fails; one
-- that does not run is started, unless there are no users or there is no configuration.
pub data Authorized {K : Type 0} (k : Kernel K) (before : K) (c : Option NodeSpec)
    (us : List UserSpec) (after : K) : Type 0 where
  by_update :
      k.is_running before ≡ true
      → k.update_users before us ≡ (after, none)
      → Authorized k before c us after
  by_restart :
      {failed : K} {e : Text}
      → k.is_running before ≡ true
      → k.update_users before us ≡ (failed, some e)
      → k.start failed c us ≡ (after, none)
      → Authorized k before c us after
  by_launch :
      k.is_running before ≡ false
      → k.start before c us ≡ (after, none)
      → Authorized k before c us after
  not_yet :
      k.is_running before ≡ false
      → (us ≡ []) ⊎ (c ≡ none)
      → after ≡ before
      → Authorized k before c us after

-- A kernel that does not run and fails to start does not run afterwards.
abbrev pub StaysDown : {K : Type 0} → Kernel K → Type 0
StaysDown {K} k =
    (κ : K) (c : Option NodeSpec) (us : List UserSpec) (e : Text)
    → k.is_running κ ≡ false
    → (k.start κ c us).1 ≡ some e
    → k.is_running (k.start κ c us).0 ≡ false

-- Users that the service has handed to the kernel, or that it has taken back.
pub data Updated {K : Type 0} (k : Kernel K) (s : Service K) (us : List UserSpec) (t : Service K)
    : Type 0 where
  taken : t.last_users ≡ us → Authorized k s.kernel s.last_config us t.kernel → Updated k s us t
  taken_back : t.last_user_hash ≡ s.last_user_hash → Updated k s us t
