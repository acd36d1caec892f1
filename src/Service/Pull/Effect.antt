-- ===== src/Service/Pull/Effect.antt =====
-- What the users and the kernel are after a result whose parts report no error.
use cpanelde.Prelude.{
  ℕ, ◌≡◌, ◌⊎◌, refl, sym, ap, ◌∙◌, Bool, true, false, not, ◌||◌, List, if◌then◌else◌, Text, Option,
  none, some, ◌==◌, nat_eq, text_eq, is_some, Bool-cases, inl, inr,
}
use cpanelde.Model.Types.{NodeSpec, UserSpec}
use cpanelde.Service.{Kernel, Service}
use cpanelde.Service.Users.{prepare_user_state, apply_user_update}
use cpanelde.Service.Pull.{
  PullResult, apply_changes, with_config, with_users, users_in_effect, apply_parts,
}
use cpanelde.Service.Pull.Keeps.{changes-Keeps, update-Keeps}
use cpanelde.Service.Kernels.{Configured, Authorized, StaysDown, taken, taken_back}
use cpanelde.Service.Pull.Taken.{Changed, changes-Changed, update-Updated}

abbrev pub brings_config : PullResult → Bool
brings_config r = r.cert_changed || is_some r.config

-- The users that are wanted: those of the result, if there are any and their hash is new.
abbrev pub replaced_users : Option (List UserSpec) → Bool → List UserSpec → List UserSpec
replaced_users none same old = old
replaced_users (some us) same old = if same then old else us

abbrev pub wanted_users : {K : Type 0} → PullResult → Service K → List UserSpec
wanted_users r before =
    replaced_users r.users (r.user_hash == before.last_user_hash) before.last_users

-- What the kernel takes of a result: a configuration, with the users; the users alone; or nothing.
pub data Took {K : Type 0} (k : Kernel K) (r : PullResult) (before : Service K)
    (c : Option NodeSpec) (us : List UserSpec) (after : K) : Type 0 where
  configured :
      brings_config r ≡ true → Configured k before.kernel c us after → Took k r before c us after
  authorized :
      brings_config r ≡ false
      → (r.user_hash == before.last_user_hash) ≡ false
      → r.users ≡ some us
      → Authorized k before.kernel c us after
      → Took k r before c us after
  unchanged :
      brings_config r ≡ false
      → (r.users ≡ none) ⊎ ((r.user_hash == before.last_user_hash) ≡ true)
      → after ≡ before.kernel
      → Took k r before c us after

abbrev pub Effect : {K : Type 0} → Kernel K → PullResult → Service K → Service K → Type 0
Effect k r before t =
    (t.last_users ≡ wanted_users r before) × Took k r before t.last_config t.last_users t.kernel

pub Effect-same :
    {K : Type 0} (k : Kernel K) (r : PullResult) (before t u : Service K)
    → u.kernel ≡ t.kernel
    → u.last_users ≡ t.last_users
    → u.last_config ≡ t.last_config
    → Effect k r before t
    → Effect k r before u
Effect-same k r before t u kernel users config (set, took) =
    (users ∙ set, rw (kernel, users, config) took)

-- The effect looks only at the kernel, the users and their hash from before.
pub Effect-begun :
    {K : Type 0} (k : Kernel K) (r : PullResult) (before t : Service K) (revision : ℕ)
    → Effect k r (record before { resync_pending = false; desired_revision = revision }) t
    → Effect k r before t
Effect-begun k r before t v (users, configured new h) = (users, configured new h)
Effect-begun k r before t v (users, authorized old fresh e h) = (users, authorized old fresh e h)
Effect-begun k r before t v (users, unchanged old why e) = (users, unchanged old why e)

Authorized-same :
    {K : Type 0} (k : Kernel K) (κ after : K) (c c' : Option NodeSpec) (us us' : List UserSpec)
    → c' ≡ c
    → us' ≡ us
    → Authorized k κ c us after
    → Authorized k κ c' us' after
Authorized-same k κ after c c' us us' f g h = rw (f, g) h

-- New users under another hash are not in effect.
not_in_effect :
    {A : Type 0} (o : Option (List UserSpec)) (us : List UserSpec) (hash x y : Text)
    → o ≡ some us
    → x ≡ y
    → (hash == y) ≡ false
    → (not (is_some o) || (hash == x)) ≡ true
    → A
not_in_effect o us hash x y e same fresh h = absurd (cc (rw (e, same, fresh) at h))

Configured-same :
    {K : Type 0} (k : Kernel K) (κ κ' after : K) (c c' : Option NodeSpec) (us us' : List UserSpec)
    → κ' ≡ κ
    → c' ≡ c
    → us' ≡ us
    → Configured k κ c us after
    → Configured k κ' c' us' after
Configured-same k κ κ' after c c' us us' e f g h = rw (e, f, g) h

module _ {K : Type 0} (k : Kernel K) (digest : Text → Text) (config_hash : NodeSpec → Text)
    (validate overrides : NodeSpec → Option Text) where
  -- With a new configuration the users only wait for it.
  waiting_users :
      (s : Service K) (r : PullResult) (o : Option (List UserSpec))
      → let t = with_users k digest config_hash validate overrides s r true o in
        (t.last_users ≡ replaced_users o (r.user_hash == s.last_user_hash) s.last_users)
        × (t.kernel ≡ s.kernel)
  unfolding prepare_user_state
  waiting_users s r none = (refl, refl)
  waiting_users s r (some us) = elim (Bool-cases (r.user_hash == s.last_user_hash)) [
    | inl same ↦ rw same (refl, refl)
    | inr fresh ↦ rw fresh (refl, refl)
  ]

  with_new_config :
      (s : Service K) (r : PullResult)
      → brings_config r ≡ true
      → let u = with_users k digest config_hash validate overrides s r true r.users in
        let (t, ok) = apply_changes k digest config_hash validate overrides u in
        ok ≡ true → Effect k r s t
  unfolding Changed
  with_new_config s r new ok =
      let u = with_users k digest config_hash validate overrides s r true r.users in
      let (users, same) = waiting_users s r r.users in
      let (kept, h, took) = changes-Changed k digest config_hash validate overrides u ok in
      let c = (changes-Keeps k digest config_hash validate overrides u).config in
      (kept ∙ users, configured new (Configured-same k _ _ _ _ _ _ _ (sym same) c kept took))

  FineEffect : Service K → PullResult → Service K → Type 0
  FineEffect s r t =
      users_in_effect k digest config_hash validate overrides t r ≡ true → Effect k r s t

  fresh_users :
      StaysDown k
      → (s : Service K) (r : PullResult) (us : List UserSpec) → r.users ≡ some us
      → brings_config r ≡ false
      → (r.user_hash == s.last_user_hash) ≡ false
      → FineEffect s r (apply_user_update k digest overrides s us r.user_hash)
  unfolding FineEffect
  fresh_users down s r us e old fresh fine =
      let t = apply_user_update k digest overrides s us r.user_hash in
      let c = (update-Keeps k digest config_hash validate overrides s us r.user_hash).config in
      elim (update-Updated k digest config_hash validate overrides down s us r.user_hash) [
        | taken set auth ↦ (
          set
              ∙ ap (λ b. replaced_users (some us) b s.last_users) (sym fresh)
              ∙ ap (λ o. replaced_users o (r.user_hash == s.last_user_hash) s.last_users) (sym e),
          authorized old fresh (e ∙ ap some (sym set)) (
              Authorized-same k s.kernel t.kernel s.last_config t.last_config us t.last_users c set
                auth),
        )
        | taken_back h ↦
            not_in_effect r.users us r.user_hash t.last_user_hash s.last_user_hash e h fresh fine
      ]

  same_users :
      (s : Service K) (r : PullResult) (us : List UserSpec)
      → r.users ≡ some us
      → brings_config r ≡ false
      → (r.user_hash == s.last_user_hash) ≡ true
      → FineEffect s r s
  unfolding FineEffect
  same_users s r us e old same fine = (
    ap (λ b. replaced_users (some us) b s.last_users) (sym same)
        ∙ ap (λ o. replaced_users o (r.user_hash == s.last_user_hash) s.last_users) (sym e),
    unchanged old (inr same) refl,
  )

  either_users :
      (s : Service K) (r : PullResult) (b : Bool) (t u : Service K)
      → (b ≡ true → FineEffect s r t)
      → (b ≡ false → FineEffect s r u)
      → FineEffect s r (if b then t else u)
  either_users s r true t u f g = f refl
  either_users s r false t u f g = g refl

  -- Without one they are handed to the kernel.
  users_alone :
      StaysDown k
      → (s : Service K) (r : PullResult) (o : Option (List UserSpec)) → r.users ≡ o
      → brings_config r ≡ false
      → FineEffect s r (with_users k digest config_hash validate overrides s r false o)
  unfolding FineEffect
  users_alone down s r none e old fine = (
    ap (λ o. replaced_users o (r.user_hash == s.last_user_hash) s.last_users) (sym e),
    unchanged old (inl e) refl,
  )
  users_alone down s r (some us) e old fine =
      either_users s r (r.user_hash == s.last_user_hash) s
        (apply_user_update k digest overrides s us r.user_hash) (same_users s r us e old)
        (fresh_users down s r us e old) fine

  -- What parts that report no error have done.
  Settled : Service K → PullResult → Service K × Bool → Type 0
  Settled s r (t, ok) = ok ≡ true → FineEffect s r t

  -- The configuration of a result is set before its users are looked at.
  with_config-Effect :
      (s t : Service K) (r : PullResult) (c : Option NodeSpec)
      → Effect k r (with_config k digest config_hash validate overrides s r c) t
      → Effect k r s t
  with_config-Effect s t r none h = h
  with_config-Effect s t r (some c) (users, configured new h) = (users, configured new h)
  with_config-Effect s t r (some c) (users, authorized old fresh e h) =
      (users, authorized old fresh e h)
  with_config-Effect s t r (some c) (users, unchanged old why e) = (users, unchanged old why e)

  parts_by :
      StaysDown k
      → (u : Service K) (r : PullResult) (b : Bool) → brings_config r ≡ b
      → let t = with_users k digest config_hash validate overrides u r b r.users in
        Settled u r
          (if b then apply_changes k digest config_hash validate overrides t else (t, true))
  unfolding Settled FineEffect
  parts_by down u r true e ok fine = with_new_config u r e ok
  parts_by down u r false e ok fine = users_alone down u r r.users refl e fine

  pub parts-Effect :
      StaysDown k
      → (s : Service K) (r : PullResult)
      → let (t, ok) = apply_parts k digest config_hash validate overrides s r in
        ok ≡ true
        → users_in_effect k digest config_hash validate overrides t r ≡ true
        → Effect k r s t
  unfolding Settled FineEffect
  parts-Effect down s r ok fine =
      with_config-Effect s (apply_parts k digest config_hash validate overrides s r).0 r r.config (
        parts_by down (with_config k digest config_hash validate overrides s r r.config) r
          (brings_config r) refl ok fine)
