-- ===== src/Service/Pull/Keeps.antt =====
-- What the application of users and configurations leaves alone.
use cpanelde.Prelude.{
  ◌≡◌, refl, ◌∙◌, Bool, true, not, ◌&&◌, List, arith, if◌then◌else◌, Text, Option, none, some,
  nat_eq, text_eq, codes, is_some, Bool-cases, Option-cases, inl, inr, is_empty,
}
use cpanelde.Model.Types.{NodeSpec, UserSpec}
use cpanelde.Service.{Kernel, Service, report_application, no_users}
use cpanelde.Service.Users.{
  prepare_user_state, restore_user_state, confirm_application, started, start_kernel,
  start_or_restore, certificate_error, launched, concluded, update_stopped, updated,
  apply_user_update,
}
use cpanelde.Service.Pull.{PullResult, reloaded, apply_changes, with_users}

-- What must not change: the configuration and the revision that is wanted.
pub record Keeps {K : Type 0} (s t : Service K) : Type 0 where
  pub config : t.last_config ≡ s.last_config
  pub config_hash : t.last_config_hash ≡ s.last_config_hash
  pub revision : t.desired_revision ≡ s.desired_revision

pub Keeps-trans : {K : Type 0} (s t u : Service K) → Keeps s t → Keeps t u → Keeps s u
Keeps-trans s t u p q = record {
  config = q.config ∙ p.config;
  config_hash = q.config_hash ∙ p.config_hash;
  revision = q.revision ∙ p.revision;
}

pub report-Keeps :
    {K : Type 0} (s : Service K) (status stage : Text) (error : Option Text)
    → Keeps s (report_application s status stage error)
unfolding report_application
report-Keeps s status stage error = record {
  config = ground arith;
  config_hash = ground arith;
  revision = ground arith;
}

pub report_hash :
    {K : Type 0} (s : Service K) (status stage : Text) (error : Option Text)
    → (report_application s status stage error).last_user_hash ≡ s.last_user_hash
unfolding report_application
report_hash s status stage error = ground arith

module _ {K : Type 0} (k : Kernel K) (digest : Text → Text) (config_hash : NodeSpec → Text)
    (validate overrides : NodeSpec → Option Text) where
  pub confirm-Keeps : (s : Service K) → Keeps s (confirm_application k digest overrides s)
  unfolding confirm_application report_application
  confirm-Keeps s = record {
    config = ground arith;
    config_hash = ground arith;
    revision = ground arith;
  }

  pub confirm_hash :
      (s : Service K) → (confirm_application k digest overrides s).last_user_hash ≡ s.last_user_hash
  unfolding confirm_application report_application
  confirm_hash s = ground arith

  started-Keeps :
      (s : Service K) (nc : Option NodeSpec) (us : List UserSpec) (o : K × Option Text)
      → Keeps s (started k digest overrides s nc us o).0
  started-Keeps s nc us (kernel, none) = record {
    config = refl;
    config_hash = refl;
    revision = refl;
  }
  started-Keeps s nc us (kernel, some e) = record {
    config = refl;
    config_hash = refl;
    revision = refl;
  }

  restart-Keeps :
      (before s : Service K) (us : List UserSpec)
      → Keeps s (start_or_restore k digest overrides before s us)
  unfolding start_kernel restore_user_state
  restart-Keeps before s us =
      let p = started-Keeps s s.last_config us (k.start s.kernel s.last_config us) in
      record {
        config = ground (arith, p.config);
        config_hash = ground (arith, p.config_hash);
        revision = ground (arith, p.revision);
      }

  prepare-Keeps : (s : Service K) (us : List UserSpec) → Keeps s (prepare_user_state digest s us)
  unfolding prepare_user_state
  prepare-Keeps s us = record { config = refl; config_hash = refl; revision = refl }

  launched-Keeps : (s : Service K) (us : List UserSpec) → Keeps s (launched k digest overrides s us)
  launched-Keeps s us = elim (Bool-cases (not (no_users us) && is_some s.last_config)) [
    | inr idle ↦ rw idle (prepare-Keeps s us)
    | inl go ↦ rw go (
        Keeps-trans s (prepare_user_state digest s us) _ (prepare-Keeps s us)
          (restart-Keeps s (prepare_user_state digest s us) us))
  ]

  rehash-Keeps : (s : Service K) (hash : Text) → Keeps s (record s { last_user_hash = hash })
  rehash-Keeps s hash = record { config = refl; config_hash = refl; revision = refl }

  concluded-Keeps :
      (s : Service K) (us : List UserSpec) (hash : Text)
      → Keeps s (concluded k digest overrides s us hash)
  concluded-Keeps s us hash =
      elim (Bool-cases (not (is_empty hash) && (not (no_users us) && k.is_running s.kernel))) [
        | inr idle ↦ rw idle (record { config = refl; config_hash = refl; revision = refl })
        | inl go ↦ rw go (
            Keeps-trans s (record s { last_user_hash = hash }) _ (rehash-Keeps s hash)
              (confirm-Keeps (record s { last_user_hash = hash })))
      ]

  stopped-Keeps :
      (s : Service K) (us : List UserSpec) (hash : Text)
      → Keeps s (update_stopped k digest overrides s us hash)
  unfolding update_stopped
  stopped-Keeps s us hash = elim (Option-cases (certificate_error k digest overrides s us)) [
    | inl fine ↦
        rw (fine, update_stopped)
          (Keeps-trans s (launched k digest overrides s us) _ (launched-Keeps s us)
            (concluded-Keeps (launched k digest overrides s us) us hash))
    | inr (e, bad) ↦
        rw (bad, update_stopped)
          (let p =
              report-Keeps (record s { last_kernel_error = some e; reconcile_needed = true })
                (codes "failed") (codes "certificate") (some e) in
            record { config = p.config; config_hash = p.config_hash; revision = p.revision })
  ]

  updated-Keeps :
      (before s : Service K) (us : List UserSpec) (hash : Text) (o : K × Option Text)
      → Keeps s (updated k digest overrides before s us hash o)
  updated-Keeps before s us hash (kernel, none) =
      let p = confirm-Keeps (record s {
        kernel = kernel;
        last_user_hash = if not (is_empty hash) then hash else s.last_user_hash;
      }) in
      record { config = p.config; config_hash = p.config_hash; revision = p.revision }
  updated-Keeps before s us hash (kernel, some e) =
      let p = restart-Keeps before (record s { kernel = kernel }) us in
      record { config = p.config; config_hash = p.config_hash; revision = p.revision }

  pub update-Keeps :
      (s : Service K) (us : List UserSpec) (hash : Text)
      → Keeps s (apply_user_update k digest overrides s us hash)
  unfolding apply_user_update
  update-Keeps s us hash = elim (Bool-cases (k.is_running s.kernel)) [
    | inr stopped ↦ rw (stopped, apply_user_update) (stopped-Keeps s us hash)
    | inl running ↦
        rw (running, apply_user_update)
          (Keeps-trans s (prepare_user_state digest s us) _ (prepare-Keeps s us) (
            updated-Keeps s (prepare_user_state digest s us) us hash
              (k.update_users (prepare_user_state digest s us).kernel us)))
  ]

  reloaded-Keeps :
      (s : Service K) (o : K × Option Text)
      → Keeps s (reloaded k digest config_hash validate overrides s o).0
  reloaded-Keeps s (kernel, none) = record { config = refl; config_hash = refl; revision = refl }
  reloaded-Keeps s (kernel, some e) = record { config = refl; config_hash = refl; revision = refl }

  pub changes-Keeps :
      (s : Service K) → Keeps s (apply_changes k digest config_hash validate overrides s).0
  unfolding apply_changes start_kernel
  changes-Keeps s =
      let p = reloaded-Keeps s (k.reload s.kernel s.last_config s.last_users) in
      let q =
        started-Keeps s s.last_config s.last_users (k.start s.kernel s.last_config s.last_users) in
      record {
        config = ground (arith, p.config, q.config);
        config_hash = ground (arith, p.config_hash, q.config_hash);
        revision = ground (arith, p.revision, q.revision);
      }

  pub users-Keeps :
      (s : Service K) (r : PullResult) (changed : Bool) (us : Option (List UserSpec))
      → Keeps s (with_users k digest config_hash validate overrides s r changed us)
  users-Keeps s r changed none = record { config = refl; config_hash = refl; revision = refl }
  users-Keeps s r changed (some us) =
      let p = prepare-Keeps s us in
      let q = update-Keeps s us r.user_hash in
      record {
        config = ground (arith, p.config, q.config);
        config_hash = ground (arith, p.config_hash, q.config_hash);
        revision = ground (arith, p.revision, q.revision);
      }
