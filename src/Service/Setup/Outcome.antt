-- ===== src/Service/Setup/Outcome.antt =====
-- What the setup of a node service ends in.
use cpanelde.Prelude.{
  ℕ, ◌≡◌, ◌⊎◌, refl, arith, true, false, List, [], ◌∷◌, Text, Option, none, some, nat_eq, codes,
  inl, inr, ap, sym, ◌∙◌, ◌++◌, ◌==◌, if◌then◌else◌,
}
use cpanelde.Model.Types.{NodeSpec, UserSpec}
use cpanelde.ControlPlane.Platform.{ApplicationResult}
use cpanelde.Service.{Kernel, Service, report_application}
use cpanelde.Service.Users.{prepare_user_state, confirm_application, start_kernel, started}
use cpanelde.Service.Setup.{
  Bootstrap, Setup, initial_setup, validated, populated, certified, kernel_started, with_snapshot,
  mark_mailbox_ready_and_drain,
}

module _ {K : Type 0} (k : Kernel K) (digest : Text → Text) (config_hash : NodeSpec → Text)
    (validate overrides : NodeSpec → Option Text) where
  -- The stage at which a setup fails, with the error that is reported and the one that is returned.
  pub data Cause (kernel : K) (c : NodeSpec) (us : List UserSpec)
      : Text → Text → Text → Type 0 where
    invalid : {e : Text} → validate c ≡ some e → Cause kernel c us (codes "validate") e e
    uncertified :
        {e : Text}
        → validate c ≡ none
        → overrides c ≡ some e
        → Cause kernel c us (codes "certificate") e e
    not_started :
        {e : Text}
        → validate c ≡ none
        → overrides c ≡ none
        → (k.start kernel (some c) us).1 ≡ some e
        → Cause kernel c us (codes "kernel") e (codes "start kernel: " ++ e)

  -- The reports with a failure in front, if there is a revision to report.
  abbrev pub filed : List ApplicationResult → ℕ → Text → Text → List ApplicationResult
  filed reports r stage text =
      if r == 0
      then reports
      else record { revision = r; status = codes "failed"; stage = stage; error = text } ∷ reports

  -- The setup returns the error, and the failure is reported for a revision that is not 0.
  pub record Refused (s : Service K) (r : ℕ) (c : NodeSpec) (us : List UserSpec) (t : Setup K)
      : Type 0 where
    pub stage : Text
    pub text : Text
    pub shown : Text
    pub cause : Cause s.kernel c us stage text shown
    pub error : t.error ≡ some shown
    pub reports : t.service.reports ≡ filed s.reports r stage text

  -- The configuration and the users are in effect.
  pub record Started (s : Service K) (r : ℕ) (c : NodeSpec) (us : List UserSpec) (t : Setup K)
      : Type 0 where
    pub error : t.error ≡ none
    pub accepted : k.start s.kernel (some c) us ≡ (t.service.kernel, none)
    pub running : k.is_running t.service.kernel ≡ true
    pub config : (t.service.last_config ≡ some c) × (t.service.applied_config ≡ some c)
    pub users : (t.service.last_users ≡ us) × (t.service.applied_users ≡ us)
    pub no_poll : t.service.reconcile_needed ≡ false
    pub revision : (r ≡ 0) ⊎ (t.service.applied_revision ≡ r)

  -- There are no users: the kernel is left as it is, and a poll is asked for.
  pub record Waits (s : Service K) (c : NodeSpec) (us : List UserSpec) (t : Setup K) : Type 0 where
    pub error : t.error ≡ none
    pub users : (us ≡ []) × (t.service.last_users ≡ [])
    pub kernel : t.service.kernel ≡ s.kernel
    pub config : t.service.last_config ≡ some c
    pub poll : t.service.reconcile_needed ≡ true

  abbrev pub Outcome : Service K → ℕ → NodeSpec → List UserSpec → Setup K → Type 0
  Outcome s r c us t = Refused s r c us t ⊎ (Started s r c us t ⊎ Waits s c us t)

  reported :
      (s : Service K) (stage e : Text)
      → (report_application s (codes "failed") stage (some e)).reports
        ≡ filed s.reports s.desired_revision stage e
  unfolding report_application
  reported s stage e = ground arith

  confirmed :
      (s : Service K)
      → k.is_running s.kernel ≡ true
      → let t = confirm_application k digest overrides s in
        (t.kernel ≡ s.kernel)
        × (t.last_config ≡ s.last_config)
        × (t.applied_config ≡ s.applied_config)
        × (t.last_users ≡ s.last_users)
        × (t.applied_users ≡ s.applied_users)
        × (t.reconcile_needed ≡ false)
        × ((s.desired_revision ≡ 0) ⊎ (t.applied_revision ≡ s.desired_revision))
  unfolding confirm_application report_application
  confirmed s running = ground (arith, running)

  abbrev applying : Service K → ℕ → NodeSpec → List UserSpec → Service K
  applying s r c us =
      with_snapshot k digest config_hash validate overrides (record s { desired_revision = r }) c us

  certified-Outcome :
      (s : Service K) (r : ℕ) (c : NodeSpec) (us : List UserSpec)
      → validate c ≡ none
      → overrides c ≡ none
      → (o : K × Option Text) → k.start s.kernel (some c) us ≡ o
      → (o.1 ≡ none → k.is_running o.0 ≡ true)
      → Outcome s r c us (
          kernel_started k digest config_hash validate overrides
            (started k digest overrides (applying s r c us) (some c) us o)
            none)
  unfolding prepare_user_state mark_mailbox_ready_and_drain report_application
  certified-Outcome s r c us valid certain (kernel, some e) refused runs = inl (record {
    stage = codes "kernel";
    text = e;
    cause = not_started valid certain (ap (λ o. o.1) refused);
    shown = codes "start kernel: " ++ e;
    error = refl;
    reports =
        reported (started k digest overrides (applying s r c us) (some c) us (kernel, some e)).0
          (codes "kernel") e;
  })
  certified-Outcome s r c us valid certain (kernel, none) went runs =
      let (same, config, applied, users, applied_users, calm, revision) =
        confirmed (started k digest overrides (applying s r c us) (some c) us (kernel, none)).0
          (runs refl) in
      inr (
        inl (record {
          error = refl;
          accepted = went ∙ ap (λ κ. (κ, none)) (sym same);
          running = ap k.is_running same ∙ runs refl;
          config = (config, applied);
          users = (users, applied_users);
          no_poll = calm;
          revision = revision;
        }))

  launched-Outcome :
      (s : Service K) (r : ℕ) (c : NodeSpec) (us : List UserSpec)
      → validate c ≡ none
      → ((k.start s.kernel (some c) us).1 ≡ none
          → k.is_running (k.start s.kernel (some c) us).0 ≡ true)
      → (e : Option Text) → overrides c ≡ e
      → Outcome s r c us
          (certified k digest config_hash validate overrides (applying s r c us) c us none e)
  unfolding start_kernel prepare_user_state
  launched-Outcome s r c us valid runs (some e) bad = inl (record {
    stage = codes "certificate";
    text = e;
    cause = uncertified valid bad;
    shown = e;
    error = refl;
    reports = reported (applying s r c us) (codes "certificate") e;
  })
  launched-Outcome s r c us valid runs none fine =
      certified-Outcome s r c us valid fine (k.start s.kernel (some c) us) refl runs

  populated-Outcome :
      (s : Service K) (r : ℕ) (c : NodeSpec) (us : List UserSpec)
      → validate c ≡ none
      → ((k.start s.kernel (some c) us).1 ≡ none
          → k.is_running (k.start s.kernel (some c) us).0 ≡ true)
      → Outcome s r c us
          (populated k digest config_hash validate overrides (applying s r c us) c us none)
  unfolding mark_mailbox_ready_and_drain prepare_user_state
  populated-Outcome s r c [] valid runs = inr (
      inr
        (record { error = refl; users = (refl, refl); kernel = refl; config = refl; poll = refl }))
  populated-Outcome s r c (u ∷ us) valid runs =
      launched-Outcome s r c (u ∷ us) valid runs (overrides c) refl

  validated-Outcome :
      (s : Service K) (r : ℕ) (c : NodeSpec) (us : List UserSpec)
      → ((k.start s.kernel (some c) us).1 ≡ none
          → k.is_running (k.start s.kernel (some c) us).0 ≡ true)
      → (e : Option Text) → validate c ≡ e
      → Outcome s r c us (
          validated k digest config_hash validate overrides
            (record s { desired_revision = r })
            c
            us
            none
            e)
  validated-Outcome s r c us runs (some e) bad = inl (record {
    stage = codes "validate";
    text = e;
    cause = invalid bad;
    shown = e;
    error = refl;
    reports = reported (record s { desired_revision = r }) (codes "validate") e;
  })
  validated-Outcome s r c us runs none fine = populated-Outcome s r c us fine runs

  -- If the kernel runs after a start without an error, a setup with a configuration and no mailbox
  -- ends in one of three ways. Either it returns the error of the checks, the certificate or the
  -- kernel, and reports the failure if the revision is not 0; or it returns no error, the kernel
  -- has started with the configuration and the users, these are the current ones, with the
  -- revision, and no poll is asked for; or it returns no error, there are no users, the kernel is
  -- left as it is, and a poll is asked for.
  pub initial_setup-Outcome :
      (s : Service K) (b : Bootstrap) (c : NodeSpec)
      → b.config ≡ some c
      → b.mailbox ≡ none
      → ((k.start s.kernel (some c) b.users).1 ≡ none
          → k.is_running (k.start s.kernel (some c) b.users).0 ≡ true)
      → Outcome s b.revision c b.users (initial_setup k digest config_hash validate overrides s b)
  unfolding initial_setup
  initial_setup-Outcome s b c has_config alone runs =
      rw (has_config, alone, initial_setup)
        (validated-Outcome s b.revision c b.users runs (validate c) refl)
