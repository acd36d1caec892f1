-- ===== src/ControlPlane/Platform/Keys.antt =====
-- The idempotency keys of the reports to the panel.
use cpanelde.Prelude.{
  ℕ, zero, suc, ◌≡◌, ap, sym, ◌∙◌, Bool, true, false, List, [], ◌∷◌, ◌++◌, Option, none, some,
  nat_eq, get_elem?, All, Bool-cases, inl, inr,
}
use cpanelde.ControlPlane.Platform.{
  ApplicationResult, Devices, Content, devices_at, Sent, DeviceReport, PlatformControl, new_control,
  flush_applications, report_application, normalized, same_devices, stage_devices, after_confirm,
  device_sent, with_device, send_devices, report_devices,
}
use cpanelde.ControlPlane.Platform.Filed.{
  Filed, Consistent, extend, Filed-new, All-extend, flush-Consistent, report-Consistent,
}

-- A history of the reporter with the requests that it has sent.
pub data Life : PlatformControl → List Sent → Type 0 where
  started : Life new_control []
  reported :
      {p : PlatformControl} {log : List Sent} (r : ApplicationResult) (now : ℕ)
      (replies : List Bool)
      → Life p log
      → Life (report_application p r now replies).0 ((report_application p r now replies).1 ++ log)
  flushed :
      {p : PlatformControl} {log : List Sent} (replies : List Bool)
      → Life p log
      → Life (flush_applications p replies).0 ((flush_applications p replies).1 ++ log)
  listed :
      {p : PlatformControl} {log : List Sent} (devices : Option Devices) (now later : ℕ)
      (confirmed : Bool)
      → Life p log
      → Life
          (report_devices p devices now later confirmed).0
          ((report_devices p devices now later confirmed).1 ++ log)

-- The report of devices that a call works on.
stage-Consistent :
    (p : PlatformControl) (log : List Sent) (d : Option DeviceReport) (devices : Option Devices)
    (now : ℕ)
    → Consistent (with_device p (d, p.next_key)) log
    → Consistent (with_device p (stage_devices d p.next_key devices now)) log
unfolding stage_devices
stage-Consistent p log none none now c = c
stage-Consistent p log none (some devices) now c = record {
  file = extend c.file p.next_key (devices_at devices now);
  log_filed = All-extend c.file p.next_key _ log c.log_filed;
  pending_filed = All-extend c.file p.next_key _ p.pending_applications c.pending_filed;
  device_filed = Filed-new c.file p.next_key (devices_at devices now);
}
stage-Consistent p log (some r) none now c = c
stage-Consistent p log (some r) (some devices) now c =
    elim (Bool-cases (same_devices devices r.devices)) [
      | inl same ↦ rw (same, stage_devices) c
      | inr new ↦
          rw (new, stage_devices)
            (record {
              file = c.file;
              log_filed = c.log_filed;
              pending_filed = c.pending_filed;
              device_filed = c.device_filed;
            })
    ]

confirm-Consistent :
    (p : PlatformControl) (log : List Sent) (r : DeviceReport) (next : Option Devices)
    (key later : ℕ)
    → Consistent (with_device p (some r, key)) log
    → Consistent (with_device p (after_confirm r next key later)) log
confirm-Consistent p log r none key later c = record {
  file = c.file;
  log_filed = c.log_filed;
  pending_filed = c.pending_filed;
  device_filed = tt;
}
confirm-Consistent p log r (some devices) key later c = record {
  file = extend c.file key (devices_at devices later);
  log_filed = All-extend c.file key _ log c.log_filed;
  pending_filed = All-extend c.file key _ p.pending_applications c.pending_filed;
  device_filed = Filed-new c.file key (devices_at devices later);
}

logged-Consistent :
    (p : PlatformControl) (log : List Sent) (r : DeviceReport) (key : ℕ)
    → Consistent (with_device p (some r, key)) log
    → Consistent (with_device p (some r, key)) (device_sent r ∷ log)
logged-Consistent p log r key c = record {
  file = c.file;
  log_filed = (c.device_filed, c.log_filed);
  pending_filed = c.pending_filed;
  device_filed = c.device_filed;
}

send-Consistent :
    (p : PlatformControl) (log : List Sent) (d : Option DeviceReport) (key : ℕ) (confirmed : Bool)
    (later : ℕ)
    → Consistent (with_device p (d, key)) log
    → Consistent
        (send_devices p (d, key) confirmed later).0
        ((send_devices p (d, key) confirmed later).1 ++ log)
send-Consistent p log none key confirmed later c = c
send-Consistent p log (some r) key true later c =
    confirm-Consistent p (device_sent r ∷ log) r r.next key later (logged-Consistent p log r key c)
send-Consistent p log (some r) key false later c = logged-Consistent p log r key c

devices-Consistent :
    (p : PlatformControl) (log : List Sent) (devices : Option Devices) (now later : ℕ)
    (confirmed : Bool)
    → Consistent p log
    → Consistent
        (report_devices p devices now later confirmed).0
        ((report_devices p devices now later confirmed).1 ++ log)
unfolding report_devices
devices-Consistent p log devices now later confirmed c =
    go (stage_devices p.pending_device p.next_key (normalized devices) now) (
      stage-Consistent p log p.pending_device (normalized devices) now (record {
        file = c.file;
        log_filed = c.log_filed;
        pending_filed = c.pending_filed;
        device_filed = c.device_filed;
      }))
  where
    go :
        (s : Option DeviceReport × ℕ)
        → Consistent (with_device p s) log
        → Consistent
            (send_devices p s confirmed later).0
            ((send_devices p s confirmed later).1 ++ log)
    go (d, key) h = send-Consistent p log d key confirmed later h

Life-Consistent : {p : PlatformControl} {log : List Sent} → Life p log → Consistent p log
unfolding new_control
Life-Consistent started = record {
  file = λ k. devices_at [] 0;
  log_filed = tt;
  pending_filed = tt;
  device_filed = tt;
}
Life-Consistent (reported {p} {log} r now replies l) =
    report-Consistent p log r now replies (Life-Consistent l)
Life-Consistent (flushed {p} {log} replies l) = flush-Consistent p log replies (Life-Consistent l)
Life-Consistent (listed {p} {log} devices now later confirmed l) =
    devices-Consistent p log devices now later confirmed (Life-Consistent l)

nth-Filed :
    (file : ℕ → Content) (next : ℕ) (log : List Sent) (i : ℕ) (s : Sent)
    → All (Filed file next) log
    → get_elem? log i ≡ some s
    → s.content ≡ file s.key
nth-Filed file next [] i s a e = cc
nth-Filed file next (x ∷ log) zero s a e = cc (a.0.0, e)
nth-Filed file next (x ∷ log) (suc i) s a e = nth-Filed file next log i s a.1 e

-- Whatever is reported, confirmed or lost, and in whatever order, two requests that are sent under
-- one idempotency key have the same content, time included: a retry never changes what it repeats.
pub Life-keys :
    {p : PlatformControl} {log : List Sent} (i j : ℕ) (s t : Sent)
    → Life p log
    → get_elem? log i ≡ some s
    → get_elem? log j ≡ some t
    → s.key ≡ t.key
    → s.content ≡ t.content
Life-keys {p} {log} i j s t l at_i at_j same =
    let c = Life-Consistent l in
    nth-Filed c.file p.next_key log i s c.log_filed at_i
    ∙ ap c.file same
    ∙ sym (nth-Filed c.file p.next_key log j t c.log_filed at_j)
