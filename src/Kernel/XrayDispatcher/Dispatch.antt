-- ===== src/Kernel/XrayDispatcher/Dispatch.antt =====
-- Whole calls of `Dispatch` and `DispatchLink` as steps of the dispatcher's history.
use cpanelde.Prelude.{ℕ, Bool, true, false, not, List, [], ◌∷◌, Text, some, Bool-cases, inl, inr}
use cpanelde.Kernel.XrayDispatcher.{
  LimitDispatcher, Flow, check_device_limit, identify_and_check, after_inner, dispatch,
  dispatch_link, link_after_check,
}
use cpanelde.Kernel.XrayDispatcher.Balance.{Life, let_in, turned_away, failed, tracked}

-- The flow of a user with a non-empty email.
abbrev pub flow : ℕ → Text → Text → Bool → Flow
flow c email ip is_tcp = record { email = c ∷ email; source_ip = ip; is_tcp = is_tcp }

-- The open links after a call that opened one or not.
abbrev pub opened : Bool → Flow → List Flow → List Flow
opened true f links = f ∷ links
opened false f links = links

module _ (d : LimitDispatcher) (pending links : List Flow) (c : ℕ) (email ip : Text) (is_tcp : Bool)
    (l : Life d pending links) where
  -- A call of Dispatch that returns a link adds that link to the open ones; a call that is rejected
  -- or whose wrapped dispatcher fails leaves nothing behind in the history, neither a flow on its
  -- way nor a link.
  pub dispatch-Life :
      (inner_ok : Bool)
      → Life (dispatch d (some (c ∷ email)) ip is_tcp inner_ok).0 pending (
          opened
            (dispatch d (some (c ∷ email)) ip is_tcp inner_ok).1
            (flow c email ip is_tcp)
            links)
  unfolding dispatch identify_and_check after_inner
  dispatch-Life inner_ok = elim (Bool-cases (check_device_limit d (c ∷ email) ip is_tcp).1) [
    | inl over ↦ rw over (turned_away (flow c email ip is_tcp) over l)
    | inr ok ↦ elim (Bool-cases inner_ok) [
      | inl fine ↦
          rw (ok, fine)
            (tracked (flow c email ip is_tcp) [] pending (let_in (flow c email ip is_tcp) ok l))
      | inr error ↦
          rw (ok, error)
            (failed (flow c email ip is_tcp) [] pending (let_in (flow c email ip is_tcp) ok l))
    ]
  ]

  -- A call of DispatchLink that the device limit rejects leaves no link and answers an error; every
  -- other one has its link tracked, also when the wrapped dispatcher fails.
  pub dispatch_link-Life :
      (inner_ok : Bool)
      → Life (dispatch_link d (some (c ∷ email)) ip is_tcp inner_ok).0 pending (
          opened
            (not (check_device_limit d (c ∷ email) ip is_tcp).1)
            (flow c email ip is_tcp)
            links)
  unfolding dispatch_link link_after_check identify_and_check
  dispatch_link-Life inner_ok = elim (Bool-cases (check_device_limit d (c ∷ email) ip is_tcp).1) [
    | inl over ↦ rw over (turned_away (flow c email ip is_tcp) over l)
    | inr ok ↦
        rw ok (tracked (flow c email ip is_tcp) [] pending (let_in (flow c email ip is_tcp) ok l))
  ]
