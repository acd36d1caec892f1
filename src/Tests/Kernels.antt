-- ===== src/Tests/Kernels.antt =====
-- The dispatcher of xray and the outbounds of sing-box on small inputs.
use cpanelde.Prelude.{
  ℕ, ◌≡◌, refl, arith, true, false, not, ◌&&◌, List, [], ◌∷◌, Text, codes, Option, some, none,
  nat_eq, text_eq, keys, lookup, insert, leb, All, if◌then◌else◌, ◌==◌, inl, inr, Bool-cases,
  eq_of_beq, ap, sym, ◌∙◌, ◌⊎◌,
}
use cpanelde.Prelude.Int.{pos, pos_part}
use cpanelde.Prelude.Sorting.{count_less}
use cpanelde.Limiter.Users.{is_positive}
use cpanelde.Kernel.ConnTracker.{count_of, over_limit}
use cpanelde.Kernel.XrayDispatcher.{
  LimitDispatcher, new_dispatcher, update_limits, check_device_limit, limit_of, ips_of, Flow,
  track_link, over_device_limit,
}
use cpanelde.Kernel.XrayDispatcher.Counts.{entry}
use cpanelde.Kernel.XrayDispatcher.Rank.{check_device_limit-rank}
use cpanelde.Kernel.XrayDispatcher.Balance.{
  Balance, started, limits_changed, let_in, tracked, Life-Balance,
}
use cpanelde.Kernel.Outbounds.{
  Outbound, Settings, Visits, visited, ordered_outbounds, by_tag, visit, visit_all, visit_outbounds,
}
use cpanelde.Kernel.Outbounds.Visit.{Ordered, has_tag}
use cpanelde.Kernel.Outbounds.Fuel.{runs_out}
use cpanelde.Kernel.Outbounds.Order.{
  all_tags, ordered_outbounds_runs, ordered_outbounds-Ordered, ordered_outbounds_acyclic,
}
use cpanelde.Kernel.Outbounds.Acyclic.{Acyclic}
use cpanelde.Kernel.Outbounds.Reload.{
  Manager, previous_data, replace_each, replace_outbounds, remove_each, remove_obsolete_outbounds,
  lookup-remove_obsolete_outbounds,
}
use cpanelde.Kernel.Outbounds.Replace.{Runs, replace_outbounds-Runs}

abbrev limited : LimitDispatcher
limited = update_limits new_dispatcher ((codes "a", 7) ∷ []) ((codes "a", pos 1) ∷ [])

abbrev home : Flow
home = record { email = codes "a"; source_ip = codes "1.1.1.1"; is_tcp = true }

abbrev admitted_home : LimitDispatcher
admitted_home = (check_device_limit limited (codes "a") (codes "1.1.1.1") true).0

check_device_limit-rank_example :
    (check_device_limit admitted_home (codes "a") (codes "2.2.2.2") true).1
    ≡ is_positive (limit_of admitted_home (codes "a"))
      && (leb (count_of (entry (codes "a") (codes "2.2.2.2") admitted_home.limited_ips)) 0
          && leb
              (pos_part (limit_of admitted_home (codes "a")))
              (count_less (codes "2.2.2.2") (keys (ips_of (codes "a") admitted_home.limited_ips))))
check_device_limit-rank_example =
    check_device_limit-rank admitted_home (codes "a") (codes "2.2.2.2") true

home_let_in : (check_device_limit limited (codes "a") (codes "1.1.1.1") true).1 ≡ false
unfolding check_device_limit over_device_limit over_limit lookup update_limits new_dispatcher
home_let_in = refl

Life-Balance_example : Balance (track_link admitted_home) [] (home ∷ [])
Life-Balance_example = Life-Balance (
    tracked home [] [] (
      let_in home home_let_in
        (limits_changed ((codes "a", 7) ∷ []) ((codes "a", pos 1) ∷ []) started)))

-- Two outbounds, of which the first goes through the second.
abbrev front : Outbound
front = record { kind = codes "vless"; tag = codes "f"; options = codes "x" }

abbrev exit : Outbound
exit = record { kind = codes "direct"; tag = codes "e"; options = codes "y" }

abbrev settings_of : Text → Option Settings
settings_of [] = none
settings_of (c ∷ cs) =
    if c == 120
    then some (record { detour = codes "e"; outbounds = [] })
    else some (record { detour = []; outbounds = [] })

abbrev chain : List Outbound
chain = front ∷ exit ∷ []

abbrev order : Visits
order = record { state = (codes "f", 2) ∷ (codes "e", 2) ∷ []; result = exit ∷ front ∷ [] }

order_found : ordered_outbounds settings_of chain ≡ visited order
unfolding ordered_outbounds visit_outbounds visit visit_all by_tag lookup insert
order_found = refl

ordered_outbounds_runs_example : runs_out (ordered_outbounds settings_of chain) ≡ false
ordered_outbounds_runs_example = ordered_outbounds_runs settings_of chain

ordered_outbounds-Ordered_example :
    Ordered settings_of (all_tags chain) order.result
    × ((t : Text) → has_tag t order.result ≡ has_tag t chain)
ordered_outbounds-Ordered_example = ordered_outbounds-Ordered settings_of chain order order_found

abbrev rank_of : Text → ℕ
rank_of [] = 0
rank_of (c ∷ cs) = if c == 102 then 1 else 0

abbrev options_of : Option Outbound → Text
options_of none = []
options_of (some o) = o.options

chain-Acyclic : Acyclic settings_of (all_tags chain) rank_of
unfolding by_tag lookup insert
chain-Acyclic t o found = elim (Bool-cases (t == codes "f")) [
  | inl same ↦
      let here : t ≡ codes "f" = eq_of_beq t (codes "f") same in
      let front_there : lookup t (all_tags chain) ≡ some front =
        ap (λ k. lookup k (all_tags chain)) here in
      (
        record { detour = codes "e"; outbounds = [] },
        ap (λ p. settings_of (options_of p)) (sym found ∙ front_there),
        (inr (rw here (omega arith)), tt),
      )
  | inr other ↦ (
    record { detour = []; outbounds = [] },
    plain other (Bool-cases (t == codes "e")),
    (inl refl, tt),
  )
]
  where
    plain :
        (t == codes "f") ≡ false
        → ((t == codes "e") ≡ true) ⊎ ((t == codes "e") ≡ false)
        → settings_of o.options ≡ some (record { detour = []; outbounds = [] })
    plain other (inl exits) =
        let exit_there : lookup t (all_tags chain) ≡ some exit =
          ap (λ k. lookup k (all_tags chain)) (eq_of_beq t (codes "e") exits) in
        ap (λ p. settings_of (options_of p)) (sym found ∙ exit_there)
    plain other (inr neither) =
        let nothing : lookup t (all_tags chain) ≡ none = ground (arith, other, neither) in
        cc (found, nothing)

ordered_outbounds_acyclic_example : (s : Visits) × (ordered_outbounds settings_of chain ≡ visited s)
ordered_outbounds_acyclic_example =
    ordered_outbounds_acyclic settings_of chain rank_of chain-Acyclic

abbrev running : Manager
running = (codes "e", exit) ∷ (codes "old", front) ∷ []

abbrev old : Outbound
old = record { kind = codes "vless"; tag = codes "old"; options = codes "z" }

lookup-remove_obsolete_outbounds_example :
    lookup
      (codes "old")
      (remove_obsolete_outbounds settings_of (λ t. true) running (exit ∷ old ∷ []) chain).0
    ≡ (if has_tag (codes "old") (exit ∷ old ∷ []) && not (has_tag (codes "old") chain)
        then none
        else lookup (codes "old") running)
unfolding remove_obsolete_outbounds remove_each ordered_outbounds visit_outbounds visit visit_all
    by_tag lookup insert
lookup-remove_obsolete_outbounds_example =
    lookup-remove_obsolete_outbounds settings_of (λ t. true) running (exit ∷ old ∷ []) chain
      (codes "old") refl

abbrev encode_kind : Outbound → Option Text
encode_kind o = some (1 ∷ o.kind)

replace_outbounds-Runs_example :
    All
      (Runs encode_kind
        (λ o. true)
        (previous_data encode_kind [] [])
        (replace_outbounds settings_of encode_kind (λ o. true) [] chain []).0)
      order.result
unfolding replace_outbounds replace_each ordered_outbounds visit_outbounds visit visit_all by_tag
    lookup insert previous_data
replace_outbounds-Runs_example =
    replace_outbounds-Runs settings_of encode_kind (λ o. true) [] chain [] order (λ o e. cc)
      (λ t o e. cc) order_found refl
