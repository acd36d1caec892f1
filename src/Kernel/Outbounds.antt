-- ===== src/Kernel/Outbounds.antt =====
-- internal/kernel/singbox/reload.go: the order in which the outbounds of sing-box are created and
-- removed in a hot reload. The encoding of the options of an outbound and what is read back from
-- it are parameters.
pub mod Visit
pub mod Fuel
pub mod Acyclic
pub mod Order
pub mod Reload
pub mod Replace
use cpanelde.Prelude.{
  ℕ, zero, suc, ◌+◌, Bool, true, false, not, ◌&&◌, List, [], ◌∷◌, ◌++◌, length, map, if◌then◌else◌,
  Text, Option, none, some, ◌==◌, text_eq, nat_eq, Map, lookup, insert, erase, has_key,
}
use cpanelde.Kernel.ConnTracker.{count_of}

pub record Outbound : Type 0 where
  pub kind : Text
  pub tag : Text
  pub options : Text

-- What `orderedOutbounds` reads of the encoded options.
pub record Settings : Type 0 where
  pub detour : Text
  pub outbounds : List Text

pub data OrderError : Type 0 where
  cyclic_dependency : OrderError
  bad_options : OrderError

-- `state` holds 1 for a tag whose dependencies are being visited and 2 for one that is done.
pub record Visits : Type 0 where
  pub state : Map Text ℕ
  pub result : List Outbound

pub data Outcome : Type 0 where
  out_of_fuel : Outcome
  failed : OrderError → Outcome
  visited : Visits → Outcome

unfoldable pub by_tag : List Outbound → Map Text Outbound → Map Text Outbound
by_tag [] m = m
by_tag (o ∷ os) m = by_tag os (insert o.tag o m)

abbrev pub mark : Text → Visits → ℕ
mark tag s = count_of (lookup tag s.state)

-- append(settings.Outbounds, settings.Detour)
abbrev pub dependencies : Settings → List Text
dependencies r = r.outbounds ++ r.detour ∷ []

abbrev pub and_then : Outcome → (Visits → Outcome) → Outcome
and_then out_of_fuel k = out_of_fuel
and_then (failed e) k = failed e
and_then (visited s) k = k s

-- The loop over the dependencies: an empty tag is skipped and the first error ends it.
unfoldable pub visit_all : (Text → Visits → Outcome) → List Text → Visits → Outcome
visit_all visit [] s = visited s
visit_all visit (t ∷ ts) s =
    if t == [] then visit_all visit ts s else and_then (visit t s) (visit_all visit ts)

-- state[tag] = 1
abbrev pub enter : Text → Visits → Visits
enter tag s = record s { state = insert tag 1 s.state }

-- state[tag] = 2 and the append.
abbrev pub leave : Text → Outbound → Visits → Visits
leave tag o s = record s { state = insert tag 2 s.state; result = s.result ++ o ∷ [] }

module _ (settings : Text → Option Settings) (tags : Map Text Outbound) where
  abbrev pub expand :
      (Text → Visits → Outcome) → Text → Outbound → Option Settings → Visits → Outcome
  expand visit tag o none s = failed bad_options
  expand visit tag o (some r) s =
      and_then (visit_all visit (dependencies r) (enter tag s)) (λ t. visited (leave tag o t))

  abbrev pub open_tag : (Text → Visits → Outcome) → Text → Option Outbound → Visits → Outcome
  open_tag visit tag none s = visited s
  open_tag visit tag (some o) s = expand visit tag o (settings o.options) s

  unfoldable pub visit : ℕ → Text → Visits → Outcome
  unfolding visit_all
  visit zero tag s = out_of_fuel
  visit (suc fuel) tag s =
      let deeper = open_tag (visit fuel) tag (lookup tag tags) s in
      if mark tag s == 2
      then visited s
      else if mark tag s == 1
      then failed cyclic_dependency
      else deeper

  -- The loop over the outbounds, which visits the empty tag too.
  unfoldable pub visit_outbounds : ℕ → List Outbound → Visits → Outcome
  visit_outbounds fuel [] s = visited s
  visit_outbounds fuel (o ∷ os) s = and_then (visit fuel o.tag s) (visit_outbounds fuel os)

abbrev pub no_visits : Visits
no_visits = record { state = []; result = [] }

unfoldable pub ordered_outbounds : (Text → Option Settings) → List Outbound → Outcome
ordered_outbounds settings os = visit_outbounds settings (by_tag os []) (length os + 1) os no_visits
