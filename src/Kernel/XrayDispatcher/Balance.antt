-- ===== src/Kernel/XrayDispatcher/Balance.antt =====
-- The counters of the dispatcher over any interleaving of connections.
use cpanelde.Prelude.{
  ℕ, suc, ◌+◌, ◌<◌, ◌≡◌, refl, ap, ◌∙◌, Bool, true, false, not, ◌&&◌, List, [], ◌∷◌, ◌++◌, arith,
  if◌then◌else◌, Text, none, text_eq, Map, lookup, length, Bool-cases, Option-cases, inl, inr,
  ==_refl,
}
use cpanelde.Prelude.Int.{ℤ, pos, ◌+ℤ◌, ◌-ℤ◌}
use cpanelde.Kernel.ConnTracker.{count_of}
use cpanelde.Kernel.ConnTracker.Counts.{positive_count}
use cpanelde.Kernel.XrayDispatcher.{
  LimitDispatcher, Flow, ips_of, check_device_limit, release_limited, del_conn, new_dispatcher,
  update_limits, track_link, release, on_close, close_writer,
}
use cpanelde.Kernel.XrayDispatcher.Counts.{entry, same_flow}
use cpanelde.Kernel.XrayDispatcher.Refs.{
  refs, Refs, plus_one, minus_one, check_device_limit-Refs, del_conn-Refs,
}

-- How many of the TCP flows of a list belong to an email and an IP.
abbrev pub counted : Flow → Text → Text → Bool
counted f e i = f.is_tcp && same_flow e i f.email f.source_ip

abbrev pub flows_of : List Flow → Text → Text → ℕ
flows_of [] e i = 0
flows_of (f ∷ fs) e i = if counted f e i then suc (flows_of fs e i) else flows_of fs e i

flows_of-middle :
    (f : Flow) (pre post : List Flow) (e i : Text)
    → flows_of (pre ++ f ∷ post) e i ≡ flows_of (f ∷ (pre ++ post)) e i
flows_of-middle f [] post e i = refl
flows_of-middle f (g ∷ pre) post e i = ground (arith, flows_of-middle f pre post e i)

-- A history of the dispatcher. `pending` are the flows that are admitted while the wrapped
-- dispatcher has not answered, `links` the flows of the tracked links that are open. The steps of
-- different connections come in any order.
pub data Life : LimitDispatcher → List Flow → List Flow → Type 0 where
  started : Life new_dispatcher [] []
  limits_changed :
      {d : LimitDispatcher} {pending links : List Flow} (uids : Map Text ℕ) (limits : Map Text ℤ)
      → Life d pending links
      → Life (update_limits d uids limits) pending links
  let_in :
      {d : LimitDispatcher} {pending links : List Flow} (f : Flow)
      → (check_device_limit d f.email f.source_ip f.is_tcp).1 ≡ false
      → Life d pending links
      → Life (check_device_limit d f.email f.source_ip f.is_tcp).0 (f ∷ pending) links
  turned_away :
      {d : LimitDispatcher} {pending links : List Flow} (f : Flow)
      → (check_device_limit d f.email f.source_ip f.is_tcp).1 ≡ true
      → Life d pending links
      → Life (check_device_limit d f.email f.source_ip f.is_tcp).0 pending links
  failed :
      {d : LimitDispatcher} {links : List Flow} (f : Flow) (pre post : List Flow)
      → Life d (pre ++ f ∷ post) links
      → Life (release d f) (pre ++ post) links
  tracked :
      {d : LimitDispatcher} {links : List Flow} (f : Flow) (pre post : List Flow)
      → Life d (pre ++ f ∷ post) links
      → Life (track_link d) (pre ++ post) (f ∷ links)
  closed :
      {d : LimitDispatcher} {pending : List Flow} (f : Flow) (pre post : List Flow)
      → Life d pending (pre ++ f ∷ post)
      → Life (close_writer d f false).0 pending (pre ++ post)

-- The counters stand for the flows that hold a reference, and the number of connections for the
-- tracked links.
pub record Balance (d : LimitDispatcher) (pending links : List Flow) : Type 0 where
  pub held : Refs d (λ e i. flows_of pending e i + flows_of links e i)
  pub total : d.conn_count ≡ pos (length links)

Refs-cong :
    (d : LimitDispatcher) (n m : Text → Text → ℕ)
    → ((e i : Text) → n e i ≡ m e i)
    → Refs d n
    → Refs d m
Refs-cong d n m q r = record {
  exact = λ e i. r.exact e i ∙ q e i;
  unlimited = r.unlimited;
  limited = r.limited;
}

release-Refs :
    (d : LimitDispatcher) (f : Flow) (n m : Text → Text → ℕ)
    → ((e i : Text) → n e i ≡ (if counted f e i then suc (m e i) else m e i))
    → Refs d n
    → Refs (release d f) m
release-Refs d f n m q r = elim (Bool-cases f.is_tcp) [
  | inr udp ↦ rw udp (Refs-cong d n m (λ e i. ground (arith, udp, q e i)) r)
  | inl tcp ↦
      let one : 0 < n f.email f.source_ip =
        ground (arith, tcp, q f.email f.source_ip, ==_refl f.email, ==_refl f.source_ip) in
      rw tcp (
        Refs-cong _ (minus_one true f.email f.source_ip n) m (λ e i. ground (arith, tcp, q e i))
          (del_conn-Refs d n f.email f.source_ip r one))
]

-- The counters do not see the number of connections.
Refs-conn_count :
    (d : LimitDispatcher) (n : Text → Text → ℕ) (total : ℤ)
    → Refs d n
    → Refs (record d { conn_count = total }) n
Refs-conn_count d n total r = record {
  exact = r.exact;
  unlimited = r.unlimited;
  limited = r.limited;
}

check_keeps :
    (d : LimitDispatcher) (email ip : Text) (is_tcp : Bool)
    → (check_device_limit d email ip is_tcp).0.conn_count ≡ d.conn_count
unfolding check_device_limit
check_keeps d email ip is_tcp = ground arith

release_keeps : (d : LimitDispatcher) (f : Flow) → (release d f).conn_count ≡ d.conn_count
unfolding del_conn release_limited
release_keeps d f = elim (Bool-cases f.is_tcp) [
  | inr udp ↦ rw udp refl
  | inl tcp ↦ elim (Option-cases (lookup f.source_ip (ips_of f.email d.unlimited_ips))) [
    | inr (k, e) ↦ rw (tcp, e, del_conn) refl
    | inl e ↦ elim (Option-cases (lookup f.email d.limited_ips)) [
      | inl gone ↦ rw (tcp, e, gone, del_conn, release_limited) refl
      | inr (ips, found) ↦ rw (tcp, e, found, del_conn, release_limited) refl
    ]
  ]
]

start-Balance : Balance new_dispatcher [] []
unfolding new_dispatcher lookup
start-Balance = record {
  held = record { exact = λ e i. refl; unlimited = λ e i. refl; limited = λ e i. refl };
  total = refl;
}

length-middle :
    (f : Flow) (pre post : List Flow) → length (pre ++ f ∷ post) ≡ suc (length (pre ++ post))
length-middle f [] post = refl
length-middle f (g ∷ pre) post = ap suc (length-middle f pre post)

module _ (d : LimitDispatcher) (pending links : List Flow) (f : Flow) where
  checked :
      Balance d pending links
      → (over : Bool) → (check_device_limit d f.email f.source_ip f.is_tcp).1 ≡ over
      → Refs (check_device_limit d f.email f.source_ip f.is_tcp).0 (
          plus_one
            (f.is_tcp && not over)
            f.email
            f.source_ip
            (λ e i. flows_of pending e i + flows_of links e i))
  checked b over e = rw e at (check_device_limit-Refs d _ f.email f.source_ip f.is_tcp b.held)

  let_in-Balance :
      (check_device_limit d f.email f.source_ip f.is_tcp).1 ≡ false
      → Balance d pending links
      → Balance (check_device_limit d f.email f.source_ip f.is_tcp).0 (f ∷ pending) links
  let_in-Balance ok b = record {
    held = Refs-cong _ _ _ (λ e i. ground arith) (checked b false ok);
    total = check_keeps d f.email f.source_ip f.is_tcp ∙ b.total;
  }

  turned_away-Balance :
      (check_device_limit d f.email f.source_ip f.is_tcp).1 ≡ true
      → Balance d pending links
      → Balance (check_device_limit d f.email f.source_ip f.is_tcp).0 pending links
  turned_away-Balance over b = record {
    held = Refs-cong _ _ _ (λ e i. ground arith) (checked b true over);
    total = check_keeps d f.email f.source_ip f.is_tcp ∙ b.total;
  }

module _ (d : LimitDispatcher) (f : Flow) (pre post : List Flow) where
  failed-Balance :
      (links : List Flow)
      → Balance d (pre ++ f ∷ post) links
      → Balance (release d f) (pre ++ post) links
  failed-Balance links b = record {
    held = release-Refs d f _ _ (λ e i. ground (arith, flows_of-middle f pre post e i)) b.held;
    total = release_keeps d f ∙ b.total;
  }

  tracked-Balance :
      (links : List Flow)
      → Balance d (pre ++ f ∷ post) links
      → Balance (track_link d) (pre ++ post) (f ∷ links)
  unfolding track_link ◌+ℤ◌
  tracked-Balance links b = record {
    held =
        Refs-conn_count d _ _
          (Refs-cong d _ _ (λ e i. ground (arith, flows_of-middle f pre post e i)) b.held);
    total = ground (arith, b.total);
  }

  closed-Balance :
      (pending : List Flow)
      → Balance d pending (pre ++ f ∷ post)
      → Balance (close_writer d f false).0 pending (pre ++ post)
  unfolding close_writer on_close ◌-ℤ◌
  closed-Balance pending b = record {
    held =
        Refs-conn_count (release d f) _ _
          (release-Refs d f _ _ (λ e i. ground (arith, flows_of-middle f pre post e i)) b.held);
    total = ground (arith, release_keeps d f, b.total, length-middle f pre post);
  }

-- Whatever connections have been let in, rejected, failed, tracked and closed, in any order and with
-- limits that change under them, the reference counters of every email and source IP add up to the
-- TCP flows that are open or on their way, no counter of 0 is stored, and the number of
-- connections is that of the tracked links that are open.
pub Life-Balance :
    {d : LimitDispatcher} {pending links : List Flow}
    → Life d pending links
    → Balance d pending links
unfolding update_limits
Life-Balance started = start-Balance
Life-Balance (limits_changed {d} {pending} {links} uids limits l) =
    let b = Life-Balance l in
    record {
      held = record {
        exact = b.held.exact;
        unlimited = b.held.unlimited;
        limited = b.held.limited;
      };
      total = b.total;
    }
Life-Balance (let_in {d} {pending} {links} f ok l) =
    let_in-Balance d pending links f ok (Life-Balance l)
Life-Balance (turned_away {d} {pending} {links} f over l) =
    turned_away-Balance d pending links f over (Life-Balance l)
Life-Balance (failed {d} {links} f pre post l) = failed-Balance d f pre post links (Life-Balance l)
Life-Balance (tracked {d} {links} f pre post l) =
    tracked-Balance d f pre post links (Life-Balance l)
Life-Balance (closed {d} {pending} f pre post l) =
    closed-Balance d f pre post pending (Life-Balance l)

-- When no flow is open or on its way, nothing is left of the connections: no counter is stored and
-- the number of connections is 0.
pub Life_idle :
    {d : LimitDispatcher}
    → Life d [] []
    → ((e i : Text) → (entry e i d.unlimited_ips ≡ none) × (entry e i d.limited_ips ≡ none))
      × (d.conn_count ≡ pos 0)
Life_idle {d} l =
    let b = Life-Balance l in
    (
      λ e i. (
        b.held.unlimited e i ∙ ap positive_count (left e i b.held.exact),
        b.held.limited e i ∙ ap positive_count (right e i b.held.exact),
      ),
      b.total,
    )
  where
    left : (e i : Text) → ((e i : Text) → refs d e i ≡ 0) → count_of (entry e i d.unlimited_ips) ≡ 0
    left e i h = omega (arith, h e i)

    right : (e i : Text) → ((e i : Text) → refs d e i ≡ 0) → count_of (entry e i d.limited_ips) ≡ 0
    right e i h = omega (arith, h e i)
