-- ===== src/FeedMonitor/Moved.antt =====
-- The index of descriptors where feeds come and go.
use native.Mathlib.Decide.{ℕ_discrete}
use vigil_low_latency_tcp_he.Prelude.{
  ℕ, ◌-◌, ◌≡◌, ◌≢◌, refl, sym, ap, ◌∙◌, inl, inr, Bool, false, some, arith, Option-cases, get_elem?,
  length, set, take, get_elem?-in_range,
}
use vigil_low_latency_tcp_he.Prelude.Text.{Text}
use vigil_low_latency_tcp_he.Config.{FeedEndpoint}
use vigil_low_latency_tcp_he.Connection.{is_failed, new_connection}
use vigil_low_latency_tcp_he.FeedMonitor.Types.{
  FeedMonitor, Slot, World, map_put, create_and_connect_socket, map_erase,
}
use vigil_low_latency_tcp_he.FeedMonitor.Failure.{unwatch}
use vigil_low_latency_tcp_he.FeedMonitor.Feeds.{
  push_feed, add_feed, repoint, fill_gap, remove_slot, remove_slot_at, remove_feed,
}
use vigil_low_latency_tcp_he.FeedMonitor.Routes.{
  IsRoutedAt, place-IsRouted, IsRouted-weaken, drop-IsRouted, snoc-IsPlaced, set-IsPlaced,
  take-IsPlaced, take-IsRouted, taken,
}
use vigil_low_latency_tcp_he.FeedMonitor.Descriptors.{
  IsRouted, IsFresh, IsUnheld, fresh-IsRouted, created-IsUnheld, unwatch-IsRouted, unwatch-slots,
}
use vigil_low_latency_tcp_he.FeedMonitor.Directory.{place-lt, decide_eq, decide_ne}

module _ {S : Type 0} where
  push_feed-IsRouted :
      (endpoint : FeedEndpoint) (fd : ℕ) (m : FeedMonitor S) (w : World S)
      → IsUnheld fd m.slots
      → IsRouted m
      → IsRouted (push_feed endpoint fd m w).0
  unfolding push_feed new_connection
  push_feed-IsRouted endpoint fd m w unheld r =
      fresh-IsRouted m.index_of_fd m.slots _ (length m.slots) fd _ (snoc-IsPlaced m.slots _) refl
        unheld (IsRouted-weaken _ m.index_of_fd m.slots r)

  pub add_feed-IsRouted :
      (parses : Text → Bool) (endpoint : FeedEndpoint) (m : FeedMonitor S) (w : World S)
      → IsFresh w.sockets m.slots
      → IsRouted m
      → IsRouted (add_feed parses endpoint m w).0.0
  unfolding add_feed
  add_feed-IsRouted parses endpoint m w fresh r =
      elim (Option-cases (m.index_of_feed_id endpoint.feed_id)) [
        | inr (index, known) ↦ rw (add_feed, known) r
        | inl unknown ↦ elim (Option-cases (create_and_connect_socket parses endpoint.host w).0) [
          | inl failed ↦ rw (add_feed, unknown, failed) r
          | inr (fd, opened) ↦
              rw (add_feed, unknown, opened)
                (push_feed-IsRouted endpoint fd m
                  (create_and_connect_socket parses endpoint.host w).1
                  (created-IsUnheld parses endpoint.host w.sockets w m.slots fd fresh
                    (unfold create_and_connect_socket in opened))
                  r)
        ]
      ]

  repoint_entered :
      (m : FeedMonitor S) (i fd : ℕ) (moved : Slot S)
      → moved.connection.fd ≡ some fd
      → is_failed moved.connection.state ≡ false
      → (repoint m i moved).index_of_fd fd ≡ some i
  unfolding repoint map_put
  repoint_entered m i fd moved own live = ground (arith, own, live)

  repoint_kept :
      (m : FeedMonitor S) (i fd : ℕ) (moved : Slot S)
      → moved.connection.fd ≢ some fd
      → (repoint m i moved).index_of_fd fd ≡ m.index_of_fd fd
  unfolding repoint map_put
  repoint_kept m i fd moved other = elim (Option-cases moved.connection.fd) [
    | inl closed ↦ rw (repoint, closed) refl
    | inr (g, own) ↦ elim (ℕ_discrete fd g) [
      | yes e ↦ absurd (other (own ∙ ap some (sym e)))
      | no n ↦ ground (arith, own, n)
    ]
  ]

  fill_gap-IsRouted :
      (i : ℕ) (m : FeedMonitor S) (slot : Slot S)
      → get_elem? m.slots i ≡ some slot
      → IsRoutedAt (λ j. i ≢ j) m.index_of_fd m.slots
      → IsRouted (fill_gap i m)
  unfolding fill_gap
  fill_gap-IsRouted i m slot at r =
      let lt = place-lt m.slots i slot at in
      let last : ℕ = length m.slots - 1 in
      let (moved, end) = get_elem?-in_range m.slots last (omega arith) in
      elim (ℕ_discrete i last) [
        | yes e ↦
            rw (fill_gap, end, decide_eq i last e)
              (drop-IsRouted m.index_of_fd m.slots (take last m.slots) i r (λ j s at'.
                let (below, back) = taken last m.slots j s at' in
                (λ same. absurd (omega (arith, below, same, e)), back)))
        | no ne ↦
            rw (fill_gap, end, decide_ne i last ne)
              (place-IsRouted m.index_of_fd (repoint m i moved).index_of_fd (take last m.slots)
                (take last (set m.slots i moved)) i moved
                (take-IsRouted _ m.index_of_fd last m.slots r)
                (take-IsPlaced last m.slots (set m.slots i moved) i moved
                  (set-IsPlaced m.slots i moved))
                (λ j fd s own held.
                  let (below, back) = taken last m.slots j s held.0 in
                  let same = r.0 j last fd s moved (back, held.1) (end, own) in
                  absurd (omega (arith, below, same)))
                (λ fd. repoint_entered m i fd moved) (λ fd. repoint_kept m i fd moved))
      ]

  remove_slot_at-IsRouted :
      (i : ℕ) (m : FeedMonitor S) (w : World S) → IsRouted m → IsRouted (remove_slot_at i m w).0
  unfolding remove_slot_at remove_slot
  remove_slot_at-IsRouted i m w r = elim (Option-cases (get_elem? m.slots i)) [
    | inl gone ↦ rw (remove_slot_at, gone) r
    | inr (slot, at) ↦
        let u = unwatch slot.connection.fd m w in
        let same = unwatch-slots slot.connection.fd m w in
        rw (remove_slot_at, at)
          (fill_gap-IsRouted i
            (record (u.0) {
              index_of_feed_id = map_erase u.0.index_of_feed_id slot.connection.feed_id;
            })
            slot (rw same at) (rw same (unwatch-IsRouted m w i slot slot.connection.fd refl at r)))
  ]

  pub remove_feed-IsRouted :
      (feed_id : ℕ) (m : FeedMonitor S) (w : World S)
      → IsRouted m
      → IsRouted (remove_feed feed_id m w).0
  unfolding remove_feed
  remove_feed-IsRouted feed_id m w r = elim (Option-cases (m.index_of_feed_id feed_id)) [
    | inl unknown ↦ rw (remove_feed, unknown) r
    | inr (index, known) ↦ rw (remove_feed, known) (remove_slot_at-IsRouted index m w r)
  ]
