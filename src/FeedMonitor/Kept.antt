-- ===== src/FeedMonitor/Kept.antt =====
-- What the reactor's handlers keep: the feeds at their places, and so the index of feed ids.
use vigil_low_latency_tcp_he.Prelude.{
  ℕ, zero, suc, ◌+◌, ◌≡◌, refl, ap, ◌∙◌, inl, inr, Bool, Option, none, some, List, [], ◌∷◌, map,
  arith, Option-cases, get_elem?, set, sym, true,
}
use vigil_low_latency_tcp_he.Prelude.Int.{ℤ}
use vigil_low_latency_tcp_he.Prelude.Text.{Text}
use vigil_low_latency_tcp_he.Config.{Config}
use vigil_low_latency_tcp_he.Connection.{is_failed, rebind, transition_to}
use vigil_low_latency_tcp_he.Connection.Lifecycle.{Onward}
use vigil_low_latency_tcp_he.FeedMonitor.Types.{FeedMonitor, Slot, World, SocketEvent, put_slot}
use vigil_low_latency_tcp_he.FeedMonitor.Feeds.{force_disconnect, force_reconnect}
use vigil_low_latency_tcp_he.FeedMonitor.Failure.{
  unwatch, schedule_reconnect, on_connection_failed, connect_slot, initiate_connect,
}
use vigil_low_latency_tcp_he.FeedMonitor.Reactor.{handle_connection_event, tick_slot, tick_slots}
use vigil_low_latency_tcp_he.FeedMonitor.Directory.{feed_id_of}
use vigil_low_latency_tcp_he.FeedMonitor.Descriptors.{unwatch-slots}
use vigil_low_latency_tcp_he.FeedMonitor.Rules.{
  handle_connection_event_rule, force_disconnect_rule, force_reconnect_rule, tick_slot_rule,
}

module _ {S : Type 0} where
  -- The same feeds at the same places, the same index of them, and no stop asked for in between.
  abbrev pub SameFeeds : FeedMonitor S → FeedMonitor S → Type 0
  SameFeeds m n =
      (n.index_of_feed_id ≡ m.index_of_feed_id)
      × (map feed_id_of n.slots ≡ map feed_id_of m.slots)
      × (n.stop_requested ≡ m.stop_requested)

  pub SameFeeds-trans : (m n o : FeedMonitor S) → SameFeeds m n → SameFeeds n o → SameFeeds m o
  SameFeeds-trans m n o s t = (t.0 ∙ s.0, t.1 ∙ s.1, t.2 ∙ s.2)

  map-set_same :
      (slots : List (Slot S)) (i : ℕ) (old new : Slot S)
      → get_elem? slots i ≡ some old
      → feed_id_of new ≡ feed_id_of old
      → map feed_id_of (set slots i new) ≡ map feed_id_of slots
  map-set_same [] i old new at h = refl
  map-set_same (x ∷ xs) zero old new at h =
      ap (λ n. n ∷ map feed_id_of xs)
        (h ∙ ap (λ o. elim o [ none ↦ 0 | some s ↦ feed_id_of s ]) (sym at))
  map-set_same (x ∷ xs) (suc i) old new at h =
      ap (◌∷◌ (feed_id_of x)) (map-set_same xs i old new at h)

  pub put_slot-SameFeeds :
      (m : FeedMonitor S) (i : ℕ) (old new : Slot S)
      → get_elem? m.slots i ≡ some old
      → feed_id_of new ≡ feed_id_of old
      → SameFeeds m (put_slot m i new)
  unfolding put_slot
  put_slot-SameFeeds m i old new at h = (refl, map-set_same m.slots i old new at h, refl)

  schedule_reconnect-feed_id :
      (jitter : ℕ → ℤ → ℤ) (config : Config) (slot : Slot S) (now : ℤ) (w : World S)
      → feed_id_of (schedule_reconnect jitter config slot now w).0 ≡ feed_id_of slot
  unfolding schedule_reconnect
  schedule_reconnect-feed_id jitter config slot now w = ground arith

  unwatch-SameFeeds :
      (fd : Option ℕ) (m : FeedMonitor S) (w : World S) → SameFeeds m (unwatch fd m w).0
  unfolding unwatch
  unwatch-SameFeeds none m w = (refl, refl, refl)
  unwatch-SameFeeds (some fd) m w = (refl, refl, refl)

  on_connection_failed-SameFeeds :
      (jitter : ℕ → ℤ → ℤ) (i : ℕ) (m : FeedMonitor S) (w : World S)
      → SameFeeds m (on_connection_failed jitter i m w).0
  unfolding on_connection_failed
  on_connection_failed-SameFeeds jitter i m w = elim (Option-cases (get_elem? m.slots i)) [
    | inl gone ↦ rw (on_connection_failed, gone) (refl, refl, refl)
    | inr (slot, at) ↦
        let u = unwatch slot.connection.fd m w in
        let r = schedule_reconnect jitter m.config slot u.1.env.clock u.1 in
        rw (on_connection_failed, at)
          (SameFeeds-trans m (u.0) (put_slot (u.0) i (r.0))
            (unwatch-SameFeeds slot.connection.fd m w)
            (put_slot-SameFeeds (u.0) i slot (r.0) (rw (unwatch-slots slot.connection.fd m w) at)
              (schedule_reconnect-feed_id jitter m.config slot u.1.env.clock u.1)))
  ]

  connect_slot-SameFeeds :
      (jitter : ℕ → ℤ → ℤ) (i : ℕ) (now : ℤ) (old slot : Slot S) (fd : Option ℕ) (m : FeedMonitor S)
      (w : World S)
      → get_elem? m.slots i ≡ some old
      → feed_id_of slot ≡ feed_id_of old
      → SameFeeds m (connect_slot jitter i now slot fd m w).0
  unfolding connect_slot put_slot rebind transition_to
  connect_slot-SameFeeds jitter i now old slot none m w at h =
      let (slot', w') = schedule_reconnect jitter m.config slot now w in
      put_slot-SameFeeds m i old slot' at
        (schedule_reconnect-feed_id jitter m.config slot now w ∙ h)
  connect_slot-SameFeeds jitter i now old slot (some fd) m w at h =
      (refl, map-set_same m.slots i old _ at h, refl)

  initiate_connect-SameFeeds :
      (jitter : ℕ → ℤ → ℤ) (parses : Text → Bool) (i : ℕ) (now : ℤ) (m : FeedMonitor S)
      (w : World S)
      → SameFeeds m (initiate_connect jitter parses i now m w).0
  unfolding initiate_connect
  initiate_connect-SameFeeds jitter parses i now m w = elim (Option-cases (get_elem? m.slots i)) [
    | inl gone ↦ rw (initiate_connect, gone) (refl, refl, refl)
    | inr (slot, at) ↦
        rw (initiate_connect, at) (connect_slot-SameFeeds jitter i now slot _ _ m _ at refl)
  ]

  module _ (o : FeedMonitor S) where
    put_SameFeeds :
        (m : FeedMonitor S) (i : ℕ) (old new : Slot S)
        → get_elem? m.slots i ≡ some old
        → Onward old.connection new.connection
        → SameFeeds o m
        → SameFeeds o (put_slot m i new)
    put_SameFeeds m i old new at on s =
        SameFeeds-trans o m (put_slot m i new) s (put_slot-SameFeeds m i old new at on.0.1)

    fail_SameFeeds :
        (jitter : ℕ → ℤ → ℤ) (i : ℕ) (m : FeedMonitor S) (w : World S) (slot : Slot S)
        → get_elem? m.slots i ≡ some slot
        → is_failed slot.connection.state ≡ true
        → SameFeeds o m
        → SameFeeds o (on_connection_failed jitter i m w).0
    fail_SameFeeds jitter i m w slot at dead s =
        SameFeeds-trans o m (on_connection_failed jitter i m w).0 s
          (on_connection_failed-SameFeeds jitter i m w)

  -- An event of a connection's descriptor.
  pub handle_connection_event-SameFeeds :
      (jitter : ℕ → ℤ → ℤ) (i : ℕ) (ev : SocketEvent) (now : ℤ) (m : FeedMonitor S) (w : World S)
      → SameFeeds m (handle_connection_event jitter i ev now m w).0
  handle_connection_event-SameFeeds jitter i ev now m w =
      handle_connection_event_rule (SameFeeds m) (put_SameFeeds m) jitter (fail_SameFeeds m jitter)
        i ev now m w (refl, refl, refl)

  pub force_disconnect-SameFeeds :
      (jitter : ℕ → ℤ → ℤ) (feed_id : ℕ) (m : FeedMonitor S) (w : World S)
      → SameFeeds m (force_disconnect jitter feed_id m w).0
  force_disconnect-SameFeeds jitter feed_id m w =
      force_disconnect_rule (SameFeeds m) (put_SameFeeds m) jitter (fail_SameFeeds m jitter) feed_id
        m w (refl, refl, refl)

  pub force_reconnect-SameFeeds :
      (feed_id : ℕ) (m : FeedMonitor S) → SameFeeds m (force_reconnect feed_id m)
  force_reconnect-SameFeeds feed_id m =
      force_reconnect_rule (SameFeeds m) (put_SameFeeds m) feed_id m (refl, refl, refl)

  pub tick_slots-SameFeeds :
      (jitter : ℕ → ℤ → ℤ) (parses : Text → Bool) (now : ℤ) (left i : ℕ) (m : FeedMonitor S)
      (w : World S)
      → SameFeeds m (tick_slots jitter parses now left i m w).0
  unfolding tick_slots
  tick_slots-SameFeeds jitter parses now zero i m w = (refl, refl, refl)
  tick_slots-SameFeeds jitter parses now (suc left) i m w =
      let r = tick_slot jitter parses i now m w in
      SameFeeds-trans m (r.0) (tick_slots jitter parses now left (i + 1) (r.0) (r.1)).0
        (tick_slot_rule (SameFeeds m) (put_SameFeeds m) jitter (fail_SameFeeds m jitter) parses i
          now m w (initiate_connect-SameFeeds jitter parses i now m w) (refl, refl, refl))
        (tick_slots-SameFeeds jitter parses now left (i + 1) (r.0) (r.1))
