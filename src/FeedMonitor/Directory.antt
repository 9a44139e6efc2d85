-- ===== src/FeedMonitor/Directory.antt =====
-- Feeds that come and go keep the index of feed ids right.
use native.Mathlib.Decide.{dec_lt, ℕ_discrete}
use vigil_low_latency_tcp_he.Prelude.{
  ℕ, zero, suc, ◌-◌, ◌<◌, ◌≡◌, refl, sym, ap, ◌∙◌, ◌≢◌, inl, inr, Bool, true, false, Option, none,
  some, List, [], ◌∷◌, ◌++◌, map, arith, ◌==◌, Option-cases, length, get_elem?, get_elem?-in_range,
  set, take, length-map,
}
use vigil_low_latency_tcp_he.Prelude.Text.{Text}
use vigil_low_latency_tcp_he.Config.{FeedEndpoint}
use vigil_low_latency_tcp_he.Connection.{new_connection}
use vigil_low_latency_tcp_he.FeedMonitor.Types.{
  FeedMonitor, Slot, World, map_put, map_erase, create_and_connect_socket,
}
use vigil_low_latency_tcp_he.FeedMonitor.Failure.{unwatch}
use vigil_low_latency_tcp_he.FeedMonitor.Feeds.{
  push_feed, add_feed, repoint, fill_gap, remove_slot, remove_slot_at, remove_feed,
}
use vigil_low_latency_tcp_he.FeedMonitor.Index.{
  Indexes, Indexes-snoc, Indexes-take, Indexes-fill, get_elem?-beyond,
}

module _ {A B : Type 0} (f : A → B) where
  map-snoc : (xs : List A) (x : A) → map f (xs ++ x ∷ []) ≡ map f xs ++ f x ∷ []
  map-snoc [] x = refl
  map-snoc (y ∷ ys) x = ap (◌∷◌ (f y)) (map-snoc ys x)

  map-take : (k : ℕ) (xs : List A) → map f (take k xs) ≡ take k (map f xs)
  map-take zero xs = refl
  map-take (suc k) [] = refl
  map-take (suc k) (x ∷ xs) = ap (◌∷◌ (f x)) (map-take k xs)

  map-set : (xs : List A) (i : ℕ) (x : A) → map f (set xs i x) ≡ set (map f xs) i (f x)
  map-set [] i x = refl
  map-set (y ∷ ys) zero x = refl
  map-set (y ∷ ys) (suc i) x = ap (◌∷◌ (f y)) (map-set ys i x)

  map-get_elem? :
      (xs : List A) (i : ℕ) (x : A) → get_elem? xs i ≡ some x → get_elem? (map f xs) i ≡ some (f x)
  map-get_elem? [] i x h = cc
  map-get_elem? (y ∷ ys) zero x h = ap (λ o. elim o [ none ↦ none | some z ↦ some (f z) ]) h
  map-get_elem? (y ∷ ys) (suc i) x h = map-get_elem? ys i x h

pub decide_eq : (a b : ℕ) → a ≡ b → (a == b) ≡ true
decide_eq a b e = ground (arith, e)

pub decide_ne : (a b : ℕ) → a ≢ b → (a == b) ≡ false
decide_ne a b e = ground (arith, e)

pub place-lt : {A : Type 0} (xs : List A) (i : ℕ) (x : A) → get_elem? xs i ≡ some x → i < length xs
place-lt xs i x at = elim (dec_lt i (length xs)) [
  | yes lt ↦ lt
  | no ge ↦ absurd (none_some (sym (get_elem?-beyond xs i (omega arith)) ∙ at))
]
  where
    none_some : {B : Type 0} {b : B} → none ≡ some b → ⊥
    none_some e = cc

module _ {S : Type 0} where
  abbrev pub feed_id_of : Slot S → ℕ
  feed_id_of slot = slot.connection.feed_id

  -- `index_of_feed_id` maps a feed id to a place exactly if the slot there has that feed id. So no
  -- feed id is there twice.
  abbrev pub IsIndexed : FeedMonitor S → Type 0
  IsIndexed m = Indexes m.index_of_feed_id (map feed_id_of m.slots)

  push_feed-IsIndexed :
      (endpoint : FeedEndpoint) (fd : ℕ) (m : FeedMonitor S) (w : World S)
      → IsIndexed m
      → m.index_of_feed_id endpoint.feed_id ≡ none
      → IsIndexed (push_feed endpoint fd m w).0
  unfolding push_feed new_connection
  push_feed-IsIndexed endpoint fd m w h fresh =
      rw (map-snoc feed_id_of, ← length-map m.slots feed_id_of)
        (Indexes-snoc m.index_of_feed_id (map feed_id_of m.slots) endpoint.feed_id h fresh)

  -- If each feed id is found at the slot that has it and nowhere else, then this is so after
  -- `add_feed`, on every branch of it.
  pub add_feed-IsIndexed :
      (parses : Text → Bool) (endpoint : FeedEndpoint) (m : FeedMonitor S) (w : World S)
      → IsIndexed m
      → IsIndexed (add_feed parses endpoint m w).0.0
  unfolding add_feed
  add_feed-IsIndexed parses endpoint m w h =
      elim (Option-cases (m.index_of_feed_id endpoint.feed_id)) [
        | inr (index, known) ↦ rw (add_feed, known) h
        | inl fresh ↦ elim (Option-cases (create_and_connect_socket parses endpoint.host w).0) [
          | inl failed ↦ rw (add_feed, fresh, failed) h
          | inr (fd, opened) ↦
              rw (add_feed, fresh, opened)
                (push_feed-IsIndexed endpoint fd m
                  (create_and_connect_socket parses endpoint.host w).1 h fresh)
        ]
      ]

  module _ (m : FeedMonitor S) (i last : ℕ) (slot moved : Slot S) (h : IsIndexed m)
      (at : get_elem? m.slots i ≡ some slot) (end : get_elem? m.slots last ≡ some moved)
      (size : suc last ≡ length m.slots) where
    ids_size : suc last ≡ length (map feed_id_of m.slots)
    ids_size = size ∙ sym (length-map m.slots feed_id_of)

    pop_last :
        i ≡ last
        → Indexes
            (map_erase m.index_of_feed_id (feed_id_of slot))
            (map feed_id_of (take last m.slots))
    pop_last e =
        rw (map-take feed_id_of, ← e)
          (Indexes-take m.index_of_feed_id (map feed_id_of m.slots) i (feed_id_of slot) h
            (map-get_elem? feed_id_of m.slots i slot at) (rw e ids_size))

    move_last :
        i < last
        → Indexes
            (map_put (map_erase m.index_of_feed_id (feed_id_of slot)) (feed_id_of moved) i)
            (map feed_id_of (take last (set m.slots i moved)))
    move_last lt =
        rw (map-take feed_id_of, map-set feed_id_of)
          (Indexes-fill m.index_of_feed_id (map feed_id_of m.slots) i last (feed_id_of slot)
            (feed_id_of moved) h (map-get_elem? feed_id_of m.slots i slot at)
            (map-get_elem? feed_id_of m.slots last moved end) ids_size lt)

  fill_gap-IsIndexed :
      (m : FeedMonitor S) (fds : ℕ → Option ℕ) (i : ℕ) (slot : Slot S)
      → IsIndexed m
      → get_elem? m.slots i ≡ some slot
      → IsIndexed (
          fill_gap i (record m {
            index_of_fd = fds;
            index_of_feed_id = map_erase m.index_of_feed_id (feed_id_of slot);
          }))
  unfolding fill_gap repoint
  fill_gap-IsIndexed m fds i slot h at =
      let lt = place-lt m.slots i slot at in
      let last : ℕ = length m.slots - 1 in
      let (moved, end) = get_elem?-in_range m.slots last (omega arith) in
      elim (ℕ_discrete i last) [
        | yes e ↦
            rw (fill_gap, end, decide_eq i last e)
              (pop_last m i last slot moved h at end (omega arith) e)
        | no ne ↦
            rw (fill_gap, end, decide_ne i last ne)
              (move_last m i last slot moved h at end (omega arith) (omega arith))
      ]

  remove_slot_at-IsIndexed :
      (i : ℕ) (m : FeedMonitor S) (w : World S) → IsIndexed m → IsIndexed (remove_slot_at i m w).0
  unfolding remove_slot_at remove_slot unwatch
  remove_slot_at-IsIndexed i m w h = elim (Option-cases (get_elem? m.slots i)) [
    | inl gone ↦ rw (remove_slot_at, gone) h
    | inr (slot, at) ↦ elim (Option-cases slot.connection.fd) [
      | inl closed ↦
          rw (remove_slot_at, at, remove_slot, closed, unwatch) (fill_gap-IsIndexed m _ i slot h at)
      | inr (fd, held) ↦
          rw (remove_slot_at, at, remove_slot, held, unwatch) (fill_gap-IsIndexed m _ i slot h at)
    ]
  ]

  -- If each feed id is found at the slot that has it and nowhere else, then this is so after
  -- `remove_feed`, whichever slot is removed.
  pub remove_feed-IsIndexed :
      (feed_id : ℕ) (m : FeedMonitor S) (w : World S)
      → IsIndexed m
      → IsIndexed (remove_feed feed_id m w).0
  unfolding remove_feed
  remove_feed-IsIndexed feed_id m w h = elim (Option-cases (m.index_of_feed_id feed_id)) [
    | inl unknown ↦ rw (remove_feed, unknown) h
    | inr (index, known) ↦ rw (remove_feed, known) (remove_slot_at-IsIndexed index m w h)
  ]
