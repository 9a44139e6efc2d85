-- ===== src/FeedMonitor/Descriptors.antt =====
-- What the reactor's handlers keep of the index of descriptors.
use native.Mathlib.Decide.{ℕ_discrete}
use vigil_low_latency_tcp_he.Prelude.{
  ℕ, zero, suc, ◌≡◌, ◌≢◌, refl, sym, ap, ◌∙◌, inl, inr, Bool, true, false, Option, none, some, List,
  [], ◌∷◌, arith, Option-cases, Bool-cases, get_elem?, set, subst,
}
use vigil_low_latency_tcp_he.Prelude.Int.{ℤ}
use vigil_low_latency_tcp_he.Prelude.Text.{Text}
use vigil_low_latency_tcp_he.Config.{Config}
use vigil_low_latency_tcp_he.Connection.{Connection, is_failed, rebind, transition_to}
use vigil_low_latency_tcp_he.FeedMonitor.Index.{some_injective}
use vigil_low_latency_tcp_he.FeedMonitor.Types.{
  FeedMonitor, Slot, World, put_slot, create_and_connect_socket, open_socket, map_put,
}
use vigil_low_latency_tcp_he.FeedMonitor.Failure.{
  unwatch, schedule_reconnect, on_connection_failed, connect_slot, initiate_connect,
}
use vigil_low_latency_tcp_he.FeedMonitor.Routes.{
  Holds, IsRoutedAt, IsPlaced, place-IsRouted, erase-IsRouted, IsRouted-weaken, set-IsPlaced,
}

module _ {S : Type 0} where
  -- No two slots hold the same descriptor, and the descriptor of a live connection leads to its slot.
  abbrev pub IsRouted : FeedMonitor S → Type 0
  IsRouted m = IsRoutedAt (λ i. Unit {0}) m.index_of_fd m.slots

  -- The slot still has its descriptor, and is live only if it was.
  abbrev pub IsKept : Slot S → Slot S → Type 0
  IsKept old new =
      (new.connection.fd ≡ old.connection.fd)
      × (is_failed new.connection.state ≡ false → is_failed old.connection.state ≡ false)

  pub put_slot-IsRouted :
      (m : FeedMonitor S) (i : ℕ) (old new : Slot S)
      → get_elem? m.slots i ≡ some old
      → IsKept old new
      → IsRouted m
      → IsRouted (put_slot m i new)
  unfolding put_slot
  put_slot-IsRouted m i old new at kept r =
      place-IsRouted m.index_of_fd m.index_of_fd m.slots (set m.slots i new) i new
        (IsRouted-weaken _ m.index_of_fd m.slots r) (set-IsPlaced m.slots i new)
        (λ j fd s own held. r.0 i j fd old s (at, sym kept.0 ∙ own) held)
        (λ fd own live. r.1 i fd old tt (at, sym kept.0 ∙ own) (kept.1 live)) (λ fd other. refl)

  schedule_reconnect-connection :
      (jitter : ℕ → ℤ → ℤ) (config : Config) (slot : Slot S) (now : ℤ) (w : World S)
      → (schedule_reconnect jitter config slot now w).0.connection ≡ slot.connection
  unfolding schedule_reconnect
  schedule_reconnect-connection jitter config slot now w = ground arith

  pub unwatch-IsRouted :
      (m : FeedMonitor S) (w : World S) (i : ℕ) (slot : Slot S) (fd : Option ℕ)
      → slot.connection.fd ≡ fd
      → get_elem? m.slots i ≡ some slot
      → IsRouted m
      → IsRoutedAt (λ j. i ≢ j) (unwatch fd m w).0.index_of_fd m.slots
  unfolding unwatch
  unwatch-IsRouted m w i slot none h at r = IsRouted-weaken _ m.index_of_fd m.slots r
  unwatch-IsRouted m w i slot (some fd) h at r =
      erase-IsRouted m.index_of_fd m.slots i fd slot (at, h) r

  pub unwatch-slots :
      (fd : Option ℕ) (m : FeedMonitor S) (w : World S) → (unwatch fd m w).0.slots ≡ m.slots
  unfolding unwatch
  unwatch-slots none m w = refl
  unwatch-slots (some fd) m w = refl

  -- A slot that is not live goes in where the map has no entry for the place.
  dead-IsRouted :
      (index : ℕ → Option ℕ) (slots : List (Slot S)) (i : ℕ) (old new : Slot S)
      → get_elem? slots i ≡ some old
      → new.connection.fd ≡ old.connection.fd
      → is_failed new.connection.state ≡ true
      → IsRoutedAt (λ j. i ≢ j) index slots
      → IsRoutedAt (λ j. Unit {0}) index (set slots i new)
  dead-IsRouted index slots i old new at same dead r =
      place-IsRouted index index slots (set slots i new) i new r (set-IsPlaced slots i new)
        (λ j fd s own held. r.0 i j fd old s (at, sym same ∙ own) held) (λ fd own live. cc)
        (λ fd other. refl)

  pub on_connection_failed-IsRouted :
      (jitter : ℕ → ℤ → ℤ) (i : ℕ) (m : FeedMonitor S) (w : World S) (slot : Slot S)
      → get_elem? m.slots i ≡ some slot
      → is_failed slot.connection.state ≡ true
      → IsRouted m
      → IsRouted (on_connection_failed jitter i m w).0
  unfolding on_connection_failed put_slot
  on_connection_failed-IsRouted jitter i m w slot at dead r =
      let u = unwatch slot.connection.fd m w in
      let q = schedule_reconnect jitter m.config slot u.1.env.clock u.1 in
      let same = schedule_reconnect-connection jitter m.config slot u.1.env.clock u.1 in
      rw (on_connection_failed, at, put_slot)
        (rw (unwatch-slots slot.connection.fd m w) (
          dead-IsRouted (u.0).index_of_fd m.slots i slot (q.0) at
            (ap (λ (c : Connection S). c.fd) same)
            (ap (λ (c : Connection S). is_failed c.state) same ∙ dead)
            (unwatch-IsRouted m w i slot slot.connection.fd refl at r)))

  -- No slot holds the descriptor.
  abbrev pub IsUnheld : ℕ → List (Slot S) → Type 0
  IsUnheld fd [] = Unit
  IsUnheld fd (slot ∷ slots) = (slot.connection.fd ≢ some fd) × IsUnheld fd slots

  pub not-Holds :
      (fd j : ℕ) (slots : List (Slot S)) (slot : Slot S)
      → IsUnheld fd slots
      → ¬ Holds slots j fd slot
  not-Holds fd j [] slot unheld (at, own) = cc
  not-Holds fd zero (s ∷ slots) slot unheld (at, own) =
      unheld.0 (ap (λ (t : Slot S). t.connection.fd) (some_injective s slot at) ∙ own)
  not-Holds fd (suc j) (s ∷ slots) slot unheld held = not-Holds fd j slots slot unheld.1 held

  -- A slot with a descriptor that no slot holds.
  pub fresh-IsRouted :
      (index : ℕ → Option ℕ) (old new : List (Slot S)) (i fd : ℕ) (slot : Slot S)
      → IsPlaced old i slot new
      → slot.connection.fd ≡ some fd
      → IsUnheld fd old
      → IsRoutedAt (λ j. i ≢ j) index old
      → IsRoutedAt (λ j. Unit {0}) (map_put index fd i) new
  unfolding map_put
  fresh-IsRouted index old new i fd slot placed own unheld r =
      place-IsRouted index (map_put index fd i) old new i slot r placed
        (λ j g s own' held.
          absurd (not-Holds fd j old s unheld (held.0, held.1 ∙ (sym own' ∙ own))))
        (λ g own' live. let e = some_injective g fd (sym own' ∙ own) in ground (arith, e))
        (λ g other. elim (ℕ_discrete g fd) [
          | yes e ↦ absurd (other (own ∙ ap some (sym e)))
          | no n ↦ ground (arith, n)
        ])

  -- What the next call of `socket` gives is held by no slot.
  abbrev pub IsFresh : List (Option ℕ) → List (Slot S) → Type 0
  IsFresh [] slots = Unit
  IsFresh (none ∷ sockets) slots = Unit
  IsFresh (some fd ∷ sockets) slots = IsUnheld fd slots

  pub created-IsUnheld :
      (parses : Text → Bool) (host : Text) (sockets : List (Option ℕ)) (w : World S)
      (slots : List (Slot S)) (fd : ℕ)
      → IsFresh sockets slots
      → (open_socket parses host sockets w).0 ≡ some fd
      → IsUnheld fd slots
  unfolding open_socket
  created-IsUnheld parses host [] w slots fd fresh h = cc
  created-IsUnheld parses host (none ∷ sockets) w slots fd fresh h = cc
  created-IsUnheld parses host (some g ∷ sockets) w slots fd fresh h =
      elim (Bool-cases (parses host)) [
        | inl good ↦
            let e : some g ≡ some fd = sym (rw good refl) ∙ h in
            subst (λ n. IsUnheld n slots) (some_injective g fd e) fresh
        | inr bad ↦ let e : ◌≡◌ {A = Option ℕ} none (some fd) = sym (rw bad refl) ∙ h in cc
      ]

  connect_slot-IsRouted :
      (jitter : ℕ → ℤ → ℤ) (i : ℕ) (now : ℤ) (old slot : Slot S) (fd : Option ℕ) (m : FeedMonitor S)
      (w : World S)
      → get_elem? m.slots i ≡ some old
      → slot.connection ≡ old.connection
      → ((g : ℕ) → fd ≡ some g → IsUnheld g m.slots)
      → IsRouted m
      → IsRouted (connect_slot jitter i now slot fd m w).0
  unfolding connect_slot put_slot rebind transition_to
  connect_slot-IsRouted jitter i now old slot none m w at h unheld r =
      let q = schedule_reconnect jitter m.config slot now w in
      let same = schedule_reconnect-connection jitter m.config slot now w ∙ h in
      put_slot-IsRouted m i old (q.0) at
        (
          ap (λ (c : Connection S). c.fd) same,
          λ live. ap (λ (c : Connection S). is_failed c.state) (sym same) ∙ live,
        )
        r
  connect_slot-IsRouted jitter i now old slot (some fd) m w at h unheld r =
      fresh-IsRouted m.index_of_fd m.slots (set m.slots i _) i fd _ (set-IsPlaced m.slots i _) refl
        (unheld fd refl) (IsRouted-weaken _ m.index_of_fd m.slots r)

  pub initiate_connect-IsRouted :
      (jitter : ℕ → ℤ → ℤ) (parses : Text → Bool) (i : ℕ) (now : ℤ) (m : FeedMonitor S)
      (w : World S)
      → IsFresh w.sockets m.slots
      → IsRouted m
      → IsRouted (initiate_connect jitter parses i now m w).0
  unfolding initiate_connect create_and_connect_socket
  initiate_connect-IsRouted jitter parses i now m w fresh r =
      elim (Option-cases (get_elem? m.slots i)) [
        | inl gone ↦ rw (initiate_connect, gone) r
        | inr (slot, at) ↦
            rw (initiate_connect, at)
              (connect_slot-IsRouted jitter i now slot _ _ m _ at refl
                (λ g. created-IsUnheld parses slot.connection.host w.sockets w m.slots g fresh) r)
      ]
