-- ===== src/FeedMonitor/Routes.antt =====
-- The index of descriptors, over lists of slots.
use native.Mathlib.Decide.{ℕ_discrete}
use vigil_low_latency_tcp_he.Prelude.{
  ℕ, zero, suc, ◌<◌, ◌≡◌, ◌≢◌, sym, ap, ◌∙◌, ◌⊎◌, inl, inr, false, Option, some, List, [], ◌∷◌,
  ◌++◌, arith, length, get_elem?, set, take, subst, get_elem?-set_ne, suc,
}
use vigil_low_latency_tcp_he.Connection.{is_failed}
use vigil_low_latency_tcp_he.FeedMonitor.Types.{Slot, map_erase}
use vigil_low_latency_tcp_he.FeedMonitor.Index.{
  some_injective, get_elem?-snoc_last, get_elem?-take_lt, get_elem?-snoc,
}

map_erase_ne : (index : ℕ → Option ℕ) (key k : ℕ) → k ≢ key → map_erase index key k ≡ index k
unfolding map_erase
map_erase_ne index key k h = ground (arith, h)

module _ {A : Type 0} where
  set_at : (xs : List A) (i : ℕ) (v x : A) → get_elem? (set xs i v) i ≡ some x → v ≡ x
  set_at [] i v x h = cc
  set_at (y ∷ ys) zero v x h = some_injective v x h
  set_at (y ∷ ys) (suc i) v x h = set_at ys i v x h

  pub taken :
      (k : ℕ) (xs : List A) (i : ℕ) (x : A)
      → get_elem? (take k xs) i ≡ some x
      → (i < k) × (get_elem? xs i ≡ some x)
  taken zero xs i x h = cc
  taken (suc k) [] i x h = cc
  taken (suc k) (y ∷ ys) zero x h = (omega arith, h)
  taken (suc k) (y ∷ ys) (suc i) x h = let (lt, at) = taken k ys i x h in (omega arith, at)

  take_back :
      (k : ℕ) (xs : List A) (i : ℕ) (x : A)
      → i < k
      → get_elem? xs i ≡ some x
      → get_elem? (take k xs) i ≡ some x
  take_back k xs i x lt at = get_elem?-take_lt k xs i lt ∙ at

module _ {S : Type 0} where
  -- The slot at `i` holds the descriptor.
  abbrev pub Holds : List (Slot S) → ℕ → ℕ → Slot S → Type 0
  Holds slots i fd slot = (get_elem? slots i ≡ some slot) × (slot.connection.fd ≡ some fd)

  -- No descriptor is held by two slots.
  abbrev pub IsUnshared : List (Slot S) → Type 0
  IsUnshared slots = (i j fd : ℕ) (s t : Slot S) → Holds slots i fd s → Holds slots j fd t → i ≡ j

  -- The descriptors of the live connections at the places `P` lead to their slots.
  abbrev pub IsFound : (ℕ → Type 0) → (ℕ → Option ℕ) → List (Slot S) → Type 0
  IsFound P index slots =
      (i fd : ℕ) (s : Slot S)
      → P i
      → Holds slots i fd s
      → is_failed s.connection.state ≡ false
      → index fd ≡ some i

  abbrev pub IsRoutedAt : (ℕ → Type 0) → (ℕ → Option ℕ) → List (Slot S) → Type 0
  IsRoutedAt P index slots = IsUnshared slots × IsFound P index slots

  -- `new` is `old` with `slot` at `i`, or a part of that.
  abbrev pub IsPlaced : List (Slot S) → ℕ → Slot S → List (Slot S) → Type 0
  IsPlaced old i slot new =
      (j : ℕ) (s : Slot S)
      → get_elem? new j ≡ some s
      → ((i ≡ j) × (slot ≡ s)) ⊎ ((i ≢ j) × (get_elem? old j ≡ some s))

  module _ (index index' : ℕ → Option ℕ) (old new : List (Slot S)) (i : ℕ) (slot : Slot S)
      (routed : IsRoutedAt (λ j. i ≢ j) index old) (placed : IsPlaced old i slot new)
      (own : (j fd : ℕ) (s : Slot S)
        → slot.connection.fd ≡ some fd
        → Holds old j fd s
        → i ≡ j) where
    placed-IsUnshared : IsUnshared new
    placed-IsUnshared j k fd s t (sj, sf) (tk, tf) = by_places (placed j s sj) (placed k t tk)
      where
        by_places :
            ((i ≡ j) × (slot ≡ s)) ⊎ ((i ≢ j) × (get_elem? old j ≡ some s))
            → ((i ≡ k) × (slot ≡ t)) ⊎ ((i ≢ k) × (get_elem? old k ≡ some t))
            → j ≡ k
        by_places (inl p) (inl q) = sym p.0 ∙ q.0
        by_places (inl p) (inr q) =
            sym p.0 ∙ own k fd t (ap (λ (r : Slot S). r.connection.fd) p.1 ∙ sf) (q.1, tf)
        by_places (inr p) (inl q) =
            sym (own j fd s (ap (λ (r : Slot S). r.connection.fd) q.1 ∙ tf) (p.1, sf)) ∙ q.0
        by_places (inr p) (inr q) = routed.0 j k fd s t (p.1, sf) (q.1, tf)

    -- A slot goes to place `i` and its descriptor into the map, if it is live.
    pub place-IsRouted :
        ((fd : ℕ)
          → slot.connection.fd ≡ some fd
          → is_failed slot.connection.state ≡ false
          → index' fd ≡ some i)
        → ((fd : ℕ) → slot.connection.fd ≢ some fd → index' fd ≡ index fd)
        → IsRoutedAt (λ j. Unit) index' new
    place-IsRouted entered kept = (placed-IsUnshared, found)
      where
        found : IsFound (λ j. Unit) index' new
        found j fd s any (sj, sf) live = by_place (placed j s sj)
          where
            by_place :
                ((i ≡ j) × (slot ≡ s)) ⊎ ((i ≢ j) × (get_elem? old j ≡ some s)) → index' fd ≡ some j
            by_place (inl p) =
                entered fd (ap (λ (r : Slot S). r.connection.fd) p.1 ∙ sf)
                  (ap (λ (r : Slot S). is_failed r.connection.state) p.1 ∙ live)
                ∙ ap some p.0
            by_place (inr p) =
                kept fd (λ e. p.0 (own j fd s e (p.1, sf))) ∙ routed.1 j fd s p.0 (p.1, sf) live

  pub IsRouted-weaken :
      (P : ℕ → Type 0) (index : ℕ → Option ℕ) (slots : List (Slot S))
      → IsRoutedAt (λ j. Unit) index slots
      → IsRoutedAt P index slots
  IsRouted-weaken P index slots r = (r.0, λ i fd s h held live. r.1 i fd s tt held live)

  -- The descriptor of the slot at `i` is taken out of the map.
  pub erase-IsRouted :
      (index : ℕ → Option ℕ) (slots : List (Slot S)) (i fd : ℕ) (slot : Slot S)
      → Holds slots i fd slot
      → IsRoutedAt (λ j. Unit) index slots
      → IsRoutedAt (λ j. i ≢ j) (map_erase index fd) slots
  erase-IsRouted index slots i fd slot held r = (
    r.0,
    λ j fd' s ne held' live.
        map_erase_ne index fd fd'
          (λ e. ne (r.0 i j fd' slot s (held.0, held.1 ∙ ap some (sym e)) held'))
        ∙ r.1 j fd' s tt held' live,
  )

  -- The slot at `i` is gone.
  pub drop-IsRouted :
      (index : ℕ → Option ℕ) (old new : List (Slot S)) (i : ℕ)
      → IsRoutedAt (λ j. i ≢ j) index old
      → ((j : ℕ) (s : Slot S) → get_elem? new j ≡ some s → (i ≢ j) × (get_elem? old j ≡ some s))
      → IsRoutedAt (λ j. Unit) index new
  drop-IsRouted index old new i r part = (
    λ j k fd s t (sj, sf) (tk, tf). r.0 j k fd s t ((part j s sj).1, sf) ((part k t tk).1, tf),
    λ j fd s any (sj, sf) live. r.1 j fd s (part j s sj).0 ((part j s sj).1, sf) live,
  )

  pub set-IsPlaced :
      (slots : List (Slot S)) (i : ℕ) (slot : Slot S) → IsPlaced slots i slot (set slots i slot)
  set-IsPlaced slots i slot j s at = elim (ℕ_discrete i j) [
    | yes e ↦
        inl (
          e,
          set_at slots i slot s (subst (λ k. get_elem? (set slots i slot) k ≡ some s) (sym e) at),
        )
    | no n ↦ inr (n, sym (get_elem?-set_ne slots slot n) ∙ at)
  ]

  pub snoc-IsPlaced :
      (slots : List (Slot S)) (slot : Slot S)
      → IsPlaced slots (length slots) slot (slots ++ slot ∷ [])
  snoc-IsPlaced slots slot j s at = elim (ℕ_discrete (length slots) j) [
    | yes e ↦ inl (
      e,
      some_injective slot s (
          sym (get_elem?-snoc_last slots slot)
          ∙ subst (λ k. get_elem? (slots ++ slot ∷ []) k ≡ some s) (sym e) at),
    )
    | no n ↦ inr (n, sym (get_elem?-snoc slots slot j (λ e. n (sym e))) ∙ at)
  ]

  pub take-IsPlaced :
      (k : ℕ) (old new : List (Slot S)) (i : ℕ) (slot : Slot S)
      → IsPlaced old i slot new
      → IsPlaced (take k old) i slot (take k new)
  take-IsPlaced k old new i slot placed j s at =
      let (lt, at') = taken k new j s at in
      elim (placed j s at') [ inl p ↦ inl p | inr p ↦ inr (p.0, take_back k old j s lt p.1) ]

  -- The live part of the front of the list, where the slot at `i` is still out of the map.
  pub take-IsRouted :
      (P : ℕ → Type 0) (index : ℕ → Option ℕ) (k : ℕ) (slots : List (Slot S))
      → IsRoutedAt P index slots
      → IsRoutedAt P index (take k slots)
  take-IsRouted P index k slots r = (
    λ i j fd s t (si, sf) (tj, tf).
        r.0 i j fd s t ((taken k slots i s si).1, sf) ((taken k slots j t tj).1, tf),
    λ i fd s p (si, sf) live. r.1 i fd s p ((taken k slots i s si).1, sf) live,
  )
