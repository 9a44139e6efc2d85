-- ===== src/Stats/Order.antt =====
-- `sorted_copy` is the window in ascending order.
use mathlib.Core.List.{Perm, perm_append_comm}
use mathlib.Core.List.Perm
use vigil_low_latency_tcp_he.Prelude.{
  ◌≡◌, refl, true, leb, length, some, ℕ, ◌<◌, subst, inl, inr, List, [], ◌∷◌, ◌++◌, arith, ltb,
  take, drop, take-append-drop, take_all, All, Bool-cases,
}
use vigil_low_latency_tcp_he.Prelude.Int.{ℤ, ◌≤ℤ◌, leb_ℤ}
use vigil_low_latency_tcp_he.Stats.Defs.{
  RingBuffer, push, new_ring, insert_sorted, sort, sorted_copy,
}
use vigil_low_latency_tcp_he.Stats.Window.{
  IsRing, contents, keep_last, push_all, push-IsRing, new_ring-IsRing, contents-new_ring,
}

abbrev pub IsSorted : List ℤ → Type 0
IsSorted [] = Unit
IsSorted (x ∷ xs) = All (λ y. x ≤ℤ y) xs × IsSorted xs

insert_sorted-All :
    (low x : ℤ) (xs : List ℤ)
    → low ≤ℤ x
    → All (λ y. low ≤ℤ y) xs
    → All (λ y. low ≤ℤ y) (insert_sorted x xs)
unfolding insert_sorted
insert_sorted-All low x [] h all = (h, tt)
insert_sorted-All low x (y ∷ ys) h all = elim (Bool-cases (leb_ℤ x y)) [
  | inl here ↦ rw here (h, all)
  | inr later ↦ rw later (all.0, insert_sorted-All low x ys h all.1)
]

All-below : (x y : ℤ) (ys : List ℤ) → x ≤ℤ y → All (λ z. y ≤ℤ z) ys → All (λ z. x ≤ℤ z) ys
All-below x y [] h all = tt
All-below x y (z ∷ zs) h all = (omega (arith, h, all.0), All-below x y zs h all.1)

insert_sorted-IsSorted : (x : ℤ) (xs : List ℤ) → IsSorted xs → IsSorted (insert_sorted x xs)
unfolding insert_sorted
insert_sorted-IsSorted x [] h = (tt, tt)
insert_sorted-IsSorted x (y ∷ ys) h = elim (Bool-cases (leb_ℤ x y)) [
  | inl here ↦ let le : x ≤ℤ y = ground (arith, here) in rw here ((le, All-below x y ys le h.0), h)
  | inr later ↦
      let le : y ≤ℤ x = ground (arith, later) in
      rw later (insert_sorted-All y x ys le h.0, insert_sorted-IsSorted x ys h.1)
]

pub sort-IsSorted : (xs : List ℤ) → IsSorted (sort xs)
unfolding sort
sort-IsSorted [] = tt
sort-IsSorted (x ∷ xs) = insert_sorted-IsSorted x (sort xs) (sort-IsSorted xs)

insert_sorted-Perm : (x : ℤ) (xs : List ℤ) → Perm (insert_sorted x xs) (x ∷ xs)
unfolding insert_sorted
insert_sorted-Perm x [] = Perm.refl (x ∷ [])
insert_sorted-Perm x (y ∷ ys) = elim (Bool-cases (leb_ℤ x y)) [
  | inl here ↦ rw here (Perm.refl (x ∷ y ∷ ys))
  | inr later ↦ rw later (Perm.trans (Perm.cons y (insert_sorted-Perm x ys)) (Perm.swap x y ys))
]

pub sort-Perm : (xs : List ℤ) → Perm (sort xs) xs
unfolding sort
sort-Perm [] = Perm.refl []
sort-Perm (x ∷ xs) = Perm.trans (insert_sorted-Perm x (sort xs)) (Perm.cons x (sort-Perm xs))

-- The first `count` places hold the contents, from another start.
taken-Perm : (n : ℕ) (r : RingBuffer ℤ) → IsRing n r → Perm (take r.count r.slots) (contents n r)
taken-Perm n r h = elim (Bool-cases (ltb r.count n)) [
  | inl more ↦ rw more (Perm.refl (take r.count r.slots))
  | inr full ↦
      rw (full, take_all r.count r.slots (ground (arith, full, h.count_in, h.full_size)))
        (subst (λ xs. Perm xs (drop r.cursor r.slots ++ take r.cursor r.slots))
          (take-append-drop r.cursor r.slots)
          (perm_append_comm (take r.cursor r.slots) (drop r.cursor r.slots)))
]

push_all-IsRing : (n : ℕ) (r : RingBuffer ℤ) (vs : List ℤ) → IsRing n r → IsRing n (push_all n r vs)
unfolding push_all
push_all-IsRing n r [] h = h
push_all-IsRing n r (v ∷ vs) h = push_all-IsRing n (push n r v) vs (push-IsRing n r v h)

-- After any pushes into an empty ring of `n` > 0 places, `sorted_copy` reads no place outside of the
-- array, and its result is in ascending order and a permutation of the last `n` of the pushed values (all,
-- where there are fewer).
pub sorted_copy-Perm :
    (n : ℕ) (a : ℤ) (vs : List ℤ)
    → 0 < n
    → (xs : List ℤ) × (sorted_copy (push_all n (new_ring n a) vs) ≡ some xs)
      × IsSorted xs
      × Perm xs (keep_last n vs)
unfolding sorted_copy
sorted_copy-Perm n a vs h = (
  sort (take r.count r.slots),
  rw in_range refl,
  sort-IsSorted (take r.count r.slots),
  Perm.trans (sort-Perm (take r.count r.slots)) (
      subst (λ xs. Perm (take r.count r.slots) xs) (contents-new_ring n a vs h)
        (taken-Perm n r ring)),
)
  where
    r : RingBuffer ℤ
    r = push_all n (new_ring n a) vs

    ring : IsRing n r
    ring = push_all-IsRing n (new_ring n a) vs (new_ring-IsRing n a h)

    in_range : leb r.count (length r.slots) ≡ true
    in_range = ground (arith, ring.count_in, ring.full_size)
