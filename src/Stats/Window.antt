-- ===== src/Stats/Window.antt =====
-- The ring is a bounded queue: it holds the last N values pushed, and forgets the oldest.
use vigil_low_latency_tcp_he.Prelude.Edits.{
  take-set-suc, drop-suc, drop_one-append, drop_all, drop-set_lt,
}
use native.Mathlib.Decide.{dec_lt}
use native.Mathlib.Numerals.{add-one}
use native.Mathlib.Nat.{mod_self, mod-eq_of_lt}
use mathlib.Core.List.{append-nil, append_assoc}
use vigil_low_latency_tcp_he.Prelude.{
  drop-drop, length-replicate, lt→ltb, inl, inr, ◌⊎◌, take_all, Bool-cases, length-drop,
  length-take, length-append, ℕ, zero, suc, ◌+◌, ◌-◌, ◌%◌, ◌≤◌, ◌<◌, ◌≡◌, refl, sym, ap, ◌∙◌, List,
  [], ◌∷◌, ◌++◌, length, set, take, drop, ltb, if◌then◌else◌, arith, length-set, inl, ◌⊎◌, inr,
}
use vigil_low_latency_tcp_he.Stats.Defs.{RingBuffer, push, new_ring}

wrapped :
    (n k : ℕ) → k < n → ((k + 1 < n) × ((k + 1) % n ≡ suc k)) ⊎ ((suc k ≡ n) × ((k + 1) % n ≡ 0))
wrapped n k h = elim (dec_lt (k + 1) n) [
  | yes lt ↦ inl (lt, mod-eq_of_lt lt ∙ omega arith)
  | no ge ↦ let e : k + 1 ≡ n = omega arith in inr (omega arith, rw e (mod_self n))
]

module _ {A : Type 0} where
  pub record IsRing (n : ℕ) (r : RingBuffer A) : Type 0 where
    pub full_size : length r.slots ≡ n
    pub cursor_in : r.cursor < n
    pub count_in : r.count ≤ n
    pub filling : r.count < n → r.cursor ≡ r.count

  -- Oldest first.
  abbrev pub contents : ℕ → RingBuffer A → List A
  contents n r =
      if ltb r.count n then take r.count r.slots else drop r.cursor r.slots ++ take r.cursor r.slots

  -- The queue of at most `n` elements that a push is meant to make.
  abbrev pub keep_last : ℕ → List A → List A
  keep_last n xs = drop (length xs - n) xs

  keep_last_short : (n : ℕ) (xs : List A) → length xs ≤ n → keep_last n xs ≡ xs
  keep_last_short n xs h = let e : length xs - n ≡ 0 = omega arith in rw e

  -- Reading round the ring from the place behind the one just written.
  rotation :
      (n k : ℕ) (ys : List A)
      → length ys ≡ n
      → k < n
      → drop ((k + 1) % n) ys ++ take ((k + 1) % n) ys ≡ drop (suc k) ys ++ take (suc k) ys
  rotation n k ys e h = elim (wrapped n k h) [
    | inl (lt, w) ↦ rw w
    | inr (top, w) ↦
        rw (w, drop_all (suc k) ys (omega arith), take_all (suc k) ys (omega arith)) (append-nil ys)
  ]

  module _ (n k : ℕ) (slots : List A) (v : A) (size : length slots ≡ n) (h : k < n) where
    written : take (suc k) (set slots k v) ≡ take k slots ++ v ∷ []
    written = take-set-suc k slots v (omega arith)

    write_filling :
        (if ltb (k + 1) n
          then take (k + 1) (set slots k v)
          else drop ((k + 1) % n) (set slots k v) ++ take ((k + 1) % n) (set slots k v))
        ≡ take k slots ++ v ∷ []
    write_filling = elim (Bool-cases (ltb (k + 1) n)) [
      | inl more ↦ rw (more, add-one) written
      | inr last ↦
          let top : n ≤ suc k = ground arith in
          rw
            (
              last,
              rotation n k (set slots k v) (length-set slots k v ∙ size) h,
              drop_all (suc k) (set slots k v) (omega (arith, length-set slots k v)),
            )
            written
    ]

    write_full :
        drop ((k + 1) % n) (set slots k v) ++ take ((k + 1) % n) (set slots k v)
        ≡ keep_last n ((drop k slots ++ take k slots) ++ v ∷ [])
    write_full =
        rotation n k (set slots k v) (length-set slots k v ∙ size) h
        ∙ rw (drop-set_lt (suc k) k slots v (omega arith), written)
            (rw over (
              sym (
                ap (λ xs. xs ++ v ∷ [])
                  (drop_one-append (drop k slots) (take k slots)
                    (omega (arith, length-drop k slots)))
                ∙ append_assoc (drop 1 (drop k slots)) (take k slots) (v ∷ [])
                ∙ ap (λ xs. xs ++ (take k slots ++ v ∷ [])) (drop-suc k slots))))
      where
        over :
            keep_last n ((drop k slots ++ take k slots) ++ v ∷ [])
            ≡ drop 1 (drop k slots ++ take k slots) ++ v ∷ []
        over =
            let len : length (drop k slots ++ take k slots) ≡ n = omega (
              arith,
              length-append (drop k slots) (take k slots),
              length-drop k slots,
              length-take k slots,
            ) in
            let excess : length ((drop k slots ++ take k slots) ++ v ∷ []) - n ≡ 1 =
              omega (arith, len, length-append (drop k slots ++ take k slots) (v ∷ [])) in
            rw excess (drop_one-append (drop k slots ++ take k slots) (v ∷ []) (omega (arith, len)))

  length-contents : (n : ℕ) (r : RingBuffer A) → IsRing n r → length (contents n r) ≤ n
  length-contents n r h = ground (
    arith,
    length-take r.count r.slots,
    length-append (drop r.cursor r.slots) (take r.cursor r.slots),
    length-drop r.cursor r.slots,
    length-take r.cursor r.slots,
  )

  pub push-IsRing : (n : ℕ) (r : RingBuffer A) (v : A) → IsRing n r → IsRing n (push n r v)
  unfolding push
  push-IsRing n r v h = record {
    full_size = length-set r.slots r.cursor v ∙ h.full_size;
    cursor_in = omega (arith, h.cursor_in);
    count_in = ground arith;
    filling = λ lt. elim (wrapped n r.cursor h.cursor_in) [
      | inl (below, w) ↦ ground arith
      | inr (top, w) ↦ ground arith
    ];
  }

  -- A push appends its value to the queue, whose oldest value falls out when it is full.
  pub contents-push :
      (n : ℕ) (r : RingBuffer A) (v : A)
      → IsRing n r
      → contents n (push n r v) ≡ keep_last n (contents n r ++ v ∷ [])
  unfolding push
  contents-push n r v h = elim (Bool-cases (ltb r.count n)) [
    | inl more ↦
        let e : r.cursor ≡ r.count = h.filling (ground arith) in
        rw (more, e)
          (write_filling n r.count r.slots v h.full_size (ground arith)
            ∙ sym (
                keep_last_short n (take r.count r.slots ++ v ∷ []) (
                  ground (
                    arith,
                    length-append (take r.count r.slots) (v ∷ []),
                    length-take r.count r.slots,
                  ))))
    | inr full ↦ rw (full, full) (write_full n r.cursor r.slots v h.full_size h.cursor_in)
  ]

  drop-append : (k : ℕ) (xs ys : List A) → k ≤ length xs → drop k (xs ++ ys) ≡ drop k xs ++ ys
  drop-append zero xs ys h = refl
  drop-append (suc k) [] ys h = absurd (omega arith)
  drop-append (suc k) (x ∷ xs) ys h = drop-append k xs ys (omega arith)

  -- Forgetting early changes nothing.
  keep_last-append :
      (n : ℕ) (xs ys : List A) → keep_last n (keep_last n xs ++ ys) ≡ keep_last n (xs ++ ys)
  keep_last-append n xs ys = rw (← drop-append k xs ys (omega arith)) (
      drop-drop k (length (drop k (xs ++ ys)) - n) (xs ++ ys)
      ∙ ap (λ (j : ℕ). drop j (xs ++ ys))
          (omega (arith, length-drop k (xs ++ ys), length-append xs ys)))
    where
      k : ℕ
      k = length xs - n

  unfoldable pub push_all : ℕ → RingBuffer A → List A → RingBuffer A
  push_all n r [] = r
  push_all n r (v ∷ vs) = push_all n (push n r v) vs

  contents-push_all :
      (n : ℕ) (r : RingBuffer A) (vs : List A)
      → IsRing n r
      → contents n (push_all n r vs) ≡ keep_last n (contents n r ++ vs)
  unfolding push_all
  contents-push_all n r [] h =
      sym (rw append-nil (keep_last_short n (contents n r) (length-contents n r h)))
  contents-push_all n r (v ∷ vs) h =
      contents-push_all n (push n r v) vs (push-IsRing n r v h)
      ∙ ap (λ xs. keep_last n (xs ++ vs)) (contents-push n r v h)
      ∙ keep_last-append n (contents n r ++ v ∷ []) vs
      ∙ ap (keep_last n) (append_assoc (contents n r) (v ∷ []) vs)

  pub new_ring-IsRing : (n : ℕ) (a : A) → 0 < n → IsRing n (new_ring n a)
  new_ring-IsRing n a h = record {
    full_size = length-replicate n a;
    cursor_in = h;
    count_in = omega arith;
    filling = λ lt. refl;
  }

  -- A ring of `n` places (n > 0) that starts empty holds, after any pushes, the last `n` of the pushed
  -- values (all, where there are fewer), oldest first.
  pub contents-new_ring :
      (n : ℕ) (a : A) (vs : List A)
      → 0 < n
      → contents n (push_all n (new_ring n a) vs) ≡ keep_last n vs
  contents-new_ring n a vs h =
      contents-push_all n (new_ring n a) vs (new_ring-IsRing n a h) ∙ rw (lt→ltb 0 n h)
