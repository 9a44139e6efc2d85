-- ===== src/FeedMonitor/Index.antt =====
-- The index of feed ids: each feed id is found at the slot that has it, and nowhere else.
use native.Mathlib.Decide.{dec_lt, ℕ_discrete}
use vigil_low_latency_tcp_he.Prelude.{
  ℕ, zero, suc, ◌≤◌, ◌<◌, ◌≡◌, refl, ap, ◌≢◌, ◌↔◌, Option, none, some, List, [], ◌∷◌, ◌++◌, arith,
  length, get_elem?, set, take, length-take, get_elem?-set_self, get_elem?-set_ne,
}
use vigil_low_latency_tcp_he.FeedMonitor.Types.{map_put, map_erase}

module _ {A : Type 0} where
  pub get_elem?-snoc_last : (xs : List A) (x : A) → get_elem? (xs ++ x ∷ []) (length xs) ≡ some x
  get_elem?-snoc_last [] x = refl
  get_elem?-snoc_last (y ∷ ys) x = get_elem?-snoc_last ys x

  pub get_elem?-snoc :
      (xs : List A) (x : A) (i : ℕ) → i ≢ length xs → get_elem? (xs ++ x ∷ []) i ≡ get_elem? xs i
  get_elem?-snoc [] x zero h = absurd (h refl)
  get_elem?-snoc [] x (suc i) h = refl
  get_elem?-snoc (y ∷ ys) x zero h = refl
  get_elem?-snoc (y ∷ ys) x (suc i) h = get_elem?-snoc ys x i (λ e. h (ap suc e))

  pub get_elem?-beyond : (xs : List A) (i : ℕ) → length xs ≤ i → get_elem? xs i ≡ none
  get_elem?-beyond [] i h = refl
  get_elem?-beyond (x ∷ xs) zero h = absurd (omega arith)
  get_elem?-beyond (x ∷ xs) (suc i) h = get_elem?-beyond xs i (omega arith)

  pub get_elem?-take_lt :
      (k : ℕ) (xs : List A) (i : ℕ) → i < k → get_elem? (take k xs) i ≡ get_elem? xs i
  get_elem?-take_lt zero xs i h = absurd (omega arith)
  get_elem?-take_lt (suc k) [] i h = refl
  get_elem?-take_lt (suc k) (x ∷ xs) zero h = refl
  get_elem?-take_lt (suc k) (x ∷ xs) (suc i) h = get_elem?-take_lt k xs i (omega arith)

  pub get_elem?-take_ge : (k : ℕ) (xs : List A) (i : ℕ) → k ≤ i → get_elem? (take k xs) i ≡ none
  get_elem?-take_ge k xs i h = get_elem?-beyond (take k xs) i (omega (arith, length-take k xs))

  pub some_injective : (x y : A) → some x ≡ some y → x ≡ y
  some_injective x y e = cc

-- The map `index` has the key at place `i` of the list exactly at `i`.
abbrev pub Indexes : (ℕ → Option ℕ) → List ℕ → Type 0
Indexes index keys = (key i : ℕ) → (index key ≡ some i) ↔ (get_elem? keys i ≡ some key)

pub Indexes-snoc :
    (index : ℕ → Option ℕ) (keys : List ℕ) (new : ℕ)
    → Indexes index keys
    → index new ≡ none
    → Indexes (map_put index new (length keys)) (keys ++ new ∷ [])
unfolding map_put
Indexes-snoc index keys new h fresh key i = elim (ℕ_discrete i (length keys)) [
  | yes e ↦ ground (arith, e, h key i, fresh, get_elem?-snoc_last keys new, get_elem?-beyond keys i)
  | no n ↦ ground (arith, n, h key i, fresh, get_elem?-snoc keys new i n)
]

-- The last key takes the place of the key at `i`.
pub Indexes-take :
    (index : ℕ → Option ℕ) (keys : List ℕ) (i old : ℕ)
    → Indexes index keys
    → get_elem? keys i ≡ some old
    → suc i ≡ length keys
    → Indexes (map_erase index old) (take i keys)
unfolding map_erase
Indexes-take index keys i old h at e key j = elim (dec_lt j i) [
  | yes lt ↦ ground (arith, lt, e, at, h key j, h old i, get_elem?-take_lt i keys j lt)
  | no ge ↦ ground (
    arith,
    ge,
    e,
    at,
    h key j,
    h old i,
    get_elem?-take_ge i keys j (omega arith),
    get_elem?-beyond keys j,
  )
]

pub Indexes-fill :
    (index : ℕ → Option ℕ) (keys : List ℕ) (i last old moved : ℕ)
    → Indexes index keys
    → get_elem? keys i ≡ some old
    → get_elem? keys last ≡ some moved
    → suc last ≡ length keys
    → i < last
    → Indexes (map_put (map_erase index old) moved i) (take last (set keys i moved))
unfolding map_erase map_put
Indexes-fill index keys i last old moved h at end e lt key j = elim (dec_lt j last) [
  | yes below ↦ elim (ℕ_discrete i j) [
    | yes s ↦ ground (
      arith,
      at,
      end,
      e,
      lt,
      below,
      s,
      h key j,
      h key last,
      h moved last,
      h old i,
      get_elem?-take_lt last (set keys i moved) j below,
      get_elem?-set_self keys i moved,
    )
    | no n ↦ ground (
      arith,
      at,
      end,
      e,
      lt,
      below,
      n,
      h key j,
      h moved last,
      h old i,
      get_elem?-take_lt last (set keys i moved) j below,
      get_elem?-set_ne keys moved n,
    )
  ]
  | no ge ↦ ground (
    arith,
    at,
    end,
    e,
    lt,
    ge,
    h key j,
    h moved last,
    h old i,
    get_elem?-take_ge last (set keys i moved) j (omega arith),
    get_elem?-beyond keys j,
  )
]
