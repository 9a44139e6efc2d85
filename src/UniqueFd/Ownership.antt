-- ===== src/UniqueFd/Ownership.antt =====
-- Every descriptor has one owner at most, and is closed or handed out as often as it was acquired.
use native.Mathlib.Decide.{ℕ_discrete}
use vigil_low_latency_tcp_he.Prelude.{
  ℕ, zero, suc, ◌+◌, ◌≤◌, ◌≡◌, none, some, List, [], ◌∷◌, ◌++◌, arith, get_elem?, set,
  if◌then◌else◌, inl, inr, Option-cases, ◌≢◌, get_elem?-set_ne, sym, ◌∙◌,
}
use vigil_low_latency_tcp_he.Prelude.Int.{ℤ, pos}
use vigil_low_latency_tcp_he.UniqueFd.Defs.{
  UniqueFd, owner_of, no_fd, valid, same_fd, release, reset, destroy, move_construct, move_assign,
  Action, Objects, no_objects, act, act_all,
}

-- 1 where the value is the descriptor `d`.
abbrev pub is_descriptor : ℕ → ℤ → ℕ
is_descriptor d fd = if same_fd fd (pos d) then 1 else 0

unfoldable pub owned : ℕ → List UniqueFd → ℕ
owned d [] = 0
owned d (u ∷ us) = is_descriptor d u.fd + owned d us

unfoldable pub times : ℕ → List ℤ → ℕ
times d [] = 0
times d (fd ∷ fds) = is_descriptor d fd + times d fds

-- 1 where the action hands `d` to an object that does not hold it already.
unfoldable pub acquired : ℕ → Action → Objects → ℕ
acquired d (Action.construct fd) s = is_descriptor d fd
acquired d (Action.reset_to i fd) s = elim (get_elem? s.owners i) [
  | none ↦ 0
  | some u ↦ if same_fd u.fd fd then 0 else is_descriptor d fd
]
acquired d _ s = 0

unfoldable pub acquired_all : ℕ → List Action → Objects → ℕ
acquired_all d [] s = 0
acquired_all d (a ∷ actions) s = acquired d a s + acquired_all d actions (act a s)

-- `d` is handed to an object only while no other object holds it, as the system gives out descriptors.
abbrev pub IsGivenOnce : ℕ → List Action → Objects → Type 0
IsGivenOnce d [] s = Unit
IsGivenOnce d (a ∷ actions) s =
    (acquired d a s + owned d s.owners ≤ 1) × IsGivenOnce d actions (act a s)

owned-append : (d : ℕ) (us vs : List UniqueFd) → owned d (us ++ vs) ≡ owned d us + owned d vs
unfolding owned
owned-append d [] vs = omega arith
owned-append d (u ∷ us) vs = omega (arith, owned-append d us vs)

times-append : (d : ℕ) (xs ys : List ℤ) → times d (xs ++ ys) ≡ times d xs + times d ys
unfolding times
times-append d [] ys = omega arith
times-append d (x ∷ xs) ys = omega (arith, times-append d xs ys)

owned-set :
    (d : ℕ) (us : List UniqueFd) (i : ℕ) (u v : UniqueFd)
    → get_elem? us i ≡ some u
    → owned d (set us i v) + is_descriptor d u.fd ≡ owned d us + is_descriptor d v.fd
unfolding owned
owned-set d [] i u v h = cc
owned-set d (w ∷ us) zero u v h = ground (arith, h)
owned-set d (w ∷ us) (suc i) u v h = omega (arith, owned-set d us i u v h)

-- What `reset` closes and what it takes over, in one equation.
reset_balance :
    (d : ℕ) (u : UniqueFd) (fd : ℤ)
    → is_descriptor d (reset u fd).0.fd + times d (reset u fd).1
      ≡ is_descriptor d u.fd + (if same_fd u.fd fd then 0 else is_descriptor d fd)
unfolding reset times valid
reset_balance d u fd = ground arith

-- The account of `d` before and after a part of the program.
pub record IsBalanced (d gained : ℕ) (s s' : Objects) : Type 0 where
  pub account :
      owned d s'.owners + times d s'.closed + times d s'.released
      ≡ owned d s.owners + times d s.closed + times d s.released + gained
  pub owners_bound : owned d s'.owners ≤ owned d s.owners + gained

reset_to-IsBalanced :
    (d : ℕ) (i : ℕ) (fd : ℤ) (s : Objects)
    → IsBalanced d (acquired d (Action.reset_to i fd) s) s (act (Action.reset_to i fd) s)
unfolding act acquired
reset_to-IsBalanced d i fd s = elim (Option-cases (get_elem? s.owners i)) [
  | inl gone ↦ ground (arith, gone)
  | inr (u, at) ↦ ground (
    arith,
    at,
    owned-set d s.owners i u (reset u fd).0 at,
    reset_balance d u fd,
    times-append d (reset u fd).1 s.closed,
  )
]

release_from-IsBalanced :
    (d : ℕ) (i : ℕ) (s : Objects) → IsBalanced d 0 s (act (Action.release_from i) s)
unfolding act release times
release_from-IsBalanced d i s = elim (Option-cases (get_elem? s.owners i)) [
  | inl gone ↦ ground (arith, gone)
  | inr (u, at) ↦ ground (arith, at, owned-set d s.owners i u (owner_of no_fd) at)
]

destroy_at-IsBalanced :
    (d : ℕ) (i : ℕ) (s : Objects) → IsBalanced d 0 s (act (Action.destroy_at i) s)
unfolding act destroy
destroy_at-IsBalanced d i s = elim (Option-cases (get_elem? s.owners i)) [
  | inl gone ↦ ground (arith, gone)
  | inr (u, at) ↦
      let none_gained : (if same_fd u.fd no_fd then 0 else is_descriptor d no_fd) ≡ 0 =
        ground arith in
      ground (
        arith,
        at,
        owned-set d s.owners i u (reset u no_fd).0 at,
        reset_balance d u no_fd,
        none_gained,
        times-append d (reset u no_fd).1 s.closed,
      )
]

construct_from-IsBalanced :
    (d : ℕ) (i : ℕ) (s : Objects) → IsBalanced d 0 s (act (Action.construct_from i) s)
unfolding act move_construct release owned
construct_from-IsBalanced d i s = elim (Option-cases (get_elem? s.owners i)) [
  | inl gone ↦ ground (arith, gone)
  | inr (u, at) ↦ ground (
    arith,
    at,
    owned-set d s.owners i u (owner_of no_fd) at,
    owned-append d (set s.owners i (owner_of no_fd)) (owner_of u.fd ∷ []),
  )
]

construct-IsBalanced :
    (d : ℕ) (fd : ℤ) (s : Objects)
    → IsBalanced d (acquired d (Action.construct fd) s) s (act (Action.construct fd) s)
unfolding act acquired owned
construct-IsBalanced d fd s = omega (arith, owned-append d s.owners (owner_of fd ∷ []))

-- Two objects do not both hold a descriptor that has one owner at most.
not_both :
    (d : ℕ) (us : List UniqueFd) (i j : ℕ) (u v : UniqueFd)
    → get_elem? us i ≡ some u
    → get_elem? us j ≡ some v
    → i ≢ j
    → owned d us ≤ 1
    → is_descriptor d u.fd + is_descriptor d v.fd ≤ 1
not_both d us i j u v hi hj apart once = ground (
  arith,
  owned-set d us j v (owner_of no_fd) hj,
  owned-set d (set us j (owner_of no_fd)) i u (owner_of no_fd)
      (get_elem?-set_ne us (owner_of no_fd) (λ e. apart (sym e)) ∙ hi),
  once,
)

assign-IsBalanced :
    (d : ℕ) (i j : ℕ) (s : Objects)
    → owned d s.owners ≤ 1
    → IsBalanced d 0 s (act (Action.assign i j) s)
unfolding act move_assign release
assign-IsBalanced d i j s once = elim (Option-cases (get_elem? s.owners i)) [
  | inl gone ↦ ground (arith, gone)
  | inr (u, at) ↦ elim (Option-cases (get_elem? s.owners j)) [
    | inl gone ↦ ground (arith, at, gone)
    | inr (v, there) ↦ elim (ℕ_discrete i j) [
      | yes self ↦ ground (arith, at, there, self)
      | no apart ↦
          let emptied = set s.owners j (owner_of no_fd) in
          let still : get_elem? emptied i ≡ some u =
            get_elem?-set_ne s.owners (owner_of no_fd) (λ e. apart (sym e)) ∙ at in
          ground (
            arith,
            at,
            there,
            apart,
            not_both d s.owners i j u v at there apart once,
            owned-set d s.owners j v (owner_of no_fd) there,
            owned-set d emptied i u (reset u v.fd).0 still,
            reset_balance d u v.fd,
            times-append d (reset u v.fd).1 s.closed,
          )
    ]
  ]
]

act-IsBalanced :
    (d : ℕ) (a : Action) (s : Objects)
    → owned d s.owners ≤ 1
    → IsBalanced d (acquired d a s) s (act a s)
unfolding acquired
act-IsBalanced d (Action.construct fd) s once = construct-IsBalanced d fd s
act-IsBalanced d (Action.construct_from i) s once = construct_from-IsBalanced d i s
act-IsBalanced d (Action.assign i j) s once = assign-IsBalanced d i j s once
act-IsBalanced d (Action.reset_to i fd) s once = reset_to-IsBalanced d i fd s
act-IsBalanced d (Action.release_from i) s once = release_from-IsBalanced d i s
act-IsBalanced d (Action.destroy_at i) s once = destroy_at-IsBalanced d i s

act_all-account :
    (d : ℕ) (actions : List Action) (s : Objects)
    → owned d s.owners ≤ 1
    → IsGivenOnce d actions s
    → (owned d (act_all actions s).owners ≤ 1)
      × (owned d (act_all actions s).owners
            + times d (act_all actions s).closed
            + times d (act_all actions s).released
          ≡ owned d s.owners + times d s.closed + times d s.released + acquired_all d actions s)
unfolding act_all acquired_all
act_all-account d [] s once given = (once, omega arith)
act_all-account d (a ∷ actions) s once given =
    let step = act-IsBalanced d a s once in
    let (owners, account) =
      act_all-account d actions (act a s) (omega (arith, step.owners_bound, given.0)) given.1 in
    (owners, omega (arith, step.account, account))

-- A program starts with no objects and constructs, moves, assigns, resets, releases and destroys
-- them in any order. For a descriptor `d` that is handed to an object only while no other object holds
-- it: at the end one object at most holds `d`, and the number of times that `d` was closed, the number
-- of times that it was handed out by `release` and the number of its owners sum up to the number of
-- times that it was acquired. So it is never closed twice, and it is lost by no move.
pub act_all-owned :
    (d : ℕ) (actions : List Action)
    → IsGivenOnce d actions no_objects
    → (owned d (act_all actions no_objects).owners ≤ 1)
      × (owned d (act_all actions no_objects).owners
            + times d (act_all actions no_objects).closed
            + times d (act_all actions no_objects).released
          ≡ acquired_all d actions no_objects)
unfolding owned times
act_all-owned d actions given =
    omega (arith, act_all-account d actions no_objects (omega arith) given)
