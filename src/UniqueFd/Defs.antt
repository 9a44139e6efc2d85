-- ===== src/UniqueFd/Defs.antt =====
-- One method each, and a program that makes, moves, resets and destroys several of these objects.
use vigil_low_latency_tcp_he.Prelude.{
  ℕ, Bool, ◌&&◌, not, none, some, List, [], ◌∷◌, ◌++◌, get_elem?, set, ◌==◌, if◌then◌else◌,
}
use vigil_low_latency_tcp_he.Prelude.Int.{ℤ, pos, negsuc, leb_ℤ}

-- `fd_` is any `int`; below 0 it stands for no descriptor.
pub record UniqueFd : Type 0 where
  pub fd : ℤ

abbrev pub owner_of : ℤ → UniqueFd
owner_of fd = record { fd = fd }

abbrev pub no_fd : ℤ
no_fd = negsuc 0

unfoldable pub valid : UniqueFd → Bool
valid u = leb_ℤ (pos 0) u.fd

abbrev pub same_fd : ℤ → ℤ → Bool
same_fd a b = leb_ℤ a b && leb_ℤ b a

-- The emptied object and the value that is handed out.
unfoldable pub release : UniqueFd → UniqueFd × ℤ
release u = (owner_of no_fd, u.fd)

-- The new object and the descriptors closed, of which there is at most one.
unfoldable pub reset : UniqueFd → ℤ → UniqueFd × List ℤ
reset u new_fd = (owner_of new_fd, if valid u && not (same_fd u.fd new_fd) then u.fd ∷ [] else [])

-- `~UniqueFd`. The object that is left holds no descriptor.
unfoldable pub destroy : UniqueFd → UniqueFd × List ℤ
destroy u = reset u no_fd

-- `UniqueFd(UniqueFd&&)`: the new object and the one moved from.
unfoldable pub move_construct : UniqueFd → UniqueFd × UniqueFd
move_construct other = (owner_of (release other).1, (release other).0)

-- `operator=(UniqueFd&&)` between two objects: the target, the one moved from, and what is closed.
unfoldable pub move_assign : UniqueFd → UniqueFd → UniqueFd × UniqueFd × List ℤ
move_assign target other =
    let (other', f) = release other in
    let (target', closed) = reset target f in (target', other', closed)

-- What a program does with its objects, which it names by their place in the order of construction.
pub data Action : Type 0 where
  construct : ℤ → Action
  construct_from : ℕ → Action
  assign : (target other : ℕ) → Action
  reset_to : ℕ → ℤ → Action
  release_from destroy_at : ℕ → Action

-- The objects, the descriptors passed to `::close` (latest first) and those handed out by `release`.
pub record Objects : Type 0 where
  pub owners : List UniqueFd
  pub closed : List ℤ
  pub released : List ℤ

abbrev pub no_objects : Objects
no_objects = record { owners = []; closed = []; released = [] }

-- An action on a place where no object stands does nothing.
unfoldable pub act : Action → Objects → Objects
act (construct fd) s = record s { owners = s.owners ++ owner_of fd ∷ [] }
act (construct_from i) s = elim (get_elem? s.owners i) [
  | none ↦ s
  | some other ↦
      let (new, other') = move_construct other in
      record s { owners = set s.owners i other' ++ new ∷ [] }
]
act (assign i j) s = elim (get_elem? s.owners i) [
  | none ↦ s
  | some target ↦ elim (get_elem? s.owners j) [
    | none ↦ s
    | some other ↦
        let (target', other', closed) = move_assign target other in
        if i == j then s else record s {
          owners = set (set s.owners j other') i target';
          closed = closed ++ s.closed;
        }
  ]
]
act (reset_to i fd) s = elim (get_elem? s.owners i) [
  | none ↦ s
  | some u ↦
      let (u', closed) = reset u fd in
      record s { owners = set s.owners i u'; closed = closed ++ s.closed }
]
act (release_from i) s = elim (get_elem? s.owners i) [
  | none ↦ s
  | some u ↦
      let (u', fd) = release u in
      record s { owners = set s.owners i u'; released = fd ∷ s.released }
]
act (destroy_at i) s = elim (get_elem? s.owners i) [
  | none ↦ s
  | some u ↦
      let (u', closed) = destroy u in
      record s { owners = set s.owners i u'; closed = closed ++ s.closed }
]

unfoldable pub act_all : List Action → Objects → Objects
act_all [] s = s
act_all (a ∷ actions) s = act_all actions (act a s)
