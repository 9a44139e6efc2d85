-- ===== src/FeedSimulator/Table.antt =====
-- The table of clients and the list of the replies that wait.
use vigil_low_latency_tcp_he.Prelude.{
  ℕ, ◌≡◌, refl, ◌∙◌, Bool, true, false, ◌||◌, inl, inr, none, some, List, [], ◌∷◌, arith, ◌==◌,
  if◌then◌else◌, All, Bool-cases, ==_iff, ◌⊎◌,
}
use vigil_low_latency_tcp_he.Connection.{Connection}
use vigil_low_latency_tcp_he.FeedSimulator.Types.{
  Faults, PendingReply, Chance, on_ping_intercept, find_client, put_client, erase_client,
  purge_replies,
}

abbrev pub Clients : Type 0
Clients = List (ℕ × Connection Faults)

unfoldable pub has_client : ℕ → Clients → Bool
has_client fd [] = false
has_client fd ((key, conn) ∷ clients) = key == fd || has_client fd clients

pub has_client-put :
    (fd other : ℕ) (conn : Connection Faults) (clients : Clients)
    → has_client other (put_client fd conn clients) ≡ has_client other clients
unfolding has_client put_client
has_client-put fd other conn [] = refl
has_client-put fd other conn ((key, old) ∷ clients) = rw (has_client-put fd other conn clients) refl

pub has_client-erase :
    (fd other : ℕ) (clients : Clients)
    → (other == fd) ≡ false
    → has_client other (erase_client fd clients) ≡ has_client other clients
unfolding has_client erase_client
has_client-erase fd other [] h = refl
has_client-erase fd other ((key, conn) ∷ clients) h =
    ground (arith, h, has_client-erase fd other clients h)

pub has_client-find :
    (fd : ℕ) (clients : Clients) (conn : Connection Faults)
    → find_client fd clients ≡ some conn
    → has_client fd clients ≡ true
unfolding has_client find_client
has_client-find fd [] conn h = cc
has_client-find fd ((key, old) ∷ clients) conn h =
    ground (arith, h, has_client-find fd clients conn)

pub erase_client-fresh :
    (fd : ℕ) (clients : Clients) → find_client fd clients ≡ none → erase_client fd clients ≡ clients
unfolding erase_client find_client
erase_client-fresh fd [] h = refl
erase_client-fresh fd ((key, conn) ∷ clients) h = elim (Bool-cases (key == fd)) [
  | inl same ↦ absurd (some_none (found same))
  | inr other ↦ rw (other, erase_client-fresh fd clients (rest other)) refl
]
  where
    some_none : some conn ≡ none → ⊥
    some_none e = cc

    found : (key == fd) ≡ true → some conn ≡ none
    found same = ground (arith, same, h)

    rest : (key == fd) ≡ false → find_client fd clients ≡ none
    rest other = ground (arith, other, h)

-- Each client's interceptor defers its replies under the client's own descriptor.
abbrev pub Intercepted : Chance → Clients → Type 0
Intercepted chance clients =
    All
      (λ (entry : ℕ × Connection Faults).
        entry.1.ping_interceptor ≡ some (on_ping_intercept chance entry.0))
      clients

pub Intercepted-find :
    (chance : Chance) (fd : ℕ) (clients : Clients) (conn : Connection Faults)
    → Intercepted chance clients
    → find_client fd clients ≡ some conn
    → conn.ping_interceptor ≡ some (on_ping_intercept chance fd)
unfolding find_client
Intercepted-find chance fd [] conn all h = cc
Intercepted-find chance fd ((key, old) ∷ clients) conn all h = elim (Bool-cases (key == fd)) [
  | inl same ↦ own ((==_iff key fd).0 same) (first same)
  | inr other ↦ Intercepted-find chance fd clients conn all.1 (rest other)
]
  where
    first : (key == fd) ≡ true → old ≡ conn
    first same = ground (arith, same, h)

    rest : (key == fd) ≡ false → find_client fd clients ≡ some conn
    rest other = ground (arith, other, h)

    own : key ≡ fd → old ≡ conn → conn.ping_interceptor ≡ some (on_ping_intercept chance fd)
    own k c = rw (← k, ← c) all.0

pub Intercepted-put :
    (chance : Chance) (fd : ℕ) (conn : Connection Faults) (clients : Clients)
    → conn.ping_interceptor ≡ some (on_ping_intercept chance fd)
    → Intercepted chance clients
    → Intercepted chance (put_client fd conn clients)
unfolding put_client
Intercepted-put chance fd conn [] i all = tt
Intercepted-put chance fd conn ((key, old) ∷ clients) i all =
    (one (Bool-cases (key == fd)), Intercepted-put chance fd conn clients i all.1)
  where
    one :
        ((key == fd) ≡ true) ⊎ ((key == fd) ≡ false)
        → (if key == fd then conn else old).ping_interceptor ≡ some (on_ping_intercept chance key)
    one (inl same) = rw (same, (==_iff key fd).0 same) i
    one (inr other) = rw other all.0

pub Intercepted-erase :
    (chance : Chance) (fd : ℕ) (clients : Clients)
    → Intercepted chance clients
    → Intercepted chance (erase_client fd clients)
unfolding erase_client
Intercepted-erase chance fd [] all = tt
Intercepted-erase chance fd ((key, conn) ∷ clients) all = elim (Bool-cases (key == fd)) [
  | inl same ↦ rw same (Intercepted-erase chance fd clients all.1)
  | inr other ↦ rw other (all.0, Intercepted-erase chance fd clients all.1)
]

-- Each waiting reply belongs to a client.
abbrev pub Owned : Clients → List PendingReply → Type 0
Owned clients pending = All (λ (p : PendingReply). has_client p.fd clients ≡ true) pending

pub Owned-purge :
    (fd : ℕ) (clients : Clients) (pending : List PendingReply)
    → Owned clients pending
    → Owned (erase_client fd clients) (purge_replies fd pending)
unfolding purge_replies
Owned-purge fd clients [] all = tt
Owned-purge fd clients (p ∷ pending) all = elim (Bool-cases (p.fd == fd)) [
  | inl same ↦ rw same (Owned-purge fd clients pending all.1)
  | inr other ↦
      rw other
        (has_client-erase fd p.fd clients other ∙ all.0, Owned-purge fd clients pending all.1)
]

-- Another table with the same descriptors.
pub Owned-same :
    (clients clients' : Clients) (pending : List PendingReply)
    → ((fd : ℕ) → has_client fd clients' ≡ has_client fd clients)
    → Owned clients pending
    → Owned clients' pending
Owned-same clients clients' [] same all = tt
Owned-same clients clients' (p ∷ pending) same all =
    (same p.fd ∙ all.0, Owned-same clients clients' pending same all.1)

pub Owned-cons :
    (client : ℕ × Connection Faults) (clients : Clients) (pending : List PendingReply)
    → Owned clients pending
    → Owned (client ∷ clients) pending
unfolding has_client
Owned-cons client clients [] all = tt
Owned-cons client clients (p ∷ pending) all =
    (ground (arith, all.0), Owned-cons client clients pending all.1)
