-- ===== src/Demo/Isolation.antt =====
-- What a successful run of the demo has shown.
use mathlib.Core.Option.{some_inj}
use native.Mathlib.Decide.{ℕ_discrete}
use vigil_low_latency_tcp_he.Prelude.{
  zero, suc, ℕ, ◌≡◌, ◌≢◌, refl, sym, ap, ◌∙◌, true, false, Option, none, some, inl, inr, ◌⊎◌, List,
  [], ◌∷◌, arith, get_elem?, set, not, Bool, ◌==◌, if◌then◌else◌, Bool-cases, All, get_elem?-set_ne,
  ==_iff, subst, suc, replicate,
}
use vigil_low_latency_tcp_he.Connection.{ConnectionState, is_healthy}
use vigil_low_latency_tcp_he.FeedMonitor.{FeedSnapshot}
use vigil_low_latency_tcp_he.Demo.Defs.{
  DemoState, demo_start, state_changed, same_state, observe_from, observe_feed, observe_feeds,
  observe_ticks, exit_status, state_number,
}

-- Not yet seen, or healthy.
abbrev pub IsCalm : ConnectionState → Type 0
IsCalm s = (s ≡ ConnectionState.disconnected) ⊎ (s ≡ ConnectionState.healthy)

-- The feed is the faulted one, or its state is calm.
abbrev pub IsUndisturbed : FeedSnapshot → Type 0
IsUndisturbed f = (f.feed_id ≡ 1) ⊎ IsCalm f.state

-- As long as the flag is not set, the last states of the other feeds are calm.
abbrev IsKept : DemoState → Type 0
IsKept s =
    s.others_ever_left_healthy ≡ false
    → (i : ℕ) (c : ConnectionState) → i ≢ 1
    → get_elem? s.current_state i ≡ some c
    → IsCalm c

state_of : ℕ → ConnectionState
state_of n =
    if n == 0
    then ConnectionState.disconnected
    else if n == 1
    then ConnectionState.connecting
    else if n == 2
    then ConnectionState.handshaking
    else if n == 3
    then ConnectionState.healthy
    else if n == 4
    then ConnectionState.degraded
    else if n == 5
    then ConnectionState.failed
    else ConnectionState.reconnecting

state_of-state_number : (c : ConnectionState) → state_of (state_number c) ≡ c
unfolding state_of
state_of-state_number ConnectionState.disconnected = refl
state_of-state_number ConnectionState.connecting = refl
state_of-state_number ConnectionState.handshaking = refl
state_of-state_number ConnectionState.healthy = refl
state_of-state_number ConnectionState.degraded = refl
state_of-state_number ConnectionState.failed = refl
state_of-state_number ConnectionState.reconnecting = refl

same_state_eq : (a b : ConnectionState) → same_state a b ≡ true → a ≡ b
same_state_eq a b h =
    sym (state_of-state_number a)
    ∙ ap state_of ((==_iff (state_number a) (state_number b)).0 h)
    ∙ state_of-state_number b

is_healthy_eq : (c : ConnectionState) → is_healthy c ≡ true → c ≡ ConnectionState.healthy
is_healthy_eq ConnectionState.healthy h = refl
is_healthy_eq ConnectionState.disconnected h = cc
is_healthy_eq ConnectionState.connecting h = cc
is_healthy_eq ConnectionState.handshaking h = cc
is_healthy_eq ConnectionState.degraded h = cc
is_healthy_eq ConnectionState.failed h = cc
is_healthy_eq ConnectionState.reconnecting h = cc

state_changed-flag :
    (f : FeedSnapshot) (s : DemoState)
    → (state_changed f s).others_ever_left_healthy ≡ false
    → (s.others_ever_left_healthy ≡ false) × IsUndisturbed f
unfolding state_changed
state_changed-flag f s h = elim (Bool-cases (f.feed_id == 1)) [
  | inl first ↦ (ground (arith, h, first), inl ((==_iff f.feed_id 1).0 first))
  | inr other ↦ elim (Bool-cases (is_healthy f.state)) [
    | inl well ↦ (ground (arith, h, other, well), inr (inr (is_healthy_eq f.state well)))
    | inr ill ↦ let e : true ≡ false = ground (arith, h, other, ill) in cc
  ]
]

state_changed-current :
    (f : FeedSnapshot) (s : DemoState) → (state_changed f s).current_state ≡ s.current_state
unfolding state_changed
state_changed-current f s = ground arith

-- What one observation does.
record IsObserved (f : FeedSnapshot) (s s' : DemoState) : Type 0 where
  current : s'.current_state ≡ set s.current_state f.feed_id f.state
  flag :
      s'.others_ever_left_healthy ≡ false → (s.others_ever_left_healthy ≡ false) × IsUndisturbed f

observe_from-IsObserved :
    (f : FeedSnapshot) (s s' : DemoState) (found : Option ConnectionState)
    → IsKept s
    → get_elem? s.current_state f.feed_id ≡ found
    → observe_from f s found ≡ some s'
    → IsObserved f s s'
unfolding observe_from
observe_from-IsObserved f s s' none kept at h = cc
observe_from-IsObserved f s s' (some prev) kept at h =
    subst (IsObserved f s) (some_inj.0 h) (by_test (Bool-cases (same_state prev f.state)))
  where
    stored : DemoState
    stored = record s { current_state = set s.current_state f.feed_id f.state }

    still : same_state prev f.state ≡ true → s.others_ever_left_healthy ≡ false → IsUndisturbed f
    still same off = elim (ℕ_discrete f.feed_id 1) [
      | yes first ↦ inl first
      | no other ↦
          inr (subst IsCalm (same_state_eq prev f.state same) (kept off f.feed_id prev other at))
    ]

    by_test :
        (same_state prev f.state ≡ true) ⊎ (same_state prev f.state ≡ false)
        → IsObserved f s (if same_state prev f.state then stored else state_changed f stored)
    by_test (inl same) = rw same (record { current = refl; flag = λ off. (off, still same off) })
    by_test (inr changed) =
        rw changed
          (record { current = state_changed-current f stored; flag = state_changed-flag f stored })

IsObserved-IsKept : (f : FeedSnapshot) (s s' : DemoState) → IsObserved f s s' → IsKept s → IsKept s'
IsObserved-IsKept f s s' o kept off i c other at = elim (ℕ_discrete f.feed_id i) [
  | no apart ↦
      let there : get_elem? s.current_state i ≡ some c =
        sym (get_elem?-set_ne s.current_state f.state apart)
        ∙ sym (ap (λ (xs : List ConnectionState). get_elem? xs i) o.current)
        ∙ at in
      kept (o.flag off).0 i c other there
  | yes here ↦ elim ((o.flag off).1) [
    | inl first ↦ absurd (other (sym here ∙ first))
    | inr calm ↦
        let stored : get_elem? (set s.current_state f.feed_id f.state) f.feed_id ≡ some c =
          sym (ap (λ (xs : List ConnectionState). get_elem? xs f.feed_id) o.current)
          ∙ ap (get_elem? (s'.current_state)) here
          ∙ at in
        subst IsCalm (set_value s.current_state f.feed_id f.state c stored) calm
  ]
]
  where
    set_value :
        (xs : List ConnectionState) (k : ℕ) (v d : ConnectionState)
        → get_elem? (set xs k v) k ≡ some d
        → v ≡ d
    set_value [] k v d h = cc
    set_value (x ∷ xs) zero v d h = some_inj.0 h
    set_value (x ∷ xs) (suc k) v d h = set_value xs k v d h

-- From a kept state on: if the flag is not set at the end, it was not set before, and nothing observed
-- was a disturbance.
observe_feeds-IsKept :
    (feeds : List FeedSnapshot) (s s' : DemoState)
    → IsKept s
    → observe_feeds feeds s ≡ some s'
    → IsKept s'
      × (s'.others_ever_left_healthy ≡ false
          → (s.others_ever_left_healthy ≡ false) × All IsUndisturbed feeds)
unfolding observe_feeds
observe_feeds-IsKept [] s s' kept h =
    let same = some_inj.0 h in
    (
      subst IsKept same kept,
      λ off. (ap (λ (r : DemoState). r.others_ever_left_healthy) same ∙ off, tt),
    )
observe_feeds-IsKept (f ∷ feeds) s s' kept h =
    by_first (observe_feed f s) refl h (observe_feeds-IsKept feeds)
  where
    by_first :
        (first : Option DemoState)
        → observe_feed f s ≡ first
        → elim first as (λ _. Option DemoState) [ none ↦ none | some s'' ↦ observe_feeds feeds s'' ]
          ≡ some s'
        → ((t t' : DemoState)
            → IsKept t
            → observe_feeds feeds t ≡ some t'
            → IsKept t'
              × (t'.others_ever_left_healthy ≡ false
                  → (t.others_ever_left_healthy ≡ false) × All IsUndisturbed feeds))
        → IsKept s'
          × (s'.others_ever_left_healthy ≡ false
              → (s.others_ever_left_healthy ≡ false) × All IsUndisturbed (f ∷ feeds))
    by_first none e g later = cc
    by_first (some t) e g later =
        let o =
          observe_from-IsObserved f s t (get_elem? s.current_state f.feed_id) kept refl
            (unfold observe_feed in e) in
        let r = later t s' (IsObserved-IsKept f s t o kept) g in
        (r.0, λ off. let b = r.1 off in let a = o.flag b.0 in (a.0, (a.1, b.1)))

observe_ticks-IsKept :
    (ticks : List (List FeedSnapshot)) (s s' : DemoState)
    → IsKept s
    → observe_ticks ticks s ≡ some s'
    → s'.others_ever_left_healthy ≡ false
    → (s.others_ever_left_healthy ≡ false) × All (All IsUndisturbed) ticks
unfolding observe_ticks
observe_ticks-IsKept [] s s' kept h off =
    (ap (λ (r : DemoState). r.others_ever_left_healthy) (some_inj.0 h) ∙ off, tt)
observe_ticks-IsKept (feeds ∷ ticks) s s' kept h off =
    by_first (observe_feeds feeds s) refl h (observe_ticks-IsKept ticks)
  where
    by_first :
        (first : Option DemoState)
        → observe_feeds feeds s ≡ first
        → elim first as (λ _. Option DemoState) [ none ↦ none | some s'' ↦ observe_ticks ticks s'' ]
          ≡ some s'
        → ((t t' : DemoState)
            → IsKept t
            → observe_ticks ticks t ≡ some t'
            → t'.others_ever_left_healthy ≡ false
            → (t.others_ever_left_healthy ≡ false) × All (All IsUndisturbed) ticks)
        → (s.others_ever_left_healthy ≡ false) × All (All IsUndisturbed) (feeds ∷ ticks)
    by_first none e g later = cc
    by_first (some t) e g later =
        let r = observe_feeds-IsKept feeds s t kept e in
        let rest = later t s' r.0 g off in let here = r.1 rest.0 in (here.0, (here.1, rest.1))

demo_start-IsKept : IsKept demo_start
unfolding demo_start
demo_start-IsKept off i c other at = all_disconnected 4 i c at
  where
    all_disconnected :
        (n i : ℕ) (c : ConnectionState)
        → get_elem? (replicate n ConnectionState.disconnected) i ≡ some c
        → IsCalm c
    all_disconnected zero i c h = cc
    all_disconnected (suc n) zero c h = inl (sym (some_inj.0 h))
    all_disconnected (suc n) (suc i) c h = all_disconnected n i c h

-- What a returned status says of the state at the load.
record IsLoaded (seen : List (List FeedSnapshot)) (status : ℕ) : Type 0 where
  loaded : DemoState
  run : observe_ticks seen demo_start ≡ some loaded
  returned : (if not loaded.others_ever_left_healthy then 0 else 1) ≡ status

exit_status-IsLoaded :
    (seen later : List (List FeedSnapshot)) (s : DemoState) (status : ℕ)
    → exit_status seen later demo_start ≡ some (s, status)
    → IsLoaded seen status
unfolding exit_status
exit_status-IsLoaded seen later s status h = by_load (observe_ticks seen demo_start) refl h
  where
    by_join :
        (k : ℕ) (joined : Option DemoState)
        → elim joined as (λ _. Option (DemoState × ℕ)) [ none ↦ none | some t ↦ some (t, k) ]
          ≡ some (s, status)
        → k ≡ status
    by_join k none h = cc
    by_join k (some t) h = ap (λ (r : DemoState × ℕ). r.1) (some_inj.0 h)

    by_load :
        (loaded : Option DemoState)
        → observe_ticks seen demo_start ≡ loaded
        → elim loaded as (λ _. Option (DemoState × ℕ)) [
          | none ↦ none
          | some t ↦ elim (observe_ticks later t) [
            | none ↦ none
            | some u ↦ some (u, if not t.others_ever_left_healthy then 0 else 1)
          ]
        ]
          ≡ some (s, status)
        → IsLoaded seen status
    by_load none e h = cc
    by_load (some t) e h = record {
      loaded = t;
      run = e;
      returned =
          by_join (if not t.others_ever_left_healthy then 0 else 1) (observe_ticks later t) h;
    }

-- If the demo returns 0, then every snapshot that the callback has seen up to the point where `main`
-- loads the flag, which is before it stops the monitor, has each feed but the faulted one healthy, or
-- still disconnected as at the start; so a run in which a tick before that point has found another feed
-- failed, degraded or reconnecting, or connecting or in its handshake, does not return 0. And the ticks
-- behind that point do not matter: a run with the same ticks before it and any others behind it returns
-- 0 as well.
pub exit_status-IsUndisturbed :
    (seen later later' : List (List FeedSnapshot)) (s s' : DemoState) (status : ℕ)
    → exit_status seen later demo_start ≡ some (s, 0)
    → exit_status seen later' demo_start ≡ some (s', status)
    → All (All IsUndisturbed) seen × (status ≡ 0)
exit_status-IsUndisturbed seen later later' s s' status h h' =
    let a = exit_status-IsLoaded seen later s 0 h in
    let b = exit_status-IsLoaded seen later' s' status h' in
    let same : a.loaded ≡ b.loaded = some_inj.0 (sym a.run ∙ b.run) in
    (
      (observe_ticks-IsKept seen demo_start a.loaded demo_start-IsKept a.run
          (calm (a.loaded.others_ever_left_healthy) a.returned)).1,
      sym b.returned
          ∙ ap (λ (t : DemoState). if not t.others_ever_left_healthy then 0 else 1) (sym same)
          ∙ a.returned,
    )
  where
    calm : (flag : Bool) → ◌≡◌ {A = ℕ} (if not flag then 0 else 1) 0 → flag ≡ false
    calm flag h = ground (arith, h)
