-- ===== src/Bench/Peer/Frames.antt =====
-- The answers to a buffer that comes in two parts.
use mathlib.Core.List.{append_assoc}
use vigil_low_latency_tcp_he.Prelude.{
  ℕ, zero, suc, ◌≤◌, ◌≡◌, refl, sym, ap, ◌∙◌, true, false, Option, none, some, List, [], ◌∷◌, ◌++◌,
  arith, length, length-append, length-drop, take, drop, leb, Bool-cases, Option-cases, inl, inr,
}
use vigil_low_latency_tcp_he.Heartbeat.{HeartbeatMessage, decode_heartbeat, heartbeat_message_size}
use vigil_low_latency_tcp_he.Connection.Rounds.{take-append_le, drop-append_le}
use vigil_low_latency_tcp_he.Bench.Peer.Defs.{answer, answer_frames}

abbrev pub Answers : Type 0
Answers = List (List ℕ) × Option (List ℕ)

-- The loop with enough fuel.
abbrev pub answered : List ℕ → Answers
answered xs = answer_frames (length xs) xs

abbrev pub before : List (List ℕ) → Answers → Answers
before sent r = (sent ++ r.0, r.1)

-- How the round that starts from `rest` goes.
pub data FrameRound (rest : List ℕ) : Type 0 where
  short : leb heartbeat_message_size (length rest) ≡ false → FrameRound rest
  corrupt :
      leb heartbeat_message_size (length rest) ≡ true
      → decode_heartbeat (take heartbeat_message_size rest) ≡ none
      → FrameRound rest
  frame :
      (m : HeartbeatMessage)
      → leb heartbeat_message_size (length rest) ≡ true
      → decode_heartbeat (take heartbeat_message_size rest) ≡ some m
      → FrameRound rest

pub FrameRound-cases : (rest : List ℕ) → FrameRound rest
FrameRound-cases rest = elim (Bool-cases (leb heartbeat_message_size (length rest))) [
  | inr little ↦ short little
  | inl full ↦ elim (Option-cases (decode_heartbeat (take heartbeat_message_size rest))) [
    | inl bad ↦ corrupt full bad
    | inr (m, good) ↦ frame m full good
  ]
]

answer_frames_short :
    (fuel : ℕ) (rest : List ℕ)
    → leb heartbeat_message_size (length rest) ≡ false
    → answer_frames fuel rest ≡ ([], some rest)
unfolding answer_frames
answer_frames_short zero rest little = refl
answer_frames_short (suc fuel) rest little = rw (little, answer_frames)

answer_frames_corrupt :
    (fuel : ℕ) (rest : List ℕ)
    → leb heartbeat_message_size (length rest) ≡ true
    → decode_heartbeat (take heartbeat_message_size rest) ≡ none
    → answer_frames (suc fuel) rest ≡ ([], none)
unfolding answer_frames
answer_frames_corrupt fuel rest full bad = rw (full, bad, answer_frames)

answer_frames_next :
    (fuel : ℕ) (rest : List ℕ) (m : HeartbeatMessage)
    → leb heartbeat_message_size (length rest) ≡ true
    → decode_heartbeat (take heartbeat_message_size rest) ≡ some m
    → answer_frames (suc fuel) rest
      ≡ before (answer m) (answer_frames fuel (drop heartbeat_message_size rest))
unfolding answer_frames
answer_frames_next fuel rest m full good = rw (full, good, answer_frames)

-- One unit of fuel for each byte is enough: more makes no difference.
pub answer_frames-fuel :
    (n k : ℕ) (rest : List ℕ)
    → length rest ≤ n
    → length rest ≤ k
    → answer_frames n rest ≡ answer_frames k rest
answer_frames-fuel zero k rest hn hk =
    let little : leb heartbeat_message_size (length rest) ≡ false = ground (arith, hn) in
    answer_frames_short zero rest little ∙ sym (answer_frames_short k rest little)
answer_frames-fuel (suc n) zero rest hn hk =
    let little : leb heartbeat_message_size (length rest) ≡ false = ground (arith, hk) in
    answer_frames_short (suc n) rest little ∙ sym (answer_frames_short zero rest little)
answer_frames-fuel (suc n) (suc k) rest hn hk =
    by_round (FrameRound-cases rest) (answer_frames-fuel n k (drop heartbeat_message_size rest))
  where
    shorter :
        (j : ℕ)
        → length rest ≤ suc j
        → leb heartbeat_message_size (length rest) ≡ true
        → length (drop heartbeat_message_size rest) ≤ j
    shorter j h full = ground (arith, h, full, length-drop heartbeat_message_size rest)

    by_round :
        FrameRound rest
        → (length (drop heartbeat_message_size rest) ≤ n
            → length (drop heartbeat_message_size rest) ≤ k
            → answer_frames n (drop heartbeat_message_size rest)
              ≡ answer_frames k (drop heartbeat_message_size rest))
        → answer_frames (suc n) rest ≡ answer_frames (suc k) rest
    by_round (short little) later =
        answer_frames_short (suc n) rest little ∙ sym (answer_frames_short (suc k) rest little)
    by_round (corrupt full bad) later =
        answer_frames_corrupt n rest full bad ∙ sym (answer_frames_corrupt k rest full bad)
    by_round (frame m full good) later =
        answer_frames_next n rest m full good
        ∙ ap (before (answer m)) (later (shorter n hn full) (shorter k hk full))
        ∙ sym (answer_frames_next k rest m full good)

pub answered_short :
    (xs : List ℕ) → leb heartbeat_message_size (length xs) ≡ false → answered xs ≡ ([], some xs)
answered_short xs little = answer_frames_short (length xs) xs little

pub answered_corrupt :
    (xs : List ℕ)
    → leb heartbeat_message_size (length xs) ≡ true
    → decode_heartbeat (take heartbeat_message_size xs) ≡ none
    → answered xs ≡ ([], none)
answered_corrupt xs full bad =
    answer_frames-fuel (length xs) (suc (length xs)) xs (omega arith) (omega arith)
    ∙ answer_frames_corrupt (length xs) xs full bad

pub answered_next :
    (xs : List ℕ) (m : HeartbeatMessage)
    → leb heartbeat_message_size (length xs) ≡ true
    → decode_heartbeat (take heartbeat_message_size xs) ≡ some m
    → answered xs ≡ before (answer m) (answered (drop heartbeat_message_size xs))
answered_next xs m full good =
    answer_frames-fuel (length xs) (suc (length xs)) xs (omega arith) (omega arith)
    ∙ answer_frames_next (length xs) xs m full good
    ∙ ap (before (answer m)) (
        answer_frames-fuel (length xs) (length (drop heartbeat_message_size xs))
          (drop heartbeat_message_size xs) (omega (arith, length-drop heartbeat_message_size xs))
          (omega arith))

-- What is left to do when `b` comes behind an answered buffer.
abbrev pub left_then : Option (List ℕ) → List ℕ → Answers
left_then none b = ([], none)
left_then (some left) b = answered (left ++ b)

abbrev pub then_answered : Answers → List ℕ → Answers
then_answered r b = before r.0 (left_then r.1 b)

then_answered-before :
    (sent : List (List ℕ)) (r : Answers) (b : List ℕ)
    → before sent (then_answered r b) ≡ then_answered (before sent r) b
then_answered-before sent r b =
    ap (λ (s : List (List ℕ)). (s, (left_then r.1 b).1))
      (sym (append_assoc sent r.0 (left_then r.1 b).0))

answered-append_below :
    (n : ℕ) (a b : List ℕ) → length a ≤ n → answered (a ++ b) ≡ then_answered (answered a) b
answered-append_below zero [] b h = rw (answered_short [] refl) refl
answered-append_below zero (x ∷ a) b h = absurd (omega arith)
answered-append_below (suc n) a b h =
    by_round (FrameRound-cases a) (answered-append_below n (drop heartbeat_message_size a) b)
  where
    enough : leb heartbeat_message_size (length a) ≡ true → heartbeat_message_size ≤ length a
    enough full = ground (arith, full)

    longer :
        leb heartbeat_message_size (length a) ≡ true
        → leb heartbeat_message_size (length (a ++ b)) ≡ true
    longer full = ground (arith, full, length-append a b)

    taken :
        leb heartbeat_message_size (length a) ≡ true
        → take heartbeat_message_size (a ++ b) ≡ take heartbeat_message_size a
    taken full = take-append_le heartbeat_message_size a b (enough full)

    by_round :
        FrameRound a
        → (length (drop heartbeat_message_size a) ≤ n
            → answered (drop heartbeat_message_size a ++ b)
              ≡ then_answered (answered (drop heartbeat_message_size a)) b)
        → answered (a ++ b) ≡ then_answered (answered a) b
    by_round (short little) later = rw (answered_short a little) refl
    by_round (corrupt full bad) later =
        answered_corrupt (a ++ b) (longer full) (ap decode_heartbeat (taken full) ∙ bad)
        ∙ rw (answered_corrupt a full bad) refl
    by_round (frame m full good) later =
        answered_next (a ++ b) m (longer full) (ap decode_heartbeat (taken full) ∙ good)
        ∙ ap (λ (xs : List ℕ). before (answer m) (answered xs))
            (drop-append_le heartbeat_message_size a b (enough full))
        ∙ ap (before (answer m))
            (later (omega (arith, enough full, h, length-drop heartbeat_message_size a)))
        ∙ then_answered-before (answer m) (answered (drop heartbeat_message_size a)) b
        ∙ ap (λ (r : Answers). then_answered r b) (sym (answered_next a m full good))

pub answered-append : (a b : List ℕ) → answered (a ++ b) ≡ then_answered (answered a) b
answered-append a b = answered-append_below (length a) a b (omega arith)

-- What a drained buffer leaves is shorter than a frame.
answer_frames-left :
    (n : ℕ) (xs left : List ℕ)
    → length xs ≤ n
    → (answer_frames n xs).1 ≡ some left
    → leb heartbeat_message_size (length left) ≡ false
answer_frames-left zero xs left h e =
    let little : leb heartbeat_message_size (length xs) ≡ false = ground (arith, h) in
    let same : some xs ≡ some left =
      sym (ap (λ (r : Answers). r.1) (answer_frames_short zero xs little)) ∙ e in
    let here : xs ≡ left = cc in
    ap (λ (ys : List ℕ). leb heartbeat_message_size (length ys)) (sym here) ∙ little
answer_frames-left (suc n) xs left h e =
    by_round (FrameRound-cases xs) (answer_frames-left n (drop heartbeat_message_size xs) left)
  where
    by_round :
        FrameRound xs
        → (length (drop heartbeat_message_size xs) ≤ n
            → (answer_frames n (drop heartbeat_message_size xs)).1 ≡ some left
            → leb heartbeat_message_size (length left) ≡ false)
        → leb heartbeat_message_size (length left) ≡ false
    by_round (short little) later =
        let same : some xs ≡ some left =
          sym (ap (λ (r : Answers). r.1) (answer_frames_short (suc n) xs little)) ∙ e in
        let here : xs ≡ left = cc in
        ap (λ (ys : List ℕ). leb heartbeat_message_size (length ys)) (sym here) ∙ little
    by_round (corrupt full bad) later =
        let same : none ≡ some left =
          sym (ap (λ (r : Answers). r.1) (answer_frames_corrupt n xs full bad)) ∙ e in
        cc
    by_round (frame m full good) later =
        later (ground (arith, full, h, length-drop heartbeat_message_size xs))
          (sym (ap (λ (r : Answers). r.1) (answer_frames_next n xs m full good)) ∙ e)

pub answered_again :
    (xs left : List ℕ) → (answered xs).1 ≡ some left → answered left ≡ ([], some left)
answered_again xs left e =
    answered_short left (answer_frames-left (length xs) xs left (omega arith) e)
