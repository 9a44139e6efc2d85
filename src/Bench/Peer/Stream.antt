-- ===== src/Bench/Peer/Stream.antt =====
-- The peer answers the stream of a client, however its bytes are cut into reads and wakeups.
use mathlib.Core.List.{append_assoc, append-nil, reverse, reverse-cons, reverse-append, map-append}
use vigil_low_latency_tcp_he.Prelude.{
  ℕ, ◌<◌, ◌≡◌, ◌≢◌, refl, sym, ap, ◌∙◌, true, false, Option, none, some, List, [], ◌∷◌, ◌++◌, map,
  arith, length, length-append, take, drop, leb, inl, inr, All, ◌^◌, ◌⊎◌, subst, Option-cases,
}
use vigil_low_latency_tcp_he.Prelude.Int.{ℤ, pos}
use vigil_low_latency_tcp_he.Heartbeat.{
  HeartbeatMessage, MessageType, message_type, new_message, encode_heartbeat, decode_heartbeat,
  heartbeat_message_size,
}
use vigil_low_latency_tcp_he.Heartbeat.Words.{IsInt64}
use vigil_low_latency_tcp_he.Heartbeat.Codec.{checked, decode-encode, length-encode_heartbeat}
use vigil_low_latency_tcp_he.Connection.{Recvs, chunk, drained}
use vigil_low_latency_tcp_he.Connection.Session.{new_message-IsMessage}
use vigil_low_latency_tcp_he.Connection.Rounds.{take-append_le, drop-append_le}
use vigil_low_latency_tcp_he.Connection.Frames.{whole, nothing_left}
use vigil_low_latency_tcp_he.Bench.Peer.Defs.{
  PeerCall, send_to, EchoPeer, find_buffer, put_buffer, read_all, answer, send_all, serve,
  handle_client, after_read, after_frames,
}
use vigil_low_latency_tcp_he.Bench.Peer.Frames.{
  Answers, answered, before, answered_short, answered_next, answered-append, left_then,
  then_answered, answered_again,
}

-- A message that a client may send.
pub record Request : Type 0 where
  pub type : MessageType
  pub feed_id : ℕ
  pub sequence : ℕ
  pub timestamp_ns : ℤ

abbrev pub Fits : Request → Type 0
Fits r = (r.feed_id < 2 ^ 32) × (r.sequence < 2 ^ 64) × IsInt64 r.timestamp_ns

abbrev pub request_message : Request → HeartbeatMessage
request_message r = new_message r.type r.feed_id r.sequence r.timestamp_ns

-- The replies by the protocol: an acknowledgement, a PONG with the PING's sequence and timestamp, or
-- nothing.
abbrev pub reply_frames : MessageType → Request → List (List ℕ)
reply_frames MessageType.connect_hello r =
    encode_heartbeat (new_message MessageType.connect_ack r.feed_id 0 (pos 0)) ∷ []
reply_frames MessageType.ping r =
    encode_heartbeat (new_message MessageType.pong r.feed_id r.sequence r.timestamp_ns) ∷ []
reply_frames _ r = []

abbrev pub replies : List Request → List (List ℕ)
replies [] = []
replies (r ∷ requests) = reply_frames r.type r ++ replies requests

abbrev pub stream : List Request → List ℕ
stream [] = []
stream (r ∷ requests) = encode_heartbeat (request_message r) ++ stream requests

answer-checked : (r : Request) → answer (checked (request_message r)) ≡ reply_frames r.type r
unfolding answer message_type
answer-checked r = go r.type
  where
    go :
        (t : MessageType)
        → answer (checked (new_message t r.feed_id r.sequence r.timestamp_ns)) ≡ reply_frames t r
    go MessageType.connect_hello = refl
    go MessageType.connect_ack = refl
    go MessageType.ping = refl
    go MessageType.pong = refl
    go MessageType.disconnect = refl

answered-encode :
    (r : Request) (xs : List ℕ)
    → Fits r
    → answered (encode_heartbeat (request_message r) ++ xs)
      ≡ before (reply_frames r.type r) (answered xs)
answered-encode r xs fits =
    let m = request_message r in
    let wire = encode_heartbeat m in
    let size = length-encode_heartbeat m in
    let full : leb heartbeat_message_size (length (wire ++ xs)) ≡ true =
      ground (arith, size, length-append wire xs) in
    let taken : take heartbeat_message_size (wire ++ xs) ≡ wire =
      take-append_le heartbeat_message_size wire xs (omega (arith, size)) ∙ whole m in
    let dropped : drop heartbeat_message_size (wire ++ xs) ≡ xs =
      drop-append_le heartbeat_message_size wire xs (omega (arith, size))
      ∙ ap (λ (ys : List ℕ). ys ++ xs) (nothing_left m) in
    answered_next (wire ++ xs) (checked m) full (
      ap decode_heartbeat taken
      ∙ decode-encode m
          (new_message-IsMessage r.type r.feed_id r.sequence r.timestamp_ns fits.0 fits.1 fits.2))
    ∙ ap (λ (ys : List ℕ). before (answer (checked m)) (answered ys)) dropped
    ∙ ap (λ (sent : List (List ℕ)). before sent (answered xs)) (answer-checked r)

answered-stream :
    (requests : List Request) (part : List ℕ)
    → All Fits requests
    → length part < heartbeat_message_size
    → answered (stream requests ++ part) ≡ (replies requests, some part)
answered-stream [] part fits little = answered_short part (ground (arith, little))
answered-stream (r ∷ requests) part fits little =
    ap answered (append_assoc (encode_heartbeat (request_message r)) (stream requests) part)
    ∙ answered-encode r (stream requests ++ part) fits.0
    ∙ ap (before (reply_frames r.type r)) (answered-stream requests part fits.1 little)

-- The bytes that the `recv` calls of one wakeup give, and whether the last of them found no more.
abbrev pub received : Recvs → List ℕ
received (chunk bytes more) = bytes ++ received more
received (Recvs.interrupted more) = received more
received _ = []

abbrev pub IsDrained : Recvs → Type 0
IsDrained (chunk bytes more) = IsDrained more
IsDrained (Recvs.interrupted more) = IsDrained more
IsDrained drained = Unit
IsDrained _ = ⊥

abbrev pub received_all : List Recvs → List ℕ
received_all [] = []
received_all (recvs ∷ wakeups) = received recvs ++ received_all wakeups

read_all-drained :
    (recvs : Recvs) (buf : List ℕ)
    → IsDrained recvs
    → read_all recvs buf ≡ (buf ++ received recvs, false)
unfolding read_all
read_all-drained (chunk bytes more) buf h =
    read_all-drained more (buf ++ bytes) h
    ∙ ap (λ (xs : List ℕ). (xs, false)) (append_assoc buf bytes (received more))
read_all-drained (Recvs.interrupted more) buf h = read_all-drained more buf h
read_all-drained drained buf h = ap (λ (xs : List ℕ). (xs, false)) (sym (append-nil buf))
read_all-drained Recvs.end_of_file buf h = absurd h
read_all-drained (Recvs.recv_error err) buf h = absurd h

find_buffer-put_self :
    (fd : ℕ) (buf old : List ℕ) (clients : List (ℕ × List ℕ))
    → find_buffer fd clients ≡ some old
    → find_buffer fd (put_buffer fd buf clients) ≡ some buf
unfolding find_buffer put_buffer
find_buffer-put_self fd buf old [] h = cc
find_buffer-put_self fd buf old ((key, b) ∷ clients) h =
    ground (arith, h, find_buffer-put_self fd buf old clients)

find_buffer-put_ne :
    (fd other : ℕ) (buf : List ℕ) (clients : List (ℕ × List ℕ))
    → fd ≢ other
    → find_buffer other (put_buffer fd buf clients) ≡ find_buffer other clients
unfolding find_buffer put_buffer
find_buffer-put_ne fd other buf [] h = refl
find_buffer-put_ne fd other buf ((key, b) ∷ clients) h =
    ground (arith, h, find_buffer-put_ne fd other buf clients h)

abbrev pub sends : ℕ → List (List ℕ) → List PeerCall
sends fd texts = map (send_to fd) texts

send_all-calls :
    (fd : ℕ) (texts : List (List ℕ)) (p : EchoPeer)
    → send_all fd texts p ≡ record p { calls = reverse (sends fd texts) ++ p.calls }
unfolding send_all
send_all-calls fd [] p = refl
send_all-calls fd (t ∷ texts) p =
    send_all-calls fd texts (record p { calls = send_to fd t ∷ p.calls })
    ∙ ap (λ (calls : List PeerCall). record p { calls = calls })
        (sym (append_assoc (reverse (sends fd texts)) (send_to fd t ∷ []) p.calls)
          ∙ ap (λ (calls : List PeerCall). calls ++ p.calls)
              (sym (reverse-cons (send_to fd t) (sends fd texts))))

-- A wakeup of a client whose buffer is `buf`.
handle_client-drained :
    (fd : ℕ) (recvs : Recvs) (p : EchoPeer) (buf left : List ℕ) (texts : List (List ℕ))
    → find_buffer fd p.clients ≡ some buf
    → IsDrained recvs
    → answered (buf ++ received recvs) ≡ (texts, some left)
    → handle_client fd false recvs p ≡ record p {
      clients = put_buffer fd left p.clients;
      calls = reverse (sends fd texts) ++ p.calls;
    }
unfolding handle_client serve after_read after_frames
handle_client-drained fd recvs p buf left texts found whole_read ans =
    rw (found, handle_client)
      (rw (read_all-drained recvs buf whole_read) (rw ans (rw (send_all-calls fd texts p) refl)))

-- The wakeups of one client.
pub serve_wakeups : ℕ → List Recvs → EchoPeer → EchoPeer
serve_wakeups fd [] p = p
serve_wakeups fd (recvs ∷ wakeups) p = serve_wakeups fd wakeups (handle_client fd false recvs p)

abbrev pub Served : ℕ → List (List ℕ) → List ℕ → EchoPeer → EchoPeer → Type 0
Served fd texts left p p' =
    (p'.calls ≡ reverse (sends fd texts) ++ p.calls)
    × (find_buffer fd p'.clients ≡ some left)
    × ((other : ℕ) → fd ≢ other → find_buffer other p'.clients ≡ find_buffer other p.clients)

handle_client-Served :
    (fd : ℕ) (recvs : Recvs) (p : EchoPeer) (buf left : List ℕ) (texts : List (List ℕ))
    → find_buffer fd p.clients ≡ some buf
    → IsDrained recvs
    → answered (buf ++ received recvs) ≡ (texts, some left)
    → Served fd texts left p (handle_client fd false recvs p)
handle_client-Served fd recvs p buf left texts found whole_read ans =
    rw (handle_client-drained fd recvs p buf left texts found whole_read ans) (
      refl,
      find_buffer-put_self fd left buf p.clients found,
      λ other apart. find_buffer-put_ne fd other left p.clients apart,
    )

Served-then :
    (fd : ℕ) (first later : List (List ℕ)) (mid left : List ℕ) (p q r : EchoPeer)
    → Served fd first mid p q
    → Served fd later left q r
    → Served fd (first ++ later) left p r
Served-then fd first later mid left p q r a b = (
  b.0
      ∙ ap (λ (calls : List PeerCall). reverse (sends fd later) ++ calls) a.0
      ∙ sym (append_assoc (reverse (sends fd later)) (reverse (sends fd first)) p.calls)
      ∙ ap (λ (calls : List PeerCall). calls ++ p.calls)
          (sym (reverse-append (sends fd first) (sends fd later))
            ∙ ap reverse (sym (map-append (send_to fd) first later))),
  b.1,
  λ other apart. b.2 other apart ∙ a.2 other apart,
)

serve_wakeups-Served :
    (fd : ℕ) (wakeups : List Recvs) (p : EchoPeer) (buf left : List ℕ) (texts : List (List ℕ))
    → find_buffer fd p.clients ≡ some buf
    → answered buf ≡ ([], some buf)
    → All IsDrained wakeups
    → answered (buf ++ received_all wakeups) ≡ (texts, some left)
    → Served fd texts left p (serve_wakeups fd wakeups p)
unfolding serve_wakeups
serve_wakeups-Served fd [] p buf left texts found settled whole_read ans =
    let same : ([], some buf) ≡ (texts, some left) =
      sym settled ∙ sym (ap answered (append-nil buf)) ∙ ans in
    let none_sent : [] ≡ texts = ap (λ (r : Answers). r.0) same in
    let kept : some buf ≡ some left = ap (λ (r : Answers). r.1) same in
    (rw (← none_sent) refl, found ∙ kept, λ other apart. refl)
serve_wakeups-Served fd (recvs ∷ wakeups) p buf left texts found settled whole_read ans =
    by_left (Option-cases (answered a).1) (serve_wakeups-Served fd wakeups)
  where
    a : List ℕ
    a = buf ++ received recvs

    more : List ℕ
    more = received_all wakeups

    both : then_answered (answered a) more ≡ (texts, some left)
    both = sym (answered-append a more) ∙ ap answered (append_assoc buf (received recvs) more) ∙ ans

    by_left :
        ((answered a).1 ≡ none) ⊎ ((mid : List ℕ) × ((answered a).1 ≡ some mid))
        → ((q : EchoPeer) (mid left : List ℕ) (texts : List (List ℕ))
            → find_buffer fd q.clients ≡ some mid
            → answered mid ≡ ([], some mid)
            → All IsDrained wakeups
            → answered (mid ++ more) ≡ (texts, some left)
            → Served fd texts left q (serve_wakeups fd wakeups q))
        → Served fd texts left p (serve_wakeups fd wakeups (handle_client fd false recvs p))
    by_left (inl closed) later =
        let gone : none ≡ some left =
          sym (ap (λ (l : Option (List ℕ)). (left_then l more).1) closed)
          ∙ ap (λ (r : Answers). r.1) both in
        cc
    by_left (inr (mid, open_still)) later =
        let first = (answered a).0 in
        let second = (answered (mid ++ more)).0 in
        let q = handle_client fd false recvs p in
        let at_mid : answered a ≡ (first, some mid) =
          ap (λ (l : Option (List ℕ)). (first, l)) open_still in
        let joined : before first (answered (mid ++ more)) ≡ (texts, some left) =
          sym (ap (λ (l : Option (List ℕ)). before first (left_then l more)) open_still) ∙ both in
        let rest : answered (mid ++ more) ≡ (second, some left) =
          ap (λ (l : Option (List ℕ)). (second, l)) (ap (λ (r : Answers). r.1) joined) in
        let s = handle_client-Served fd recvs p buf mid first found whole_read.0 at_mid in
        subst (λ (t : List (List ℕ)). Served fd t left p (serve_wakeups fd wakeups q))
          (ap (λ (r : Answers). r.0) joined)
          (Served-then fd first second mid left p q (serve_wakeups fd wakeups q) s
            (later q mid left second s.1 (answered_again a mid open_still) whole_read.1 rest))

-- A client whose buffer is empty sends requests whose numbers fit their fields, and the first bytes of
-- a further frame, `part`; the stream comes in any number of wakeups, cut anywhere, each read until
-- `recv` finds no more. Then the peer has passed to `send` exactly the replies to the requests, in their
-- order: for each CONNECT_HELLO an acknowledgement, for each PING a PONG with its sequence and
-- timestamp, nothing for another message. It has made no other call, the client stays with `part` as
-- its buffer, and no other client's buffer has changed.
pub serve_wakeups-stream :
    (fd : ℕ) (requests : List Request) (part : List ℕ) (wakeups : List Recvs) (p : EchoPeer)
    → All Fits requests
    → length part < heartbeat_message_size
    → All IsDrained wakeups
    → received_all wakeups ≡ stream requests ++ part
    → find_buffer fd p.clients ≡ some []
    → ((serve_wakeups fd wakeups p).calls ≡ reverse (sends fd (replies requests)) ++ p.calls)
      × (find_buffer fd (serve_wakeups fd wakeups p).clients ≡ some part)
      × ((other : ℕ)
          → fd ≢ other
          → find_buffer other (serve_wakeups fd wakeups p).clients ≡ find_buffer other p.clients)
serve_wakeups-stream fd requests part wakeups p fits little whole_read came found =
    serve_wakeups-Served fd wakeups p [] part (replies requests) found (answered_short [] refl)
      whole_read (ap answered came ∙ answered-stream requests part fits little)
