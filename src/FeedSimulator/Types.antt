-- ===== src/FeedSimulator/Types.antt =====
-- The state of a `FeedSimulator`, and its fault injection.
use vigil_low_latency_tcp_he.Prelude.{
  ℕ, ◌+◌, Bool, true, false, ◌&&◌, Option, none, some, List, [], ◌∷◌, ◌++◌, ◌==◌, if◌then◌else◌,
}
use vigil_low_latency_tcp_he.Prelude.Int.{ℤ, pos, ◌+ℤ◌, ltb_ℤ}
use vigil_low_latency_tcp_he.Prelude.Double.{Double}
use vigil_low_latency_tcp_he.Prelude.Text.{Text}
use vigil_low_latency_tcp_he.Config.{Config, to_nanoseconds}
use vigil_low_latency_tcp_he.Connection.{Connection}

pub record FaultConfig : Type 0 where
  pub drop_probability : Double
  pub extra_latency : ℤ
  pub jitter : Bool

pub record PendingReply : Type 0 where
  pub fire_at_ns : ℤ
  pub fd : ℕ
  pub sequence : ℕ
  pub timestamp_ns : ℤ

-- The members that the interceptor of a PING works on: `faults_`, `pending_replies_` and `rng_`, of
-- which only the count of numbers drawn is kept; and the reading of the clock.
pub record Faults : Type 0 where
  pub config : FaultConfig
  pub pending_replies : List PendingReply
  pub draws : ℕ
  pub clock : ℤ

-- What doubles and the generator do: the test for a positive number, whether the n-th number drawn
-- from [0, 1) is below a probability, the multiplication by the n-th factor from [0.5, 1.5), and the
-- n-th number drawn from those below a bound.
pub record Chance : Type 0 where
  pub positive : Double → Bool
  pub below : ℕ → Double → Bool
  pub scale : ℕ → ℤ → ℤ
  pub pick : ℕ → ℕ → ℕ

-- `clients_` is the list of its entries, in the order of iteration.
pub record FeedSimulator : Type 0 where
  pub listen_fd : ℕ
  pub wake_fd : ℕ
  pub timer_fd : ℕ
  pub bound_port : ℕ
  pub feed_id : ℕ
  pub config : Config
  pub clients : List (ℕ × Connection Faults)
  pub command_fd : Option ℕ
  pub command_line_buffer : Text
  pub stop_requested : Bool
  pub event_batch_size : ℤ

-- The deferral of a reply, where the replies are delayed.
unfoldable pub defer_reply : Chance → ℕ → Faults → ℕ → ℤ → Faults
defer_reply chance fd f sequence timestamp_ns =
    let delay_ns = to_nanoseconds f.config.extra_latency in
    let delay_ns' = if f.config.jitter then chance.scale f.draws delay_ns else delay_ns in
    let reply : PendingReply = record {
      fire_at_ns = f.clock +ℤ delay_ns';
      fd = fd;
      sequence = sequence;
      timestamp_ns = timestamp_ns;
    } in
    record f {
      pending_replies = f.pending_replies ++ reply ∷ [];
      draws = if f.config.jitter then f.draws + 1 else f.draws;
    }

-- True leaves the reply to the connection.
unfoldable pub on_ping_intercept : Chance → ℕ → Faults → ℕ → ℤ → Faults × Bool
on_ping_intercept chance fd f sequence timestamp_ns =
    let unlucky = chance.positive f.config.drop_probability in
    let f' = if unlucky then record f { draws = f.draws + 1 } else f in
    if unlucky && chance.below f.draws f.config.drop_probability
    then (f', false)
    else if ltb_ℤ (pos 0) f.config.extra_latency
    then (defer_reply chance fd f' sequence timestamp_ns, false)
    else (f', true)

-- `clients_.find`, an assignment to an entry, `clients_.erase`, and an insertion of a fresh key.
unfoldable pub find_client : ℕ → List (ℕ × Connection Faults) → Option (Connection Faults)
find_client fd [] = none
find_client fd ((key, conn) ∷ clients) =
    let rest = find_client fd clients in if key == fd then some conn else rest

unfoldable pub put_client :
    ℕ → Connection Faults → List (ℕ × Connection Faults) → List (ℕ × Connection Faults)
put_client fd conn [] = []
put_client fd conn ((key, old) ∷ clients) =
    (key, if key == fd then conn else old) ∷ put_client fd conn clients

unfoldable pub erase_client : ℕ → List (ℕ × Connection Faults) → List (ℕ × Connection Faults)
erase_client fd [] = []
erase_client fd ((key, conn) ∷ clients) =
    let rest = erase_client fd clients in if key == fd then rest else (key, conn) ∷ rest

-- `std::remove_if` on the pending replies.
unfoldable pub purge_replies : ℕ → List PendingReply → List PendingReply
purge_replies fd [] = []
purge_replies fd (p ∷ pending) =
    let rest = purge_replies fd pending in if p.fd == fd then rest else p ∷ rest
