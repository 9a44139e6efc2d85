-- ===== src/MonitorMain/Examples.antt =====
-- A session of the monitor on concrete inputs, and the witnesses of its theorems.
use vigil_low_latency_tcp_he.Prelude.{
  ℕ, ◌≡◌, refl, Bool, true, false, Option, none, some, List, [], ◌∷◌, arith, subst, ◌++◌,
}
use vigil_low_latency_tcp_he.Prelude.Int.{ℤ, pos, ◌+ℤ◌, ◌-ℤ◌}
use vigil_low_latency_tcp_he.Prelude.Text.{Text, text, text_eq}
use vigil_low_latency_tcp_he.Config.{
  CliOption, feed, default_config, skip_space, apply_cli_overrides, load_files, apply_option,
  apply_options, split_feed_spec, split_on, prepend, validate_and_add_feed, add_valid_feed,
  has_feed_id, id_of_text, port_of_text, try_parse_int, magnitude, digits_from, trim,
  drop_end_space,
}
use vigil_low_latency_tcp_he.Connection.{Recvs, new_connection}
use vigil_low_latency_tcp_he.CommandInput.{
  Reads, read_lines, read_loop, split_lines, push_front, strip_returns, strip_return, last_line,
  read_word, word_from, run_lines, read_uint32, read_signed, read_digits, leading_digits,
}
use vigil_low_latency_tcp_he.FeedMonitor.{
  FeedMonitor, World, Setup, Event, force_disconnect, force_reconnect, empty_monitor, run, Wakeup,
  new_feed_monitor, add_feed, push_feed, create_and_connect_socket, open_socket, log_call, map_put,
  set_command_input, run_loop, dispatch_all, dispatch, on_command_fd_readable, on_timer_tick,
  tick_slots,
}
use vigil_low_latency_tcp_he.FeedMonitor.Directory.{IsIndexed}
use vigil_low_latency_tcp_he.MonitorMain.{handle_command_line, main, add_feeds, run_command}
use vigil_low_latency_tcp_he.MonitorMain.Commands.{feed_command, feed_commands_lem}
use vigil_low_latency_tcp_he.MonitorMain.Session.{Leaves, main-IsIndexed}
use vigil_low_latency_tcp_he.MonitorMain.Routes.{IsFreshSession, main-IsRouted}
use vigil_low_latency_tcp_he.FeedMonitor.Descriptors.{IsRouted}
use vigil_low_latency_tcp_he.FeedMonitor.Index.{some_injective}
use vigil_low_latency_tcp_he.FeedMonitor.Runs.{at_event}
use vigil_low_latency_tcp_he.MonitorMain.Quit.{quit_ends_run}

abbrev no_jitter : ℕ → ℤ → ℤ
no_jitter n delay = delay

abbrev any_host : Text → Bool
any_host host = true

abbrev no_file : Text → Option Text
no_file name = none

abbrev a_world : World Unit
a_world = record {
  env = record { sends = []; sent = []; clock = pos 5; calls = []; caller = tt };
  sockets = some 8 ∷ some 9 ∷ [];
  draws = 0;
}

abbrev a_setup : Setup
a_setup = record {
  epoll_fd = some 3;
  timer_fd = some 4;
  wake_fd = some 5;
  timer_added = true;
  wake_added = true;
}

abbrev two_feeds : List CliOption
two_feeds = feed (text "7:nyse:127.0.0.1:9001") ∷ feed (text "8:lse:127.0.0.1:9002") ∷ []

-- What is typed arrives at standard input.
abbrev typed : Text → Event
typed bytes = record {
  fd = 0;
  socket = record {
    hangup = false;
    writable = false;
    readable = true;
    so_error = 0;
    recvs = Recvs.drained;
  };
  reads = Reads.chunk bytes Reads.drained;
  sends = [];
  clock = pos 6;
}

abbrev at_stdin : FeedMonitor Unit
at_stdin = record (empty_monitor default_config 4 5) { command_fd = some 0 }

abbrev two_lines : Text
two_lines = text "reconnect 7\nquit\n"

feed_commands_lem_example :
    (handle_command_line no_jitter (feed_command (text "disconnect") 4207) (at_stdin, a_world)
      ≡ force_disconnect no_jitter 4207 at_stdin a_world)
    × (handle_command_line no_jitter (feed_command (text "reconnect") 4207) (at_stdin, a_world)
        ≡ (force_reconnect 4207 at_stdin, a_world))
feed_commands_lem_example = feed_commands_lem no_jitter 4207 (omega arith) at_stdin a_world

main-IsIndexed_example : Leaves IsIndexed (
    main no_jitter any_host no_file two_feeds a_setup
      (Wakeup.ready (pos 6) (typed (text "disconnect 7\n") ∷ []) ∷ [])
      a_world)
main-IsIndexed_example =
    main-IsIndexed no_jitter any_host no_file two_feeds a_setup
      (Wakeup.ready (pos 6) (typed (text "disconnect 7\n") ∷ []) ∷ []) a_world

-- The first feed is added with descriptor 8, the second with 9.
abbrev one_line : List Wakeup
one_line = Wakeup.ready (pos 6) (typed (text "disconnect 7\n") ∷ []) ∷ []

two_feeds-IsFreshSession :
    let config = apply_cli_overrides no_file two_feeds default_config in
    (m : FeedMonitor Unit) (w : World Unit)
    → new_feed_monitor config a_setup a_world ≡ some (m, w)
    → IsFreshSession no_jitter any_host config.feeds one_line m w
unfolding apply_cli_overrides load_files apply_option apply_options split_feed_spec split_on prepend
    validate_and_add_feed add_valid_feed has_feed_id id_of_text port_of_text try_parse_int magnitude
    digits_from trim skip_space drop_end_space ◌+ℤ◌ ◌-ℤ◌ new_feed_monitor add_feed push_feed
    create_and_connect_socket open_socket new_connection log_call map_put add_feeds
    set_command_input default_config
two_feeds-IsFreshSession m w made =
    let config = apply_cli_overrides no_file two_feeds default_config in
    subst
      (λ (r : FeedMonitor Unit × World Unit).
        IsFreshSession no_jitter any_host config.feeds one_line r.0 r.1)
      (some_injective _ (m, w) made)
      ((tt, ((λ e. ground (arith, e), tt), tt)), (((λ e. ground (arith, e)), tt), tt))

main-IsRouted_example :
    Leaves IsRouted (main no_jitter any_host no_file two_feeds a_setup one_line a_world)
main-IsRouted_example =
    main-IsRouted no_jitter any_host no_file two_feeds a_setup one_line a_world
      two_feeds-IsFreshSession

-- A feed is taken away in an earlier batch. In the next one the timer runs out, a line arrives in two
-- pieces, and the second piece brings `quit` as well.
abbrev first_events : List Event
first_events = record (typed []) { fd = 4 } ∷ typed (text "recon") ∷ []

abbrev last_bytes : Text
last_bytes = text "nect 7\nquit\nreconnect 8\n"

abbrev counted : ℕ → ℕ → FeedMonitor Unit
counted waits events = record at_stdin { epoll_wait_count = waits; events_processed_count = events }

quit_ends_run_example :
    (run no_jitter any_host
      (handle_command_line no_jitter)
      ((Wakeup.interrupted ∷ Wakeup.ready (pos 5) (typed (text "disconnect 7\n") ∷ []) ∷ [])
        ++ Wakeup.ready (pos 6) (first_events ++ typed last_bytes ∷ typed [] ∷ [])
          ∷ Wakeup.ready (pos 7) []
          ∷ [])
      at_stdin
      a_world).1
    ≡ Wakeup.ready (pos 7) [] ∷ []
unfolding read_lines read_loop split_lines push_front strip_returns strip_return last_line text_eq
    read_word skip_space word_from run run_loop dispatch_all dispatch on_command_fd_readable
    run_lines handle_command_line run_command on_timer_tick tick_slots force_disconnect read_uint32
    read_signed read_digits leading_digits default_config
quit_ends_run_example =
    quit_ends_run no_jitter any_host
      (Wakeup.interrupted ∷ Wakeup.ready (pos 5) (typed (text "disconnect 7\n") ∷ []) ∷ []) (pos 6)
      first_events (typed last_bytes) (typed [] ∷ []) (Wakeup.ready (pos 7) [] ∷ []) at_stdin
      (counted 1 1) (record (counted 2 5) { command_line_buffer = text "recon" }) a_world
      (at_event (typed []) a_world) (at_event (typed []) a_world) (text "reconnect 7" ∷ [])
      (text "quit") (text "reconnect 8" ∷ []) ((λ e. cc), ((λ e. cc), tt)) refl refl refl refl refl
      refl refl refl
