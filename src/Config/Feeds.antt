-- ===== src/Config/Feeds.antt =====
-- The feeds of a parsed configuration.
use vigil_low_latency_tcp_he.Prelude.{
  ℕ, ◌+◌, ◌^◌, ◌≤◌, ◌<◌, ◌≡◌, ◌≢◌, inl, inr, false, Option, none, some, List, [], ◌∷◌, ◌++◌, arith,
  ◌==◌, Bool-cases, Option-cases, All, All-append,
}
use vigil_low_latency_tcp_he.Prelude.Text.{Text, text, text_eq}
use vigil_low_latency_tcp_he.Config.Defs.{Config, FeedEndpoint, default_config}
use vigil_low_latency_tcp_he.Config.Values.{trim, is_empty}
use vigil_low_latency_tcp_he.Config.Settings.{
  Setting, store_int, apply_setting, setting_of_key, apply_global_key,
}
use vigil_low_latency_tcp_he.Config.Parse.{
  PendingFeed, new_pending, has_feed_id, id_of_text, port_of_text, add_valid_feed,
  validate_and_add_feed, commit_pending_feed, split_on, split_at_equals, Parse, apply_pair,
  is_comment, parse_trimmed, parse_lines, parse_content, parse_config_file,
}
use vigil_low_latency_tcp_he.Config.Cli.{
  CliOption, config_file, help, setting, feed, unrecognized, split_feed_spec, load_files,
  apply_option, apply_options, apply_cli_overrides,
}

-- A feed that the monitor can use: its id fits 32 bits, its host is not empty, its port is one of
-- 1 to 65535.
pub record IsFeed (f : FeedEndpoint) : Type 0 where
  pub id_fits : f.feed_id < 2 ^ 32
  pub host_given : is_empty f.host ≡ false
  pub port_given : 1 ≤ f.port
  pub port_fits : f.port ≤ 65535

-- No two feeds have the same id.
abbrev pub HasDistinctIds : List FeedEndpoint → Type 0
HasDistinctIds [] = Unit
HasDistinctIds (f ∷ fs) = All (λ (g : FeedEndpoint). g.feed_id ≢ f.feed_id) fs × HasDistinctIds fs

abbrev pub IsUsable : Config → Type 0
IsUsable c = All IsFeed c.feeds × HasDistinctIds c.feeds

HasDistinctIds-snoc :
    (fs : List FeedEndpoint) (f : FeedEndpoint)
    → HasDistinctIds fs
    → has_feed_id fs f.feed_id ≡ false
    → HasDistinctIds (fs ++ f ∷ [])
unfolding has_feed_id
HasDistinctIds-snoc [] f h new = (tt, tt)
HasDistinctIds-snoc (g ∷ gs) f h new = (
  All-append _ gs (f ∷ []) h.0 (ground (arith, new), tt),
  HasDistinctIds-snoc gs f h.1 (ground (arith, new)),
)

id_of_text-lt : (s : Text) (n : ℕ) → id_of_text s ≡ some n → n < 2 ^ 32
unfolding id_of_text
id_of_text-lt s n e = ground (arith, e)

port_of_text_fits : (s : Text) (n : ℕ) → port_of_text s ≡ some n → (1 ≤ n) × (n ≤ 65535)
unfolding port_of_text
port_of_text_fits s n e = ground (arith, e)

snoc-IsUsable :
    (c : Config) (f : FeedEndpoint)
    → IsUsable c
    → IsFeed f
    → has_feed_id c.feeds f.feed_id ≡ false
    → IsUsable (record c { feeds = c.feeds ++ f ∷ [] })
snoc-IsUsable c f h v new =
    (All-append _ c.feeds (f ∷ []) h.0 (v, tt), HasDistinctIds-snoc c.feeds f h.1 new)

add_valid_feed-IsUsable :
    (c : Config) (id name host port : Text)
    → IsUsable c
    → IsUsable (add_valid_feed c id name host port)
unfolding add_valid_feed
add_valid_feed-IsUsable c id name host port h = elim (Option-cases (id_of_text id)) [
  | inl bad ↦ rw (add_valid_feed, bad) h
  | inr (n, good) ↦ elim (Bool-cases (is_empty host)) [
    | inl bare ↦ rw (add_valid_feed, good, bare) h
    | inr given ↦ elim (Option-cases (port_of_text port)) [
      | inl wrong ↦ rw (add_valid_feed, good, given, wrong) h
      | inr (p, right) ↦ elim (Bool-cases (has_feed_id c.feeds n)) [
        | inl twice ↦ rw (add_valid_feed, good, given, right, twice) h
        | inr once ↦
            rw (add_valid_feed, good, given, right, once)
              (snoc-IsUsable c (record { feed_id = n; name = name; host = host; port = p }) h
                (record {
                  id_fits = id_of_text-lt id n good;
                  host_given = given;
                  port_given = (port_of_text_fits port p right).0;
                  port_fits = (port_of_text_fits port p right).1;
                })
                once)
      ]
    ]
  ]
]

-- If the feeds so far are usable and have distinct ids, they still do after `validate_and_add_feed`,
-- whatever texts it is given.
pub validate_and_add_feed-IsUsable :
    (c : Config) (id name host port : Option Text)
    → IsUsable c
    → IsUsable (validate_and_add_feed c id name host port)
unfolding validate_and_add_feed
validate_and_add_feed-IsUsable c (some id) (some name) (some host) (some port) h =
    add_valid_feed-IsUsable c id name host port h
validate_and_add_feed-IsUsable c none name host port h = h
validate_and_add_feed-IsUsable c (some id) none host port h = h
validate_and_add_feed-IsUsable c (some id) (some name) none port h = h
validate_and_add_feed-IsUsable c (some id) (some name) (some host) none h = h

apply_setting-feeds :
    (s : Setting) (value : Text) (c : Config) → (apply_setting s value c).feeds ≡ c.feeds
unfolding apply_setting store_int
apply_setting-feeds s value c = ground arith

apply_setting-IsUsable :
    (s : Setting) (value : Text) (c : Config) → IsUsable c → IsUsable (apply_setting s value c)
apply_setting-IsUsable s value c h = rw (apply_setting-feeds s value c) h

apply_global_key-IsUsable :
    (c : Config) (key value : Text) → IsUsable c → IsUsable (apply_global_key c key value)
unfolding apply_global_key
apply_global_key-IsUsable c key value h = elim (Option-cases (setting_of_key key)) [
  | inl unknown ↦ rw (apply_global_key, unknown) h
  | inr (s, known) ↦ rw (apply_global_key, known) (apply_setting-IsUsable s value c h)
]

commit_pending_feed-IsUsable :
    (c : Config) (p : PendingFeed) → IsUsable c → IsUsable (commit_pending_feed c p)
unfolding commit_pending_feed
commit_pending_feed-IsUsable c p h = elim (Bool-cases (p.start_line == 0)) [
  | inl none_open ↦ rw (commit_pending_feed, none_open) h
  | inr some_open ↦
      rw (commit_pending_feed, some_open)
        (validate_and_add_feed-IsUsable c p.id p.name p.host p.port h)
]

apply_pair-IsUsable :
    (p : Parse) (key value : Text) → IsUsable p.config → IsUsable (apply_pair p key value).config
unfolding apply_pair
apply_pair-IsUsable p key value h = elim (Bool-cases p.in_feed_section) [
  | inl inside ↦ rw (apply_pair, inside) h
  | inr outside ↦ rw (apply_pair, outside) (apply_global_key-IsUsable p.config key value h)
]

parse_trimmed-IsUsable :
    (p : Parse) (line : Text) → IsUsable p.config → IsUsable (parse_trimmed p line).config
unfolding parse_trimmed
parse_trimmed-IsUsable p line h = elim (Bool-cases (is_comment line)) [
  | inl comment ↦ rw (parse_trimmed, comment) h
  | inr other ↦ elim (Bool-cases (text_eq line (text "[feed]"))) [
    | inl section ↦
        rw (parse_trimmed, other, section) (commit_pending_feed-IsUsable p.config p.pending h)
    | inr pair ↦ elim (Option-cases (split_at_equals line)) [
      | inl malformed ↦ rw (parse_trimmed, other, pair, malformed) h
      | inr ((key, value), parts) ↦ elim (Bool-cases (is_empty key)) [
        | inl bare ↦ rw (parse_trimmed, other, pair, parts, bare) h
        | inr keyed ↦
            rw (parse_trimmed, other, pair, parts, keyed)
              (apply_pair-IsUsable p (trim key) (trim value) h)
      ]
    ]
  ]
]

parse_lines-IsUsable :
    (p : Parse) (lines : List Text) → IsUsable p.config → IsUsable (parse_lines p lines).config
unfolding parse_lines
parse_lines-IsUsable p [] h = h
parse_lines-IsUsable p (raw_line ∷ lines) h =
    parse_lines-IsUsable
      (parse_trimmed (record p { line_number = p.line_number + 1 }) (trim raw_line)) lines
      (parse_trimmed-IsUsable (record p { line_number = p.line_number + 1 }) (trim raw_line) h)

parse_content-IsUsable : (content : Text) → IsUsable (parse_content content)
unfolding parse_content default_config
parse_content-IsUsable content =
    let p =
      parse_lines
        (record {
          config = default_config;
          pending = new_pending 0;
          in_feed_section = false;
          line_number = 0;
        })
        (split_on 10 content) in
    commit_pending_feed-IsUsable p.config p.pending (
      parse_lines-IsUsable
        (record {
          config = default_config;
          pending = new_pending 0;
          in_feed_section = false;
          line_number = 0;
        })
        (split_on 10 content) (tt, tt))

apply_option-IsUsable :
    (option : CliOption) (c : Config) → IsUsable c → IsUsable (apply_option option c)
unfolding apply_option
apply_option-IsUsable (config_file path) c h = h
apply_option-IsUsable help c h = h
apply_option-IsUsable (setting s value) c h = apply_setting-IsUsable s value c h
apply_option-IsUsable (feed spec) c h = elim (Option-cases (split_feed_spec spec)) [
  | inl bad ↦ rw (apply_option, bad) h
  | inr ((id, name, host, port), good) ↦
      rw (apply_option, good)
        (validate_and_add_feed-IsUsable c (some id) (some name) (some host) (some port) h)
]
apply_option-IsUsable unrecognized c h = h

apply_options-IsUsable :
    (options : List CliOption) (c : Config) → IsUsable c → IsUsable (apply_options options c)
unfolding apply_options
apply_options-IsUsable [] c h = h
apply_options-IsUsable (option ∷ options) c h =
    apply_options-IsUsable options (apply_option option c) (apply_option-IsUsable option c h)

load_files-IsUsable :
    (read : Text → Option Text) (options : List CliOption) (c : Config)
    → IsUsable c
    → IsUsable (load_files read options c)
unfolding load_files parse_config_file
load_files-IsUsable read [] c h = h
load_files-IsUsable read (config_file path ∷ options) c h = elim (Option-cases (read path)) [
  | inl missing ↦ rw (load_files, missing) (load_files-IsUsable read options c h)
  | inr (content, found) ↦
      rw (load_files, found)
        (load_files-IsUsable read options (parse_content content) (parse_content-IsUsable content))
]
load_files-IsUsable read (help ∷ options) c h = load_files-IsUsable read options c h
load_files-IsUsable read (setting s value ∷ options) c h = load_files-IsUsable read options c h
load_files-IsUsable read (feed spec ∷ options) c h = load_files-IsUsable read options c h
load_files-IsUsable read (unrecognized ∷ options) c h = load_files-IsUsable read options c h

-- If the feeds of the base configuration have distinct ids, ids and ports in range and hosts that are
-- not empty, then so have the feeds after `apply_cli_overrides`, whatever the options and the files
-- that they name hold.
pub apply_cli_overrides-IsUsable :
    (read : Text → Option Text) (options : List CliOption) (base : Config)
    → IsUsable base
    → IsUsable (apply_cli_overrides read options base)
unfolding apply_cli_overrides
apply_cli_overrides-IsUsable read options base h =
    apply_options-IsUsable options (load_files read options base)
      (load_files-IsUsable read options base h)
