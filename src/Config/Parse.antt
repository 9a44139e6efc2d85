-- ===== src/Config/Parse.antt =====
-- `validate_and_add_feed` and `parse_config_file`.
use vigil_low_latency_tcp_he.Prelude.{
  ℕ, ◌+◌, ◌^◌, Bool, true, false, ◌&&◌, ◌||◌, Option, none, some, List, [], ◌∷◌, ◌++◌, ltb, leb,
  ◌==◌, if◌then◌else◌,
}
use vigil_low_latency_tcp_he.Prelude.Int.{pos, negsuc}
use vigil_low_latency_tcp_he.Prelude.Text.{Text, text, text_eq}
use vigil_low_latency_tcp_he.Config.Defs.{Config, FeedEndpoint, default_config}
use vigil_low_latency_tcp_he.Config.Values.{trim, is_empty, try_parse_int}
use vigil_low_latency_tcp_he.Config.Settings.{apply_global_key}

pub record PendingFeed : Type 0 where
  pub id : Option Text
  pub name : Option Text
  pub host : Option Text
  pub port : Option Text
  pub start_line : ℕ

abbrev pub new_pending : ℕ → PendingFeed
new_pending line = record { id = none; name = none; host = none; port = none; start_line = line }

unfoldable pub has_feed_id : List FeedEndpoint → ℕ → Bool
has_feed_id [] feed_id = false
has_feed_id (existing ∷ feeds) feed_id =
    let rest = has_feed_id feeds feed_id in if existing.feed_id == feed_id then true else rest

-- The range tests and casts of a feed's id and port.
unfoldable pub id_of_text : Text → Option ℕ
id_of_text s = elim (try_parse_int s) [
  | none ↦ none
  | some (negsuc n) ↦ none
  | some (pos n) ↦ if ltb n (2 ^ 32) then some n else none
]

unfoldable pub port_of_text : Text → Option ℕ
port_of_text s = elim (try_parse_int s) [
  | none ↦ none
  | some (negsuc n) ↦ none
  | some (pos n) ↦ if leb 1 n && leb n 65535 then some n else none
]

-- `validate_and_add_feed` where all four texts are given.
unfoldable pub add_valid_feed : Config → Text → Text → Text → Text → Config
add_valid_feed config id name host port = elim (id_of_text id) [
  | none ↦ config
  | some feed_id ↦ if is_empty host then config else elim (port_of_text port) [
    | none ↦ config
    | some p ↦ if has_feed_id config.feeds feed_id then config else record config {
      feeds = config.feeds ++ record { feed_id = feed_id; name = name; host = host; port = p } ∷ [];
    }
  ]
]

unfoldable pub validate_and_add_feed :
    Config → Option Text → Option Text → Option Text → Option Text → Config
validate_and_add_feed config (some id) (some name) (some host) (some port) =
    add_valid_feed config id name host port
validate_and_add_feed config id name host port = config

unfoldable pub commit_pending_feed : Config → PendingFeed → Config
commit_pending_feed config pending =
    if pending.start_line == 0
    then config
    else validate_and_add_feed config pending.id pending.name pending.host pending.port

unfoldable pub set_feed_key : PendingFeed → Text → Text → PendingFeed
set_feed_key p key value =
    if text_eq key (text "id")
    then record p { id = some value }
    else if text_eq key (text "name")
    then record p { name = some value }
    else if text_eq key (text "host")
    then record p { host = some value }
    else if text_eq key (text "port")
    then record p { port = some value }
    else p

-- The pieces that `std::getline` gives with a delimiter.
unfoldable pub prepend : ℕ → List Text → List Text
prepend c [] = (c ∷ []) ∷ []
prepend c (piece ∷ pieces) = (c ∷ piece) ∷ pieces

unfoldable pub split_on : ℕ → Text → List Text
split_on delimiter [] = []
split_on delimiter (c ∷ s) =
    let rest = split_on delimiter s in if c == delimiter then [] ∷ rest else prepend c rest

-- The text in front of the first '=' and the one behind it.
unfoldable pub split_at_equals : Text → Option (Text × Text)
split_at_equals [] = none
split_at_equals (c ∷ s) =
    let rest = split_at_equals s in
    if c == 61
    then some ([], s)
    else elim rest [ none ↦ none | some (before, behind) ↦ some (c ∷ before, behind) ]

-- Where the loop of `parse_config_file` stands.
pub record Parse : Type 0 where
  pub config : Config
  pub pending : PendingFeed
  pub in_feed_section : Bool
  pub line_number : ℕ

unfoldable pub apply_pair : Parse → Text → Text → Parse
apply_pair p key value =
    if p.in_feed_section
    then record p { pending = set_feed_key p.pending key value }
    else record p { config = apply_global_key p.config key value }

abbrev pub is_comment : Text → Bool
is_comment [] = true
is_comment (c ∷ s) = c == 35 || c == 59

unfoldable pub parse_trimmed : Parse → Text → Parse
parse_trimmed p line =
    if is_comment line
    then p
    else if text_eq line (text "[feed]")
    then record p {
      config = commit_pending_feed p.config p.pending;
      pending = new_pending p.line_number;
      in_feed_section = true;
    }
    else elim (split_at_equals line) [
      | none ↦ p
      | some (key, value) ↦ if is_empty key then p else apply_pair p (trim key) (trim value)
    ]

unfoldable pub parse_lines : Parse → List Text → Parse
parse_lines p [] = p
parse_lines p (raw_line ∷ lines) =
    parse_lines (parse_trimmed (record p { line_number = p.line_number + 1 }) (trim raw_line)) lines

-- The file's content, or `none` where it cannot be opened and the code throws.
unfoldable pub parse_content : Text → Config
parse_content content =
    let p =
      parse_lines
        (record {
          config = default_config;
          pending = new_pending 0;
          in_feed_section = false;
          line_number = 0;
        })
        (split_on 10 content) in
    commit_pending_feed p.config p.pending

unfoldable pub parse_config_file : Option Text → Option Config
parse_config_file none = none
parse_config_file (some content) = some (parse_content content)
