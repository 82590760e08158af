-- ===== src/Live/Frames.antt =====
-- backend/app/live/frames.py. What the feed or a log line brings is a `Raw` value; a topic that is
-- consumed is known by its place in the list of those topics. Python's `str.casefold`, the reading of
-- an ISO timestamp and its writing are parameters.
pub mod Log
pub mod Clean
pub mod Logged
use text.Mathlib.Text.{◌==◌ as str_eq}
use formula1_dashboard.Common.{
  ℕ, ◌+◌, suc, String, Bool, true, false, not, Option, none, some, List, [], ◌∷◌, Outcome, ok, err,
  ◌>>=◌, ◌>>◌, guard, or_raise, leb, ◌==◌, ◌&&◌, ◌||◌, if◌then◌else◌, any,
}
use formula1_dashboard.Policy.Retry.{DateTime}
use formula1_dashboard.Failures.{codes, strip}
use formula1_dashboard.Live.CurrentView.{
  Value, null, scalar, string, array, mapping, Items, no_items, item, Entries, no_entries, entry,
  LiveFrame,
}

mutual
  -- A value from outside: `raw_scalar` is a truth value, an integer or a finite float, by a number that
  -- is 0 for false, 1 for true and another one for each of the rest; `raw_other` is any other object, a
  -- float that is not finite or bytes among them.
  pub data Raw : Type 0 where
    raw_null : Raw
    raw_scalar : ℕ → Raw
    raw_text : String → Raw
    raw_other : Raw
    raw_sequence : RawItems → Raw
    raw_mapping : Members → Raw

  pub data RawItems : Type 0 where
    no_raw : RawItems
    raw_item : Raw → RawItems → RawItems

  -- The members of a mapping, with a key that is a text or none.
  pub data Members : Type 0 where
    no_members : Members
    member : Option String → Raw → Members → Members

-- `FrameRejection`.
pub data FrameRejection : Type 0 where
  unknown_topic ignored_topic invalid_timestamp malformed_payload payload_too_deep : FrameRejection

-- `MAX_PAYLOAD_DEPTH`.
abbrev pub max_payload_depth : ℕ
max_payload_depth = 24

-- `REDACTED`.
abbrev pub redacted : Value
redacted = string "[redacted]"

-- `CONSUMED_TOPICS`.
abbrev pub consumed_topics : List String
consumed_topics =
    "DriverList" ∷ "ExtrapolatedClock" ∷ "Heartbeat" ∷ "LapCount" ∷ "RaceControlMessages"
    ∷ "SessionData" ∷ "SessionInfo" ∷ "SessionStatus" ∷ "TeamRadio" ∷ "TimingAppData" ∷ "TimingData"
    ∷ "TimingStats" ∷ "TopThree" ∷ "TrackStatus" ∷ "WeatherData" ∷ []

-- `IGNORED_TOPICS`.
abbrev pub ignored_topics : List String
ignored_topics = "AudioStreams" ∷ "CarData.z" ∷ "ContentStreams" ∷ "Position.z" ∷ []

-- `SENSITIVE_KEY_FRAGMENTS`.
abbrev pub sensitive_fragments : List (List ℕ)
sensitive_fragments =
    codes "apikey"
    ∷ codes "api_key"
    ∷ codes "authorization"
    ∷ codes "bearer"
    ∷ codes "cookie"
    ∷ codes "credential"
    ∷ codes "password"
    ∷ codes "secret"
    ∷ codes "token"
    ∷ []

unfoldable pub starts_with : List ℕ → List ℕ → Bool
starts_with [] cs = true
starts_with (p ∷ ps) [] = false
starts_with (p ∷ ps) (c ∷ cs) = let rest = starts_with ps cs in p == c && rest

-- `fragment in text`.
unfoldable pub contains : List ℕ → List ℕ → Bool
unfolding starts_with
contains fragment [] = starts_with fragment []
contains fragment (c ∷ cs) =
    let rest = contains fragment cs in starts_with fragment (c ∷ cs) || rest

unfoldable pub is_named : String → List String → Bool
is_named name [] = false
is_named name (x ∷ xs) = let rest = is_named name xs in str_eq x name || rest

-- The place of a name in a list.
unfoldable pub place_of : String → List String → Option ℕ
place_of name [] = none
place_of name (x ∷ xs) =
    if str_eq x name
    then some 0
    else (elim (place_of name xs) [ none ↦ none | some i ↦ some (suc i) ])

-- `_is_sensitive_key`.
unfoldable pub is_sensitive_key : (List ℕ → List ℕ) → String → Bool
unfolding contains any
is_sensitive_key casefold key =
    any (λ fragment. contains fragment (casefold (codes key))) sensitive_fragments

-- `_normalize_value` and `_normalize_mapping`, with the loops over the items and the members.
unfoldable mutual
  unfolding is_sensitive_key

  pub normalize_value : (List ℕ → List ℕ) → ℕ → Raw → Outcome FrameRejection Value
  normalize_value casefold depth raw_null =
      guard (leb depth max_payload_depth) payload_too_deep >> ok null
  normalize_value casefold depth (raw_scalar x) =
      guard (leb depth max_payload_depth) payload_too_deep >> ok (scalar x)
  normalize_value casefold depth (raw_text t) =
      guard (leb depth max_payload_depth) payload_too_deep >> ok (string t)
  normalize_value casefold depth raw_other =
      guard (leb depth max_payload_depth) payload_too_deep >> err malformed_payload
  normalize_value casefold depth (raw_sequence xs) =
      guard (leb depth max_payload_depth) payload_too_deep
      >> (normalize_items casefold (depth + 1) xs >>= λ items. ok (array items))
  normalize_value casefold depth (raw_mapping ms) =
      guard (leb depth max_payload_depth) payload_too_deep
      >> (normalize_members casefold depth ms >>= λ entries. ok (mapping entries))

  pub normalize_items : (List ℕ → List ℕ) → ℕ → RawItems → Outcome FrameRejection Items
  normalize_items casefold depth no_raw = ok no_items
  normalize_items casefold depth (raw_item x xs) = normalize_value casefold depth x >>= λ v.
      normalize_items casefold depth xs >>= λ rest. ok (item v rest)

  pub normalize_members : (List ℕ → List ℕ) → ℕ → Members → Outcome FrameRejection Entries
  normalize_members casefold depth no_members = ok no_entries
  normalize_members casefold depth (member none x rest) = err malformed_payload
  normalize_members casefold depth (member (some key) x rest) =
      (if is_sensitive_key casefold key
        then ok redacted
        else normalize_value casefold (depth + 1) x)
      >>= λ v. normalize_members casefold depth rest >>= λ entries. ok (entry key v entries)

-- What may be given as the timestamp of the feed.
pub data Stamp : Type 0 where
  no_stamp : Stamp
  moment : DateTime → Stamp
  written : String → Stamp
  other_stamp : Stamp

abbrev is_blank : List ℕ → Bool
is_blank [] = true
is_blank _ = false

-- `_normalize_feed_timestamp`; `parse` is `_parse_timestamp`.
unfoldable pub normalize_stamp : (String → Option ℕ) → Stamp → Outcome FrameRejection (Option ℕ)
unfolding strip
normalize_stamp parse no_stamp = ok none
normalize_stamp parse (moment d) = guard d.has_timezone invalid_timestamp >> ok (some d.instant)
normalize_stamp parse (written t) =
    if is_blank (strip (codes t))
    then ok none
    else or_raise invalid_timestamp (parse t) >>= λ at. ok (some at)
normalize_stamp parse other_stamp = err invalid_timestamp

-- The members of a payload; none for anything else than a mapping.
abbrev pub members_of : Raw → Option Members
members_of (raw_mapping ms) = some ms
members_of _ = none

-- A frame as it comes: none stands for an argument of another type.
pub record RawFrame : Type 0 where
  pub topic : Option String
  pub payload : Raw
  pub received_at : Option DateTime
  pub initial : Option Bool
  pub feed_timestamp : Stamp

module _ (casefold : List ℕ → List ℕ) (parse : String → Option ℕ) where
  -- `normalize_frame`.
  unfoldable pub normalize_frame : RawFrame → Outcome FrameRejection LiveFrame
  unfolding is_named place_of normalize_stamp normalize_value
  normalize_frame raw = do
    name ← or_raise unknown_topic raw.topic
    guard (not (str_eq name "")) unknown_topic
    guard (not (is_named name ignored_topics)) ignored_topic
    topic ← or_raise unknown_topic (place_of name consumed_topics)
    initial ← or_raise malformed_payload raw.initial
    received ← or_raise invalid_timestamp raw.received_at
    guard received.has_timezone invalid_timestamp
    members ← or_raise malformed_payload (members_of raw.payload)
    feed_timestamp ← normalize_stamp parse raw.feed_timestamp
    payload ← normalize_members casefold 0 members
    ok (record {
      received_at = received.instant;
      topic = topic;
      initial = initial;
      feed_timestamp = feed_timestamp;
      payload = payload;
    })
