-- ===== src/Live/Frames/Log.antt =====
-- `LiveFrame.to_log_line` and `LiveFrame.from_log_line`. `dumps` and `loads` are the writing and the
-- reading of JSON texts; the order of an object's keys, which the sorting of the writer changes and the
-- equality of dictionaries ignores, is left as it is.
use text.Mathlib.Text.{◌==◌ as str_eq}
use formula1_dashboard.Common.{
  ℕ, zero, suc, String, Bool, true, false, if◌then◌else◌, Option, none, some, List, [], ◌∷◌,
  Outcome, ◌>>=◌, or_raise,
}
use formula1_dashboard.Live.CurrentView.{
  Value, null, scalar, string, array, mapping, Items, no_items, item, Entries, no_entries, entry,
  LiveFrame,
}
use formula1_dashboard.Live.Frames.{
  Raw, raw_null, raw_scalar, raw_text, raw_sequence, raw_mapping, RawItems, no_raw, raw_item,
  Members, no_members, member, FrameRejection, invalid_timestamp, malformed_payload, members_of,
  Stamp, no_stamp, written, other_stamp, consumed_topics, normalize_frame,
}

-- The name at a place of a list.
unfoldable pub name_at : ℕ → List String → String
name_at i [] = ""
name_at zero (x ∷ xs) = x
name_at (suc i) (x ∷ xs) = name_at i xs

-- A JSON value as it is read again.
unfoldable mutual
  pub raw_of : Value → Raw
  raw_of null = raw_null
  raw_of (scalar x) = raw_scalar x
  raw_of (string t) = raw_text t
  raw_of (array xs) = raw_sequence (raw_items xs)
  raw_of (mapping m) = raw_mapping (raw_members m)

  pub raw_items : Items → RawItems
  raw_items no_items = no_raw
  raw_items (item v rest) = raw_item (raw_of v) (raw_items rest)

  pub raw_members : Entries → Members
  raw_members no_entries = no_members
  raw_members (entry key v rest) = member (some key) (raw_of v) (raw_members rest)

-- `decoded.get(key)`.
unfoldable pub get_member : String → Members → Raw
get_member key no_members = raw_null
get_member key (member none x rest) = get_member key rest
get_member key (member (some k) x rest) =
    let later = get_member key rest in if str_eq k key then x else later

-- The numbers of the scalars false and true.
abbrev pub number_of : Bool → ℕ
number_of false = 0
number_of true = 1

abbrev pub truth_of : ℕ → Option Bool
truth_of zero = some false
truth_of (suc zero) = some true
truth_of (suc (suc n)) = none

-- `isinstance(value, str)`, and `isinstance(value, bool)`.
abbrev pub text_of : Raw → Option String
text_of (raw_text t) = some t
text_of _ = none

abbrev pub initial_of : Raw → Option Bool
initial_of (raw_scalar x) = truth_of x
initial_of _ = none

abbrev pub stamp_of : Raw → Stamp
stamp_of raw_null = no_stamp
stamp_of (raw_text t) = written t
stamp_of _ = other_stamp

abbrev pub written_stamp : (ℕ → String) → Option ℕ → Raw
written_stamp format none = raw_null
written_stamp format (some t) = raw_text (format t)

-- The object that `to_log_line` writes; `format` is `_format_timestamp`.
unfoldable pub line_object : (ℕ → String) → LiveFrame → Raw
unfolding name_at raw_of
line_object format frame = raw_mapping (
    member (some "received_at") (raw_text (format frame.received_at)) (
      member (some "topic") (raw_text (name_at frame.topic consumed_topics)) (
        member (some "initial") (raw_scalar (number_of frame.initial)) (
          member (some "feed_timestamp") (written_stamp format frame.feed_timestamp)
            (member (some "payload") (raw_mapping (raw_members frame.payload)) no_members)))))

-- `to_log_line`.
unfoldable pub to_log_line : (Raw → String) → (ℕ → String) → LiveFrame → String
unfolding line_object
to_log_line dumps format frame = dumps (line_object format frame)

-- `from_log_line`; `loads` gives none for a text that is no JSON, and `parse` is `_parse_timestamp`,
-- which gives a time with a zone.
unfoldable pub from_log_line :
    (String → Option Raw)
    → (List ℕ → List ℕ)
    → (String → Option ℕ)
    → String
    → Outcome FrameRejection LiveFrame
unfolding get_member normalize_frame
from_log_line loads casefold parse line = do
  decoded ← or_raise malformed_payload (loads line)
  members ← or_raise malformed_payload (members_of decoded)
  raw_received ← or_raise invalid_timestamp (text_of (get_member "received_at" members))
  received ← or_raise invalid_timestamp (parse raw_received)
  normalize_frame casefold parse (record {
    topic = text_of (get_member "topic" members);
    payload = get_member "payload" members;
    received_at = some (record { instant = received; has_timezone = true });
    initial = initial_of (get_member "initial" members);
    feed_timestamp = stamp_of (get_member "feed_timestamp" members);
  })
