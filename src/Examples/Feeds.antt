-- ===== src/Examples/Feeds.antt =====
-- The theorems on frames.
use text.Mathlib.Text.{◌==◌ as str_eq}
use formula1_dashboard.Common.{
  ℕ, ◌+◌, ◌≡◌, refl, String, true, false, Option, none, some, List, Outcome, ok, err, map, leb,
  ◌==◌, ◌&&◌, if◌then◌else◌, arith, subst,
}
use formula1_dashboard.Failures.{strip}
use formula1_dashboard.Live.CurrentView.{no_entries, LiveFrame}
use formula1_dashboard.Live.Frames.{
  Raw, raw_null, raw_scalar, raw_mapping, no_members, member, moment, FrameRejection, RawFrame,
  normalize_frame,
}
use formula1_dashboard.Live.Frames.Log.{line_object, to_log_line, from_log_line}
use formula1_dashboard.Live.Frames.Clean.{CleanEntries, normalize_frame-Clean}
use formula1_dashboard.Live.Frames.Logged.{WritesTime, from_log_line-to_log_line}

-- Lower case, of ASCII letters.
abbrev lower : List ℕ → List ℕ
lower cs = map (λ c. if leb b'A' c && leb c b'Z' then c + 32 else c) cs

-- Two times, and their texts.
abbrev format : ℕ → String
format t = if t == 19 then "19" else "20"

abbrev parse : String → Option ℕ
parse t = if str_eq t "19" then some 19 else some 20

abbrev raw : RawFrame
raw = record {
  topic = some "TimingData";
  payload = raw_mapping (
      member (some "AccessToken") (raw_scalar 5)
        (member (some "Lines") (raw_mapping (member (some "1") raw_null no_members)) no_members));
  received_at = some (record { instant = 20; has_timezone = true });
  initial = some false;
  feed_timestamp = moment (record { instant = 19; has_timezone = true });
}

abbrev frame_of : Outcome FrameRejection LiveFrame → LiveFrame
frame_of (ok frame) = frame
frame_of (err e) = record {
  received_at = 0;
  topic = 0;
  initial = true;
  feed_timestamp = none;
  payload = no_entries;
}

frame : LiveFrame
unfolding normalize_frame
frame = frame_of (normalize_frame lower parse raw)

accepted : normalize_frame lower parse raw ≡ ok frame
unfolding frame normalize_frame
accepted = refl

normalize_frame-Clean_example : CleanEntries lower frame.payload
normalize_frame-Clean_example = normalize_frame-Clean lower parse raw frame accepted

twenty : WritesTime parse format 20
unfolding strip
twenty = record { reads = refl; visible = λ e. ground arith }

nineteen : WritesTime parse format 19
unfolding strip
nineteen = record { reads = refl; visible = λ e. ground arith }

feed_time : (t : ℕ) → frame.feed_timestamp ≡ some t → WritesTime parse format t
unfolding frame normalize_frame
feed_time t h = let same : 19 ≡ t = ground arith in subst (WritesTime parse format) same nineteen

-- One text for the object of the frame.
abbrev dumps : Raw → String
dumps x = "{}"

loads : String → Option Raw
unfolding line_object
loads line = some (line_object format frame)

read_back : loads (dumps (line_object format frame)) ≡ some (line_object format frame)
unfolding loads
read_back = refl

from_log_line-to_log_line_example :
    from_log_line loads lower parse (to_log_line dumps format frame) ≡ ok frame
unfolding frame
from_log_line-to_log_line_example =
    from_log_line-to_log_line loads dumps lower parse format raw frame read_back twenty feed_time
      accepted
