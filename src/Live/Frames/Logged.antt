-- ===== src/Live/Frames/Logged.antt =====
-- A frame that was accepted and logged is read back as it was.
use text.Mathlib.Text.{◌==◌ as str_eq}
use text.Mathlib.TextEquality.{eq_iff}
use formula1_dashboard.Common.{
  ℕ, ◌≡◌, ◌≢◌, refl, List, [], ◌∷◌, String, Bool, true, false, Option, none, some, ok, arith,
  Option-cases, Bool-cases, inl, inr, subst, sym,
}
use formula1_dashboard.Failures.{codes, strip}
use formula1_dashboard.Live.CurrentView.{LiveFrame, Entries}
use formula1_dashboard.Live.Frames.{
  is_named, place_of, ignored_topics, consumed_topics, RawFrame, normalize_stamp, normalize_frame,
  normalize_members, Members, raw_mapping, Stamp, Raw, raw_scalar,
}
use formula1_dashboard.Live.Frames.Log.{
  name_at, to_log_line, from_log_line, raw_members, stamp_of, written_stamp, line_object,
  get_member, number_of, initial_of,
}
use formula1_dashboard.Live.Frames.Clean.{normalize_frame-Accepted, normalize_members-NormalEntries}

-- The name at the place that was found for a name is that name.
name_at-place_of :
    (name : String) (names : List String) (i : ℕ)
    → place_of name names ≡ some i
    → name_at i names ≡ name
unfolding name_at place_of
name_at-place_of name [] i h = absurd (cc)
name_at-place_of name (x ∷ names) i h = elim (Bool-cases (str_eq x name)) [
  | inl here ↦ ground (arith, eq_iff x name)
  | inr there ↦ elim (Option-cases (place_of name names)) [
    | inl e ↦ absurd (ground arith)
    | inr (j, e) ↦ ground (arith, name_at-place_of name names j e)
  ]
]

-- The written form of a time is no blank text and is read as that time.
pub record WritesTime (parse : String → Option ℕ) (format : ℕ → String) (t : ℕ) : Type 0 where
  pub reads : parse (format t) ≡ some t
  pub visible : strip (codes (format t)) ≢ []

-- A frame with a name that is consumed, a clean payload and a stamp that is read.
accept :
    (casefold : List ℕ → List ℕ) (parse : String → Option ℕ) (name : String) (ms : Members) (at : ℕ)
    (initial : Bool) (given : Stamp) (topic : ℕ) (stamp : Option ℕ) (payload : Entries)
    → str_eq name "" ≡ false
    → is_named name ignored_topics ≡ false
    → place_of name consumed_topics ≡ some topic
    → normalize_stamp parse given ≡ ok stamp
    → normalize_members casefold 0 ms ≡ ok payload
    → normalize_frame casefold parse (record {
      topic = some name;
      payload = raw_mapping ms;
      received_at = some (record { instant = at; has_timezone = true });
      initial = some initial;
      feed_timestamp = given;
    })
      ≡ ok (record {
        received_at = at;
        topic = topic;
        initial = initial;
        feed_timestamp = stamp;
        payload = payload;
      })
unfolding normalize_frame
accept casefold parse name ms at initial given topic stamp payload a b c d e =
    rw (a, b, c, d, e) refl

stamp_again :
    (parse : String → Option ℕ) (format : ℕ → String) (stamp : Option ℕ)
    → ((t : ℕ) → stamp ≡ some t → WritesTime parse format t)
    → normalize_stamp parse (stamp_of (written_stamp format stamp)) ≡ ok stamp
unfolding normalize_stamp
stamp_again parse format none w = refl
stamp_again parse format (some t) w = let wt = w t refl in ground (arith, wt.reads, wt.visible)

initial_again : (b : Bool) → initial_of (raw_scalar (number_of b)) ≡ some b
initial_again true = refl
initial_again false = refl

-- Where the times of a frame are written as texts that are read as the same times, and the JSON text of
-- its log line is read as the object that was written, a frame that was accepted is read back from its
-- log line as it was: the same topic, times, mark of a snapshot and payload.
pub from_log_line-to_log_line :
    (loads : String → Option Raw) (dumps : Raw → String) (casefold : List ℕ → List ℕ)
    (parse : String → Option ℕ) (format : ℕ → String) (raw : RawFrame) (frame : LiveFrame)
    → loads (dumps (line_object format frame)) ≡ some (line_object format frame)
    → WritesTime parse format frame.received_at
    → ((t : ℕ) → frame.feed_timestamp ≡ some t → WritesTime parse format t)
    → normalize_frame casefold parse raw ≡ ok frame
    → from_log_line loads casefold parse (to_log_line dumps format frame) ≡ ok frame
unfolding from_log_line to_log_line line_object get_member
from_log_line-to_log_line loads dumps casefold parse format raw frame json received feed h =
    let a = normalize_frame-Accepted casefold parse raw frame h in
    let same = sym (name_at-place_of a.name consumed_topics frame.topic a.place) in
    let n = normalize_members-NormalEntries casefold 0 a.members frame.payload a.payload in
    rw (json, received.reads, initial_again frame.initial)
      (accept casefold parse (name_at frame.topic consumed_topics) (raw_members frame.payload)
        frame.received_at frame.initial (stamp_of (written_stamp format frame.feed_timestamp))
        frame.topic frame.feed_timestamp frame.payload
        (subst (λ name. str_eq name "" ≡ false) same a.nonempty)
        (subst (λ name. is_named name ignored_topics ≡ false) same a.kept)
        (subst (λ name. place_of name consumed_topics ≡ some frame.topic) same a.place)
        (stamp_again parse format frame.feed_timestamp feed) n.again)
