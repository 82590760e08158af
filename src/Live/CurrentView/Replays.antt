-- ===== src/Live/CurrentView/Replays.antt =====
-- Replays after a reconnect: a frame that is applied again changes nothing.
use text.Mathlib.TextPositions.{eq_refl}
use formula1_dashboard.Common.{
  ℕ, ◌+◌, ◌≡◌, refl, ap, subst, Bool, true, false, Option, none, some, arith, Option-cases,
  Bool-cases, inl, inr,
}
use formula1_dashboard.Live.CurrentView.{
  Value, null, scalar, string, array, mapping, Items, Entries, no_entries, entry, get, has_entry,
  item_count, merge_delta, merge_entries, merge_items, LiveFrame, TopicState, CurrentView,
  set_topic, replaced, updated, replace_topic, merge_topic, apply,
}
use formula1_dashboard.Live.CurrentView.Shapes.{WellFormed, WellFormedEntries}
use formula1_dashboard.Live.CurrentView.Merging.{
  Settled, Settled-entry, merge_entries-Settled, item_count-merge_items, WellFormed-Idempotent,
}

module _ (digit : ℕ → Option ℕ) where
  -- Merging a delta with distinct keys and distinct array indices a second time changes nothing,
  -- whatever the state.
  pub merge_again :
      (target patch : Value)
      → WellFormed digit patch
      → merge_delta digit (merge_delta digit target patch) patch ≡ merge_delta digit target patch
  merge_again target patch w = WellFormed-Idempotent digit patch w target

  -- A delta for an array leaves an array of the same length.
  pub merge_array :
      (xs : Items) (patch : Entries)
      → (ys : Items) × (merge_delta digit (array xs) (mapping patch) ≡ array ys)
        × (item_count ys ≡ item_count xs)
  unfolding merge_delta
  merge_array xs patch = (merge_items digit xs patch, refl, item_count-merge_items digit xs patch)

  abbrev AllSelf : Entries → Type 0
  AllSelf no_entries = Unit
  AllSelf (entry k v patch) = (merge_delta digit v v ≡ v) × AllSelf patch

  self-Settled :
      (patch : Entries) → WellFormedEntries digit patch → AllSelf patch → Settled digit patch patch
  unfolding get has_entry
  self-Settled no_entries w a = tt
  self-Settled (entry k v patch) w a = (
    ground (arith, eq_refl k),
    rw (eq_refl k) a.0,
    Settled-entry digit k v patch patch w.1 (self-Settled patch w.3 a.1),
  )

  mutual
    unfolding merge_delta

    merge_self : (v : Value) → WellFormed digit v → merge_delta digit v v ≡ v
    merge_self null w = refl
    merge_self (scalar x) w = refl
    merge_self (string t) w = refl
    merge_self (array xs) w = refl
    merge_self (mapping patch) w =
        ap mapping
          (merge_entries-Settled digit patch patch (self-Settled patch w (merge_self_all patch w)))

    merge_self_all : (patch : Entries) → WellFormedEntries digit patch → AllSelf patch
    merge_self_all no_entries w = tt
    merge_self_all (entry k v patch) w = (merge_self v w.0, merge_self_all patch w.3)

  abbrev members : Value → Entries
  members (mapping m) = m
  members _ = no_entries

  entries_again :
      (m patch : Entries)
      → WellFormedEntries digit patch
      → merge_entries digit (merge_entries digit m patch) patch ≡ merge_entries digit m patch
  unfolding merge_delta
  entries_again m patch w = ap members (merge_again (mapping m) (mapping patch) w)

  entries_self :
      (patch : Entries) → WellFormedEntries digit patch → merge_entries digit patch patch ≡ patch
  unfolding merge_delta
  entries_self patch w = ap members (merge_self (mapping patch) w)

abbrev payload_of : Option TopicState → Entries
payload_of none = no_entries
payload_of (some state) = state.payload

-- The second of two applications of a frame, whose answers and views are `first` and `second`.
pub record Replayed (frame : LiveFrame) (first second : Bool × CurrentView) : Type 0 where
  pub answer : second.0 ≡ false
  pub applied : second.1.applied ≡ first.1.applied
  pub unchanged : second.1.unchanged ≡ first.1.unchanged + 1
  pub payload : payload_of (second.1.topics frame.topic) ≡ payload_of (first.1.topics frame.topic)
  pub topics : frame.initial ≡ false → second.1.topics ≡ first.1.topics

module _ (digit : ℕ → Option ℕ) (same : Entries → Entries → Bool) where
  -- A delta whose merge leaves the payload is counted only.
  apply_delta :
      (frame : LiveFrame) (view : CurrentView) (state : TopicState)
      → frame.initial ≡ false
      → view.topics frame.topic ≡ some state
      → same (merge_entries digit state.payload frame.payload) state.payload ≡ true
      → apply digit same frame view ≡ (false, record view { unchanged = view.unchanged + 1 })
  unfolding apply
  apply_delta frame view state delta found s = ground arith

  -- A snapshot with the payload that is there is counted, and replaces the state.
  apply_snapshot :
      (frame : LiveFrame) (view : CurrentView) (state : TopicState)
      → frame.initial ≡ true
      → view.topics frame.topic ≡ some state
      → same state.payload frame.payload ≡ true
      → apply digit same frame view ≡ (
        false,
        record view {
          unchanged = view.unchanged + 1;
          topics = set_topic frame.topic (replaced frame (some state)) view.topics;
        },
      )
  unfolding apply
  apply_snapshot frame view state initial found s = ground arith

  delta-Replayed :
      (frame : LiveFrame) (first : Bool × CurrentView) (state : TopicState)
      → frame.initial ≡ false
      → first.1.topics frame.topic ≡ some state
      → same (merge_entries digit state.payload frame.payload) state.payload ≡ true
      → Replayed frame first (apply digit same frame first.1)
  delta-Replayed frame first state delta found s =
      let e = apply_delta frame first.1 state delta found s in
      rw e record {
        answer = refl;
        applied = refl;
        unchanged = refl;
        payload = refl;
        topics = λ _. refl;
      }

  snapshot-Replayed :
      (frame : LiveFrame) (first : Bool × CurrentView) (state : TopicState)
      → frame.initial ≡ true
      → first.1.topics frame.topic ≡ some state
      → state.payload ≡ frame.payload
      → ((p : Entries) → same p p ≡ true)
      → Replayed frame first (apply digit same frame first.1)
  snapshot-Replayed frame first state initial found p r =
      let s : same state.payload frame.payload ≡ true = rw p (r frame.payload) in
      let e = apply_snapshot frame first.1 state initial found s in
      rw e record {
        answer = refl;
        applied = refl;
        unchanged = refl;
        payload = ground arith;
        topics = λ delta. absurd (ground arith);
      }

  -- The state that a frame leaves for its topic, with its payload.
  replace_topic-state :
      (frame : LiveFrame) (view : CurrentView)
      → (replace_topic digit same frame view).1.topics frame.topic
        ≡ some (replaced frame (view.topics frame.topic))
  unfolding replace_topic
  replace_topic-state frame view = ground arith

  replace-Replayed :
      (frame : LiveFrame) (view : CurrentView)
      → ((p : Entries) → same p p ≡ true)
      → WellFormedEntries digit frame.payload
      → Replayed frame
          (replace_topic digit same frame view)
          (apply digit same frame (replace_topic digit same frame view).1)
  replace-Replayed frame view r w =
      let first = replace_topic digit same frame view in
      let state = replaced frame (view.topics frame.topic) in
      let found = replace_topic-state frame view in
      elim (Bool-cases frame.initial) [
        | inl snapshot ↦ snapshot-Replayed frame first state snapshot found refl r
        | inr delta ↦
            delta-Replayed frame first state delta found
              (rw (entries_self digit frame.payload w) (r frame.payload))
      ]

  merge-Replayed :
      (frame : LiveFrame) (view : CurrentView) (existing : TopicState)
      → ((p : Entries) → same p p ≡ true)
      → WellFormedEntries digit frame.payload
      → frame.initial ≡ false
      → view.topics frame.topic ≡ some existing
      → Replayed frame
          (merge_topic digit same frame existing view)
          (apply digit same frame (merge_topic digit same frame existing view).1)
  unfolding merge_topic
  merge-Replayed frame view existing r w delta found =
      let merged = merge_entries digit existing.payload frame.payload in
      let first = merge_topic digit same frame existing view in
      elim (Bool-cases (same merged existing.payload)) [
        | inl unchanged ↦ delta-Replayed frame first existing delta (ground arith) unchanged
        | inr changed ↦
            delta-Replayed frame first (updated frame merged existing) delta (ground arith)
              (rw (entries_again digit existing.payload frame.payload w) (r merged))
      ]

  -- Where `same` says that every payload equals itself, and the payload of a frame has distinct keys
  -- and distinct array indices: after the frame was applied, applying it once more reports no change,
  -- counts as one more unchanged frame, keeps the payload of its topic and, for a frame that is no
  -- snapshot, every topic as it is.
  pub apply-Replayed :
      (frame : LiveFrame) (view : CurrentView)
      → ((p : Entries) → same p p ≡ true)
      → WellFormedEntries digit frame.payload
      → Replayed frame
          (apply digit same frame view)
          (apply digit same frame (apply digit same frame view).1)
  unfolding apply
  apply-Replayed frame view r w =
      let again : Bool × CurrentView → Type 0 =
        λ first. Replayed frame first (apply digit same frame first.1) in
      elim (Option-cases (view.topics frame.topic)) [
        | inl e ↦
            let one : replace_topic digit same frame view ≡ apply digit same frame view =
              ground arith in
            subst again one (replace-Replayed frame view r w)
        | inr (existing, e) ↦ elim (Bool-cases frame.initial) [
          | inl snapshot ↦
              let one : replace_topic digit same frame view ≡ apply digit same frame view =
                ground arith in
              subst again one (replace-Replayed frame view r w)
          | inr delta ↦
              let one : merge_topic digit same frame existing view ≡ apply digit same frame view =
                ground arith in
              subst again one (merge-Replayed frame view existing r w delta e)
        ]
      ]
