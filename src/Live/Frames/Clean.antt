-- ===== src/Live/Frames/Clean.antt =====
-- No accepted payload shows what stood under a sensitive key.
use text.Mathlib.Text.{◌==◌ as str_eq}
use formula1_dashboard.Common.{
  ℕ, ◌+◌, ◌≡◌, refl, subst, List, String, Option-cases, true, false, Option, none, some, ok, arith,
  Outcome-cases, Bool-cases, inl, inr,
}
use formula1_dashboard.Live.CurrentView.{
  Value, null, scalar, string, array, mapping, Items, no_items, item, Entries, no_entries, entry,
  LiveFrame,
}
use formula1_dashboard.Live.Frames.{
  Raw, raw_null, raw_scalar, raw_text, raw_other, raw_sequence, raw_mapping, RawItems, no_raw,
  raw_item, Members, no_members, member, redacted, is_sensitive_key, normalize_value,
  normalize_items, normalize_members, RawFrame, normalize_frame, members_of, normalize_stamp,
  place_of, consumed_topics, ignored_topics, is_named,
}
use formula1_dashboard.Live.Frames.Log.{raw_of, raw_items, raw_members}

-- Under every sensitive key, at any depth, stands the mark of what was taken out.
abbrev mutual
  pub Clean : (List ℕ → List ℕ) → Value → Type 0
  Clean casefold null = Unit
  Clean casefold (scalar x) = Unit
  Clean casefold (string t) = Unit
  Clean casefold (array xs) = CleanItems casefold xs
  Clean casefold (mapping m) = CleanEntries casefold m

  pub CleanItems : (List ℕ → List ℕ) → Items → Type 0
  CleanItems casefold no_items = Unit
  CleanItems casefold (item v rest) = Clean casefold v × CleanItems casefold rest

  pub CleanEntries : (List ℕ → List ℕ) → Entries → Type 0
  CleanEntries casefold no_entries = Unit
  CleanEntries casefold (entry key v rest) =
      (is_sensitive_key casefold key ≡ true → v ≡ redacted)
      × Clean casefold v
      × CleanEntries casefold rest

module _ (casefold : List ℕ → List ℕ) where
  -- What normalizing gives is clean, and normalizing it once more gives it again.
  record Normal (depth : ℕ) (v : Value) : Type 0 where
    clean : Clean casefold v
    again : normalize_value casefold depth (raw_of v) ≡ ok v

  record NormalItems (depth : ℕ) (xs : Items) : Type 0 where
    clean : CleanItems casefold xs
    again : normalize_items casefold depth (raw_items xs) ≡ ok xs

  pub record NormalEntries (depth : ℕ) (m : Entries) : Type 0 where
    pub clean : CleanEntries casefold m
    pub again : normalize_members casefold depth (raw_members m) ≡ ok m

  mutual
    unfolding normalize_value raw_of

    normalize_value-Normal :
        (depth : ℕ) (raw : Raw) (v : Value)
        → normalize_value casefold depth raw ≡ ok v
        → Normal depth v
    normalize_value-Normal depth raw_null v h =
        let same : null ≡ v = ground arith in
        subst (Normal depth) same (record { clean = tt; again = ground arith })
    normalize_value-Normal depth (raw_scalar x) v h =
        let same : scalar x ≡ v = ground arith in
        subst (Normal depth) same (record { clean = tt; again = ground arith })
    normalize_value-Normal depth (raw_text t) v h =
        let same : string t ≡ v = ground arith in
        subst (Normal depth) same (record { clean = tt; again = ground arith })
    normalize_value-Normal depth raw_other v h = absurd (ground arith)
    normalize_value-Normal depth (raw_sequence xs) v h =
        elim (Outcome-cases (normalize_items casefold (depth + 1) xs)) [
          | inr bad ↦ absurd (ground arith)
          | inl (items, e) ↦
              let n = normalize_items-NormalItems (depth + 1) xs items e in
              let same : array items ≡ v = ground arith in
              subst (Normal depth) same
                (record { clean = n.clean; again = ground (arith, n.again) })
        ]
    normalize_value-Normal depth (raw_mapping ms) v h =
        elim (Outcome-cases (normalize_members casefold depth ms)) [
          | inr bad ↦ absurd (ground arith)
          | inl (m, e) ↦
              let n = normalize_members-NormalEntries depth ms m e in
              let same : mapping m ≡ v = ground arith in
              subst (Normal depth) same
                (record { clean = n.clean; again = ground (arith, n.again) })
        ]

    normalize_items-NormalItems :
        (depth : ℕ) (raw : RawItems) (xs : Items)
        → normalize_items casefold depth raw ≡ ok xs
        → NormalItems depth xs
    normalize_items-NormalItems depth no_raw xs h =
        let same : no_items ≡ xs = ground arith in
        subst (NormalItems depth) same (record { clean = tt; again = refl })
    normalize_items-NormalItems depth (raw_item x rest) xs h =
        elim (Outcome-cases (normalize_value casefold depth x)) [
          | inr bad ↦ absurd (ground arith)
          | inl (v, e) ↦ elim (Outcome-cases (normalize_items casefold depth rest)) [
            | inr bad ↦ absurd (ground arith)
            | inl (vs, e') ↦
                let n = normalize_value-Normal depth x v e in
                let ns = normalize_items-NormalItems depth rest vs e' in
                let same : item v vs ≡ xs = ground arith in
                subst (NormalItems depth) same (record {
                  clean = (n.clean, ns.clean);
                  again = ground (arith, n.again, ns.again);
                })
          ]
        ]

    pub normalize_members-NormalEntries :
        (depth : ℕ) (raw : Members) (m : Entries)
        → normalize_members casefold depth raw ≡ ok m
        → NormalEntries depth m
    normalize_members-NormalEntries depth no_members m h =
        let same : no_entries ≡ m = ground arith in
        subst (NormalEntries depth) same (record { clean = tt; again = refl })
    normalize_members-NormalEntries depth (member none x rest) m h = absurd (ground arith)
    normalize_members-NormalEntries depth (member (some key) x rest) m h =
        elim (Outcome-cases (normalize_members casefold depth rest)) [
          | inr bad ↦ elim (Bool-cases (is_sensitive_key casefold key)) [
            | inl hidden ↦ absurd (ground arith)
            | inr shown ↦ elim (Outcome-cases (normalize_value casefold (depth + 1) x)) [
              | inr bad' ↦ absurd (ground arith)
              | inl (v, e) ↦ absurd (ground arith)
            ]
          ]
          | inl (entries, e) ↦
              let ns = normalize_members-NormalEntries depth rest entries e in
              elim (Bool-cases (is_sensitive_key casefold key)) [
                | inl hidden ↦
                    let same : entry key redacted entries ≡ m = ground arith in
                    subst (NormalEntries depth) same (record {
                      clean = ((λ _. refl), tt, ns.clean);
                      again = ground (arith, ns.again);
                    })
                | inr shown ↦ elim (Outcome-cases (normalize_value casefold (depth + 1) x)) [
                  | inr bad ↦ absurd (ground arith)
                  | inl (v, e') ↦
                      let n = normalize_value-Normal (depth + 1) x v e' in
                      let same : entry key v entries ≡ m = ground arith in
                      subst (NormalEntries depth) same (record {
                        clean = ((λ hidden. absurd (ground arith)), n.clean, ns.clean);
                        again = ground (arith, n.again, ns.again);
                      })
                ]
              ]
        ]

  -- What an accepted frame is made from.
  pub record Accepted (parse : String → Option ℕ) (raw : RawFrame) (frame : LiveFrame)
      : Type 0 where
    pub name : String
    pub members : Members
    pub nonempty : str_eq name "" ≡ false
    pub kept : is_named name ignored_topics ≡ false
    pub place : place_of name consumed_topics ≡ some frame.topic
    pub payload : normalize_members casefold 0 members ≡ ok frame.payload

  pub normalize_frame-Accepted :
      (parse : String → Option ℕ) (raw : RawFrame) (frame : LiveFrame)
      → normalize_frame casefold parse raw ≡ ok frame
      → Accepted parse raw frame
  unfolding normalize_frame
  normalize_frame-Accepted parse raw frame h = elim (Option-cases raw.topic) [
    | inl e ↦ absurd (ground arith)
    | inr (name, e) ↦ elim (Option-cases (place_of name consumed_topics)) [
      | inl e' ↦ absurd (ground arith)
      | inr (topic, e') ↦ elim (Option-cases (members_of raw.payload)) [
        | inl m ↦ absurd (ground arith)
        | inr (ms, m) ↦ elim (Outcome-cases (normalize_stamp parse raw.feed_timestamp)) [
          | inr bad ↦ absurd (ground arith)
          | inl (stamp, t) ↦ elim (Outcome-cases (normalize_members casefold 0 ms)) [
            | inr bad ↦ absurd (ground arith)
            | inl (payload, p) ↦ record {
              name = name;
              members = ms;
              nonempty = ground arith;
              kept = ground arith;
              place = ground arith;
              payload = ground arith;
            }
          ]
        ]
      ]
    ]
  ]

  -- In the payload of an accepted frame, at any depth, a sensitive key holds only the mark of what was
  -- taken out.
  pub normalize_frame-Clean :
      (parse : String → Option ℕ) (raw : RawFrame) (frame : LiveFrame)
      → normalize_frame casefold parse raw ≡ ok frame
      → CleanEntries casefold frame.payload
  normalize_frame-Clean parse raw frame h =
      let a = normalize_frame-Accepted parse raw frame h in
      (normalize_members-NormalEntries 0 a.members frame.payload a.payload).clean
