-- ===== src/Live/PitStops/Served.antt =====
-- What a recorded pit stop stands for.
use text.Mathlib.Text.{◌==◌ as str_eq}
use formula1_dashboard.Common.{
  ℕ, ◌-◌, ◌<◌, ◌≡◌, refl, ◌⊎◌, inl, inr, true, false, Option, none, some, List, [], ◌∷◌, ◌++◌,
  arith, All, subst, Bool-cases, ◌==◌, String, not, ==_iff, ◌||◌,
}
use formula1_dashboard.Live.PitStops.{
  PitStop, Visit, Tracker, Line, Frame, inside, outside, unclear, InPit, new_tracker,
  counts_as_stop, stop_of, leave, observe_line, observe_lines, observe,
}

-- Some frame of a sequence has a property.
abbrev pub SomeFrame : (Frame → Type 0) → List Frame → Type 0
SomeFrame P [] = ⊥
SomeFrame P (f ∷ fs) = P f ⊎ SomeFrame P fs

-- A frame has a line that puts a driver inside the pits, or outside.
abbrev pub HasLine : ℕ → InPit → List Line → Type 0
HasLine number spot [] = ⊥
HasLine number spot (line ∷ lines) =
    ((line.number ≡ number) × (line.in_pit ≡ spot)) ⊎ HasLine number spot lines

-- A frame, no snapshot, at which a driver entered: its moment, lap and session status.
pub record IsEntry (number at : ℕ) (lap : Option ℕ) (status : String) (f : Frame) : Type 0 where
  pub at_moment : f.moment ≡ at
  pub feed : f.initial ≡ false
  pub line : HasLine number inside f.lines
  pub on_lap : f.laps number ≡ lap
  pub in_status : f.session_status ≡ status

-- A frame at which the driver left again, in time, in the same status of the session or in none that
-- is known; the duration is that between the two frames.
pub record IsExit (round_seconds : ℕ → ℕ) (limit number at seconds : ℕ) (status : String)
    (f : Frame) : Type 0 where
  pub later : at < f.moment
  pub plausible : f.moment - at < limit
  pub line : HasLine number outside f.lines
  pub in_status : (str_eq f.session_status "" || str_eq status f.session_status) ≡ true
  pub duration : seconds ≡ round_seconds (f.moment - at)

-- A stop with the frames of its entry and of its exit.
pub record IsServed (round_seconds : ℕ → ℕ) (limit : ℕ) (seen : List Frame) (stop : PitStop)
    : Type 0 where
  pub status : String
  pub entered : SomeFrame (IsEntry stop.racing_number stop.entered_at stop.lap_number status) seen
  pub left :
      SomeFrame
        (IsExit round_seconds limit stop.racing_number stop.entered_at stop.seconds status)
        seen

-- A visit whose entry is said to be observed began at such a frame.
abbrev IsKnown : List Frame → ℕ → Visit → Type 0
IsKnown seen number visit =
    visit.observed_entry ≡ true
    → SomeFrame (IsEntry number visit.started_at visit.lap_number visit.session_status) seen

InPit-cases : (x : InPit) → (x ≡ inside) ⊎ ((x ≡ outside) ⊎ (x ≡ unclear))
InPit-cases inside = inl refl
InPit-cases outside = inr (inl refl)
InPit-cases unclear = inr (inr refl)

-- A frame is one of those that were seen.
abbrev IsSeen : List Frame → Frame → Type 1
IsSeen seen f = (P : Frame → Type 0) → P f → SomeFrame P seen

All-IsSeen_later : (g : Frame) (fs xs : List Frame) → All (IsSeen fs) xs → All (IsSeen (g ∷ fs)) xs
All-IsSeen_later g fs [] a = tt
All-IsSeen_later g fs (x ∷ xs) a = ((λ P p. inr (a.0 P p)), All-IsSeen_later g fs xs a.1)

All-IsSeen : (fs : List Frame) → All (IsSeen fs) fs
All-IsSeen [] = tt
All-IsSeen (f ∷ fs) = ((λ P p. inl p), All-IsSeen_later f fs fs (All-IsSeen fs))

All-append :
    (P : PitStop → Type 0) (xs : List PitStop) (y : PitStop)
    → All P xs
    → P y
    → All P (xs ++ (y ∷ []))
All-append P [] y a p = (p, tt)
All-append P (x ∷ xs) y a p = (a.0, All-append P xs y a.1 p)

module _ (round_seconds : ℕ → ℕ) (limit : ℕ) (seen : List Frame) where
  record Good (t : Tracker) : Type 0 where
    bound : t.limit ≡ limit
    served : All (IsServed round_seconds limit seen) t.stops
    known : (n : ℕ) (v : Visit) → t.visits n ≡ some v → IsKnown seen n v

  stop_of-IsServed :
      (n : ℕ) (f : Frame) (v : Visit)
      → IsSeen seen f
      → HasLine n outside f.lines
      → IsKnown seen n v
      → counts_as_stop limit f v ≡ true
      → IsServed round_seconds limit seen (stop_of round_seconds n f v)
  unfolding counts_as_stop stop_of
  stop_of-IsServed n f v is_seen line k h = record {
    status = v.session_status;
    entered = k ground arith;
    left =
        is_seen
          (IsExit round_seconds limit n v.started_at (round_seconds (f.moment - v.started_at))
            v.session_status)
          (record {
            later = ground arith;
            plausible = ground arith;
            line = line;
            in_status = ground arith;
            duration = refl;
          });
  }

  leave-Good :
      (n : ℕ) (f : Frame) (v : Option Visit) (t : Tracker)
      → IsSeen seen f
      → HasLine n outside f.lines
      → t.visits n ≡ v
      → Good t
      → Good (leave round_seconds n f v t)
  unfolding leave
  leave-Good n f none t is_seen line e g = g
  leave-Good n f (some v) t is_seen line e g = elim (Bool-cases (counts_as_stop t.limit f v)) [
    | inl counted ↦ rw counted (record {
      bound = g.bound;
      served =
          All-append (IsServed round_seconds limit seen) t.stops (stop_of round_seconds n f v)
            g.served
            (stop_of-IsServed n f v is_seen line (g.known n v e)
              (subst (λ l. counts_as_stop l f v ≡ true) g.bound counted));
      known = λ m w h. elim (Bool-cases (n == m)) [
        | inl here ↦ absurd (ground arith)
        | inr there ↦ g.known m w ground arith
      ];
    })
    | inr passed ↦ rw passed (record {
      bound = g.bound;
      served = g.served;
      known = λ m w h. elim (Bool-cases (n == m)) [
        | inl here ↦ absurd (ground arith)
        | inr there ↦ g.known m w ground arith
      ];
    })
  ]

  entry :
      (f : Frame) (number : ℕ)
      → IsSeen seen f
      → HasLine number inside f.lines
      → f.initial ≡ false
      → SomeFrame (IsEntry number f.moment (f.laps number) f.session_status) seen
  entry f number is_seen line feed =
      is_seen (IsEntry number f.moment (f.laps number) f.session_status)
        (record { at_moment = refl; feed = feed; line = line; on_lap = refl; in_status = refl })

  line-Good :
      (f : Frame) (line : Line) (t : Tracker)
      → IsSeen seen f
      → HasLine line.number line.in_pit f.lines
      → Good t
      → Good (observe_line round_seconds f line t)
  unfolding observe_line
  line-Good f line t is_seen here g = elim (InPit-cases line.in_pit) [
    | inl e ↦ rw e (record {
      bound = g.bound;
      served = g.served;
      known = λ m w h. elim (Bool-cases (line.number == m)) [
        | inl same ↦
            let visit : Visit = record {
              started_at = f.moment;
              session_status = f.session_status;
              lap_number = f.laps line.number;
              observed_entry = not f.initial;
            } in
            let is_visit : visit ≡ w = ground arith in
            let is_driver : line.number ≡ m = (==_iff line.number m).0 same in
            let inside_line = subst (λ spot. HasLine line.number spot f.lines) e here in
            subst (λ k. IsKnown seen k w) is_driver
              (subst (IsKnown seen line.number) is_visit
                (λ o. entry f line.number is_seen inside_line ground arith))
        | inr there ↦ g.known m w ground arith
      ];
    })
    | inr (inl e) ↦ rw e (
        leave-Good line.number f (t.visits line.number) t is_seen
          (subst (λ spot. HasLine line.number spot f.lines) e here) refl g)
    | inr (inr e) ↦ rw e g
  ]

  lines-Good :
      (f : Frame) (lines : List Line) (t : Tracker)
      → IsSeen seen f
      → ((number : ℕ) (spot : InPit) → HasLine number spot lines → HasLine number spot f.lines)
      → Good t
      → Good (observe_lines round_seconds f lines t)
  unfolding observe_lines
  lines-Good f [] t is_seen part g = g
  lines-Good f (line ∷ lines) t is_seen part g =
      lines-Good f lines (observe_line round_seconds f line t) is_seen
        (λ number spot h. part number spot (inr h))
        (line-Good f line t is_seen (part line.number line.in_pit (inl (refl, refl))) g)

  frames-Good :
      (fs : List Frame) (t : Tracker)
      → All (IsSeen seen) fs
      → Good t
      → Good (observe round_seconds fs t)
  unfolding observe
  frames-Good [] t s g = g
  frames-Good (f ∷ fs) t s g =
      frames-Good fs (observe_lines round_seconds f f.lines t) s.1
        (lines-Good f f.lines t s.0 (λ number spot h. h) g)

-- Every stop that a new tracker records over any sequence of frames has its entry and its exit among
-- the frames: a frame that was no snapshot, at the moment of entry, on the stop's lap, with a line that
-- puts the driver inside the pits; and a later one, sooner than the limit, with a line that puts the
-- driver outside, whose status of the session is empty or that of the entry. The seconds of the stop
-- are the rounding of the time between the two.
pub observe-IsServed :
    (round_seconds : ℕ → ℕ) (limit : ℕ) (frames : List Frame)
    → All
        (IsServed round_seconds limit frames)
        (observe round_seconds frames (new_tracker limit)).stops
observe-IsServed round_seconds limit frames =
    (frames-Good round_seconds limit frames frames (new_tracker limit) (All-IsSeen frames)
      (record { bound = refl; served = tt; known = λ n v h. absurd (cc) })).served
