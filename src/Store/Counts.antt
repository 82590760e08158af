-- ===== src/Store/Counts.antt =====
-- Counting rows when one of them is written back.
use formula1_dashboard.Common.{ℕ, ◌+◌, ◌≡◌, Bool, true, false, some, List, [], ◌∷◌, arith, count}
use formula1_dashboard.Store.{JobSession, find_row, put_row}

abbrev pub indicator : Bool → ℕ
indicator true = 1
indicator false = 0

-- Writing `new` back in place of `old` moves a count by the difference of the two.
pub count-put_row :
    (test : JobSession → Bool) (new old : JobSession) (rows : List JobSession)
    → find_row new.job_id new.session_id rows ≡ some old
    → count test (put_row new rows) + indicator (test old) ≡ count test rows + indicator (test new)
unfolding count find_row put_row
count-put_row test new old [] h = absurd (cc)
count-put_row test new old (x ∷ rows) h = ground (arith, count-put_row test new old rows)
