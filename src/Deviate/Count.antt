-- ===== src/Deviate/Count.antt =====
-- `subcount` of deviate.c: the difference of two readings of a counter.
use atop.Prelude.{ℕ, ◌+◌, ◌-◌, ◌≤◌, ◌<◌, ◌≡◌, refl, ◌∙◌, List, [], ◌∷◌, arith, leb, if◌then◌else◌}
use atop.Prelude.Int.{ℤ, pos, ◌+ℤ◌, ◌-ℤ◌, leb_ℤ, eqb_ℤ, minus_one}

-- A counter that does not exist reads -1. One that is smaller than before was reset.
unfoldable pub subcount : ℤ → ℤ → ℤ
subcount newval oldval =
    if eqb_ℤ newval minus_one
    then minus_one
    else if leb_ℤ oldval newval
    then newval -ℤ oldval
    else newval

-- A difference of two readings that are not negative.
pub subcount_pos : (n o : ℕ) → subcount (pos n) (pos o) ≡ (if leb o n then pos (n - o) else pos n)
unfolding subcount ◌-ℤ◌
subcount_pos n o = ground arith

pub subcount_none : (o : ℤ) → subcount minus_one o ≡ minus_one
unfolding subcount
subcount_none o = ground arith

-- What happens to a counter between two samples: it grows by a number, or it is reset (by a reboot
-- of a device, a reloaded module) and counts on to a number.
pub data Event : Type 0 where
  grow reset : ℕ → Event

-- The reading at the end of the interval.
unfoldable pub reading : ℕ → Event → ℕ
reading v (grow d) = v + d
reading v (reset d) = d

-- What the counter counted in the interval since its last start.
abbrev pub amount : Event → ℕ
amount (grow d) = d
amount (reset d) = d

-- The sum of the deviations that `subcount` gives for the samples of an observation.
pub total_deviation : ℕ → List Event → ℤ
unfolding subcount reading
total_deviation v [] = pos 0
total_deviation v (e ∷ es) =
    subcount (pos (reading v e)) (pos v) +ℤ total_deviation (reading v e) es

pub total_amount : List Event → ℕ
total_amount [] = 0
total_amount (e ∷ es) = amount e + total_amount es

-- Every reset shows: the counter reads less than at the previous sample.
abbrev pub Shows : ℕ → List Event → Type 0
Shows v [] = Unit
Shows v (grow d ∷ es) = Shows (v + d) es
Shows v (reset d ∷ es) = (d < v) × Shows d es

pos-+ℤ : (a b : ℕ) → pos a +ℤ pos b ≡ pos (a + b)
unfolding ◌+ℤ◌
pos-+ℤ a b = ground arith

-- Over any run of samples in which every reset shows, the deviations of `subcount` add up to what
-- the counter really counted.
pub total_deviation_lem :
    (es : List Event) (v : ℕ) → Shows v es → total_deviation v es ≡ pos (total_amount es)
unfolding total_deviation total_amount reading
total_deviation_lem [] v h = refl
total_deviation_lem (grow d ∷ es) v h =
    rw (subcount_pos (v + d) v, total_deviation_lem es (v + d) h)
      (ground (arith, pos-+ℤ d (total_amount es)))
total_deviation_lem (reset d ∷ es) v h =
    rw (subcount_pos d v, total_deviation_lem es d h.1) (ground (arith, pos-+ℤ d (total_amount es)))

-- A counter that was not there at the previous sample is charged one event too many.
pub subcount_after_none : (n : ℕ) → subcount (pos n) minus_one ≡ pos (n + 1)
unfolding subcount ◌-ℤ◌
subcount_after_none n = ground arith

-- Of two readings that exist the difference is not negative and at most the new one.
pub subcount_bounds : (n o : ℕ) → (d : ℕ) × (subcount (pos n) (pos o) ≡ pos d) × (d ≤ n)
subcount_bounds n o = (if leb o n then n - o else n, subcount_pos n o ∙ ground arith, ground arith)
