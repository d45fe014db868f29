-- ===== src/Reassembly/Sequence.antt =====
-- include/utils/reass_helper.h: the distance of two sequence numbers.
use liblcb.Base.{wrap, ℕ, ◌+◌, ◌-◌, ◌^◌, ◌<◌, ◌≡◌, arith, ltb, if◌then◌else◌}
use liblcb.Reassembly.{reass_hlp_seq_calc_diff}

-- The fragment `d` numbers behind the first one has the distance `d`, as long as the 64-bit sequence
-- number does not pass its greatest value; once it does, the distance is one too small.
pub reass_hlp_seq_calc_diff-wrap :
    (first d : ℕ)
    → first < 2 ^ 64
    → d < 2 ^ 64
    → reass_hlp_seq_calc_diff first (wrap (first + d))
      ≡ (if ltb (first + d) (2 ^ 64) then d else d - 1)
unfolding reass_hlp_seq_calc_diff
reass_hlp_seq_calc_diff-wrap first d hf hd = ground arith
