-- ===== src/SwapMacs/Tests.antt =====
-- Two frames, the second without a payload.
use libmoon.Prelude.{ℕ, List, [], ◌∷◌}
use libmoon.SwapMacs.Frames.{Frame}

abbrev frame : List ℕ → Frame
frame payload = record {
  d0 = 255;
  d1 = 2;
  d2 = 3;
  d3 = 4;
  d4 = 5;
  d5 = 6;
  s0 = 160;
  s1 = 54;
  s2 = 159;
  s3 = 0;
  s4 = 16;
  s5 = 255;
  rest = payload;
}

abbrev frames : List Frame
frames = frame (8 ∷ 0 ∷ []) ∷ frame [] ∷ []
