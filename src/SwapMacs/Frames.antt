-- ===== src/SwapMacs/Frames.antt =====
-- What the swap does to Ethernet frames.
use libmoon.Prelude.{
  ℕ, ◌+◌, ◌*◌, ◌/◌, ◌%◌, ◌<◌, ◌≡◌, refl, sym, ap, ◌∙◌, some, List, [], ◌∷◌, map, length-map, arith,
  IsBytes, length,
}
use libmoon.SwapMacs.{swap_mac, swap_macs}

-- A frame: six bytes of destination, six of source, and the rest.
pub record Frame : Type 0 where
  pub d0 : ℕ
  pub d1 : ℕ
  pub d2 : ℕ
  pub d3 : ℕ
  pub d4 : ℕ
  pub d5 : ℕ
  pub s0 : ℕ
  pub s1 : ℕ
  pub s2 : ℕ
  pub s3 : ℕ
  pub s4 : ℕ
  pub s5 : ℕ
  pub rest : List ℕ

abbrev pub data_of : Frame → List ℕ
data_of f =
    f.d0 ∷ f.d1 ∷ f.d2 ∷ f.d3 ∷ f.d4 ∷ f.d5 ∷ f.s0 ∷ f.s1 ∷ f.s2 ∷ f.s3 ∷ f.s4 ∷ f.s5 ∷ f.rest

abbrev pub exchanged : Frame → Frame
exchanged f = record {
  d0 = f.s0;
  d1 = f.s1;
  d2 = f.s2;
  d3 = f.s3;
  d4 = f.s4;
  d5 = f.s5;
  s0 = f.d0;
  s1 = f.d1;
  s2 = f.d2;
  s3 = f.d3;
  s4 = f.d4;
  s5 = f.d5;
  rest = f.rest;
}

abbrev pub AreBytes : List Frame → Type 0
AreBytes [] = Unit
AreBytes (f ∷ fs) = IsBytes (data_of f) × AreBytes fs

low_byte : (a b : ℕ) → a < 256 → (a + 256 * b) % 256 ≡ a
low_byte a b h = omega (arith, h)

high_byte : (a b : ℕ) → a < 256 → (a + 256 * b) / 256 ≡ b
high_byte a b h = omega (arith, h)

swap_mac_lem : (f : Frame) → IsBytes (data_of f) → swap_mac (data_of f) ≡ data_of (exchanged f)
unfolding swap_mac
swap_mac_lem f (d0, (d1, (d2, (d3, (d4, (d5, (s0, (s1, (s2, (s3, (s4, (s5, h)))))))))))) =
    simp
      (
        low_byte f.d0 f.d1 d0,
        high_byte f.d0 f.d1 d0,
        low_byte f.d2 f.d3 d2,
        high_byte f.d2 f.d3 d2,
        low_byte f.d4 f.d5 d4,
        high_byte f.d4 f.d5 d4,
        low_byte f.s0 f.s1 s0,
        high_byte f.s0 f.s1 s0,
        low_byte f.s2 f.s3 s2,
        high_byte f.s2 f.s3 s2,
        low_byte f.s4 f.s5 s4,
        high_byte f.s4 f.s5 s4,
      )
      refl

exchanged-AreBytes : (fs : List Frame) → AreBytes fs → AreBytes (map exchanged fs)
exchanged-AreBytes [] h = tt
exchanged-AreBytes (f ∷ fs)
      ((d0, (d1, (d2, (d3, (d4, (d5, (s0, (s1, (s2, (s3, (s4, (s5, h)))))))))))), hs) =
    (
      (s0, (s1, (s2, (s3, (s4, (s5, (d0, (d1, (d2, (d3, (d4, (d5, h)))))))))))),
      exchanged-AreBytes fs hs,
    )

exchanged_twice : (fs : List Frame) → map exchanged (map exchanged fs) ≡ fs
exchanged_twice [] = refl
exchanged_twice (f ∷ fs) = ap (λ r. f ∷ r) (exchanged_twice fs)

swap_macs_once :
    (fs : List Frame)
    → AreBytes fs
    → swap_macs (map data_of fs) (length fs) ≡ some (map data_of (map exchanged fs))
unfolding swap_macs
swap_macs_once [] h = refl
swap_macs_once (f ∷ fs) (h, hs) = rw (swap_macs_once fs hs, swap_mac_lem f h) refl

-- For buffers that hold bytes and begin with two addresses of six bytes each: a pass over all of them
-- exchanges the two addresses of every buffer and leaves the rest of it, and a second pass gives back
-- the buffers as they were.
swap_macs_lem :
    (fs : List Frame)
    → AreBytes fs
    → (swap_macs (map data_of fs) (length fs) ≡ some (map data_of (map exchanged fs)))
      × (swap_macs (map data_of (map exchanged fs)) (length fs) ≡ some (map data_of fs))
swap_macs_lem fs h = (swap_macs_once fs h, swapped_back)
  where
    swapped_back : swap_macs (map data_of (map exchanged fs)) (length fs) ≡ some (map data_of fs)
    swapped_back =
        ap (swap_macs (map data_of (map exchanged fs))) (sym (length-map fs exchanged))
        ∙ swap_macs_once (map exchanged fs) (exchanged-AreBytes fs h)
        ∙ ap (λ r. some (map data_of r)) (exchanged_twice fs)
