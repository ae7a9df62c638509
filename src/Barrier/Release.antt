-- ===== src/Barrier/Release.antt =====
-- Nobody passes a barrier before everybody has come, and then everybody can.
use libmoon.Prelude.{
  ℕ, suc, ◌+◌, ◌^◌, ◌≤◌, ◌<◌, ◌≡◌, ◌≢◌, true, List, [], ◌∷◌, arith, length, length-append, contains,
  ap,
}
use libmoon.Barrier.{
  Barrier, make_barrier, remove, arrive, resume, Wake, resumes, spurious, Run, here, arrives, wakes,
}

length-remove : (t : ℕ) (ts : List ℕ) → contains t ts ≡ true → length (remove t ts) + 1 ≡ length ts
length-remove t [] h = cc
length-remove t (u ∷ us) h = ground (arith, length-remove t us)

-- A barrier for `total` threads of which `k` have arrived.
record IsBarrier (total k : ℕ) (b : Barrier) : Type 0 where
  counted : b.n + k ≡ total
  everyone : length b.asleep + length b.woken + length b.passed ≡ k
  closed : b.n ≢ 0 → b.passed ≡ []
  released : b.n ≡ 0 → b.asleep ≡ []

module _ (total : ℕ) (some_thread : 0 < total) (small : total < 2 ^ 64) where
  arrive-IsBarrier :
      (k t : ℕ) (b : Barrier)
      → k < total
      → IsBarrier total k b
      → IsBarrier total (suc k) (arrive t b)
  arrive-IsBarrier k t b h v = ground (arith, length-append b.woken b.asleep)

  resume-IsBarrier :
      (k t : ℕ) (b : Barrier)
      → contains t b.woken ≡ true
      → IsBarrier total k b
      → IsBarrier total k (resume t b)
  resume-IsBarrier k t b h v = ground (arith, length-remove t b.woken h)

  spurious-IsBarrier :
      (k t : ℕ) (b : Barrier)
      → contains t b.asleep ≡ true
      → IsBarrier total k b
      → IsBarrier total k (record b { asleep = remove t b.asleep; woken = t ∷ b.woken })
  spurious-IsBarrier k t b h v = ground (arith, length-remove t b.asleep h)

  Wake-IsBarrier : {k : ℕ} {b c : Barrier} → Wake b c → IsBarrier total k b → IsBarrier total k c
  Wake-IsBarrier {k} (resumes b t h) v = resume-IsBarrier k t b h v
  Wake-IsBarrier {k} (spurious b t h) v = spurious-IsBarrier k t b h v

  Run-IsBarrier :
      {k : ℕ} {b : Barrier} → Run (make_barrier total) k b → k ≤ total → IsBarrier total k b
  unfolding make_barrier
  Run-IsBarrier here h = ground arith
  Run-IsBarrier (arrives {k = j} {c = c} r t) h =
      arrive-IsBarrier j t c (omega arith) (Run-IsBarrier r (omega arith))
  Run-IsBarrier (wakes r w) h = Wake-IsBarrier w (Run-IsBarrier r h)

  -- Of `total` threads, at least one and fewer than 2 ^ 64, that meet at a barrier, however they are
  -- scheduled and spuriously woken: while one has still to arrive, none has returned from the wait;
  -- and when all have arrived, none is asleep, so that each has returned or has only to check.
  pub barrier_wait_lem :
      {k : ℕ} {b : Barrier}
      → Run (make_barrier total) k b
      → k ≤ total
      → (k < total → b.passed ≡ [])
        × (k ≡ total → (b.asleep ≡ []) × (length b.woken + length b.passed ≡ total))
  barrier_wait_lem r h =
      let v = Run-IsBarrier r h in
      (
        λ less. v.closed (omega (arith, v.counted)),
        λ all.
            let done = v.released (omega (arith, v.counted)) in
            (done, omega (arith, v.everyone, ap length done)),
      )
