-- ===== src/Barrier/Reinit.antt =====
-- A barrier that is set up anew while threads are still inside it.
use libmoon.Prelude.{ℕ, suc, ◌+◌, ◌^◌, ◌<◌, ◌≡◌, List, arith}
use libmoon.Barrier.{
  Barrier, arrive, barrier_reinit, Wake, resumes, spurious, Run, here, arrives, wakes,
}

record IsStuck (m k : ℕ) (passed : List ℕ) (b : Barrier) : Type 0 where
  counted : b.n + k ≡ m
  nobody : b.passed ≡ passed

Wake-IsStuck :
    {m k : ℕ} {ps : List ℕ} {b c : Barrier} → k < m → Wake b c → IsStuck m k ps b → IsStuck m k ps c
Wake-IsStuck h (resumes b t w) v = ground arith
Wake-IsStuck h (spurious b t w) v = ground arith

arrive-IsStuck :
    {m k : ℕ} {ps : List ℕ} (b : Barrier) (t : ℕ)
    → m < 2 ^ 64
    → suc k < m
    → IsStuck m k ps b
    → IsStuck m (suc k) ps (arrive t b)
arrive-IsStuck b t s h v = ground arith

Run-IsStuck :
    {m : ℕ} (b : Barrier) {k : ℕ} {c : Barrier}
    → m < 2 ^ 64
    → k < m
    → Run (barrier_reinit m b) k c
    → IsStuck m k b.passed c
unfolding barrier_reinit
Run-IsStuck b s h here = ground arith
Run-IsStuck b s h (arrives {c = c} r t) = arrive-IsStuck c t s h (Run-IsStuck b s (omega arith) r)
Run-IsStuck b s h (wakes r w) = Wake-IsStuck h w (Run-IsStuck b s h r)

-- `barrier_reinit` while a thread that was released has still to check shuts it in: until as many
-- threads have arrived as the new count says, no thread at all returns.
pub barrier_reinit_strands :
    {m k : ℕ} (b : Barrier) {c : Barrier}
    → m < 2 ^ 64
    → k < m
    → Run (barrier_reinit m b) k c
    → c.passed ≡ b.passed
barrier_reinit_strands b s h r = (Run-IsStuck b s h r).nobody
