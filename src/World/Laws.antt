-- ===== src/World/Laws.antt =====
-- Laws of the descriptors' buffers.
use kernel_testkit.Base.{ℕ, ◌≡◌, ◌≢◌, List, ◌∷◌, refl, ap, ◌∙◌, arith}
use kernel_testkit.Base.Int.{ℤ, ==ℤ_iff}
use kernel_testkit.World.{
  update, Call, Reply, done, fail, read, write, held, blocks, drop_block, calloc, free,
}

pub update_self : (f : ℤ → List ℕ) (a : ℤ) (v : List ℕ) → update f a v a ≡ v
update_self f a v = ground (arith, ==ℤ_iff a a)

pub update_ne : (f : ℤ → List ℕ) (a : ℤ) (v : List ℕ) (b : ℤ) → b ≢ a → update f a v b ≡ f b
update_ne f a v b ne = ground (arith, ==ℤ_iff b a)

-- Reading and writing opens and closes nothing, and allocates nothing.
pub held-read :
    (fd : ℤ) (n : ℕ) (r : Reply) (log : List (Call × Reply))
    → held ((read fd n, r) ∷ log) ≡ held log
unfolding held
held-read fd n (done m) log = refl
held-read fd n (fail e) log = refl

pub held-write :
    (fd : ℤ) (n : ℕ) (r : Reply) (log : List (Call × Reply))
    → held ((write fd n, r) ∷ log) ≡ held log
unfolding held
held-write fd n (done m) log = refl
held-write fd n (fail e) log = refl

pub blocks-read :
    (fd : ℤ) (n : ℕ) (r : Reply) (log : List (Call × Reply))
    → blocks ((read fd n, r) ∷ log) ≡ blocks log
unfolding blocks
blocks-read fd n r log = refl

pub blocks-write :
    (fd : ℤ) (n : ℕ) (r : Reply) (log : List (Call × Reply))
    → blocks ((write fd n, r) ∷ log) ≡ blocks log
unfolding blocks
blocks-write fd n r log = refl

-- A block that is freed at once.
pub blocks_freed :
    (p n : ℕ) (log later : List (Call × Reply)) (r : Reply)
    → blocks later ≡ blocks ((calloc n, done p) ∷ log)
    → blocks ((free p, r) ∷ later) ≡ blocks log
unfolding blocks
blocks_freed p n log later r e = ap (drop_block p) e ∙ ground arith
