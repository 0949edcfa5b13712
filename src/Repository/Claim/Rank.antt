-- ===== src/Repository/Claim/Rank.antt =====
-- The order in which jobs are claimed.
use digitalocean.Base.{◌≡◌, ◌≤◌, ◌<◌, ◌+◌, pos_part, neg_part, true, false, ◌⊎◌, arith}
use digitalocean.Models.{Job}
use digitalocean.Repository.Claim.{claims_before}

-- a is a job to run no later than b: a higher priority, or the same and due earlier, or the same
-- and due at the same time and created no later.
abbrev pub Outranks : Job → Job → Type 0
Outranks a b =
    (pos_part b.priority + neg_part a.priority < pos_part a.priority + neg_part b.priority)
    ⊎ ((pos_part b.priority + neg_part a.priority ≡ pos_part a.priority + neg_part b.priority)
        × ((a.run_at < b.run_at) ⊎ ((a.run_at ≡ b.run_at) × (a.created_at ≤ b.created_at))))

pub claims_before_asym : (a b : Job) → claims_before a b ≡ true → claims_before b a ≡ false
unfolding claims_before
claims_before_asym a b e = ground arith

pub claims_before_trans :
    (a b c : Job)
    → claims_before b a ≡ false
    → claims_before c b ≡ false
    → claims_before c a ≡ false
unfolding claims_before
claims_before_trans a b c e f = ground arith

pub claims_before-Outranks : (a b : Job) → claims_before b a ≡ false → Outranks a b
unfolding claims_before
claims_before-Outranks a b e = ground arith
