-- ===== src/Pipeline/Verdict/Lattice.antt =====
-- internal/pipeline/types.go: the laws of the join.
use open_mal_lab.Common.{◌≤◌, ◌≡◌, arith}
use open_mal_lab.Pipeline.Verdict.{Verdict, rank, join}

pub rank-join : (a b : Verdict) → (rank a ≤ rank (join a b)) × (rank b ≤ rank (join a b))
unfolding join
rank-join a b = ground arith

pub rank-join_least :
    (a b c : Verdict) → rank a ≤ rank c → rank b ≤ rank c → rank (join a b) ≤ rank c
unfolding join
rank-join_least a b c h k = ground arith

pub join_comm : (a b : Verdict) → join a b ≡ join b a
unfolding join
join_comm a b = ground arith

pub join_assoc : (a b c : Verdict) → join (join a b) c ≡ join a (join b c)
unfolding join
join_assoc a b c = ground arith
