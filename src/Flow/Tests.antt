-- ===== src/Flow/Tests.antt =====
-- The walk over a small flow, and its law applied to it.
use ivrdroid.Flow.Walk.Complete.{walk_blocks-count}
use ivrdroid.Samples.{sample}
use ivrdroid.Flow.WellFormed.{ids_of}
use ivrdroid.Flow.{present, block_id}
use ivrdroid.Flow.Walk.{walk_pending, prompt_ids, walk_blocks}
use ivrdroid.Base.{◌≡◌, refl, map, [], ◌∷◌}
use ivrdroid.Base.Counts.{contains, count}

walker : Unit {0}
unfolding walk_blocks walk_pending ids_of
walker = tt

-- The branches come in the order of their keys.
sample_order :
    map (λ w. block_id w.block) (walk_blocks (present sample))
    ≡ "g" ∷ "m" ∷ "e1" ∷ "r2" ∷ "e2" ∷ "r1" ∷ "e3" ∷ []
unfolding walker
sample_order = refl

sample_prompts : prompt_ids (present sample) ≡ "p1" ∷ "p2" ∷ []
unfolding walker prompt_ids contains
sample_prompts = refl

walk_blocks-count_example :
    count "e1" (map (λ w. block_id w.block) (walk_blocks (present sample)))
    ≡ count "e1" (ids_of sample)
walk_blocks-count_example = walk_blocks-count sample "e1"
