-- ===== src/Tests/Queues.antt =====
-- Tests and witnesses about the queues.
use reef.Prelude.{◌≡◌, refl, [], ◌∷◌}
use reef.Queue.{expire}
use reef.Tests.Samples.{queue_of}

expire_one : (expire (λ r. r) 2500 (queue_of (100 ∷ 2000 ∷ []))).0 ≡ 100 ∷ []
unfolding expire
expire_one = refl
