-- ===== src/Connection/Ticking/Examples.antt =====
-- What a tick sends again, at a concrete connection.
use raknet.Base.{ℕ, ◌*◌, ◌≡◌, List, [], ◌∷◌, refl}
use raknet.Connection.Examples.States.{env, world_from}
use raknet.Connection.Ticking.Resend.{overdue}
use raknet.State.Metrics
use raknet.Connection.World.{Env, World}

abbrev waiting : World
waiting = world_from 0

abbrev late : List (List ℕ)
late = overdue env.instant (9 * waiting.shared.metrics.rtt) waiting.shared.send_queue.packets

late_test : late ≡ (132 ∷ []) ∷ (132 ∷ []) ∷ (132 ∷ []) ∷ []
unfolding overdue Metrics.new
late_test = refl

-- The next tick that looks for packets, three seconds later.
abbrev env_later : Env
env_later = record env { instant = 10_000_000 }
