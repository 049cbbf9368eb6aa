-- ===== src/System/Reach.antt =====
-- What holds of the running server after any sequence of events.
use castserver.Env.{Env}
use castserver.World.{World}
use castserver.System.Frame.{Frame}
