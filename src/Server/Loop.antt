-- ===== src/Server/Loop.antt =====
-- The loop of main over the events.
use castserver.Env.{Env}
use castserver.World.{World}
use castserver.System.Frame.{Frame}
