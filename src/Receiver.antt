-- ===== src/Receiver.antt =====
-- server_receiver.c: a socket for the event loop. Nothing calls these two functions.
use castserver.Base.{ℤ, pos}
use castserver.Types.{Call, sock_dgram, af_inet}
use castserver.Env.{Env}
use castserver.World.{M, ◌>>=◌, ◌>>◌, pure, modify, sys}

module _ {T : Type 0} (e : Env T) where
  -- Its result is not set.
  unfoldable pub receiver_init : M T (Unit {0})
  receiver_init = do
    fd ← sys e (Call.socket af_inet sock_dgram)
    modify (λ w. record w { receiver_fd = fd })
    sys e (Call.event_add fd)
    pure tt

  unfoldable pub receiver_deinit : M T ℤ
  receiver_deinit = pure (pos 0)
