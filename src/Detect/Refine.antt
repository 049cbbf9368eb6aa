-- ===== src/Detect/Refine.antt =====
-- The handler of the detect socket against what it promises: the set of the speakers that the server
-- knows, as the messages make it grow.
use castserver.Base.{ℕ, ℤ, negsuc, is_nonzero, Bool, ◌&&◌, ◌||◌, List, [], ◌∷◌, ◌==◌, if◌then◌else◌}
use castserver.Types.{Sockaddr, DetectRequest}
use castserver.Env.{Env}
use castserver.World.{World, M, pure, state_of}
use castserver.Detect.{respond, srv_detect_read}
use castserver.Detect.Request.{is_request, request_of}
use castserver.Detect.Known.{SpeakerTable}

-- A datagram that reached the detect socket.
pub record Message : Type 0 where
  pub src : Sockaddr
  pub packet : List ℕ
  pub len : ℕ

module _ {T : Type 0} (e : Env T) where
  -- What the component promises: a request adds the number that it names, any other message nothing.
  abbrev pub announces : Message → ℕ → Bool
  announces m j = is_request e m.src m.packet m.len && j == (request_of e m.src m.packet).id

  abbrev pub spec_step : Message → (ℕ → Bool) → ℕ → Bool
  spec_step m known j = announces m j || known j

  abbrev pub spec_all : List Message → (ℕ → Bool) → ℕ → Bool
  spec_all [] known = known
  spec_all (m ∷ rest) known = spec_all rest (spec_step m known)

  -- The state after the handler, and after it ran for each of some messages.
  abbrev pub handled : Message → World T → World T
  handled m w = state_of (srv_detect_read e m.src m.packet m.len w)

  abbrev pub handled_all : List Message → World T → World T
  handled_all [] w = w
  handled_all (m ∷ rest) w = handled_all rest (handled m w)

  module _ (table : SpeakerTable e) where
    abbrev finish : DetectRequest → ℤ → M T ℤ
    finish header r = if is_nonzero r then pure (negsuc 0) else respond e header.addr
