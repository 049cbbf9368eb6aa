-- ===== src/System/Contacts/Reach.antt =====
-- Whom the server has written to after any sequence of events.
use castserver.Base.{ℕ, ◌≡◌, refl, true, false, All, List, [], ◌++◌}
use castserver.Types.{Addr, Sockaddr, Call}
use castserver.Env.{Env}
use castserver.World.{World, Outcome, done, state_of}
use castserver.Detect.{is_probe}
use castserver.Detect.Request.{request_of}
use castserver.System.{
  Event, detect_message, Step, detect_read, control_read, pusher_read, monitor, control_socket,
  Steps, stop, next,
}
use castserver.System.Contacts.{KeepsAddresses, GoesToContact, Polite}
use castserver.System.Contacts.Handlers.{srv_spctrl_read-Safe, srv_sppush_read-Safe}
use castserver.System.Contacts.Requests.{
  comes_from, srv_detect_read-Safe, thread_online_detect-Safe,
}
use castserver.System.Contacts.Commands.{thread_control_socket-Safe}

module _ {T : Type 0} (e : Env T) (P : Addr → Type 0) (Q : Sockaddr → Type 0) where
  -- Of a message on the multicast group: the sender of a probe is in `Q`, and the address that a
  -- request claims, and comes from, is in `P`.
  abbrev pub Introduces : Event → Type 0
  Introduces (detect_message src packet len) =
      (is_probe e packet len ≡ true → Q src)
      × (is_probe e packet len ≡ false
          → comes_from e src packet len ≡ true
          → P (request_of e src packet).addr)
  Introduces ev = Unit

  module _ (law : KeepsAddresses e) (old : List Call) where
    landed :
        {A : Type 0} (v : World T) (o : Outcome (World T) A) (a : A)
        → o ≡ done a v
        → Polite e P Q old (state_of o)
        → Polite e P Q old v
    landed v o a eq i = rw eq at i

    Step-Polite :
        (ev : Event) (w v : World T)
        → Step e ev w v
        → Introduces ev
        → Polite e P Q old w
        → Polite e P Q old v
    Step-Polite _ w v (detect_read src packet len _ _ r eq) ok i =
        landed v _ r eq ((srv_detect_read-Safe e P Q law old src packet len ok.0 ok.1).run w i)
    Step-Polite _ w v (control_read packet len _ _ r eq) ok i =
        landed v _ r eq ((srv_spctrl_read-Safe e P Q law old packet len).run w i)
    Step-Polite _ w v (pusher_read len _ _ r eq) ok i =
        landed v _ r eq ((srv_sppush_read-Safe e P Q law old len).run w i)
    Step-Polite _ w v (monitor _ _ b eq) ok i =
        landed v _ b eq ((thread_online_detect-Safe e P Q law old).run w i)
    Step-Polite _ w v (control_socket rounds before _ _ r eq) ok i =
        landed v _ r eq ((thread_control_socket-Safe e P Q law old rounds before).run w i)

    Steps-Polite :
        (events : List Event) (w v : World T)
        → Steps e events w v
        → All Introduces events
        → Polite e P Q old w
        → Polite e P Q old v
    Steps-Polite _ w v (stop _) ok i = i
    Steps-Polite _ w v (next ev events _ u _ one rest) ok i =
        Steps-Polite events u v rest ok.1 (Step-Polite ev w u one ok.0 i)

  -- The server writes to nobody who did not write first. Let all speakers have an address in `P` at
  -- the start, and let any events follow whose handlers return, in any order, where each message
  -- that has the size of a request and comes from the address that it claims claims one in `P`, and
  -- each probe has a sender in `Q`. Then every datagram and every connection of a datagram socket
  -- since then goes to a port of an address in `P`, or to a sender in `Q`, whatever else the
  -- messages, the clients and the system do; and all speakers have an address in `P`. `common/` has
  -- to give a new speaker the address of its request, and to keep the addresses of the others.
  pub contacts_only :
      (law : KeepsAddresses e) (events : List Event) (w v : World T) (run : Steps e events w v)
      → All Introduces events
      → ((p : ℕ) → P (w.speakers.mem p).ip)
      → ((calls : List Call) × (v.trace ≡ calls ++ w.trace) × All (GoesToContact e P Q) calls)
        × ((p : ℕ) → P (v.speakers.mem p).ip)
  contacts_only law events w v run ok known =
      let i =
        Steps-Polite law w.trace events w v run ok
          (record { known = known; calls = ([], refl, tt) }) in
      (i.calls, i.known)
