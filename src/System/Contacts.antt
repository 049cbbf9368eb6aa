-- ===== src/System/Contacts.antt =====
-- Whom the running server writes to: the addresses of the speakers, and the senders of probes.
pub mod Handlers
pub mod Requests
pub mod Commands
pub mod Reach
use castserver.Process.{state_of-bind}
use native.Mathlib.Decide.{ℕ_discrete}
use castserver.Base.{
  ℕ, ℤ, ◌≡◌, ◌≢◌, ◌⊎◌, inl, inr, refl, sym, ap, ◌∙◌, Bool, true, false, List, [], ◌∷◌, ◌++◌, All,
  if◌then◌else◌,
}
use castserver.Types.{Addr, Sockaddr, Speaker, Call, DetectRequest}
use castserver.Env.{Env, Store}
use castserver.World.{
  World, M, ◌>>=◌, pure, get, modify, undefined, out_of_rounds, sys, speaker, state_of, done,
  exited, fault, cut, update_speaker, update_store, write, write_self, write_ne, write_mem, Outcome,
}

module _ {T : Type 0} (e : Env T) where
  -- What `common/` does to the addresses of the speakers: a new speaker has that of its request once
  -- its struct is filled; checking whether a speaker is online, taking it offline and adding another
  -- one leave all addresses alone, and adding none leaves them too.
  pub record KeepsAddresses : Type 0 where
    pub header : (s : Speaker) (req : DetectRequest) → (e.init_from_header s req).ip ≡ req.addr
    pub checked :
        (st : Store T) (p q : ℕ) → ((e.speaker_check_online st p).mem q).ip ≡ (st.mem q).ip
    pub offline : (st : Store T) (p q : ℕ) → ((e.speaker_offline st p).mem q).ip ≡ (st.mem q).ip
    pub added :
        (st : Store T) (id line channel q : ℕ)
        → q ≢ (e.add_speaker st id line channel).0
        → ((e.add_speaker st id line channel).1.mem q).ip ≡ (st.mem q).ip
    pub full :
        (st : Store T) (id line channel q : ℕ)
        → (e.add_speaker st id line channel).0 ≡ 0
        → ((e.add_speaker st id line channel).1.mem q).ip ≡ (st.mem q).ip

  module _ (P : Addr → Type 0) (Q : Sockaddr → Type 0) where
    -- A port of a known address, or a sender that is answered.
    abbrev pub Contact : Sockaddr → Type 0
    Contact to = ((a : Addr) × (port : ℕ) × P a × (to ≡ e.set_sockaddr a port)) ⊎ Q to

    -- A datagram, or a connection for datagrams, goes to a contact.
    abbrev pub GoesToContact : Call → Type 0
    GoesToContact (Call.sendto fd packet to) = Contact to
    GoesToContact (Call.connect fd to) = Contact to
    GoesToContact call = Unit

    -- All speakers have known addresses, and since the history `old` only contacts were written to.
    pub record Polite (old : List Call) (w : World T) : Type 0 where
      pub known : (p : ℕ) → P (w.speakers.mem p).ip
      pub calls : (new : List Call) × (w.trace ≡ new ++ old) × All GoesToContact new

    module _ (law : KeepsAddresses) (old : List Call) where
      pub record Safe {A : Type 0} (m : M T A) : Type 0 where
        pub run : (w : World T) → Polite old w → Polite old (state_of (m w))

      pub pure-Safe : {A : Type 0} (a : A) → Safe (pure a)
      pure-Safe a = record { run = λ w i. i }

      pub undefined-Safe : {A : Type 0} → Safe {A = A} undefined
      undefined-Safe = record { run = λ w i. i }

      pub out_of_rounds-Safe : {A : Type 0} → Safe {A = A} out_of_rounds
      out_of_rounds-Safe = record { run = λ w i. i }

      pub bind-Safe :
          {A B : Type 0} (m : M T A) (f : A → M T B)
          → Safe m
          → ((a : A) → Safe (f a))
          → Safe (m >>= f)
      bind-Safe m f a k = record {
        run = λ w.
            state_of-bind (λ v u. Polite old v → Polite old u)
              (λ v u x first second i. second (first i)) m f w (a.run w) λ x v. (k x).run v;
      }

      -- What follows may use that the state that it looks at is polite.
      pub get-Safe :
          {A : Type 0} (f : World T → M T A)
          → ((w : World T) → Polite old w → Safe (f w))
          → Safe (get >>= f)
      get-Safe f k = record { run = λ w i. (k w i).run w i }

      pub if-Safe :
          {A : Type 0} (b : Bool) (m n : M T A) → Safe m → Safe n → Safe (if b then m else n)
      if-Safe true m n a b = a
      if-Safe false m n a b = b

      pub store-Safe :
          (f : Store T → Store T)
          → ((st : Store T) (q : ℕ) → ((f st).mem q).ip ≡ (st.mem q).ip)
          → Safe (update_store f)
      store-Safe f same = record {
        run = λ w i. record { known = λ q. rw (same w.speakers q) (i.known q); calls = i.calls };
      }

      write-known :
          (w : World T) (i : Polite old w) (p : ℕ) (s : Speaker) (q : ℕ)
          → P s.ip
          → P (write w.speakers.mem p s q).ip
      write-known w i p s q ok = elim (ℕ_discrete q p) [
        | yes eq ↦ rw (eq, write_self w.speakers.mem p s) ok
        | no ne ↦ rw (write_ne w.speakers.mem p q s ne) (i.known q)
      ]

      pub speaker-Safe :
          (p : ℕ) (f : Speaker → Speaker)
          → ((s : Speaker) → (f s).ip ≡ s.ip)
          → Safe (update_speaker p f)
      speaker-Safe p f same = record {
        run = λ w i. record {
          known = λ q. write-known w i p (f (speaker w p)) q (rw (same (speaker w p)) (i.known p));
          calls = i.calls;
        };
      }

      pub modify-Safe :
          (f : World T → World T)
          → ((w : World T) → (f w).speakers ≡ w.speakers)
          → ((w : World T) → (f w).trace ≡ w.trace)
          → Safe (modify f)
      modify-Safe f same quiet = record {
        run = λ w i. record {
          known = λ q. rw (same w) (i.known q);
          calls = (i.calls.0, quiet w ∙ i.calls.1, i.calls.2);
        };
      }

      pub sys-Safe : (c : Call) → GoesToContact c → Safe (sys e c)
      sys-Safe c ok = record {
        run = λ w i. record {
          known = i.known;
          calls = (c ∷ i.calls.0, ap (λ t. c ∷ t) i.calls.1, (ok, i.calls.2));
        };
      }

      pub sendto-Safe :
          (w : World T)
          → Polite old w
          → (p port : ℕ) (fd : ℤ) (packet : List ℕ)
          → Safe (sys e (Call.sendto fd packet (e.set_sockaddr (speaker w p).ip port)))
      sendto-Safe w i p port fd packet = sys-Safe _ (inl ((speaker w p).ip, port, i.known p, refl))

      pub connect-Safe :
          (w : World T)
          → Polite old w
          → (p port : ℕ) (fd : ℤ)
          → Safe (sys e (Call.connect fd (e.set_sockaddr (speaker w p).ip port)))
      connect-Safe w i p port fd = sys-Safe _ (inl ((speaker w p).ip, port, i.known p, refl))

      pub checked-Safe : (p : ℕ) → Safe (update_store (λ st. e.speaker_check_online st p))
      checked-Safe p = store-Safe _ λ st q. law.checked st p q

      pub offline-Safe : (p : ℕ) → Safe (update_store (λ st. e.speaker_offline st p))
      offline-Safe p = store-Safe _ λ st q. law.offline st p q

pub ruleset polite = (
  get-Safe, bind-Safe, if-Safe, pure-Safe, undefined-Safe, out_of_rounds-Safe, sendto-Safe,
  connect-Safe, sys-Safe, checked-Safe, offline-Safe, speaker-Safe, modify-Safe,
)
