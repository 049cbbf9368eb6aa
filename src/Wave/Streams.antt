-- ===== src/Wave/Streams.antt =====
-- A peer that sends messages, and short files, on the concrete system of Sample.
use castserver.Types.{af_inet}
use castserver.Pusher.Prefix.{ReadsBytes}
use castserver.Base.{take, drop, ◌++◌, ◌+◌, sym, ap, take-take}
use castserver.Base.{ℕ, ℤ, pos, refl, List, [], ◌∷◌, length, get_or, arith}
use castserver.Types.{Call, recv}
use castserver.Env.{Env}
use castserver.World.{World}
use castserver.Wave.Stream.{received, Delivers}
use castserver.Sample.{system, result, content, running}

pub system-ReadsBytes : ReadsBytes system
system-ReadsBytes buf src dst bits enough =
    ap (λ k. take dst buf ++ (k ++ drop (dst + bits) buf))
      (sym (take-take bits bits src (omega arith)))

-- The system, where the peer of the connection sends the messages.
module _ (base : Env (List ℕ)) (messages : List (List ℕ)) where
  abbrev sent : List Call → List ℕ
  sent history = get_or messages (received history) []

  abbrev answer : List Call → Call → ℤ
  answer history (recv fd size) = pos (length (sent history))
  answer history call = result call

  abbrev text : List Call → Call → List ℕ
  text history (recv fd size) = sent history
  text history call = content call

  abbrev pub peer_of : Env (List ℕ)
  peer_of = record base { ret = answer; bytes = text }

  pub delivers : Delivers peer_of (pos 40) messages
  delivers = record { ret = λ h n room. refl; bytes = λ h n room. refl }

abbrev pub messages : List (List ℕ)
messages = (7 ∷ 8 ∷ []) ∷ (9 ∷ []) ∷ []

abbrev pub streaming : Env (List ℕ)
streaming = peer_of system messages

-- Three bytes of header: chunks of four bytes, two channels. Six bytes of samples.
abbrev pub file : List ℕ
file = 82 ∷ 4 ∷ 2 ∷ 1 ∷ 2 ∷ 3 ∷ 4 ∷ 5 ∷ 6 ∷ []

abbrev pub player : World (List ℕ)
player = running (170 ∷ 170 ∷ 170 ∷ 170 ∷ 170 ∷ 170 ∷ [])

abbrev pub datagram : ℕ → List ℕ
datagram sample = 80 ∷ 9 ∷ sample ∷ 170 ∷ []

-- The samples of two channels, one byte each, in the first half of each chunk.
abbrev pub frame : ℕ → ℕ → List (List (List ℕ))
frame left right = ((left ∷ []) ∷ (right ∷ []) ∷ []) ∷ []

-- A datagram to the speaker of that number.
abbrev pub send_to : ℤ → ℕ → List ℕ → Call
send_to fd sp packet =
    Call.sendto fd packet (record { ss_family = af_inet; host = 100 + sp; port = 4000 + sp })

abbrev pub play_on : ℕ → ℕ → Call
play_on sp sample = send_to (pos (20 + sp)) sp (datagram sample)
