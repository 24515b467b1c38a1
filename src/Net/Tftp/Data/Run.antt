-- ===== src/Net/Tftp/Data/Run.antt =====
-- lib/libnet/tftp.c: the loop of `tftp` while the packets of a file come, in whatever order.
use slof.Prelude.{ℕ, ◌≡◌, ◌⊎◌, refl, inl, inr, ltb}
use slof.Prelude.{List, [], ◌∷◌}
use slof.Prelude.{Bool-cases, Option, none, some}
use slof.Libc.Memory.{Memory}
use slof.Net.Tftp.{Tftp, minus, Input, nothing, packet, Turn, receive_input, run_turn, wait_turns}
use slof.Net.Tftp.Ends.{helped, helped-eq, turned, wait_turns-finished, wait_turns-turn}
use slof.Net.Tftp.Data.{IsData, Receiving, Delivered, Session, goes_on, delivered, skipped}
use slof.Net.Tftp.Data.Any.{kept-Receiving, handle_tftp-Session}

-- What a turn brings: nothing, or a block of the file.
pub data Brings (bs : List (List ℕ)) : Input → Type 0 where
  silence : Brings bs nothing
  block :
      (m : Memory) (pkt packetsize index : ℕ)
      → IsData bs m pkt index
      → Brings bs (packet m pkt packetsize)

pub data Served (bs : List (List ℕ)) : List Turn → Type 0 where
  end : Served bs []
  turn :
      (t : Turn) (turns : List Turn) → Brings bs t.input → Served bs turns → Served bs (t ∷ turns)

-- The transfer was given up, with the blocks or the packets that were missed.
abbrev pub GivenUp : ℕ → Type 0
GivenUp errno = (errno ≡ minus 40) ⊎ ((errno ≡ minus 41) ⊎ (errno ≡ minus 42))

abbrev pub Result : List (List ℕ) → Option Tftp → Type 0
Result bs none = Unit {0}
Result bs (some s) = Delivered bs s ⊎ GivenUp s.tftp_errno

receive_input-Session :
    (size : ℕ) (bs done todo : List (List ℕ)) (i : Input) (s : Tftp)
    → Receiving size bs done todo s
    → Brings bs i
    → Session size bs (receive_input i s)
unfolding receive_input
receive_input-Session size bs done todo _ s r silence = goes_on done todo r
receive_input-Session size bs done todo _ s r (block m pkt packetsize index d) =
    handle_tftp-Session size bs done todo m pkt packetsize index s r d

run_turn-Session :
    (size : ℕ) (bs done todo : List (List ℕ)) (t : Turn) (s : Tftp)
    → Receiving size bs done todo s
    → Brings bs t.input
    → Session size bs (run_turn t s)
unfolding run_turn
run_turn-Session size bs done todo t s r b =
    receive_input-Session size bs done todo t.input (helped t s)
      (rw (helped-eq t s) (kept-Receiving size bs done todo s _ _ _ _ r)) b

-- Behind a turn.
after_turn :
    (size : ℕ) (bs : List (List ℕ)) (turns : List Turn) (next : Tftp)
    → ((done todo : List (List ℕ))
        → Receiving size bs done todo next
        → Result bs (wait_turns turns next))
    → Session size bs next
    → Result bs (wait_turns turns next)
after_turn size bs turns next go (goes_on done todo r) = go done todo r
after_turn size bs turns next go (delivered d) =
    rw (wait_turns-finished turns next d.finished) (inl d)
after_turn size bs turns next go (skipped f e) =
    rw (wait_turns-finished turns next f) (inr (inr (inr e)))

pub turned-Result :
    (bs : List (List ℕ)) (turns : List Turn) (next : Tftp)
    → Result bs (wait_turns turns next)
    → Result bs (turned turns next)
turned-Result bs turns next rest =
    elim (Bool-cases (ltb next.retries next.tftp_err.bad_tftp_packets)) [
      | inl e ↦ rw e (inr (inl refl))
      | inr e ↦ rw e (elim (Bool-cases (ltb next.retries next.tftp_err.no_packets)) [
        | inl e' ↦ rw e' (inr (inr (inl refl)))
        | inr e' ↦ rw e' (rest)
      ])
    ]

pub wait_turns-Result :
    (size : ℕ) (bs done todo : List (List ℕ)) (turns : List Turn) (s : Tftp)
    → Receiving size bs done todo s
    → Served bs turns
    → Result bs (wait_turns turns s)
unfolding wait_turns
wait_turns-Result size bs done todo _ s r end = rw (r.not_finished) tt
wait_turns-Result size bs done todo _ s r (turn t turns b v) =
    rw (wait_turns-turn t turns s r.not_finished) (
      turned-Result bs turns (run_turn t s) (
        after_turn size bs turns (run_turn t s)
          (λ done' todo' r'. wait_turns-Result size bs done' todo' turns (run_turn t s) r' v)
          (run_turn-Session size bs done todo t s r b)))
