-- ===== src/Net/Tftp/Ends.antt =====
-- lib/libnet/tftp.c: the loop of `tftp` ends as the timer runs out.
use slof.Prelude.{ℕ, ◌+◌, ◌-◌, ◌%◌, ◌^◌, ◌≤◌, ◌<◌, ◌≡◌, ◌==◌, ◌∙◌, ap, arith, refl, inl, inr, ltb}
use slof.Prelude.{Bool, true, false, not, ◌&&◌, if◌then◌else◌, List, [], ◌∷◌}
use slof.Prelude.{Bool-cases, Option, none, some}
use slof.Libc.Memory.{Memory}
use slof.Nvram.Store.{load}
use slof.Net.Tftp.{
  Tftp, TftpErr, minus, take_oack, handle_tftp, store_block, take_data, Input, nothing, packet,
  unreachable, Turn, help_out, receive_input, handle_tftp_dun, run_turn, wait_turns, start_tftp,
  end_tftp, tftp,
}

-- The state in which a turn receives.
abbrev pub helped : Turn → Tftp → Tftp
helped t s = if t.timeout then help_out s else s

pub helped-eq :
    (t : Turn) (s : Tftp)
    → helped t s ≡ record s { tftp_err = (helped t s).tftp_err; sent = (helped t s).sent }
unfolding help_out
helped-eq t s = elim (Bool-cases t.timeout) [
  | inr e ↦ rw e refl
  | inl e ↦
      rw e
        (elim (Bool-cases
          (ltb 4 s.tftp_err.no_packets && not (s.port_number == 0xffff) && ltb 1 s.block)) [
            | inl e' ↦ rw e' refl
            | inr e' ↦
                rw e'
                  (elim (Bool-cases
                    (s.port_number == 0xffff && s.block == 0 && s.tftp_err.no_packets % 4 == 3)) [
                      | inl e'' ↦ rw e'' refl
                      | inr e'' ↦ rw e'' refl
                    ])
          ])
]

-- What the loop does with a turn.
abbrev pub turned : List Turn → Tftp → Option Tftp
turned turns next =
    if ltb next.retries next.tftp_err.bad_tftp_packets
    then some (record next { tftp_errno = minus 40 })
    else if ltb next.retries next.tftp_err.no_packets
    then some (record next { tftp_errno = minus 41 })
    else wait_turns turns next

unless : {A : Type 0} (b : Bool) (x y : A) → b ≡ false → (if b then x else y) ≡ y
unless b x y h = rw h refl

pub wait_turns-turn :
    (t : Turn) (turns : List Turn) (s : Tftp)
    → s.tftp_finished ≡ false
    → wait_turns (t ∷ turns) s ≡ turned turns (run_turn t s)
unfolding wait_turns
wait_turns-turn t turns s f = unless s.tftp_finished (some s) (turned turns (run_turn t s)) f

pub wait_turns-finished :
    (turns : List Turn) (s : Tftp) → s.tftp_finished ≡ true → wait_turns turns s ≡ some s
unfolding wait_turns
wait_turns-finished [] s h = rw h refl
wait_turns-finished (t ∷ turns) s h = rw h refl

-- The turns in which the timer ran out.
unfoldable pub timeouts : List Turn → ℕ
timeouts [] = 0
timeouts (t ∷ turns) = (if t.timeout then 1 else 0) + timeouts turns

-- What no packet changes.
abbrev pub SameCount : Tftp → Tftp → Type 0
SameCount s s' = s'.tftp_err.no_packets ≡ s.tftp_err.no_packets × s'.retries ≡ s.retries

store_block-SameCount : (m : Memory) (pkt : ℕ) (s : Tftp) → SameCount s (store_block m pkt s).1
unfolding store_block
store_block-SameCount m pkt s = ground arith

take_data-SameCount : (m : Memory) (pkt : ℕ) (s : Tftp) → SameCount s (take_data m pkt s).1
unfolding take_data
take_data-SameCount m pkt s =
    ground (arith, store_block-SameCount m pkt (record s { block = load 2 m (pkt + 10) }))

pub handle_tftp-SameCount :
    (m : Memory) (pkt packetsize : ℕ) (s : Tftp) → SameCount s (handle_tftp m pkt packetsize s).1
unfolding handle_tftp take_oack
handle_tftp-SameCount m pkt packetsize s =
    ground (arith, take_data-SameCount m pkt (record s { port_number = load 2 m pkt }))

receive_input-SameCount : (i : Input) (s : Tftp) → SameCount s (receive_input i s)
unfolding receive_input handle_tftp_dun
receive_input-SameCount nothing s = (refl, refl)
receive_input-SameCount (packet m pkt packetsize) s = handle_tftp-SameCount m pkt packetsize s
receive_input-SameCount (unreachable err_code) s = (refl, refl)

run_turn-no_packets :
    (t : Turn) (s : Tftp)
    → s.tftp_err.no_packets < 2 ^ 32 - 1
    → (run_turn t s).tftp_err.no_packets ≡ s.tftp_err.no_packets + (if t.timeout then 1 else 0)
      × (run_turn t s).retries ≡ s.retries
unfolding run_turn help_out
run_turn-no_packets t s h =
    ground (arith, receive_input-SameCount t.input s, receive_input-SameCount t.input (help_out s))

-- A result.
abbrev pub IsDone : {A : Type 0} → Option A → Type 0
IsDone none = ⊥
IsDone (some a) = Unit {0}

turned-IsDone :
    (turns : List Turn) (next : Tftp)
    → (next.tftp_err.no_packets ≤ next.retries → IsDone (wait_turns turns next))
    → IsDone (turned turns next)
turned-IsDone turns next rest =
    elim (Bool-cases (ltb next.retries next.tftp_err.bad_tftp_packets)) [
      | inl e ↦ rw e tt
      | inr e ↦ rw e (elim (Bool-cases (ltb next.retries next.tftp_err.no_packets)) [
        | inl e' ↦ rw e' tt
        | inr e' ↦
            let few : next.tftp_err.no_packets ≤ next.retries = ground arith in rw e' (rest few)
      ])
    ]

pub wait_turns-IsDone :
    (turns : List Turn) (s : Tftp)
    → s.tftp_err.no_packets ≤ s.retries
    → s.retries < 2 ^ 32 - 1
    → s.retries < s.tftp_err.no_packets + timeouts turns
    → IsDone (wait_turns turns s)
unfolding timeouts
wait_turns-IsDone [] s h k l = absurd (omega arith)
wait_turns-IsDone (t ∷ turns) s h k l = elim (Bool-cases s.tftp_finished) [
  | inl e ↦ rw (wait_turns-finished (t ∷ turns) s e) tt
  | inr e ↦ rw (wait_turns-turn t turns s e) (
      turned-IsDone turns (run_turn t s) (λ few.
        let count = run_turn-no_packets t s (omega arith) in
        wait_turns-IsDone turns (run_turn t s) few (omega (arith, count)) (omega (arith, count))))
]

-- A DATA packet has the bytes of its headers.
abbrev pub IsWhole : Input → Type 0
IsWhole nothing = Unit {0}
IsWhole (packet m pkt packetsize) = load 2 m (pkt + 8) ≡ 3 → 12 ≤ load 2 m (pkt + 4)
IsWhole (unreachable err_code) = Unit {0}

abbrev pub AllWhole : List Turn → Type 0
AllWhole [] = Unit {0}
AllWhole (t ∷ turns) = IsWhole t.input × AllWhole turns

store_block-overrun :
    (m : Memory) (pkt : ℕ) (s : Tftp)
    → 12 ≤ load 2 m (pkt + 4)
    → (store_block m pkt s).1.overrun ≡ s.overrun
unfolding store_block
store_block-overrun m pkt s h = ground (arith, h)

take_data-overrun :
    (m : Memory) (pkt : ℕ) (s : Tftp)
    → 12 ≤ load 2 m (pkt + 4)
    → (take_data m pkt s).1.overrun ≡ s.overrun
unfolding take_data
take_data-overrun m pkt s h =
    ground (arith, store_block-overrun m pkt (record s { block = load 2 m (pkt + 10) }) h)

handle_tftp-overrun :
    (m : Memory) (pkt packetsize : ℕ) (s : Tftp)
    → (load 2 m (pkt + 8) ≡ 3 → 12 ≤ load 2 m (pkt + 4))
    → (handle_tftp m pkt packetsize s).1.overrun ≡ s.overrun
unfolding handle_tftp take_oack
handle_tftp-overrun m pkt packetsize s h = ground (
  arith,
  λ (e : load 2 m (pkt + 8) ≡ 3).
      take_data-overrun m pkt (record s { port_number = load 2 m pkt }) (h e),
)

receive_input-overrun : (i : Input) (s : Tftp) → IsWhole i → (receive_input i s).overrun ≡ s.overrun
unfolding receive_input handle_tftp_dun
receive_input-overrun nothing s h = refl
receive_input-overrun (packet m pkt packetsize) s h = handle_tftp-overrun m pkt packetsize s h
receive_input-overrun (unreachable err_code) s h = refl

run_turn-overrun : (t : Turn) (s : Tftp) → IsWhole t.input → (run_turn t s).overrun ≡ s.overrun
unfolding run_turn
run_turn-overrun t s h =
    receive_input-overrun t.input (helped t s) h ∙ ap (λ s. s.overrun) (helped-eq t s)

-- No copy overran.
abbrev pub InBounds : Option Tftp → Type 0
InBounds none = Unit {0}
InBounds (some s) = s.overrun ≡ false

turned-InBounds :
    (turns : List Turn) (next : Tftp)
    → next.overrun ≡ false
    → InBounds (wait_turns turns next)
    → InBounds (turned turns next)
turned-InBounds turns next h rest =
    elim (Bool-cases (ltb next.retries next.tftp_err.bad_tftp_packets)) [
      | inl e ↦ rw e h
      | inr e ↦ rw e (elim (Bool-cases (ltb next.retries next.tftp_err.no_packets)) [
        | inl e' ↦ rw e' h
        | inr e' ↦ rw e' rest
      ])
    ]

pub wait_turns-InBounds :
    (turns : List Turn) (s : Tftp)
    → AllWhole turns
    → s.overrun ≡ false
    → InBounds (wait_turns turns s)
unfolding wait_turns
wait_turns-InBounds [] s h o = elim (Bool-cases s.tftp_finished) [
  | inl e ↦ rw e o
  | inr e ↦ rw e tt
]
wait_turns-InBounds (t ∷ turns) s (h, hs) o = elim (Bool-cases s.tftp_finished) [
  | inl e ↦ rw (wait_turns-finished (t ∷ turns) s e) o
  | inr e ↦
      let next : (run_turn t s).overrun ≡ false = run_turn-overrun t s h ∙ o in
      rw (wait_turns-turn t turns s e) (
        turned-InBounds turns (run_turn t s) next
          (wait_turns-InBounds turns (run_turn t s) hs next))
]

end_tftp-IsDone : (o : Option Tftp) → IsDone o → InBounds o → IsDone (end_tftp o)
unfolding end_tftp
end_tftp-IsDone none k b = k
end_tftp-IsDone (some s) k b = rw b tt

-- tftp ends where every DATA packet has a UDP length of 12 at least and the timer runs out in more than
-- retries of the turns, whatever else the packets and errors are that they bring; retries is below
-- 2 ^ 32 - 1.
pub tftp-IsDone :
    (buffer : Memory) (len retries : ℕ) (tftp_err : TftpErr) (turns : List Turn)
    → retries < 2 ^ 32 - 1
    → retries < timeouts turns
    → AllWhole turns
    → IsDone (tftp buffer len retries tftp_err turns)
unfolding tftp start_tftp
tftp-IsDone buffer len retries tftp_err turns h k whole =
    end_tftp-IsDone (wait_turns turns (start_tftp buffer len retries tftp_err))
      (wait_turns-IsDone turns _ (omega arith) h (omega (arith, k)))
      (wait_turns-InBounds turns _ whole refl)
