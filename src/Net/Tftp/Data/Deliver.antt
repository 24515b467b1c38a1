-- ===== src/Net/Tftp/Data/Deliver.antt =====
-- lib/libnet/tftp.c: `tftp` where the blocks come in order.
use slof.Prelude.{ℕ, ◌+◌, ◌^◌, ◌≤◌, ◌<◌, ◌≡◌, ◌∙◌, ap, sym, arith, refl}
use slof.Prelude.{false, List, [], ◌∷◌, ◌++◌, length, length-append}
use slof.Prelude.{Option, none, some}
use slof.Libc.Memory.{Memory}
use slof.Net.Tftp.{
  Tftp, TftpErr, handle_tftp, nothing, packet, Turn, receive_input, run_turn, wait_turns,
  start_tftp, leave_tftp, end_tftp, tftp,
}
use slof.Net.Tftp.Ends.{turned, wait_turns-turn, wait_turns-finished, handle_tftp-SameCount}
use slof.Net.Tftp.Data.{
  concat, IsFile, IsData, Holds, Receiving, Delivered, Advanced, next_block, last_block,
}
use slof.Net.Tftp.Data.Any.{handle_tftp-Advanced, some_left}
use slof.Net.Tftp.Data.Load.{Receiving-settled, start_tftp-Fresh}

-- The blocks from the index on come one after the other, with silence between them, and the timer does
-- not run out.
pub data Steady (bs : List (List ℕ)) : ℕ → List Turn → Type 0 where
  whole : (turns : List Turn) → Steady bs (length bs) turns
  quiet :
      (index : ℕ) (t : Turn) (turns : List Turn)
      → t.timeout ≡ false
      → t.input ≡ nothing
      → Steady bs index turns
      → Steady bs index (t ∷ turns)
  next :
      (index : ℕ) (t : Turn) (turns : List Turn) (m : Memory) (pkt packetsize : ℕ)
      → t.timeout ≡ false
      → t.input ≡ packet m pkt packetsize
      → IsData bs m pkt index
      → Steady bs (index + 1) turns
      → Steady bs index (t ∷ turns)

-- No packet was bad or missing.
abbrev Unharmed : Tftp → Type 0
Unharmed s = s.tftp_err.bad_tftp_packets ≡ 0 × s.tftp_err.no_packets ≡ 0

turned-Unharmed : (turns : List Turn) (s : Tftp) → Unharmed s → turned turns s ≡ wait_turns turns s
turned-Unharmed turns s u = ground (arith, u)

abbrev Arrived : List (List ℕ) → Option Tftp → Type 0
Arrived bs none = ⊥
Arrived bs (some s) = Delivered bs s

run_turn-quiet : (t : Turn) (s : Tftp) → t.timeout ≡ false → t.input ≡ nothing → run_turn t s ≡ s
unfolding run_turn receive_input
run_turn-quiet t s e e' = rw (e, e') refl

run_turn-packet :
    (t : Turn) (s : Tftp) (m : Memory) (pkt packetsize : ℕ)
    → t.timeout ≡ false
    → t.input ≡ packet m pkt packetsize
    → run_turn t s ≡ (handle_tftp m pkt packetsize s).1
unfolding run_turn receive_input
run_turn-packet t s m pkt packetsize e e' = rw (e, e') refl

after_block :
    (size : ℕ) (bs done todo : List (List ℕ)) (turns : List Turn) (s : Tftp)
    → Advanced size bs done todo s
    → s.tftp_err.no_packets ≡ 0
    → (Receiving size bs done todo s → Unharmed s → Arrived bs (wait_turns turns s))
    → Arrived bs (turned turns s)
after_block size bs done todo turns s (next_block e r) e' go =
    rw (turned-Unharmed turns s (e, e')) (go r (e, e'))
after_block size bs done todo turns s (last_block e d) e' go =
    rw (turned-Unharmed turns s (e, e'), wait_turns-finished turns s d.finished) d

steady-Arrived :
    (size : ℕ) (bs : List (List ℕ)) (index : ℕ) (done todo : List (List ℕ)) (turns : List Turn)
    (s : Tftp)
    → Receiving size bs done todo s
    → Unharmed s
    → index ≡ length done
    → Steady bs index turns
    → Arrived bs (wait_turns turns s)
steady-Arrived size bs index done todo turns s r u i (whole _) = absurd (
    omega (
      arith,
      i,
      ap (λ l. length l) r.split,
      length-append done todo,
      some_left size todo r.is_file,
    ))
steady-Arrived size bs index done todo _ s r u i (quiet _ t turns e e' v) =
    rw
      (wait_turns-turn t turns s r.not_finished, run_turn-quiet t s e e', turned-Unharmed turns s u)
      (steady-Arrived size bs index done todo turns s r u i v)
steady-Arrived size bs index done [] _ s r u i (next _ t turns m pkt packetsize e e' d v) =
    absurd (omega (arith, some_left size [] r.is_file))
steady-Arrived size bs index done (b ∷ todo) _ s r u i (next _ t turns m pkt packetsize e e' d v) =
    let expected : IsData bs m pkt (length done) = rw (sym i) d in
    let got = handle_tftp-Advanced size bs done b todo m pkt packetsize s r expected in
    let same = handle_tftp-SameCount m pkt packetsize s in
    let index_eq : index + 1 ≡ length (done ++ (b ∷ [])) =
      omega (arith, i, length-append done (b ∷ [])) in
    rw (wait_turns-turn t turns s r.not_finished, run_turn-packet t s m pkt packetsize e e')
      (after_block size bs (done ++ (b ∷ [])) todo turns (handle_tftp m pkt packetsize s).1 got
        (same.0 ∙ u.1)
        (λ r' u'.
          steady-Arrived size bs (index + 1) (done ++ (b ∷ [])) todo turns
            (handle_tftp m pkt packetsize s).1 r' u' index_eq v))

-- `tftp` has loaded the file.
abbrev pub HasLoaded : List (List ℕ) → Option (ℕ × Tftp) → Type 0
HasLoaded bs none = ⊥
HasLoaded bs (some (rc, s)) = rc ≡ length (concat bs) × Holds s.buffer (concat bs)

end_tftp-HasLoaded :
    (bs : List (List ℕ)) (o : Option Tftp) → Arrived bs o → HasLoaded bs (end_tftp o)
unfolding end_tftp leave_tftp
end_tftp-HasLoaded bs none a = a
end_tftp-HasLoaded bs (some s) d = rw (d.in_bounds) (rw (d.no_errno) (d.received_len), d.buffer)

-- Where the blocks of a file of at most 65535 blocks, of 512 bytes and the last one shorter, come
-- in order, with turns that bring nothing between them and no timeout, and the file fits in the
-- buffer of fewer than 2 ^ 31 bytes, tftp returns its length, and the buffer holds it, whatever
-- the number of retries is.
pub tftp-HasLoaded :
    (bs : List (List ℕ)) (buffer : Memory) (len retries : ℕ) (tftp_err : TftpErr)
    (turns : List Turn)
    → IsFile 512 bs
    → length bs < 65536
    → length (concat bs) ≤ len
    → len < 2 ^ 31
    → Steady bs 0 turns
    → HasLoaded bs (tftp buffer len retries tftp_err turns)
unfolding tftp start_tftp
tftp-HasLoaded bs buffer len retries tftp_err turns f few fits len_lt v =
    end_tftp-HasLoaded bs (wait_turns turns (start_tftp buffer len retries tftp_err)) (
      steady-Arrived 512 bs 0 [] bs turns _
        (Receiving-settled 512 bs [] bs _ refl
          (start_tftp-Fresh 512 bs buffer len retries tftp_err f few fits len_lt))
        (refl, refl) refl v)
