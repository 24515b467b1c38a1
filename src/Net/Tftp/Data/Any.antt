-- ===== src/Net/Tftp/Data/Any.antt =====
-- lib/libnet/tftp.c: what `handle_tftp` does with any block of the file.
use slof.Prelude.{ℕ, ◌+◌, ◌%◌, ◌^◌, ◌<◌, ◌≡◌, ◌≢◌, ◌==◌, ap, sym, arith, refl, inl, inr, ltb}
use slof.Prelude.{List, [], ◌∷◌, ◌++◌, length, length-append}
use slof.Prelude.{Bool-cases}
use slof.Libc.Memory.{Memory}
use slof.Nvram.Store.{load}
use slof.Net.Tftp.{
  Tftp, ack, TftpErr, TftpSent, minus, send, count_bad, fail, take_data, handle_tftp,
}
use slof.Net.Tftp.Data.{
  IsFile, last, more, IsData, Receiving, Session, goes_on, delivered, skipped, Advanced, next_block,
  last_block,
}
use slof.Net.Tftp.Data.Step.{expected-Advanced, handle_tftp-data}

Advanced-Session :
    (size : ℕ) (bs done todo : List (List ℕ)) (s : Tftp)
    → Advanced size bs done todo s
    → Session size bs s
Advanced-Session size bs done todo s (next_block e r) = goes_on done todo r
Advanced-Session size bs done todo s (last_block e d) = delivered d

pub kept-Receiving :
    (size : ℕ) (bs done todo : List (List ℕ)) (s : Tftp) (lost port : ℕ) (err : TftpErr)
    (sent : List TftpSent)
    → Receiving size bs done todo s
    → Receiving size bs done todo
        (record s { lost_packets = lost; port_number = port; tftp_err = err; sent = sent })
kept-Receiving size bs done todo s lost port err sent r = record {
  split = r.split;
  is_file = r.is_file;
  few_blocks = r.few_blocks;
  fits = r.fits;
  len_lt = r.len_lt;
  receiving = r.receiving;
  huge_load = r.huge_load;
  not_finished = r.not_finished;
  no_errno = r.no_errno;
  in_bounds = r.in_bounds;
  block = r.block;
  blocksize = r.blocksize;
  received_len = r.received_len;
  buffer = r.buffer;
}

pub some_left : (size : ℕ) (todo : List (List ℕ)) → IsFile size todo → 0 < length todo
some_left size _ (last b h) = omega arith
some_left size _ (more b bs h f) = omega arith

module _ (size : ℕ) (bs done todo : List (List ℕ)) (m : Memory) (pkt index : ℕ) (s : Tftp)
    (r : Receiving size bs done todo s) (d : IsData bs m pkt index) where
  -- The number of blocks keeps clear of the wrap.
  done_lt : length done < 65535
  done_lt = omega (
    arith,
    ap (λ l. length l) r.split,
    length-append done todo,
    some_left size todo r.is_file,
    r.few_blocks,
  )

  repeated_eq :
      index + 1 ≡ length done
      → take_data m pkt s ≡ (
        0,
        count_bad (record (send (ack (load 2 m (pkt + 10)) s.port_number) s) {
          lost_packets = (s.lost_packets + 1) % 2 ^ 32;
        }),
      )
  unfolding take_data
  repeated_eq h = ground (arith, d.number, r.block, done_lt)

  old_eq : index + 1 < length done → take_data m pkt s ≡ (0, count_bad s)
  unfolding take_data
  old_eq h = ground (arith, d.number, r.block, done_lt)

  missed_eq :
      length done < index
      → take_data m pkt s
        ≡ fail (minus 42) (record s {
          tftp_err = record s.tftp_err {
            blocks_missed = s.block + 1;
            blocks_received = load 2 m (pkt + 10);
          };
        })
  unfolding take_data
  missed_eq h = ground (arith, d.number, r.block, done_lt)

  -- Any block but the one that is expected.
  other-Session : index ≢ length done → Session size bs (take_data m pkt s).1
  other-Session h = elim (Bool-cases (ltb (length done) index)) [
    | inl e ↦
        let above : length done < index = ground arith in rw (missed_eq above) (skipped refl refl)
    | inr e ↦ elim (Bool-cases (index + 1 == length done)) [
      | inl e' ↦
          let before : index + 1 ≡ length done = ground arith in
          rw (repeated_eq before) (goes_on done todo (kept-Receiving size bs done todo s _ _ _ _ r))
      | inr e' ↦
          let below : index + 1 < length done = ground (arith, h) in
          rw (old_eq below) (goes_on done todo (kept-Receiving size bs done todo s _ _ _ _ r))
    ]
  ]

-- Any block of the file.
take_data-Session :
    (size : ℕ) (bs done todo : List (List ℕ)) (m : Memory) (pkt index : ℕ) (s : Tftp)
    → Receiving size bs done todo s
    → IsData bs m pkt index
    → Session size bs (take_data m pkt s).1
take_data-Session size bs done [] m pkt index s r d =
    absurd (omega (arith, some_left size [] r.is_file))
take_data-Session size bs done (b ∷ todo) m pkt index s r d =
    elim (Bool-cases (index == length done)) [
      | inl e ↦
          let here : index ≡ length done = ground arith in
          let expected : IsData bs m pkt (length done) = rw (sym here) d in
          Advanced-Session size bs (done ++ (b ∷ [])) todo (take_data m pkt s).1
            (expected-Advanced size bs done b todo m pkt s r expected r.is_file)
      | inr e ↦
          let elsewhere : index ≢ length done = ground arith in
          other-Session size bs done (b ∷ todo) m pkt index s r d elsewhere
    ]

-- `handle_tftp` with any block of the file.
pub handle_tftp-Session :
    (size : ℕ) (bs done todo : List (List ℕ)) (m : Memory) (pkt packetsize index : ℕ) (s : Tftp)
    → Receiving size bs done todo s
    → IsData bs m pkt index
    → Session size bs (handle_tftp m pkt packetsize s).1
handle_tftp-Session size bs done todo m pkt packetsize index s r d =
    rw (handle_tftp-data bs m pkt index packetsize d s r.receiving) (
      take_data-Session size bs done todo m pkt index _
        (kept-Receiving size bs done todo s _ _ _ _ r) d)

-- `handle_tftp` with the block that is expected.
pub handle_tftp-Advanced :
    (size : ℕ) (bs done : List (List ℕ)) (b : List ℕ) (todo : List (List ℕ)) (m : Memory)
    (pkt packetsize : ℕ) (s : Tftp)
    → Receiving size bs done (b ∷ todo) s
    → IsData bs m pkt (length done)
    → Advanced size bs (done ++ (b ∷ [])) todo (handle_tftp m pkt packetsize s).1
handle_tftp-Advanced size bs done b todo m pkt packetsize s r d =
    rw (handle_tftp-data bs m pkt (length done) packetsize d s r.receiving) (
      expected-Advanced size bs done b todo m pkt _
        (kept-Receiving size bs done (b ∷ todo) s _ _ _ _ r) d r.is_file)
