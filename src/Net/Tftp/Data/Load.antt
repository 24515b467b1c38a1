-- ===== src/Net/Tftp/Data/Load.antt =====
-- lib/libnet/tftp.c: `tftp` from the read request on, with the block size that the server offers.
use slof.Prelude.{ℕ, ◌+◌, ◌-◌, ◌^◌, ◌≤◌, ◌<◌, ◌≡◌, ◌==◌, ◌∙◌, ◌⊎◌, sym, arith, refl, inl, inr}
use slof.Prelude.{true, false, List, [], ◌∷◌, length}
use slof.Prelude.{Option, none, some}
use slof.Libc.Memory.{Memory}
use slof.Nvram.Store.{load}
use slof.Net.Tftp.{
  Tftp, TftpErr, max_blocksize, send, ack, take_oack, handle_tftp, get_blksize, nothing, packet,
  Turn, receive_input, run_turn, wait_turns, start_tftp, leave_tftp, end_tftp, tftp, Input,
}
use slof.Net.Tftp.Ends.{
  helped, helped-eq, wait_turns-turn, IsDone, wait_turns-IsDone, timeouts, InBounds,
  wait_turns-InBounds, IsWhole, AllWhole,
}
use slof.Net.Tftp.Data.{concat, IsFile, Holds, Receiving}
use slof.Net.Tftp.Data.Any.{kept-Receiving}
use slof.Net.Tftp.Data.Run.{
  Brings, silence, block, end, turn, Served, GivenUp, Result, turned-Result, wait_turns-Result,
}

-- An OACK packet that settles the block size.
pub record IsOack (size : ℕ) (m : Memory) (pkt packetsize : ℕ) : Type 0 where
  pub opcode : load 2 m (pkt + 8) ≡ 6
  pub blksize : get_blksize m pkt packetsize ≡ size
  pub size_pos : 0 < size
  pub size_le : size ≤ max_blocksize

-- The server answers with blocks of 512 bytes, or with an OACK before the blocks.
pub data Opened (size : ℕ) (bs : List (List ℕ)) : List Turn → Type 0 where
  plain : (turns : List Turn) → size ≡ 512 → Served bs turns → Opened size bs turns
  silent :
      (t : Turn) (turns : List Turn)
      → t.input ≡ nothing
      → Opened size bs turns
      → Opened size bs (t ∷ turns)
  offered :
      (t : Turn) (turns : List Turn) (m : Memory) (pkt packetsize : ℕ)
      → t.input ≡ packet m pkt packetsize
      → IsOack size m pkt packetsize
      → Served bs turns
      → Opened size bs (t ∷ turns)

quiet_turn : (t : Turn) (s : Tftp) → t.input ≡ nothing → run_turn t s ≡ helped t s
unfolding run_turn receive_input
quiet_turn t s e = rw e refl

packet_turn :
    (t : Turn) (s : Tftp) (m : Memory) (pkt packetsize : ℕ)
    → t.input ≡ packet m pkt packetsize
    → run_turn t s ≡ (handle_tftp m pkt packetsize (helped t s)).1
unfolding run_turn receive_input
packet_turn t s m pkt packetsize e = rw e refl

-- No block has come, and the block size is not settled.
abbrev pub Fresh : ℕ → List (List ℕ) → Tftp → Type 0
Fresh size bs s = Receiving size bs [] bs (record s { blocksize = size })

pub Receiving-settled :
    (size : ℕ) (bs done todo : List (List ℕ)) (s : Tftp)
    → s.blocksize ≡ size
    → Receiving size bs done todo (record s { blocksize = size })
    → Receiving size bs done todo s
Receiving-settled size bs done todo s e r = record {
  split = r.split;
  is_file = r.is_file;
  few_blocks = r.few_blocks;
  fits = r.fits;
  len_lt = r.len_lt;
  receiving = r.receiving;
  huge_load = r.huge_load;
  not_finished = r.not_finished;
  no_errno = r.no_errno;
  in_bounds = r.in_bounds;
  block = r.block;
  blocksize = e;
  received_len = r.received_len;
  buffer = r.buffer;
}

helped-Fresh :
    (size : ℕ) (bs : List (List ℕ)) (t : Turn) (s : Tftp)
    → Fresh size bs s
    → Fresh size bs (helped t s)
helped-Fresh size bs t s r =
    rw (helped-eq t s) (kept-Receiving size bs [] bs (record s { blocksize = size }) _ _ _ _ r)

helped-blocksize : (t : Turn) (s : Tftp) → (helped t s).blocksize ≡ s.blocksize
helped-blocksize t s = rw (helped-eq t s) refl

handle_tftp-oack :
    (size : ℕ) (m : Memory) (pkt packetsize : ℕ) (s : Tftp)
    → s.receiving ≡ true
    → IsOack size m pkt packetsize
    → handle_tftp m pkt packetsize s
      ≡ (0, send (ack 0 (load 2 m pkt)) (record s { port_number = load 2 m pkt; blocksize = size }))
unfolding handle_tftp take_oack
handle_tftp-oack size m pkt packetsize s h o =
    rw (o.opcode, o.blksize) (ground (arith, h, o.size_pos, o.size_le))

oack-Receiving :
    (size : ℕ) (bs : List (List ℕ)) (m : Memory) (pkt packetsize : ℕ) (s : Tftp)
    → Fresh size bs s
    → IsOack size m pkt packetsize
    → Receiving size bs [] bs (handle_tftp m pkt packetsize s).1
oack-Receiving size bs m pkt packetsize s r o =
    rw (handle_tftp-oack size m pkt packetsize s r.receiving o)
      (kept-Receiving size bs [] bs (record s { blocksize = size }) _ _ _ _ r)

opened-Result :
    (size : ℕ) (bs : List (List ℕ)) (turns : List Turn) (s : Tftp)
    → Fresh size bs s
    → s.blocksize ≡ 512
    → Opened size bs turns
    → Result bs (wait_turns turns s)
opened-Result size bs turns s r b (plain _ e v) =
    wait_turns-Result size bs [] bs turns s (Receiving-settled size bs [] bs s (b ∙ sym e) r) v
opened-Result size bs _ s r b (silent t turns e o) = rw (wait_turns-turn t turns s r.not_finished) (
    turned-Result bs turns (run_turn t s) (
      rw (quiet_turn t s e) (
        opened-Result size bs turns (helped t s) (helped-Fresh size bs t s r)
          (helped-blocksize t s ∙ b) o)))
opened-Result size bs _ s r b (offered t turns m pkt packetsize e o v) =
    rw (wait_turns-turn t turns s r.not_finished) (
      turned-Result bs turns (run_turn t s) (
        wait_turns-Result size bs [] bs turns (run_turn t s)
          (rw (packet_turn t s m pkt packetsize e)
            (oack-Receiving size bs m pkt packetsize (helped t s) (helped-Fresh size bs t s r) o))
          v))

pub start_tftp-Fresh :
    (size : ℕ) (bs : List (List ℕ)) (buffer : Memory) (len retries : ℕ) (tftp_err : TftpErr)
    → IsFile size bs
    → length bs < 65536
    → length (concat bs) ≤ len
    → len < 2 ^ 31
    → Fresh size bs (start_tftp buffer len retries tftp_err)
unfolding start_tftp concat
start_tftp-Fresh size bs buffer len retries tftp_err f few fits len_lt = record {
  split = refl;
  is_file = f;
  few_blocks = few;
  fits = fits;
  len_lt = len_lt;
  receiving = refl;
  huge_load = refl;
  not_finished = refl;
  no_errno = refl;
  in_bounds = refl;
  block = refl;
  blocksize = refl;
  received_len = refl;
  buffer = λ j j_lt. absurd (omega arith);
}

-- What `tftp` promises: the length of the file, which the buffer holds, or an error.
abbrev pub Loaded : List (List ℕ) → Option (ℕ × Tftp) → Type 0
Loaded bs none = ⊥
Loaded bs (some (rc, s)) = (rc ≡ length (concat bs) × Holds s.buffer (concat bs)) ⊎ GivenUp rc

end_tftp-Loaded :
    (bs : List (List ℕ)) (o : Option Tftp)
    → IsDone o
    → InBounds o
    → Result bs o
    → Loaded bs (end_tftp o)
unfolding end_tftp leave_tftp
end_tftp-Loaded bs none k b r = k
end_tftp-Loaded bs (some s) k b (inl d) = rw b (inl (rw (d.no_errno) (d.received_len), d.buffer))
end_tftp-Loaded bs (some s) k b (inr g) =
    let failed : (s.tftp_errno == 0) ≡ false = ground (arith, g) in rw b (inr (rw failed g))

-- What the server sends is whole.
Served-AllWhole : (bs : List (List ℕ)) (turns : List Turn) → Served bs turns → AllWhole turns
Served-AllWhole bs _ end = tt
Served-AllWhole bs _ (turn t turns b v) = (brought t.input b, Served-AllWhole bs turns v)
  where
    brought : (i : Input) → Brings bs i → IsWhole i
    brought _ silence = tt
    brought _ (block m pkt packetsize index d) = λ e. omega (arith, d.ulen)

Opened-AllWhole :
    (size : ℕ) (bs : List (List ℕ)) (turns : List Turn) → Opened size bs turns → AllWhole turns
Opened-AllWhole size bs turns (plain _ e v) = Served-AllWhole bs turns v
Opened-AllWhole size bs _ (silent t turns e o) = (rw e tt, Opened-AllWhole size bs turns o)
Opened-AllWhole size bs _ (offered t turns m pkt packetsize e o v) =
    (rw e (λ q. absurd (omega (arith, q, o.opcode))), Served-AllWhole bs turns v)

-- A file of at most 65535 blocks, which fits in the buffer of fewer than 2 ^ 31 bytes, is sent in
-- DATA packets of 512 bytes, or of the size that an OACK settles before them, the last one
-- shorter. Whatever of its blocks the turns bring, in whatever order and however often, between
-- turns that bring nothing: where the timer runs out in more than retries of them and retries is
-- below 2 ^ 32 - 1, tftp returns. It returns the length of the file, which the buffer then holds
-- from its start on, or one of the errors -40, -41 and -42.
pub tftp-Loaded :
    (size : ℕ) (bs : List (List ℕ)) (buffer : Memory) (len retries : ℕ) (tftp_err : TftpErr)
    (turns : List Turn)
    → IsFile size bs
    → length bs < 65536
    → length (concat bs) ≤ len
    → len < 2 ^ 31
    → Opened size bs turns
    → retries < 2 ^ 32 - 1
    → retries < timeouts turns
    → Loaded bs (tftp buffer len retries tftp_err turns)
unfolding tftp start_tftp
tftp-Loaded size bs buffer len retries tftp_err turns f few fits len_lt o h k =
    end_tftp-Loaded bs (wait_turns turns (start_tftp buffer len retries tftp_err))
      (wait_turns-IsDone turns _ (omega arith) h (omega (arith, k)))
      (wait_turns-InBounds turns _ (Opened-AllWhole size bs turns o) refl)
      (opened-Result size bs turns _
        (start_tftp-Fresh size bs buffer len retries tftp_err f few fits len_lt) refl o)
