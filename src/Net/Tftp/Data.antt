-- ===== src/Net/Tftp/Data.antt =====
-- lib/libnet/tftp.c: the blocks of a file, the packets that carry them, and the state while they come.
pub mod Step
pub mod Any
pub mod Run
pub mod Load
pub mod Deliver
use slof.Prelude.{ℕ, zero, suc, ◌+◌, ◌^◌, ◌≤◌, ◌<◌, ◌≡◌, Bool, true, false}
use slof.Prelude.{List, [], ◌∷◌, ◌++◌, length, get_or, ◌⊎◌}
use slof.Libc.Memory.{Memory}
use slof.Nvram.Store.{load}
use slof.Net.Tftp.{Tftp, minus}

-- The bytes of the blocks.
unfoldable pub concat : List (List ℕ) → List ℕ
concat [] = []
concat (b ∷ bs) = b ++ concat bs

-- Blocks of the block size, and a shorter last one.
pub data IsFile (size : ℕ) : List (List ℕ) → Type 0 where
  last : (b : List ℕ) → length b < size → IsFile size (b ∷ [])
  more : (b : List ℕ) (bs : List (List ℕ)) → length b ≡ size → IsFile size bs → IsFile size (b ∷ bs)

-- A DATA packet with the block at an index of the list.
pub record IsData (bs : List (List ℕ)) (m : Memory) (pkt index : ℕ) : Type 0 where
  pub index_lt : index < length bs
  pub opcode : load 2 m (pkt + 8) ≡ 3
  pub number : load 2 m (pkt + 10) ≡ index + 1
  pub ulen : load 2 m (pkt + 4) ≡ length (get_or bs index []) + 12
  pub payload :
      (j : ℕ) → j < length (get_or bs index []) → m (pkt + 12 + j) ≡ get_or (get_or bs index []) j 0

-- The buffer starts with these bytes.
abbrev pub Holds : Memory → List ℕ → Type 0
Holds m bytes = (j : ℕ) → j < length bytes → m j ≡ get_or bytes j 0

-- Of the blocks `bs` of the file, `done` have come and `todo` have not.
pub record Receiving (size : ℕ) (bs done todo : List (List ℕ)) (s : Tftp) : Type 0 where
  pub split : done ++ todo ≡ bs
  pub is_file : IsFile size todo
  pub few_blocks : length bs < 65536
  pub fits : length (concat bs) ≤ s.len
  pub len_lt : s.len < 2 ^ 31
  pub receiving : s.receiving ≡ true
  pub huge_load : s.huge_load ≡ true
  pub not_finished : s.tftp_finished ≡ false
  pub no_errno : s.tftp_errno ≡ 0
  pub in_bounds : s.overrun ≡ false
  pub block : s.block ≡ length done
  pub blocksize : s.blocksize ≡ size
  pub received_len : s.received_len ≡ length (concat done)
  pub buffer : Holds s.buffer (concat done)

-- The whole file has come.
pub record Delivered (bs : List (List ℕ)) (s : Tftp) : Type 0 where
  pub finished : s.tftp_finished ≡ true
  pub no_errno : s.tftp_errno ≡ 0
  pub in_bounds : s.overrun ≡ false
  pub received_len : s.received_len ≡ length (concat bs)
  pub buffer : Holds s.buffer (concat bs)

-- What a packet of the file leaves: the transfer goes on, it is done, or a block was missed.
pub data Session (size : ℕ) (bs : List (List ℕ)) (s : Tftp) : Type 0 where
  goes_on : (done todo : List (List ℕ)) → Receiving size bs done todo s → Session size bs s
  delivered : Delivered bs s → Session size bs s
  skipped : s.tftp_finished ≡ true → s.tftp_errno ≡ minus 42 → Session size bs s

-- What the block that is expected leaves; the packets that were not expected are forgotten.
pub data Advanced (size : ℕ) (bs done todo : List (List ℕ)) (s : Tftp) : Type 0 where
  next_block :
      s.tftp_err.bad_tftp_packets ≡ 0 → Receiving size bs done todo s → Advanced size bs done todo s
  last_block : s.tftp_err.bad_tftp_packets ≡ 0 → Delivered bs s → Advanced size bs done todo s
