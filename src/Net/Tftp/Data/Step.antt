-- ===== src/Net/Tftp/Data/Step.antt =====
-- lib/libnet/tftp.c: what `handle_tftp` does with the block that is expected.
use slof.Prelude.{ℕ, ◌+◌, ◌-◌, ◌%◌, ◌^◌, ◌≤◌, ◌<◌, ◌≡◌, ◌∙◌, ap, sym, arith, refl, ltb}
use slof.Prelude.{true, if◌then◌else◌, List, [], ◌∷◌, ◌++◌, length, length-append}
use slof.Prelude.{get_or, get_or-append_left, get_or-append_right}
use mathlib.Core.List.{append_assoc, append-nil}
use slof.Libc.Memory.{Memory}
use slof.Nvram.Store.{load}
use slof.Net.Dhcp.Options.{copy_array}
use slof.Net.Dhcp.Options.Combine.{copy_array-byte}
use slof.Net.Tftp.{Tftp, ack, store_block, take_data, handle_tftp}
use slof.Net.Tftp.Data.{
  concat, IsFile, last, more, IsData, Holds, Receiving, Advanced, next_block, last_block,
}

length-concat-append :
    (done : List (List ℕ)) (b : List ℕ)
    → length (concat (done ++ (b ∷ []))) ≡ length (concat done) + length b
unfolding concat
length-concat-append [] b = ground (arith, length-append b [])
length-concat-append (x ∷ done) b = ground (
  arith,
  length-concat-append done b,
  length-append x (concat done),
  length-append x (concat (done ++ (b ∷ []))),
)

concat-append : (xs ys : List (List ℕ)) → concat (xs ++ ys) ≡ concat xs ++ concat ys
unfolding concat
concat-append [] ys = refl
concat-append (x ∷ xs) ys =
    ap (λ bytes. x ++ bytes) (concat-append xs ys) ∙ sym (append_assoc x (concat xs) (concat ys))

module _ (bs : List (List ℕ)) (m : Memory) (pkt index packetsize : ℕ) (d : IsData bs m pkt index)
    (s : Tftp) (receiving : s.receiving ≡ true) where
  abbrev pub seen : Tftp
  seen = record s { port_number = load 2 m pkt }

  pub handle_tftp-data : handle_tftp m pkt packetsize s ≡ take_data m pkt seen
  unfolding handle_tftp
  handle_tftp-data = rw (receiving, d.opcode) refl

module _ (size : ℕ) (bs done : List (List ℕ)) (b : List ℕ) (todo : List (List ℕ)) (m : Memory)
    (pkt : ℕ) (s : Tftp) (r : Receiving size bs done (b ∷ todo) s)
    (d : IsData bs m pkt (length done)) where
  block_at : get_or bs (length done) [] ≡ b
  block_at =
      ap (λ l. get_or l (length done) []) (sym r.split)
      ∙ ap (λ i. get_or (done ++ (b ∷ todo)) i []) at_end
      ∙ get_or-append_right done (b ∷ todo) 0 []
    where
      at_end : length done ≡ length done + 0
      at_end = omega arith

  ulen : load 2 m (pkt + 4) ≡ length b + 12
  ulen = d.ulen ∙ ap (λ p. length p + 12) block_at

  abbrev stored : Tftp
  stored = record s {
    block = length done + 1;
    tftp_err = record s.tftp_err { bad_tftp_packets = 0 };
    buffer = copy_array (length b) s.buffer s.received_len m (pkt + 12);
    sent = s.sent ++ (ack (length done + 1) s.port_number ∷ []);
    received_len = s.received_len + length b;
  }

  length_le : length (concat done) + length b ≤ length (concat bs)
  unfolding concat
  length_le = omega (
    arith,
    ap (λ l. length (concat l)) r.split,
    ap (λ bytes. length bytes) (concat-append done (b ∷ todo)),
    length-append (concat done) (concat (b ∷ todo)),
    length-append b (concat todo),
  )

  copy_eq : (length b + 12 + 2 ^ 64 - 12) % 2 ^ 64 ≡ length b
  copy_eq = omega (arith, length_le, r.fits, r.len_lt)

  new_len : (s.received_len + (length b + 12) + 2 ^ 32 - 12) % 2 ^ 32 ≡ s.received_len + length b
  new_len = omega (arith, length_le, r.fits, r.len_lt, r.received_len)

  take_data-expected :
      take_data m pkt s
      ≡ (0, if ltb (length b) size then record stored { tftp_finished = true } else stored)
  unfolding take_data store_block
  take_data-expected =
      rw (d.number, ulen, r.block, r.blocksize, r.huge_load, copy_eq, new_len)
        (ground (arith, length_le, r.fits, r.received_len))

  now_done : concat (done ++ (b ∷ [])) ≡ concat done ++ b
  unfolding concat
  now_done = concat-append done (b ∷ []) ∙ ap (λ bytes. concat done ++ bytes) (append-nil b)

  payload_at : (k : ℕ) → k < length b → m (pkt + 12 + k) ≡ get_or b k 0
  payload_at k h =
      d.payload k (omega (arith, h, ap (λ l. length l) block_at)) ∙ ap (λ l. get_or l k 0) block_at

  stored-Holds : Holds stored.buffer (concat (done ++ (b ∷ [])))
  stored-Holds j j_lt =
      copy_array-byte (length b) s.buffer s.received_len m (pkt + 12) j
      ∙ ground (arith, r.received_len, before, behind, length-concat-append done b)
      ∙ ap (λ l. get_or l j 0) (sym now_done)
    where
      before : j < length (concat done) → s.buffer j ≡ get_or (concat done ++ b) j 0
      before h = r.buffer j h ∙ sym (get_or-append_left (concat done) b j 0 h)

      behind :
          length (concat done) ≤ j
          → j < length (concat done) + length b
          → m (pkt + 12 + (j - s.received_len)) ≡ get_or (concat done ++ b) j 0
      behind h h' =
          ap (λ i. m (pkt + 12 + i)) back
          ∙ payload_at (j - length (concat done)) (omega (arith, h, h'))
          ∙ sym (get_or-append_right (concat done) b (j - length (concat done)) 0)
          ∙ ap (λ i. get_or (concat done ++ b) i 0) there
        where
          back : j - s.received_len ≡ j - length (concat done)
          back = omega (arith, r.received_len)

          there : length (concat done) + (j - length (concat done)) ≡ j
          there = omega (arith, h)

  stored-len : stored.received_len ≡ length (concat (done ++ (b ∷ [])))
  stored-len = omega (arith, length-concat-append done b, r.received_len)

  take_data-last : length b < size → take_data m pkt s ≡ (0, record stored { tftp_finished = true })
  take_data-last h = take_data-expected ∙ ground (arith, h)

  take_data-more : length b ≡ size → take_data m pkt s ≡ (0, stored)
  take_data-more h = take_data-expected ∙ ground (arith, h)

-- The block that is expected.
pub expected-Advanced :
    (size : ℕ) (bs done : List (List ℕ)) (b : List ℕ) (todo : List (List ℕ)) (m : Memory) (pkt : ℕ)
    (s : Tftp)
    → Receiving size bs done (b ∷ todo) s
    → IsData bs m pkt (length done)
    → IsFile size (b ∷ todo)
    → Advanced size bs (done ++ (b ∷ [])) todo (take_data m pkt s).1
expected-Advanced size bs done b _ m pkt s r d (last _ h) =
    rw (take_data-last size bs done b [] m pkt s r d h) (
      last_block refl (record {
        finished = refl;
        no_errno = r.no_errno;
        in_bounds = r.in_bounds;
        received_len =
            stored-len size bs done b [] m pkt s r d ∙ ap (λ l. length (concat l)) r.split;
        buffer = λ j j_lt.
            stored-Holds size bs done b [] m pkt s r d j
              (omega (arith, j_lt, ap (λ l. length (concat l)) r.split))
            ∙ ap (λ l. get_or (concat l) j 0) r.split;
      }))
expected-Advanced size bs done b todo m pkt s r d (more _ _ h f) =
    rw (take_data-more size bs done b todo m pkt s r d h) (
      next_block refl (record {
        split = append_assoc done (b ∷ []) todo ∙ r.split;
        is_file = f;
        few_blocks = r.few_blocks;
        fits = r.fits;
        len_lt = r.len_lt;
        receiving = r.receiving;
        huge_load = r.huge_load;
        not_finished = r.not_finished;
        no_errno = r.no_errno;
        in_bounds = r.in_bounds;
        block = omega (arith, length-append done (b ∷ []));
        blocksize = r.blocksize;
        received_len = stored-len size bs done b todo m pkt s r d;
        buffer = stored-Holds size bs done b todo m pkt s r d;
      }))
