-- ===== src/Net/Tftp/Errors/Reported.antt =====
-- lib/libnet/tftp.c and lib/libnet/netload.c: whether every failure of `tftp` is reported.
use slof.Prelude.{
  ℕ, zero, suc, ◌+◌, ◌-◌, ◌%◌, ◌^◌, ◌≤◌, ◌<◌, ◌≡◌, ◌≢◌, ◌==◌, ◌⊎◌, arith, refl, inl, inr, ltb, leb,
}
use slof.Prelude.{Bool, true, false, ◌&&◌, ◌||◌, List, [], ◌∷◌}
use slof.Prelude.{Bool-cases, Option, none, some}
use slof.Libc.Memory.{Memory}
use slof.Nvram.Store.{load}
use slof.Net.Tftp.{
  Tftp, TftpErr, minus, take_oack, error_errno, handle_tftp, store_block, take_data, Input, nothing,
  packet, unreachable, Turn, receive_input, handle_tftp_dun, run_turn, wait_turns, start_tftp,
  leave_tftp, end_tftp, tftp,
}
use slof.Net.Tftp.Ends.{
  helped, helped-eq, turned, wait_turns-turn, wait_turns-finished, timeouts, IsDone,
  wait_turns-IsDone, InBounds, wait_turns-InBounds, IsWhole, AllWhole,
}
use slof.Net.Tftp.Errors.{ErrorInfo, tftp_get_error_info, load_result, tftp_load}

-- A result of `tftp` that `tftp_get_error_info` knows, or 0.
abbrev known : ℕ → Bool
known e =
    e == 0
    || (leb (minus 15) e && ltb e (2 ^ 32))
    || e == minus 40
    || e == minus 41
    || e == minus 42

record Accounted (len : ℕ) (s : Tftp) : Type 0 where
  errno : known s.tftp_errno ≡ true
  len_eq : s.len ≡ len
  received_le : s.received_len ≤ len

-- An input that a UDP layer may give: a DATA packet has its header, and an ICMP code is one of RFC 792.
abbrev pub Regular : Input → Type 0
Regular nothing = Unit {0}
Regular (packet m pkt packetsize) = load 2 m (pkt + 8) ≡ 3 → 12 ≤ load 2 m (pkt + 4)
Regular (unreachable err_code) = err_code ≤ 5

abbrev pub AllRegular : List Turn → Type 0
AllRegular [] = Unit {0}
AllRegular (t ∷ turns) = Regular t.input × AllRegular turns

module _ (len : ℕ) (len_lt : len < 2 ^ 31) where
  store_block-Accounted :
      (m : Memory) (pkt : ℕ) (s : Tftp)
      → 12 ≤ load 2 m (pkt + 4)
      → Accounted len s
      → Accounted len (store_block m pkt s).1
  unfolding store_block
  store_block-Accounted m pkt s h a = record {
    errno = ground (arith, a.errno);
    len_eq = ground (arith, a.len_eq);
    received_le = ground (arith, a.received_le, a.len_eq);
  }

  take_data-Accounted :
      (m : Memory) (pkt : ℕ) (s : Tftp)
      → 12 ≤ load 2 m (pkt + 4)
      → Accounted len s
      → Accounted len (take_data m pkt s).1
  unfolding take_data
  take_data-Accounted m pkt s h a =
      let stored =
        store_block-Accounted m pkt (record s { block = load 2 m (pkt + 10) }) h
          (record { errno = a.errno; len_eq = a.len_eq; received_le = a.received_le }) in
      record {
        errno = ground (arith, a.errno, stored.errno);
        len_eq = ground (arith, a.len_eq, stored.len_eq);
        received_le = ground (arith, a.received_le, stored.received_le);
      }

  error_errno-known : (code : ℕ) → known (error_errno code) ≡ true
  unfolding error_errno
  error_errno-known code = ground arith

  handle_tftp-Accounted :
      (m : Memory) (pkt packetsize : ℕ) (s : Tftp)
      → (load 2 m (pkt + 8) ≡ 3 → 12 ≤ load 2 m (pkt + 4))
      → Accounted len s
      → Accounted len (handle_tftp m pkt packetsize s).1
  unfolding handle_tftp take_oack
  handle_tftp-Accounted m pkt packetsize s h a =
      let seen : Accounted len (record s { port_number = load 2 m pkt }) = record {
        errno = a.errno;
        len_eq = a.len_eq;
        received_le = a.received_le;
      } in
      let taken = λ (e : load 2 m (pkt + 8) ≡ 3). take_data-Accounted m pkt _ (h e) seen in
      record {
        errno = ground (
          arith,
          a.errno,
          error_errno-known (load 2 m (pkt + 10) % 256),
          λ (e : load 2 m (pkt + 8) ≡ 3). (taken e).errno,
        );
        len_eq = ground (arith, a.len_eq, λ (e : load 2 m (pkt + 8) ≡ 3). (taken e).len_eq);
        received_le =
            ground (arith, a.received_le, λ (e : load 2 m (pkt + 8) ≡ 3). (taken e).received_le);
      }

  receive_input-Accounted :
      (i : Input) (s : Tftp) → Regular i → Accounted len s → Accounted len (receive_input i s)
  unfolding receive_input handle_tftp_dun
  receive_input-Accounted nothing s h a = a
  receive_input-Accounted (packet m pkt packetsize) s h a =
      handle_tftp-Accounted m pkt packetsize s h a
  receive_input-Accounted (unreachable err_code) s h a = record {
    errno = ground (arith, h);
    len_eq = a.len_eq;
    received_le = a.received_le;
  }

  helped-Accounted : (t : Turn) (s : Tftp) → Accounted len s → Accounted len (helped t s)
  helped-Accounted t s a =
      rw (helped-eq t s)
        (record { errno = a.errno; len_eq = a.len_eq; received_le = a.received_le })

  run_turn-Accounted :
      (t : Turn) (s : Tftp) → Regular t.input → Accounted len s → Accounted len (run_turn t s)
  unfolding run_turn
  run_turn-Accounted t s h a =
      receive_input-Accounted t.input (helped t s) h (helped-Accounted t s a)

  AccountedEnd : Option Tftp → Type 0
  AccountedEnd none = Unit {0}
  AccountedEnd (some s) = Accounted len s

  turned-Accounted :
      (turns : List Turn) (next : Tftp)
      → Accounted len next
      → AccountedEnd (wait_turns turns next)
      → AccountedEnd (turned turns next)
  unfolding AccountedEnd
  turned-Accounted turns next a rest =
      elim (Bool-cases (ltb next.retries next.tftp_err.bad_tftp_packets)) [
        | inl e ↦ rw e (record { errno = refl; len_eq = a.len_eq; received_le = a.received_le })
        | inr e ↦ rw e (elim (Bool-cases (ltb next.retries next.tftp_err.no_packets)) [
          | inl e' ↦ rw e' (record { errno = refl; len_eq = a.len_eq; received_le = a.received_le })
          | inr e' ↦ rw e' rest
        ])
      ]

  wait_turns-Accounted :
      (turns : List Turn) (s : Tftp)
      → AllRegular turns
      → Accounted len s
      → AccountedEnd (wait_turns turns s)
  unfolding wait_turns AccountedEnd
  wait_turns-Accounted [] s h a = elim (Bool-cases s.tftp_finished) [
    | inl e ↦ rw (wait_turns-finished [] s e) a
    | inr e ↦ rw (e) tt
  ]
  wait_turns-Accounted (t ∷ turns) s (h, hs) a = elim (Bool-cases s.tftp_finished) [
    | inl e ↦ rw (wait_turns-finished (t ∷ turns) s e) a
    | inr e ↦
        let next : Accounted len (run_turn t s) = run_turn-Accounted t s h a in
        rw (wait_turns-turn t turns s e) (
          turned-Accounted turns (run_turn t s) next
            (wait_turns-Accounted turns (run_turn t s) hs next))
  ]

-- A length without a report, or a negative result with one.
abbrev pub IsReported : Option ErrorInfo → Type 0
IsReported none = ⊥
IsReported (some info) =
    (info.report ≡ none × info.rc < 2 ^ 31)
    ⊎ (info.report ≢ none × (2 ^ 31 ≤ info.rc × info.rc < 2 ^ 32))

get_error_info-IsReported :
    (len : ℕ) (err : TftpErr) (rc : ℕ)
    → known rc ≡ true
    → rc ≢ 0
    → IsReported (some (tftp_get_error_info len err rc))
unfolding tftp_get_error_info
get_error_info-IsReported len err rc h k =
    inr (ground (arith, h, k), (ground (arith, h, k), ground (arith, h, k)))

length-IsReported :
    (len rc : ℕ) (s : Tftp) → rc < 2 ^ 31 → IsReported (some (load_result len (rc, s)))
unfolding load_result tftp_get_error_info
length-IsReported len zero s h = inl (refl, omega arith)
length-IsReported len (suc n) s h =
    let positive : (ltb 0 (suc n) && ltb (suc n) (2 ^ 31)) ≡ true = ground (arith, h) in
    rw positive (inl (refl, h))

error-IsReported :
    (len rc : ℕ) (s : Tftp) → known rc ≡ true → rc ≢ 0 → IsReported (some (load_result len (rc, s)))
unfolding load_result
error-IsReported len rc s h k =
    let negative : (ltb 0 rc && ltb rc (2 ^ 31)) ≡ false = ground (arith, h, k) in
    rw negative (get_error_info-IsReported len s.tftp_err rc h k)

load_result-IsReported :
    (len : ℕ) (s : Tftp)
    → len < 2 ^ 31
    → Accounted len s
    → IsReported (some (load_result len (leave_tftp s)))
unfolding leave_tftp
load_result-IsReported len s h a = elim (Bool-cases (s.tftp_errno == 0)) [
  | inl e ↦ rw e (length-IsReported len s.received_len _ (omega (arith, a.received_le)))
  | inr e ↦
      let failed : s.tftp_errno ≢ 0 = ground arith in
      rw e (error-IsReported len s.tftp_errno _ a.errno failed)
]

ended-IsReported :
    (len : ℕ) (len_lt : len < 2 ^ 31) (o : Option Tftp)
    → IsDone o
    → InBounds o
    → AccountedEnd len len_lt o
    → IsReported (elim (end_tftp o) as (λ _. Option ErrorInfo) [
      | none ↦ none
      | some result ↦ some (load_result len result)
    ])
unfolding AccountedEnd end_tftp leave_tftp load_result
ended-IsReported len len_lt none k b a = k
ended-IsReported len len_lt (some s) k b a = rw b (load_result-IsReported len s len_lt a)

AllRegular-AllWhole : (turns : List Turn) → AllRegular turns → AllWhole turns
AllRegular-AllWhole [] h = tt
AllRegular-AllWhole (t ∷ turns) (h, hs) = (whole t.input h, AllRegular-AllWhole turns hs)
  where
    whole : (i : Input) → Regular i → IsWhole i
    whole nothing h = tt
    whole (packet m pkt packetsize) h = h
    whole (unreachable err_code) h = tt

-- Where every DATA packet has a UDP length of 12 at least, every ICMP error a code up to 5, the
-- buffer fewer than 2 ^ 31 bytes, and the timer runs out in more than retries of the turns, with
-- retries below 2 ^ 32 - 1, tftp_load returns, whatever else the turns bring. Either it reports
-- nothing and its result is not negative, or it reports an error and its result is negative.
pub tftp_load-IsReported :
    (buffer : Memory) (len retries : ℕ) (tftp_err : TftpErr) (turns : List Turn)
    → len < 2 ^ 31
    → retries < 2 ^ 32 - 1
    → retries < timeouts turns
    → AllRegular turns
    → IsReported (tftp_load buffer len retries tftp_err turns)
unfolding tftp_load tftp start_tftp
tftp_load-IsReported buffer len retries tftp_err turns len_lt h k regular =
    ended-IsReported len len_lt (wait_turns turns (start_tftp buffer len retries tftp_err))
      (wait_turns-IsDone turns _ (omega arith) h (omega (arith, k)))
      (wait_turns-InBounds turns _ (AllRegular-AllWhole turns regular) refl)
      (wait_turns-Accounted len len_lt turns _ regular
        (record { errno = refl; len_eq = refl; received_le = omega arith }))
