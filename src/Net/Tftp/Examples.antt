-- ===== src/Net/Tftp/Examples.antt =====
-- lib/libnet/tftp.c: a server that sends a file of five bytes.
use slof.Prelude.{ℕ, zero, suc, ◌+◌, ◌%◌, ◌^◌, ◌≤◌, ◌<◌, ◌≡◌, arith, refl}
use slof.Prelude.{true, false, if◌then◌else◌, List, [], ◌∷◌, length, get_or}
use slof.Libc.Memory.{Memory}
use slof.Nvram.Store.{load}
use slof.Libc.Number.{strtoul}
use slof.Libc.Search.{drop}
use slof.Net.Tftp.{
  get_blksize, bytes_from, starts_with, blksize_name, TftpErr, nothing, packet, unreachable, Turn,
  tftp,
}
use slof.Net.Tftp.Data.{concat, IsFile, last, IsData}
use slof.Net.Tftp.Data.Run.{Served, end, turn, silence, block}
use slof.Net.Tftp.Data.Load.{Opened, plain, silent, Loaded, tftp-Loaded}
use slof.Net.Tftp.Data.Deliver.{Steady, whole, next, HasLoaded, tftp-HasLoaded}
use slof.Net.Tftp.Ends.{timeouts, IsDone, tftp-IsDone}
use slof.Net.Tftp.Blksize.{get_blksize-first}
use slof.Net.Tftp.Errors.{tftp_load}
use slof.Net.Tftp.Errors.Reported.{IsReported, tftp_load-IsReported}

abbrev file : List (List ℕ)
file = (72 ∷ 101 ∷ 108 ∷ 108 ∷ 111 ∷ []) ∷ []

file-IsFile : IsFile 512 file
file-IsFile = last _ (omega arith)

-- The UDP header and the DATA packet with block 1.
abbrev hello : List ℕ
hello = 0 ∷ 69 ∷ 7 ∷ 209 ∷ 0 ∷ 17 ∷ 0 ∷ 0 ∷ 0 ∷ 3 ∷ 0 ∷ 1 ∷ 72 ∷ 101 ∷ 108 ∷ 108 ∷ 111 ∷ []

abbrev in_memory : List ℕ → Memory
in_memory bytes i = get_or bytes i 0

hello-IsData : IsData file (in_memory hello) 0 0
unfolding load
hello-IsData = record {
  index_lt = omega arith;
  opcode = refl;
  number = refl;
  ulen = refl;
  payload = payload;
}
  where
    payload : (j : ℕ) → j < 5 → in_memory hello (0 + 12 + j) ≡ get_or (get_or file 0 []) j 0
    payload zero h = refl
    payload (suc zero) h = refl
    payload (suc (suc zero)) h = refl
    payload (suc (suc (suc zero))) h = refl
    payload (suc (suc (suc (suc zero)))) h = refl
    payload (suc (suc (suc (suc (suc j))))) h = absurd (omega arith)

abbrev no_errors : TftpErr
no_errors = record { bad_tftp_packets = 0; no_packets = 0; blocks_missed = 0; blocks_received = 0 }

abbrev brings_data : Turn
brings_data = record { timeout = false; input = packet (in_memory hello) 0 17 }

abbrev runs_out : Turn
runs_out = record { timeout = true; input = nothing }

served : Served file (brings_data ∷ runs_out ∷ [])
served = turn brings_data _ (block _ 0 17 0 hello-IsData) (turn runs_out _ silence end)

opened : Opened 512 file (runs_out ∷ brings_data ∷ runs_out ∷ [])
opened = silent runs_out _ refl (plain _ refl served)

timed_out : 1 < timeouts (runs_out ∷ brings_data ∷ runs_out ∷ [])
unfolding timeouts
timed_out = omega arith

file_fits : length (concat file) ≤ 16
unfolding concat
file_fits = omega arith

tftp-Loaded_example :
    Loaded file (tftp (λ _. 0) 16 1 no_errors (runs_out ∷ brings_data ∷ runs_out ∷ []))
tftp-Loaded_example =
    tftp-Loaded 512 file (λ _. 0) 16 1 no_errors (runs_out ∷ brings_data ∷ runs_out ∷ [])
      file-IsFile (omega arith) file_fits (omega arith) opened (omega arith) timed_out

steady : Steady file 0 (brings_data ∷ [])
steady = next 0 brings_data [] _ 0 17 refl refl hello-IsData (whole [])

tftp-HasLoaded_example : HasLoaded file (tftp (λ _. 0) 16 1 no_errors (brings_data ∷ []))
tftp-HasLoaded_example =
    tftp-HasLoaded file (λ _. 0) 16 1 no_errors (brings_data ∷ []) file-IsFile (omega arith)
      file_fits (omega arith) steady

tftp-IsDone_example : IsDone (tftp (λ _. 0) 16 1 no_errors (runs_out ∷ brings_data ∷ runs_out ∷ []))
tftp-IsDone_example =
    tftp-IsDone (λ _. 0) 16 1 no_errors (runs_out ∷ brings_data ∷ runs_out ∷ []) (omega arith)
      timed_out (tt, ((λ e. omega (arith, hello-IsData.ulen)), (tt, tt)))

-- A host that cannot be reached.
abbrev brings_error : Turn
brings_error = record { timeout = false; input = unreachable 1 }

tftp_load-IsReported_example :
    IsReported (tftp_load (λ _. 0) 16 1 no_errors (runs_out ∷ brings_error ∷ runs_out ∷ []))
tftp_load-IsReported_example =
    tftp_load-IsReported (λ _. 0) 16 1 no_errors (runs_out ∷ brings_error ∷ runs_out ∷ [])
      (omega arith) (omega arith) failing (tt, (omega arith, (tt, tt)))
  where
    failing : 1 < timeouts (runs_out ∷ brings_error ∷ runs_out ∷ [])
    failing = unfold timeouts in omega arith

-- The server sends another option first.
abbrev oack : Memory
oack = in_memory (
    0 ∷ 69 ∷ 7 ∷ 209 ∷ 0 ∷ 28 ∷ 0 ∷ 0 ∷ 0 ∷ 6 ∷ b't' ∷ b's' ∷ b'i' ∷ b'z' ∷ b'e' ∷ 0 ∷ b'5' ∷ 0
    ∷ b'b' ∷ b'l' ∷ b'k' ∷ b's' ∷ b'i' ∷ b'z' ∷ b'e' ∷ 0 ∷ b'8' ∷ 0 ∷ [])

get_blksize-first_example : get_blksize oack 0 28 ≡ (
    if starts_with (bytes_from 1546 oack 10) blksize_name
    then (strtoul (drop 8 (bytes_from 1546 oack 10)) 10).0 % 2 ^ 16
    else 0)
get_blksize-first_example = get_blksize-first oack 0 28
