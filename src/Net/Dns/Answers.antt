-- ===== src/Net/Dns/Answers.antt =====
-- lib/libnet/dns.c: `handle_dns` on a message with questions and answers.
use slof.Prelude.{ℕ, zero, suc, ◌+◌, ◌/◌, ◌%◌, ◌^◌, ◌≤◌, ◌<◌, ◌≡◌, ◌≢◌, ◌==◌, inl, inr, arith, refl}
use slof.Prelude.{Bool, true, false, ◌&&◌, ◌||◌, some, List, [], ◌∷◌, length, if◌then◌else◌}
use slof.Prelude.{Bool-cases}
use slof.Prelude.Int.{is_zero}
use slof.Libc.Compare.{strcmp}
use slof.Libc.Memory.{Memory}
use slof.Nvram.Store.{load}
use slof.Net.Tftp.{bytes_from}
use slof.Net.Dns.{
  name, extract_name, Dns, returned, pass_questions, handled, go_on, take_record, answer,
  take_answers, take_response, handle_dns,
}
use slof.Net.Dns.Names.{encode, NameAt, two_each, extract_name-NameAt, extract_name-reference}

-- A name at `ptr`, written out or as a reference to one that is, and the place behind it.
pub data OwnerAt (m : Memory) (dnsh ptr : ℕ) (ls : List (List ℕ)) : ℕ → Type 0 where
  in_place : NameAt m ptr ls → OwnerAt m dnsh ptr ls (ptr + length (encode ls) + 1)
  reference :
      (offset : ℕ)
      → load 2 m ptr ≡ 0xc000 + offset
      → offset < 2 ^ 14
      → m (ptr + 1) < 256
      → NameAt m (dnsh + offset) ls
      → OwnerAt m dnsh ptr ls (ptr + 2)

-- As each label takes two bytes at least, 130 rounds are enough.
pub extract_name-OwnerAt :
    (fuel : ℕ) (m : Memory) (dnsh ptr : ℕ) (ls : List (List ℕ)) (next : ℕ)
    → OwnerAt m dnsh ptr ls next
    → 130 ≤ fuel
    → extract_name fuel m dnsh ptr ≡ some (name next (encode ls))
extract_name-OwnerAt fuel m dnsh ptr ls _ (in_place h) enough =
    extract_name-NameAt ls fuel m dnsh ptr h
      (omega (arith, enough, two_each ls h.is_labels, h.short))
extract_name-OwnerAt zero m dnsh ptr ls _ (reference offset e lt byte h) enough =
    absurd (omega (arith, enough))
extract_name-OwnerAt (suc fuel) m dnsh ptr ls _ (reference offset e lt byte h) enough =
    extract_name-reference ls fuel m dnsh ptr offset e lt byte h
      (omega (arith, enough, two_each ls h.is_labels, h.short))

-- The questions stand one behind another from `a` on; `b` is behind them.
pub data QuestionsAt (m : Memory) (dnsh : ℕ) : ℕ → List (List (List ℕ)) → ℕ → Type 0 where
  no_more : (a : ℕ) → QuestionsAt m dnsh a [] a
  question :
      (a next b : ℕ) (ls : List (List ℕ)) (names : List (List (List ℕ)))
      → OwnerAt m dnsh a ls next
      → QuestionsAt m dnsh (next + 4) names b
      → QuestionsAt m dnsh a (ls ∷ names) b

pass_questions-QuestionsAt :
    (fuel : ℕ) (m : Memory) (dnsh a b : ℕ) (names : List (List (List ℕ)))
    → QuestionsAt m dnsh a names b
    → 130 ≤ fuel
    → pass_questions fuel m dnsh (length names) a ≡ some (name b [])
unfolding pass_questions
pass_questions-QuestionsAt fuel m dnsh a _ _ (no_more _) enough = refl
pass_questions-QuestionsAt fuel m dnsh a b _ (question _ next _ ls names o q) enough =
    rw (pass_questions, extract_name-OwnerAt fuel m dnsh a ls next o enough)
      (pass_questions-QuestionsAt fuel m dnsh (next + 4) b names q enough)

-- What a record says of the name that owns it.
pub data Content : Type 0 where
  address : (ip : ℕ) → Content
  address6 : (ip : List ℕ) → Content
  alias : (target : List (List ℕ)) → Content
  other : Content

pub record Record : Type 0 where
  pub owner : List (List ℕ)
  pub content : Content

-- The lookup of a name, or of what it stands for, through records.
abbrev pub asked : List ℕ → Dns → Bool
asked domain_name s =
    is_zero (strcmp domain_name s.domain_name) || is_zero (strcmp domain_name s.domain_cname)

abbrev pub is_address : Content → Bool
is_address (address ip) = true
is_address (address6 ip) = true
is_address (alias target) = false
is_address other = false

-- What the record of a name that is asked for changes.
abbrev pub said : Content → Dns → Dns
said (address ip) s = record s { result_ip = ip }
said (address6 ip) s = record s { result_ipv6 = ip }
said (alias target) s = record s { domain_cname = encode target }
said other s = s

-- The first address of the name, or of a name that it stands for by an earlier record.
unfoldable pub resolve : List Record → Dns → Dns
resolve [] s = s
resolve (r ∷ records) s =
    let here = asked (encode r.owner) s in
    let next = if here then said r.content s else s in
    let rest = resolve records next in if here && is_address r.content then next else rest

abbrev pub ContentAt : Memory → ℕ → ℕ → Content → Type 0
ContentAt m dnsh a (address ip) = (load 2 m a ≡ 1) × (load 4 m (a + 10) ≡ ip)
ContentAt m dnsh a (address6 ip) = (load 2 m a ≡ 0x1c) × (bytes_from 16 m (a + 10) ≡ ip)
ContentAt m dnsh a (alias target) =
    (load 2 m a ≡ 5) × ((end : ℕ) × OwnerAt m dnsh (a + 10) target end)
ContentAt m dnsh a other = (load 2 m a ≢ 1) × (load 2 m a ≢ 5) × (load 2 m a ≢ 0x1c)

-- The records, of the class IN, stand one behind another from `a` on.
pub data RecordsAt (m : Memory) (dnsh : ℕ) : ℕ → List Record → Type 0 where
  no_record : (a : ℕ) → RecordsAt m dnsh a []
  record_at :
      (a next : ℕ) (r : Record) (records : List Record)
      → OwnerAt m dnsh a r.owner next
      → load 2 m (next + 2) ≡ 1
      → ContentAt m dnsh next r.content
      → RecordsAt m dnsh (next + (load 2 m (next + 8) + 10)) records
      → RecordsAt m dnsh a (r ∷ records)

-- A record whose name is asked for.
take_record-said :
    (fuel : ℕ) (m : Memory) (dnsh a : ℕ) (c : Content) (s : Dns)
    → ContentAt m dnsh a c
    → 130 ≤ fuel
    → take_record fuel m dnsh a s
      ≡ some (
          if is_address c
          then handled (returned 0 (said c s))
          else go_on (a + (load 2 m (a + 8) + 10)) (said c s))
unfolding take_record
take_record-said fuel m dnsh a (address ip) s (e, e') enough = rw (e, e') refl
take_record-said fuel m dnsh a (address6 ip) s (e, e') enough = rw (e, e') refl
take_record-said fuel m dnsh a (alias target) s (e, (end, o)) enough =
    rw (e, extract_name-OwnerAt fuel m dnsh (a + 10) target end o enough) refl
take_record-said fuel m dnsh a other s (n1, n5, n28) enough = rw (not_1, not_5, not_28) refl
  where
    not_1 : (load 2 m a == 1) ≡ false
    not_1 = ground (arith, n1)

    not_5 : (load 2 m a == 5) ≡ false
    not_5 = ground (arith, n5)

    not_28 : (load 2 m a == 0x1c) ≡ false
    not_28 = ground (arith, n28)

answer-said :
    (fuel : ℕ) (m : Memory) (dnsh a : ℕ) (r : Record) (s : Dns)
    → load 2 m (a + 2) ≡ 1
    → ContentAt m dnsh a r.content
    → 130 ≤ fuel
    → answer fuel m dnsh a (encode r.owner) s
      ≡ some (
          if asked (encode r.owner) s && is_address r.content
          then handled (returned 0 (said r.content s))
          else go_on
              (a + (load 2 m (a + 8) + 10))
              (if asked (encode r.owner) s then said r.content s else s))
unfolding answer
answer-said fuel m dnsh a r s e c enough = elim (Bool-cases (asked (encode r.owner) s)) [
  | inl here ↦ rw (e, here) (take_record-said fuel m dnsh a r.content s c enough)
  | inr elsewhere ↦ rw (e, elsewhere) refl
]

take_answers-resolve :
    (fuel : ℕ) (m : Memory) (dnsh a : ℕ) (records : List Record) (s : Dns)
    → RecordsAt m dnsh a records
    → 130 ≤ fuel
    → take_answers fuel m dnsh (length records) a s ≡ some (returned 0 (resolve records s))
unfolding take_answers resolve
take_answers-resolve fuel m dnsh a _ s (no_record _) enough = refl
take_answers-resolve fuel m dnsh a _ s (record_at _ next r records o e c h) enough =
    rw
      (
        take_answers,
        extract_name-OwnerAt fuel m dnsh a r.owner next o enough,
        answer-said fuel m dnsh next r s e c enough,
      )
      (elim (Bool-cases (asked (encode r.owner) s)) [
        | inr elsewhere ↦
            rw elsewhere (take_answers-resolve fuel m dnsh behind_r records s h enough)
        | inl here ↦ rw here (elim (Bool-cases (is_address r.content)) [
          | inl found ↦ rw found refl
          | inr more ↦
              rw more
                (take_answers-resolve fuel m dnsh behind_r records (said r.content s) h enough)
        ])
      ])
  where
    behind_r : ℕ
    behind_r = next + (load 2 m (next + 8) + 10)

-- A response, with as many questions and records as its header says.
pub record ResponseAt (m : Memory) (packet : ℕ) (names : List (List (List ℕ)))
    (records : List Record) : Type 0 where
  pub id : load 2 m packet ≡ 0x1234
  pub is_response : load 2 m (packet + 2) / 2 ^ 11 ≡ 16
  pub no_error : load 2 m (packet + 2) % 16 ≡ 0
  pub qdcount : load 2 m (packet + 4) ≡ length names
  pub ancount : load 2 m (packet + 6) ≡ length records
  pub answers : ℕ
  pub questions_at : QuestionsAt m packet (packet + 12) names answers
  pub records_at : RecordsAt m packet answers records

-- A message with the number of the queries, of a response without an error, holds as many
-- questions and records of the class IN as its header says, each with a name of labels of 1 to 63
-- characters and at most 255 bytes, written out or as a reference to one that is. With fuel of 130
-- or more, handle_dns returns 0 and leaves what a lookup through the records says: the first
-- address of the name that is asked for or of a canonical name that an earlier record gave for it.
pub handle_dns-resolve :
    (fuel : ℕ) (m : Memory) (packet : ℕ) (names : List (List (List ℕ))) (records : List Record)
    (s : Dns)
    → ResponseAt m packet names records
    → 130 ≤ fuel
    → handle_dns fuel m packet s ≡ some (returned 0 (resolve records s))
unfolding handle_dns take_response
handle_dns-resolve fuel m packet names records s r enough =
    rw
      (
        r.id,
        r.is_response,
        r.no_error,
        take_response,
        r.qdcount,
        pass_questions-QuestionsAt fuel m packet (packet + 12) r.answers names r.questions_at
            enough,
        r.ancount,
      )
      (take_answers-resolve fuel m packet r.answers records s r.records_at enough)
