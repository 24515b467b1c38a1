-- ===== src/Net/Address/Ends.antt =====
-- lib/libnet/args.c: `strtoip_netmask` ends.
use slof.Prelude.{
  ℕ, zero, suc, ◌+◌, ◌≤◌, ◌<◌, ◌≡◌, ◌≢◌, ◌==◌, arith, refl, inl, inr, Bool-cases, ltb,
}
use slof.Prelude.{
  Bool, true, false, not, ◌||◌, Option, none, some, List, [], ◌∷◌, ◌++◌, length, get_or,
  if◌then◌else◌,
}
use slof.Libc.Ctype.{isdigit}
use slof.Net.Address.{
  Outcome, returns, past_end, out_of_fuel, Scan, Round, stop, again, next_octet, octet_value,
  read_netmask, store_octet, scan_round, scan_from, strtoip_netmask,
}

pub length-snoc : (xs : List ℕ) (x : ℕ) → length (xs ++ (x ∷ [])) ≡ length xs + 1
length-snoc [] x = refl
length-snoc (y ∷ xs) x = omega (arith, length-snoc xs x)

-- A round from `n` octets that does not end the loop stores one, and there were at most three.
data Stores (n : ℕ) : Round → Type 0 where
  stopped : {o : Outcome} → o ≢ out_of_fuel → Stores n (stop o)
  stored : {t : Scan} → n ≤ 3 → length t.ip ≡ n + 1 → Stores n (again t)

Stores-if :
    {n : ℕ} (b : Bool) {x y : Round} → Stores n x → Stores n y → Stores n (if b then x else y)
Stores-if true p q = p
Stores-if false p q = q

returned :
    {n result : ℕ} {ip : List ℕ} {netmask : Option ℕ} → Stores n (stop (returns result ip netmask))
returned = stopped (ground arith)

passed : {n : ℕ} → Stores n (stop past_end)
passed = stopped (ground arith)

read_netmask-Stores :
    (wanted : Bool) (s : Scan) (n : ℕ)
    → n ≤ 3
    → length s.ip ≡ n + 1
    → Stores n (read_netmask wanted s)
unfolding read_netmask
read_netmask-Stores wanted s n l h = Stores-if _ passed (Stores-if _ returned (stored l h))

store_octet-Stores :
    (wanted : Bool) (s : Scan) (octet rest : List ℕ) (nn : Bool)
    → length s.ip ≤ 3
    → Stores (length s.ip) (store_octet wanted s octet rest nn)
unfolding store_octet
store_octet-Stores wanted s octet rest nn l =
    let one_more = length-snoc s.ip (octet_value octet) in
    Stores-if _ returned
      (Stores-if _ (read_netmask-Stores wanted _ (length s.ip) l one_more) (stored l one_more))

scan_round-Stores : (wanted : Bool) (s : Scan) → Stores (length s.ip) (scan_round wanted s)
unfolding scan_round
scan_round-Stores wanted s = elim (Bool-cases (get_or s.str 0 0 == 0)) [
  | inl z ↦ rw z returned
  | inr z ↦ elim (Bool-cases (ltb 3 (length s.ip) || not (isdigit (get_or s.str 0 0)))) [
    | inl e ↦ rw (z, e) returned
    | inr e ↦ rw (z, e) (cut (next_octet s.str).0 (ground arith))
  ]
]
  where
    cut :
        (o : Option (List ℕ × List ℕ))
        → length s.ip ≤ 3
        → Stores (length s.ip) (elim o as (λ _. Round) [
          | none ↦ stop (returns 0 s.ip s.netmask)
          | some p ↦ store_octet wanted s p.0 p.1 (next_octet s.str).1
        ])
    cut none l = returned
    cut (some p) l = store_octet-Stores wanted s p.0 p.1 (next_octet s.str).1 l

scan_from-ends :
    (fuel : ℕ) (wanted : Bool) (s : Scan)
    → 4 < fuel + length s.ip
    → length s.ip ≤ 4
    → scan_from fuel wanted s ≢ out_of_fuel
unfolding scan_from
scan_from-ends zero wanted s h k = absurd (omega arith)
scan_from-ends (suc fuel) wanted s h k =
    go (scan_round wanted s) (scan_round-Stores wanted s) (scan_from-ends fuel wanted)
  where
    go :
        (r : Round)
        → Stores (length s.ip) r
        → ((t : Scan)
            → 4 < fuel + length t.ip
            → length t.ip ≤ 4
            → scan_from fuel wanted t ≢ out_of_fuel)
        → (elim r as (λ _. Outcome) [ stop o ↦ o | again t ↦ scan_from fuel wanted t ])
          ≢ out_of_fuel
    go (stop o) (stopped p) ih = p
    go (again t) (stored l p) ih = ih t (omega arith) (omega arith)

-- `strtoip_netmask` ends on every string: the fuel of the model is enough.
pub strtoip_netmask-ends : (str : List ℕ) (wanted : Bool) → strtoip_netmask str wanted ≢ out_of_fuel
unfolding strtoip_netmask
strtoip_netmask-ends str wanted = scan_from-ends 6 wanted _ (omega arith) (omega arith)
