-- ===== src/Nvram/Env/Examples.antt =====
-- lib/libnvram/envvar.c: the theorems on variables at a small memory.
use slof.Prelude.{ℕ, ◌≡◌, ◌==◌, ◌∷◌, ◌++◌, arith, refl, some, List, [], true, false, if◌then◌else◌}
use slof.Prelude.Int.{is_zero}
use slof.Libc.Compare.{strncmp, strncmp_loop}
use slof.Nvram.Store.{Nvram, read, load}
use slof.Nvram.Partition.{Partition}
use slof.Nvram.Env.{get_env, add_env}
use slof.Nvram.Env.Get.{IsEnv, Returned, find_var, has_equals, get_env-Returned}
use slof.Nvram.Env.Add.{CanAdd, add_env-IsEnv}
use slof.Nvram.Env.Append.{IsText, assignment}
use slof.Nvram.Env.RoundTrip.{IsName, NoneStarts, get_env-add_env}

-- The variable `a=1` at offset 16, and zeros.
abbrev stored : Nvram
stored = record {
  size = 128;
  bytes = λ j. if j == 16 then b'a' else if j == 17 then b'=' else if j == 18 then b'1' else 0;
  buffer = λ _. 0;
  locked = false;
}

abbrev common : Partition
common = record { addr = 16; len = 64 }

abbrev old : List ℕ
old = b'a' ∷ b'=' ∷ b'1' ∷ []

abbrev boot_name : List ℕ
boot_name = b'b' ∷ b'o' ∷ b'o' ∷ b't' ∷ []

abbrev boot_value : List ℕ
boot_value = b'n' ∷ b'e' ∷ b't' ∷ []

stored-IsEnv : IsEnv stored 16 (old ∷ []) 20
unfolding read load
stored-IsEnv = (
  ground arith,
  omega arith,
  (
    omega arith,
    refl,
    omega arith,
    (omega arith, refl, omega arith, (omega arith, refl, omega arith, (omega arith, refl))),
  ),
  (refl, omega arith, refl),
)

boot_name-IsText : IsText boot_name
boot_name-IsText = (
  omega arith,
  omega arith,
  (omega arith, omega arith, (omega arith, omega arith, (omega arith, omega arith, tt))),
)

boot_value-IsText : IsText boot_value
boot_value-IsText =
    (omega arith, omega arith, (omega arith, omega arith, (omega arith, omega arith, tt)))

boot-CanAdd : CanAdd stored common 20 boot_name boot_value
boot-CanAdd = record {
  small = omega arith;
  inside = omega arith;
  room = omega arith;
  short = omega arith;
  name_text = boot_name-IsText;
  value_text = boot_value-IsText;
  clear = refl;
  clear_next = refl;
}

boot-IsName : IsName boot_name
boot-IsName = (
  omega arith,
  omega arith,
  (omega arith, omega arith, (omega arith, omega arith, (omega arith, omega arith, tt))),
)

old-equals : has_equals old ≡ true
unfolding has_equals
old-equals = refl

boot-NoneStarts : NoneStarts (old ∷ []) boot_name
unfolding strncmp strncmp_loop
boot-NoneStarts = (refl, tt)

boot-nonempty : is_zero (strncmp boot_name [] 4) ≡ false
unfolding strncmp strncmp_loop
boot-nonempty = refl

get_env-Returned_example :
    Returned (find_var (old ∷ []) boot_name 4) (get_env [] stored common boot_name 4)
get_env-Returned_example =
    get_env-Returned stored (omega arith) boot_name 4 common (old ∷ []) 20 [] (omega arith)
      boot-nonempty stored-IsEnv (old-equals, tt)

add_env-IsEnv_example :
    (nv' : Nvram) × (add_env stored common boot_name 4 boot_value 3 ≡ (0, nv'))
    × (nv'.size ≡ 128)
    × IsEnv nv' 16 (old ∷ assignment boot_name boot_value ∷ []) 29
add_env-IsEnv_example =
    add_env-IsEnv common (old ∷ []) 20 boot_name boot_value stored-IsEnv boot-CanAdd

get_env-add_env_example :
    (nv' : Nvram) × (add_env stored common boot_name 4 boot_value 3 ≡ (0, nv'))
    × (tail : List ℕ) × (get_env [] nv' common boot_name 4 ≡ some (some (boot_value ++ (0 ∷ tail))))
get_env-add_env_example =
    get_env-add_env common (old ∷ []) 20 boot_name boot_value [] (omega arith) boot-IsName
      (ground arith) stored-IsEnv (old-equals, tt) boot-NoneStarts boot-CanAdd
