-- ===== src/Config/Bounds.antt =====
-- The ranges of the settings, whatever the file says.
use g_max_linked.Base.{
  ℕ, ◌+◌, ◌^◌, ◌%◌, ◌<◌, ◌≤◌, ◌≡◌, ◌⊎◌, inl, inr, refl, true, Option, none, some, List, ◌==◌,
  if◌then◌else◌, ◌>>=◌, length, zero, suc, ◌-◌, min, length-take, if_elim, Bool-cases, ◌||◌, u32,
  arith,
}
use native.Mathlib.Nat.{mod-lt}
use g_max_linked.ConfReader.{
  ConfReader, Result, ok, error, first, number, strtol, cut, Parsed, value, missing, out_of_fuel,
  read_string, read_byte, read_short, read_int, parse_file,
}
use g_max_linked.Config.{number_or, text_or, duration}

-- If there is a result, it has the property.
abbrev pub Holds : {A : Type 0} → (A → Type 0) → Option A → Type 0
Holds P none = Unit
Holds P (some a) = P a

pub Holds-bind :
    {A B : Type 0} (P : A → Type 0) (Q : B → Type 0) (o : Option A) (f : A → Option B)
    → Holds P o
    → ((a : A) → P a → Holds Q (f a))
    → Holds Q (o >>= f)
Holds-bind P Q none f h k = tt
Holds-bind P Q (some a) f h k = k a h

-- A number that fits and is the default or not 0.
abbrev pub Fits : ℕ → ℕ → ℕ → Type 0
Fits size default n = (n < size) × ((n ≡ default) ⊎ (0 < n))

Fits-if :
    (size default n : ℕ)
    → default < size
    → n < size
    → Fits size default (if n == 0 then default else n)
Fits-if size default n h k = ground arith

pub number_or-Fits :
    (size default : ℕ) (o : Option (Result (List ℕ)))
    → 0 < size
    → default < size
    → Holds (Fits size default) (number_or default (number size o))
unfolding number_or number
number_or-Fits size default none z h = tt
number_or-Fits size default (some (ok v)) z h =
    Fits-if size default (u32 (strtol v) % size) h (mod-lt (u32 (strtol v)) z)
number_or-Fits size default (some (error e)) z h = (h, inl refl)

pub read_short-Fits :
    (default : ℕ) (conf : ConfReader) (section key : List ℕ)
    → default < 2 ^ 16
    → Holds (Fits (2 ^ 16) default) (number_or default (read_short conf section key))
unfolding read_short
read_short-Fits default conf section key h =
    number_or-Fits (2 ^ 16) default (read_string conf section key 32) (omega arith) h

pub read_int-Fits :
    (default : ℕ) (conf : ConfReader) (section key : List ℕ)
    → default < 2 ^ 32
    → Holds (Fits (2 ^ 32) default) (number_or default (read_int conf section key))
unfolding read_int
read_int-Fits default conf section key h =
    number_or-Fits (2 ^ 32) default (read_string conf section key 32) (omega arith) h

pub read_byte-Fits :
    (default : ℕ) (conf : ConfReader) (section key : List ℕ)
    → default < 2 ^ 8
    → Holds (Fits (2 ^ 8) default) (number_or default (read_byte conf section key))
unfolding read_byte
read_byte-Fits default conf section key h =
    number_or-Fits (2 ^ 8) default (read_string conf section key 32) (omega arith) h

-- A text that is stored leaves room for its final 0; an error has one of the three numbers.
abbrev pub StoresIn : ℕ → Result (List ℕ) → Type 0
StoresIn size (ok v) = length v < size
StoresIn size (error e) = (1 ≤ e) × (e ≤ 3)

cut-StoresIn : (size : ℕ) (o : Option Parsed) → 0 < size → Holds (StoresIn size) (cut size o)
cut-StoresIn size none h = tt
cut-StoresIn size (some (value v)) h = omega (arith, length-take {0} (min (size - 1) (length v)) v)
cut-StoresIn size (some missing) h = omega arith
cut-StoresIn size (some out_of_fuel) h = tt

-- Whatever the file holds, `readString` writes at most `size` bytes to the place for the text, its final
-- 0 included, and otherwise returns one of the errors 1, 2 and 3.
pub read_string-StoresIn :
    (conf : ConfReader) (section key : List ℕ) (size : ℕ)
    → Holds (StoresIn size) (read_string conf section key size)
unfolding read_string
read_string-StoresIn conf section key zero =
    elim (Bool-cases (length section == 0 || length key == 0)) [
      | inl e ↦ rw e (omega arith)
      | inr e ↦ rw e (omega arith)
    ]
read_string-StoresIn conf section key (suc size) =
    if_elim (Holds (StoresIn (suc size)))
      ((length section == 0 || length key == 0) || suc size == 0) (some (error 1))
      (if conf.buffer_size == 0
        then some (error 2)
        else cut (suc size) (parse_file (length conf.buffer + 1) section key true conf.buffer))
      (omega arith)
      (if_elim (Holds (StoresIn (suc size))) (conf.buffer_size == 0) (some (error 2))
        (cut (suc size) (parse_file (length conf.buffer + 1) section key true conf.buffer))
        (omega arith)
        (cut-StoresIn (suc size) (parse_file (length conf.buffer + 1) section key true conf.buffer)
          (omega arith)))

pub text_or-shorter :
    (size : ℕ) (default : List ℕ) (o : Option (Result (List ℕ)))
    → length default < size
    → Holds (StoresIn size) o
    → Holds (λ (t : List ℕ). length t < size) (text_or default o)
unfolding text_or
text_or-shorter size default none h k = tt
text_or-shorter size default (some (ok v)) h k =
    if_elim (λ (t : List ℕ). length t < size) (first v == 0) default v h k
text_or-shorter size default (some (error e)) h k = h

pub duration-cases :
    (o : Option (Result ℕ)) → Holds (λ d. (d ≡ 15892094820647174144) ⊎ (d < 2 ^ 32)) (duration o)
unfolding duration
duration-cases none = tt
duration-cases (some (ok n)) = ground arith
duration-cases (some (error e)) = inl refl
