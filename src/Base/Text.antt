-- ===== src/Base/Text.antt =====
-- `std::string` and C strings as lists of bytes.
use Prim.Native.Char.{code}
use Prim.Native.String.{String}
use Prim.Native.Nat.{ℕ, zero, suc, ◌+◌, ◌-◌, ◌/◌, ◌%◌, ◌^◌, ◌≤◌, ◌<◌}
use mathlib.Core.Path.{◌≡◌, refl}
use mathlib.Core.Bool.{Bool, true, false, ◌&&◌, ◌||◌}
use mathlib.Core.Logic.{◌↔◌, ◌≢◌}
use mathlib.Core.List.{List, [], ◌∷◌, ◌++◌}
use mathlib.Core.Option.{Option, none, some}
use native.Mathlib.Omega.{arith}
use schedule_center.Base.Tests.{◌==◌, ltb, if◌then◌else◌}
use schedule_center.Base.Lists.{length, length-append}

abbrev pub Text : Type 0
Text = List ℕ

-- The bytes of an ASCII literal.
abbrev pub codes : String → Text
codes String.[] = []
codes (String.◌∷◌ c s) = code c ∷ codes s

-- `operator==`
unfoldable pub text_eq : Text → Text → Bool
text_eq [] [] = true
text_eq [] (_ ∷ _) = false
text_eq (_ ∷ _) [] = false
text_eq (a ∷ s) (b ∷ t) = (a == b) && text_eq s t

pub text_eq_iff : (s t : Text) → (text_eq s t ≡ true) ↔ (s ≡ t)
unfolding text_eq
text_eq_iff [] [] = (λ _. refl, λ _. refl)
text_eq_iff [] (b ∷ t) = (λ h. cc, λ h. cc)
text_eq_iff (a ∷ s) [] = (λ h. cc, λ h. cc)
text_eq_iff (a ∷ s) (b ∷ t) = ground (arith, text_eq_iff s t)

pub text_eq_refl : (s : Text) → text_eq s s ≡ true
text_eq_refl s = (text_eq_iff s s).1 refl

-- `operator<` on strings, which is the order of `std::map` and `std::set`.
unfoldable pub text_lt : Text → Text → Bool
text_lt s [] = false
text_lt [] (_ ∷ _) = true
text_lt (a ∷ s) (b ∷ t) = ltb a b || (a == b) && text_lt s t

-- `s.c_str()` as a C string: what stands before the first NUL.
unfoldable pub c_str : Text → Text
c_str [] = []
c_str (c ∷ s) = if c == 0 then [] else c ∷ c_str s

pub length-c_str : (s : Text) → length (c_str s) ≤ length s
unfolding c_str
length-c_str [] = omega arith
length-c_str (c ∷ s) = ground (arith, length-c_str s)

-- No byte of a text is NUL.
abbrev pub NoNul : Text → Type 0
NoNul [] = Unit
NoNul (c ∷ s) = (c ≢ 0) × NoNul s

pub c_str-append_nul : (s t : Text) → NoNul s → c_str (s ++ 0 ∷ t) ≡ s
unfolding c_str
c_str-append_nul [] t h = refl
c_str-append_nul (c ∷ s) t h = ground (arith, c_str-append_nul s t h.1)

pub c_str-id : (s : Text) → NoNul s → c_str s ≡ s
unfolding c_str
c_str-id [] h = refl
c_str-id (c ∷ s) h = ground (arith, c_str-id s h.1)

-- Decimal digits, most significant first, on fuel: `n` has at most as many digits as the fuel.
unfoldable pub digits : ℕ → ℕ → Text
digits zero n = []
digits (suc f) n =
    let more = digits f (n / 10) ++ (b'0' + n % 10) ∷ [] in
    if ltb n 10 then (b'0' + n) ∷ [] else more

pub length-digits : (f n : ℕ) → length (digits f n) ≤ f
unfolding digits
length-digits zero n = omega arith
length-digits (suc f) n =
    ground
      (arith, length-digits f (n / 10), length-append (digits f (n / 10)) ((b'0' + n % 10) ∷ []))

-- `%d` of an `int`, which is held as its 32-bit pattern. Ten digits hold every 32-bit number.
unfoldable pub show_int : ℕ → Text
show_int n = if ltb n (2 ^ 31) then digits 10 n else b'-' ∷ digits 10 (2 ^ 32 - n)

pub length-show_int : (n : ℕ) → length (show_int n) ≤ 11
unfolding show_int
length-show_int n = ground (arith, length-digits 10 n, length-digits 10 (2 ^ 32 - n))

-- `sprintf` into an array of `size` bytes: a text that does not fit with its NUL is written past
-- the end.
unfoldable pub sprintf : ℕ → Text → Option Text
sprintf size s = if ltb (length s) size then some s else none

pub sprintf-fits : (size : ℕ) (s : Text) → length s < size → sprintf size s ≡ some s
unfolding sprintf
sprintf-fits size s h = ground arith

pub sprintf-overflow : (size : ℕ) (s : Text) → size ≤ length s → sprintf size s ≡ none
unfolding sprintf
sprintf-overflow size s h = ground arith

show_int_examples : (show_int 407 ≡ codes "407") × (show_int (2 ^ 32 - 1) ≡ codes "-1")
unfolding show_int digits
show_int_examples = (refl, refl)
