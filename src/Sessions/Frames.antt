-- ===== src/Sessions/Frames.antt =====
-- The four characters of length before a text between a session and its phone.
use schedule_center.Base.{
  refl, ℕ, ◌+◌, ◌/◌, ◌%◌, ◌^◌, ◌≤◌, ◌<◌, true, false, [], ◌∷◌, ◌++◌, some, ◌≡◌, leb, ◌==◌, ◌-◌,
  arith, length, length-append, take-append,
}
use schedule_center.Base.Text.{Text, NoNul, codes, c_str-id}
use schedule_center.Boost.{Boost, number, text}
use schedule_center.Sessions.Wire.{buffer_size, phone_frame, cut_text, read_text}

-- Four decimal digits, most significant first.
abbrev pub four_digits : ℕ → Text
four_digits n =
    (b'0' + n / 1000) ∷ (b'0' + n / 100 % 10) ∷ (b'0' + n / 10 % 10) ∷ (b'0' + n % 10) ∷ []

-- What Boost documents of the two conversions: `%|1$04d|` pads a number to four characters by
-- zeros, and `lexical_cast<int>` reads decimal digits.
pub record IsDecimal (b : Boost) : Type 0 where
  pub pads :
      (n : ℕ) (s : Text)
      → n < 10000
      → b.format (codes "%|1$04d|%2%") (number n ∷ text s ∷ []) ≡ four_digits n ++ s
  pub reads : (n : ℕ) → n < 10000 → b.lexical_cast (four_digits n) ≡ some n

leb-true : (a b : ℕ) → a ≤ b → leb a b ≡ true
leb-true a b h = ground arith

leb-false : (a b : ℕ) → b < a → leb a b ≡ false
leb-false a b h = ground arith

not_minus_one : (n : ℕ) → n < 10000 → (n == 2 ^ 32 - 1) ≡ false
not_minus_one n h = ground arith

four_digits-NoNul : (n : ℕ) → NoNul (four_digits n)
four_digits-NoNul n = (
  λ e. omega (arith, e),
  (λ e. omega (arith, e), (λ e. omega (arith, e), (λ e. omega (arith, e), tt))),
)

cut_text-frame :
    (n : ℕ) (s rest : Text)
    → NoNul s
    → length s + 4 ≤ buffer_size
    → cut_text (length s) (four_digits n ++ (s ++ rest)) ≡ some (some s)
cut_text-frame n s rest h short =
    rw
      (
        not_minus_one (length s) (omega arith),
        leb-false (2 ^ 31) (length s) (omega arith),
        leb-true (length s + 4) buffer_size short,
        leb-true (length s + 4) (length (four_digits n ++ (s ++ rest)))
            (omega (arith, length-append s rest)),
        take-append s rest,
        c_str-id s h,
      )
      refl

-- A text with no NUL and of at most 8188 bytes, which fits the buffer of 8192 bytes with its length
-- before it, is read back as it was framed, whatever bytes of earlier messages follow it there.
pub read_text-phone_frame :
    (b : Boost) (s rest : Text)
    → IsDecimal b
    → NoNul s
    → length s + 4 ≤ buffer_size
    → read_text b (phone_frame b s ++ rest) ≡ some (some s)
unfolding read_text phone_frame
read_text-phone_frame b s rest dec h short = rw (dec.pads (length s) s (omega arith)) (
    rw (c_str-id (four_digits (length s)) (four_digits-NoNul (length s)), read_text)
      (rw (dec.reads (length s) (omega arith)) (cut_text-frame (length s) s rest h short)))
