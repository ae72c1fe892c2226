-- ===== src/Schedule/Frame.antt =====
-- The framing of the scheduling client's messages: four bytes of length, and the text.
use schedule_center.Base.{
  ℕ, suc, ◌<◌, ◌^◌, [], ◌∷◌, ◌++◌, none, some, ◌≡◌, refl, arith, length, length-append, take-append,
  drop, append_assoc, append-nil, add-one, lt→ltb,
}
use schedule_center.Base.Text.{Text, NoNul, c_str, c_str-id, c_str-append_nul}
use schedule_center.Protocol.{int_bytes, read_int}
use schedule_center.Protocol.Bytes.{read_int-int_bytes, drop-int_bytes}
use schedule_center.Schedule.{c_string, set_nul, read_frame}

c_string-NoNul : (s rest : Text) → NoNul s → c_string (s ++ 0 ∷ rest) ≡ some s
unfolding c_string
c_string-NoNul [] rest h = refl
c_string-NoNul (c ∷ s) rest h = ground (arith, c_string-NoNul s rest h.1)

NoNul-append : (s t : Text) → NoNul s → NoNul t → NoNul (s ++ t)
NoNul-append [] t hs ht = ht
NoNul-append (c ∷ s) t hs ht = (hs.0, NoNul-append s t hs.1 ht)

drop-append_suc : (s : Text) (c : ℕ) (t : Text) → drop (suc (length s)) (s ++ c ∷ t) ≡ t
drop-append_suc [] c t = refl
drop-append_suc (b ∷ s) c t = drop-append_suc s c t

-- The text is cut off at its length, with or without stale bytes behind it.
set_nul-c_str :
    (s stale : Text)
    → NoNul s
    → (t : Text) × (set_nul (length s) (s ++ stale) ≡ some t) × (c_str t ≡ s)
unfolding set_nul
set_nul-c_str s [] h = (s, rw (append-nil s) (ground arith), c_str-id s h)
set_nul-c_str s (c ∷ stale) h = (
  s ++ 0 ∷ stale,
  rw (add-one, take-append s (c ∷ stale), drop-append_suc s c stale)
      (rw (lt→ltb (length s) (length (s ++ c ∷ stale)) (omega (arith, length-append s (c ∷ stale))))
        refl),
  c_str-append_nul s stale h,
)

-- A message of the client: the length in four bytes, and the text.
abbrev pub frame : Text → Text
frame text = int_bytes (length text) ++ text

-- Any text with no NUL is taken out of the buffer as it was sent, whatever stale bytes of earlier
-- messages stand behind it, if there is a NUL among these.
pub read_frame-frame :
    (text stale rest : Text)
    → NoNul text
    → NoNul stale
    → length text < 2 ^ 32
    → (s : Text) × (read_frame (frame text ++ (stale ++ 0 ∷ rest)) ≡ some s) × (c_str s ≡ text)
unfolding read_frame
read_frame-frame text stale rest ht hs short =
    let (s, cut, same) = set_nul-c_str text stale ht in
    (
      s,
      rw (append_assoc (int_bytes (length text)) text (stale ++ 0 ∷ rest)) (
          rw (read_int-int_bytes (length text) (text ++ (stale ++ 0 ∷ rest)) short) (
            rw (drop-int_bytes (length text) (text ++ (stale ++ 0 ∷ rest))) (
              rw (← append_assoc text stale (0 ∷ rest))
                (rw (c_string-NoNul (text ++ stale) rest (NoNul-append text stale ht hs)) cut)))),
      same,
    )

-- A length that is greater than that of the C string in the buffer makes `handle_read` write past
-- the end of a string, and a negative length does.
pub read_frame_fault :
    (buffer s : Text) (len : ℕ)
    → read_int buffer ≡ some len
    → c_string (drop 4 buffer) ≡ some s
    → length s < len
    → read_frame buffer ≡ none
unfolding read_frame set_nul
read_frame_fault buffer s len e e' h = ground arith
