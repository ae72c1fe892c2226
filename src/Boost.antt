-- ===== src/Boost.antt =====
-- What the program uses of Boost's text conversions: boost::format, lexical_cast and the base64
-- iterators.
use schedule_center.Base.{ℕ, List, Option}
use schedule_center.Base.Text.{Text}

-- An argument of a format: a number (an `int` as its 32-bit pattern) or a text.
pub data Arg : Type 0 where
  number : ℕ → Arg
  text : Text → Arg

pub record Boost : Type 0 where
  -- `(boost::format(fmt) % … % …).str()`
  pub format : Text → List Arg → Text
  -- `lexical_cast<int>` of a C string; `none`: `bad_lexical_cast`.
  pub lexical_cast : Text → Option ℕ
  -- `copy(Base64DecodeIterator(s.begin()), Base64DecodeIterator(s.end()), …)`
  pub base64_decode : Text → Text
