-- ===== src/Examples/Sessions.antt =====
-- The answers of one phone about one account.
use schedule_center.Base.{
  ℕ, ◌-◌, ◌*◌, ◌<◌, List, Option, ◌++◌, ap, ◌+◌, ◌%◌, ◌^◌, true, ◌&&◌, [], ◌∷◌, none, some, ◌≡◌,
  refl, arith, if◌then◌else◌,
}
use schedule_center.Base.Text.{Text, codes, text_eq}
use schedule_center.Json.{Json}
use schedule_center.Protocol.{cmd_wx_login}
use schedule_center.Devices.{device_status_wx_vote_end, device_status_daily_task_end}
use schedule_center.Accounts.Data.{zero_account, wx_account_status_voted}
use schedule_center.Accounts.{AccountMgr, get_vote_status}
use schedule_center.Accounts.Idle.{CanVote}
use schedule_center.Accounts.Daily.{NeedsDaily}
use schedule_center.Phones.{no_error}
use schedule_center.Sessions.{Shared, returns, is_one_of, blocking_messages, vote_read, daily_read}
use schedule_center.Sessions.Answers.{
  IsReady, IsHandedBack, vote_read-succeeded, vote_read-refused, daily_read-succeeded,
}
use schedule_center.Boost.{Boost, Arg, number, text}
use schedule_center.Sessions.Wire.{phone_frame, read_text}
use schedule_center.Sessions.Frames.{IsDecimal, four_digits, read_text-phone_frame}
use schedule_center.Examples.{ip_a, server, login, live}
use schedule_center.Examples.Devices.{phones}

abbrev pub bob : Text
bob = codes "bob"

abbrev url : Text
url = codes "u1"

abbrev pub busy : AccountMgr server
busy = record { accounts_pro = (bob, zero_account) ∷ []; idle_accounts = []; db = live }

abbrev pub shared : Shared server login
shared = record {
  accounts = busy;
  devices = phones;
  votes = record { success_count = 3; target_count = 5 };
}

shared-IsReady : IsReady shared
shared-IsReady = record { accounts_live = (refl, refl); devices_live = (refl, refl) }

-- Trees are numbers: 0 a success, and any other number a login that was refused.
abbrev pub answers : Json
answers = record {
  Ptree = ℕ;
  read_json = λ _. none;
  has = λ _ _. true;
  child = λ _ _. none;
  get_int = λ pt _. some pt;
  get_string =
      λ pt key. if text_eq key (codes "cmd") then some cmd_wx_login else some (codes "Need unlock");
}

vote_read-succeeded_example :
    (s' : Shared server login) × (vote_read server login answers ip_a bob url no_error
        (some 0)
        shared
      ≡ some (returns s'))
    × IsHandedBack bob ip_a device_status_wx_vote_end shared s'
    × (s'.votes.success_count ≡ (3 + 1) % 2 ^ 32)
    × ((a u : Text)
        → get_vote_status server a u s'.accounts ≡ (
            if text_eq bob a && text_eq url u
            then wx_account_status_voted
            else get_vote_status server a u busy))
unfolding text_eq
vote_read-succeeded_example =
    vote_read-succeeded answers ip_a bob url 0 shared shared-IsReady (omega arith) (omega arith)
      refl

login_cmd : answers.get_string 1 (codes "cmd") ≡ some cmd_wx_login
unfolding text_eq
login_cmd = refl

unlock_message : answers.get_string 1 (codes "message") ≡ some (codes "Need unlock")
unfolding text_eq
unlock_message = refl

unlock_blocks : is_one_of (codes "Need unlock") blocking_messages ≡ true
unfolding text_eq
unlock_blocks = refl

vote_read-refused_example :
    (s' : Shared server login) × (vote_read server login answers ip_a bob url no_error
        (some 1)
        shared
      ≡ some (returns s'))
    × IsHandedBack bob ip_a device_status_wx_vote_end shared s'
    × (s'.votes ≡ shared.votes)
    × ((u : Text) → ¬ CanVote u s'.accounts.accounts_pro bob)
vote_read-refused_example =
    vote_read-refused answers ip_a bob url (codes "Need unlock") 1 1 shared shared-IsReady
      (omega arith) (omega arith) refl (λ e. omega (arith, e)) login_cmd unlock_message
      unlock_blocks

daily_read-succeeded_example :
    (s' : Shared server login) × (daily_read server login answers ip_a bob no_error (some 0) shared
      ≡ some (returns s'))
    × IsHandedBack bob ip_a device_status_daily_task_end shared s'
    × (s'.votes ≡ shared.votes)
    × (¬ NeedsDaily s'.accounts.accounts_pro bob)
daily_read-succeeded_example =
    daily_read-succeeded answers ip_a bob 0 shared shared-IsReady (omega arith) (omega arith) refl

-- Formats two arguments by the digits of the first one, and reads four digits.
abbrev format_two : List Arg → Text
format_two (number n ∷ text s ∷ []) = four_digits n ++ s
format_two _ = []

abbrev read_four : Text → Option ℕ
read_four (a ∷ b ∷ c ∷ d ∷ []) = some ((a - 48) * 1000 + (b - 48) * 100 + (c - 48) * 10 + (d - 48))
read_four _ = none

abbrev pub decimal : Boost
decimal = record {
  format = λ fmt args. format_two args;
  lexical_cast = read_four;
  base64_decode = λ s. s;
}

read_four_digits : (n : ℕ) → n < 10000 → read_four (four_digits n) ≡ some n
read_four_digits n h = ap some (omega arith)

decimal-IsDecimal : IsDecimal decimal
decimal-IsDecimal = record { pads = λ n s h. refl; reads = read_four_digits }

read_text-phone_frame_example :
    read_text decimal (phone_frame decimal (codes "ok") ++ codes "old") ≡ some (some (codes "ok"))
read_text-phone_frame_example =
    read_text-phone_frame decimal (codes "ok") (codes "old") decimal-IsDecimal
      (λ e. omega (arith, e), (λ e. omega (arith, e), tt)) (omega arith)
