-- ===== src/Sessions/Wire.antt =====
-- What a session sends to its phone and reads from it (src/wx/wx_vote_session.cpp,
-- keep_wx_account_session.cpp): the scripts' commands, and four characters of length before a text.
use schedule_center.Base.{
  ℕ, ◌+◌, ◌-◌, ◌^◌, [], ◌∷◌, Option, none, some, leb, ◌==◌, if◌then◌else◌, ◌>>=◌, ◌&&◌, length,
  take, drop,
}
use schedule_center.Base.Text.{Text, codes, c_str}
use schedule_center.Base.Map.{Map}
use schedule_center.Boost.{Boost, number, text}
use schedule_center.Json.{Json}
use schedule_center.Mysql.{Connector, Login}
use schedule_center.Protocol.{
  cmd_wx_login, cmd_wx_add_mp, cmd_wx_clear_msg_record, cmd_wx_send_msg, cmd_download_file,
  cmd_wx_vote, cmd_wx_logout, cmd_wx_add_near_friend, cmd_wx_random_send_sns,
}
use schedule_center.Accounts.Data.{AccountPro}
use schedule_center.Accounts.{account}
use schedule_center.Phones.{Ec, no_error, operation_aborted, other_error}
use schedule_center.Sessions.{Shared, Handled, escapes, vote_read, daily_read}

abbrev pub kvote_cmd_format : Text
kvote_cmd_format =
    codes
      "[[\"%1%\",\"%2%\",\"%3%\",\"%4%\"],[\"%5%\",\"%6%\"],[\"%7%\",\"%8%\"],[\"%9%\",\"%10%\",\"%11%\"],[\"%12%\",\"%13%\",\"%14%\"],[\"%15%\"],[\"%16%\"]]"

abbrev pub kdownload_to_path : Text
kdownload_to_path = codes "/mnt/sdcard/TouchSprite/lua/wx/wx_vote.lua"

abbrev pub kkeep_wx_acc_cmd_format : Text
kkeep_wx_acc_cmd_format = codes "[[\"%1%\",\"%2%\",\"%3%\",\"%4%\"],[\"%5%\"],[\"%6%\"],[\"%7%\"]]"

-- What `on_connected` of a voting session takes from the order.
pub record Order : Type 0 where
  pub script : Text
  pub url : Text
  pub mp : Text

-- `none`: a key is missing, which throws.
unfoldable pub read_order : (j : Json) → j.Ptree → Option Order
read_order j pt = do
  script ← j.get_string pt (codes "script")
  url ← j.get_string pt (codes "url")
  mp ← j.get_string pt (codes "MP")
  some (record { script = script; url = url; mp = mp })

-- The bytes of `a_session::buffer_`.
abbrev pub buffer_size : ℕ
buffer_size = 8192

-- The C string `json_data` that is cut out of the buffer, by its length. The inner `none` is an
-- exception: `new char[…]` of a negative size. The outer one is a copy past the end
-- of the buffer, of which the text holds what has been read so far; with
-- the length -1 nothing is allocated and `memcpy` copies without end.
abbrev pub cut_text : ℕ → Text → Option (Option Text)
cut_text len buffer =
    if len == 2 ^ 32 - 1
    then none
    else if leb (2 ^ 31) len
    then some none
    else if leb (len + 4) buffer_size && leb (len + 4) (length buffer)
    then some (some (c_str (take len (drop 4 buffer))))
    else none

module _ (b : Boost) where
  -- `fmterB % s.length() % s`
  unfoldable pub phone_frame : Text → Text
  phone_frame s = b.format (codes "%|1$04d|%2%") (number (length s) ∷ text s ∷ [])

  -- The message of a voting session for an account, with its properties in the copied map.
  unfoldable pub vote_command : Order → Text → Map AccountPro → Text
  unfolding phone_frame
  vote_command o acc apc = phone_frame (
      b.format kvote_cmd_format (
        text cmd_wx_login
        ∷ text acc
        ∷ text (account acc apc).password
        ∷ text (account acc apc).imei
        ∷ text cmd_wx_add_mp
        ∷ text o.mp
        ∷ text cmd_wx_clear_msg_record
        ∷ text (account acc apc).nickname
        ∷ text cmd_wx_send_msg
        ∷ text (account acc apc).nickname
        ∷ text (b.base64_decode o.url)
        ∷ text cmd_download_file
        ∷ text o.script
        ∷ text kdownload_to_path
        ∷ text cmd_wx_vote
        ∷ text cmd_wx_logout
        ∷ []))

  -- The message of a daily session.
  unfoldable pub daily_command : Text → Map AccountPro → Text
  unfolding phone_frame
  daily_command acc apc = phone_frame (
      b.format kkeep_wx_acc_cmd_format (
        text cmd_wx_login
        ∷ text acc
        ∷ text (account acc apc).password
        ∷ text (account acc apc).imei
        ∷ text cmd_wx_add_near_friend
        ∷ text cmd_wx_random_send_sns
        ∷ text cmd_wx_logout
        ∷ []))

  -- How the read handlers take the text out of the buffer; `lexical_cast` may throw.
  unfoldable pub read_text : Text → Option (Option Text)
  read_text buffer = elim (b.lexical_cast (c_str (take 4 buffer))) [
    | none ↦ some none
    | some len ↦ cut_text len buffer
  ]

  module _ (c : Connector) (login : Login) (j : Json) where
    abbrev pub vote_parse :
        Text
        → Text
        → Text
        → Option (Option Text)
        → Shared c login
        → Option (Handled (Shared c login))
    vote_parse ip acc url none s = none
    vote_parse ip acc url (some none) s = some escapes
    vote_parse ip acc url (some (some t)) s =
        vote_read c login j ip acc url no_error (j.read_json t) s

    -- `wx_vote_session::handle_read`. The static stream is taken to be empty on entry.
    unfoldable pub vote_handle_read :
        Text → Text → Text → Ec → Text → Shared c login → Option (Handled (Shared c login))
    vote_handle_read ip acc url no_error buffer s = vote_parse ip acc url (read_text buffer) s
    vote_handle_read ip acc url operation_aborted buffer s =
        vote_read c login j ip acc url operation_aborted none s
    vote_handle_read ip acc url other_error buffer s =
        vote_read c login j ip acc url other_error none s

    abbrev pub daily_parse :
        Text → Text → Option (Option Text) → Shared c login → Option (Handled (Shared c login))
    daily_parse ip acc none s = none
    daily_parse ip acc (some none) s = some escapes
    daily_parse ip acc (some (some t)) s = daily_read c login j ip acc no_error (j.read_json t) s

    -- `keep_wx_account_session::handle_read`
    unfoldable pub daily_handle_read :
        Text → Text → Ec → Text → Shared c login → Option (Handled (Shared c login))
    daily_handle_read ip acc no_error buffer s = daily_parse ip acc (read_text buffer) s
    daily_handle_read ip acc operation_aborted buffer s =
        daily_read c login j ip acc operation_aborted none s
    daily_handle_read ip acc other_error buffer s = daily_read c login j ip acc other_error none s
