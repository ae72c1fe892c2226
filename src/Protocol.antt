-- ===== src/Protocol.antt =====
-- inc/public/protocol_define.h: the commands, and the byte layout of an `int` in a message
-- (little-endian, as the code copies it by `memcpy`).
pub mod Bytes
use schedule_center.Base.{ℕ, ◌+◌, ◌*◌, ◌/◌, ◌%◌, List, [], ◌∷◌, Option, none, some}
use schedule_center.Base.Text.{Text, codes}

abbrev pub cmd_lua_exit : Text
cmd_lua_exit = codes "90000001"

abbrev pub cmd_upload_file : Text
cmd_upload_file = codes "90000002"

abbrev pub cmd_download_file : Text
cmd_download_file = codes "90000003"

abbrev pub cmd_wx_login : Text
cmd_wx_login = codes "00000001"

abbrev pub cmd_wx_logout : Text
cmd_wx_logout = codes "00000002"

abbrev pub cmd_wx_chang_usr : Text
cmd_wx_chang_usr = codes "00000003"

abbrev pub cmd_wx_add_friend : Text
cmd_wx_add_friend = codes "00000004"

abbrev pub cmd_wx_create_group : Text
cmd_wx_create_group = codes "00000005"

abbrev pub cmd_wx_send_msg : Text
cmd_wx_send_msg = codes "00000006"

abbrev pub cmd_wx_send_group_msg : Text
cmd_wx_send_group_msg = codes "00000007"

abbrev pub cmd_wx_add_mp : Text
cmd_wx_add_mp = codes "00000008"

abbrev pub cmd_wx_comment_sns : Text
cmd_wx_comment_sns = codes "00000009"

abbrev pub cmd_wx_upvote_sns : Text
cmd_wx_upvote_sns = codes "00000010"

abbrev pub cmd_wx_vote : Text
cmd_wx_vote = codes "00000011"

abbrev pub cmd_wx_send_sns : Text
cmd_wx_send_sns = codes "00000012"

abbrev pub cmd_wx_update_nickname : Text
cmd_wx_update_nickname = codes "00000013"

abbrev pub cmd_wx_add_near_friend : Text
cmd_wx_add_near_friend = codes "00000014"

abbrev pub cmd_wx_update_sex : Text
cmd_wx_update_sex = codes "00000015"

abbrev pub cmd_wx_random_send_msg : Text
cmd_wx_random_send_msg = codes "00000016"

abbrev pub cmd_wx_random_send_sns : Text
cmd_wx_random_send_sns = codes "00000017"

abbrev pub cmd_wx_clear_msg_record : Text
cmd_wx_clear_msg_record = codes "00000018"

abbrev pub cmd_app_heartbeat : ℕ
cmd_app_heartbeat = 0

abbrev pub cmd_app_start_lua : ℕ
cmd_app_start_lua = 1

abbrev pub cmd_app_restart_lua : ℕ
cmd_app_restart_lua = 2

abbrev pub cmd_app_stop_lua : ℕ
cmd_app_stop_lua = 3

abbrev pub cmd_app_reboot : ℕ
cmd_app_reboot = 4

abbrev pub cmd_app_install_apk : ℕ
cmd_app_install_apk = 5

abbrev pub cmd_sche_wx_vote : ℕ
cmd_sche_wx_vote = 0x10000000

abbrev pub cmd_sche_wx_get_result : ℕ
cmd_sche_wx_get_result = 0x10000001

abbrev pub phone_port : ℕ
phone_port = 9528

abbrev pub schedule_port : ℕ
schedule_port = 9529

abbrev pub script_port : ℕ
script_port = 9527

-- The four bytes of an `int`, held as its 32-bit pattern.
unfoldable pub int_bytes : ℕ → Text
int_bytes n = n % 256 ∷ ((n / 256) % 256) ∷ ((n / 65536) % 256) ∷ ((n / 16777216) % 256) ∷ []

-- `memcpy(&n, p, 4)`; `none` is a read past the end of the array.
unfoldable pub read_int : Text → Option ℕ
read_int (a ∷ b ∷ c ∷ d ∷ _) = some (a + 256 * b + 65536 * c + 16777216 * d)
read_int _ = none

-- MSG_CMD_APP_RECV
pub record AppRecv : Type 0 where
  pub cmd : ℕ
  pub result : ℕ

-- MSG_CMD_APP_SEND
pub record AppSend : Type 0 where
  pub cmd : ℕ

-- MSG_CMD_LUA_SEND and MSG_CMD_LUA_RECV: the length in four digits.
pub record LuaSend : Type 0 where
  pub len : Text
  pub json_data : Text

-- MSG_CMD_SCHE_SEND and MSG_CMD_SCHE_RECV
pub record ScheSend : Type 0 where
  pub len : ℕ
  pub json_data : Text
