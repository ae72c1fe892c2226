-- ===== src/Examples/Accounts.antt =====
-- Two accounts: one that is marked abnormal, and one that has voted for one url.
use schedule_center.Base.{
  ℕ, true, false, ◌&&◌, [], ◌∷◌, none, some, ◌≡◌, refl, arith, if◌then◌else◌, modify,
}
use schedule_center.Base.Text.{Text, codes, text_eq, c_str}
use schedule_center.Base.Map.{Map, find, insert, insert_new}
use schedule_center.Mysql.Live.{IsLive}
use schedule_center.Accounts.Data.{
  AccountPro, zero_account, wx_account_status_voted, wx_account_status_abnormal,
}
use schedule_center.Accounts.Load.{load_data}
use schedule_center.Accounts.{
  AccountMgr, pick, vote_status, may_vote, get_idle_not_vote_account, get_idle_not_vote_count,
  get_idle_not_daily_task_account, set_vote_status, get_vote_status, reset_all_everyday_task,
}
use schedule_center.Accounts.Idle.{
  CanVote, Turn, HasStatus, Lowers, get_idle_not_vote_account_lem, get_idle_not_vote_count-get,
}
use schedule_center.Accounts.Daily.{NeedsDaily, IdleKnown, get_idle_not_daily_task_account_lem}
use schedule_center.Accounts.Update.{get_vote_status-set_vote_status}
use schedule_center.Accounts.Reset.{reset, reset_all_everyday_task_lem}
use schedule_center.Accounts.Known.{apply, vote_turn}
use schedule_center.Accounts.Loaded.{load_data-IdleKnown}
use schedule_center.Accounts.Race.{Nodes, read_node, searching, erasing, run, double_hand_out}
use schedule_center.Examples.{ip_a, server, login, live}

abbrev pub ann : Text
ann = codes "ann"

abbrev pub bob : Text
bob = codes "bob"

abbrev url : Text
url = codes "u1"

abbrev pub url_2 : Text
url_2 = codes "u2"

abbrev blocked : AccountPro
blocked = record zero_account { status = wx_account_status_abnormal }

abbrev voter : AccountPro
voter = record zero_account { voted_url = (url, tt) ∷ [] }

abbrev accounts : Map AccountPro
accounts = (ann, blocked) ∷ (bob, voter) ∷ []

abbrev pub mgr : AccountMgr server
mgr = record { accounts_pro = accounts; idle_accounts = ann ∷ bob ∷ []; db = live }

turns :
    (get_idle_not_vote_account server url_2 mgr
      ≡ (some bob, record mgr { idle_accounts = ann ∷ [] }))
    × (get_idle_not_vote_account server url mgr ≡ (none, mgr))
    × (get_idle_not_vote_count server url_2 mgr ≡ 1)
unfolding get_idle_not_vote_account get_idle_not_vote_count find text_eq
turns = (refl, refl, refl)

get_idle_not_vote_account_lem_example :
    Turn server (CanVote url_2 accounts) mgr (get_idle_not_vote_account server url_2 mgr)
get_idle_not_vote_account_lem_example = get_idle_not_vote_account_lem url_2 mgr

accounts-HasStatus : HasStatus accounts
unfolding find
accounts-HasStatus acc p e = ground arith

get_idle_not_vote_count-get_example :
    Lowers server url_2
      (get_idle_not_vote_count server url_2 mgr)
      (get_idle_not_vote_account server url_2 mgr)
get_idle_not_vote_count-get_example = get_idle_not_vote_count-get url_2 mgr accounts-HasStatus

accounts-IdleKnown : IdleKnown accounts (ann ∷ bob ∷ [])
unfolding find text_eq
accounts-IdleKnown = (refl, (refl, tt))

get_idle_not_daily_task_account_lem_example :
    Turn server (NeedsDaily accounts) mgr (get_idle_not_daily_task_account server mgr)
get_idle_not_daily_task_account_lem_example =
    get_idle_not_daily_task_account_lem mgr accounts-IdleKnown

get_vote_status-set_vote_status_example :
    (m' : AccountMgr server) × (set_vote_status server login bob url_2 2 mgr ≡ some m')
    × IsLive m'.db
    × (m'.idle_accounts ≡ mgr.idle_accounts)
    × ((j u : Text)
        → get_vote_status server j u m' ≡ (
            if text_eq bob j && text_eq url_2 u
            then wx_account_status_voted
            else get_vote_status server j u mgr))
unfolding text_eq
get_vote_status-set_vote_status_example =
    get_vote_status-set_vote_status login bob mgr url_2 2 (refl, refl) (omega arith)

reset_all_everyday_task_lem_example :
    (m' : AccountMgr server) × (reset_all_everyday_task server login mgr ≡ some m')
    × IsLive m'.db
    × (m'.idle_accounts ≡ mgr.idle_accounts)
    × ((j : Text) → find j m'.accounts_pro ≡ modify reset (find j accounts))
reset_all_everyday_task_lem_example =
    reset_all_everyday_task_lem login mgr (refl, refl) (omega arith, (omega arith, tt))

abbrev loaded : AccountMgr server
loaded = record {
  accounts_pro =
      (
        ip_a,
        record {
          password = ip_a;
          nickname = ip_a;
          imei = ip_a;
          imsi = ip_a;
          wxh = ip_a;
          everyday_task_completed = 0;
          status = 0;
          voted_url = (ip_a, tt) ∷ [];
        },
      )
      ∷ [];
  idle_accounts = ip_a ∷ [];
  db = live;
}

load_data_run : load_data server mgr ≡ some (true, loaded)
unfolding load_data insert c_str find insert_new
load_data_run = refl

load_data-IdleKnown_example : IdleKnown loaded.accounts_pro loaded.idle_accounts
load_data-IdleKnown_example = load_data-IdleKnown mgr loaded load_data_run

apply_run :
    apply server login (vote_turn url_2) mgr ≡ some (record mgr { idle_accounts = ann ∷ [] })
unfolding get_idle_not_vote_account find text_eq
apply_run = refl

abbrev nodes : Nodes
nodes = (5, ann) ∷ (9, bob) ∷ []

double_hand_out_example :
    (i : ℕ) × (run
        (may_vote url_2 accounts)
        (true ∷ false ∷ true ∷ false ∷ [])
        (searching, searching, nodes)
      ≡ some (erasing i bob, erasing i bob, nodes))
    × (run
          (may_vote url_2 accounts)
          (true ∷ false ∷ true ∷ false ∷ true ∷ false ∷ [])
          (searching, searching, nodes)
        ≡ none)
unfolding pick vote_status read_node find text_eq
double_hand_out_example =
    double_hand_out (may_vote url_2 accounts) nodes bob (ann ∷ []) (refl, (refl, tt)) refl
