-- ===== src/Threads/Voters.antt =====
-- A session that starts to vote, and what `need_wait_vote` counts (src/wx/wx_vote_session.cpp:
-- on_connected; src/wx/wx_vote.cpp: need_wait_vote).
use schedule_center.Base.{
  ℕ, ◌+◌, ◌^◌, ◌≤◌, ◌<◌, true, ◌∷◌, Option, none, some, ◌==◌, ◌≡◌, ◌≢◌, refl, arith, length,
  if◌then◌else◌,
}
use schedule_center.Base.Text.{Text, text_eq}
use schedule_center.Base.Map.{find, share}
use schedule_center.Boost.{Boost}
use schedule_center.Json.{Json}
use schedule_center.Mysql.{Connector, Login}
use schedule_center.Mysql.Live.{IsLive}
use schedule_center.Devices.{
  DeviceMgr, DevicePro, set_status, get_status, get_status_count, device_status_wx_voting,
}
use schedule_center.Devices.Status.{get_status-set_status}
use schedule_center.Devices.Count.{get_status_count-set_status}
use schedule_center.Sessions.{Shared, returns, need_wait_vote}
use schedule_center.Threads.{runs, gating, sending, reading, Session, Common, message, step}

-- A voting session with an account, before it asks whether to wait.
abbrev pub at_gate : {j : Json} → j.Ptree → Text → Session j → Session j
at_gate pt acc s = record s { pt = some pt; pc = gating acc; socket_open = true }

-- The same session once `need_wait_vote` has said no.
abbrev pub past_gate : {j : Json} → j.Ptree → Text → Session j → Session j
past_gate pt acc s = record (at_gate pt acc s) { pc = sending acc }

module _ {c : Connector} {login : Login} where
  -- The votes that succeeded and those that are going on.
  abbrev pub votes_of : Shared c login → ℕ
  votes_of s = s.votes.success_count + get_status_count c device_status_wx_voting s.devices

  pub need_wait_vote_lem :
      (s : Shared c login)
      → votes_of s < 2 ^ 32
      → need_wait_vote c login s ≡ (votes_of s == s.votes.target_count)
  unfolding need_wait_vote
  need_wait_vote_lem s small = ground arith

module _ (c : Connector) (login : Login) where
  -- A phone that did not vote starts to vote.
  pub record StartsToVote (ip : Text) (d d' : DeviceMgr c) : Type 0 where
    pub set : set_status c login ip device_status_wx_voting d ≡ some d'
    pub live : IsLive d'.db
    pub one_more :
        get_status_count c device_status_wx_voting d'
        ≡ get_status_count c device_status_wx_voting d + 1
    pub statuses :
        (j : Text)
        → get_status c j d' ≡ (if text_eq ip j then device_status_wx_voting else get_status c j d)

  no_share :
      (ip : Text) (d : DeviceMgr c) (o : Option DevicePro)
      → find ip d.devices_pro ≡ o
      → get_status c ip d ≢ device_status_wx_voting
      → share (λ p. p.status == device_status_wx_voting) o ≡ 0
  unfolding get_status
  no_share ip d none e other = refl
  no_share ip d (some p) e other = ground arith

  pub starts_to_vote :
      (ip : Text) (d : DeviceMgr c)
      → IsLive d.db
      → length ip ≤ 500
      → get_status c ip d ≢ device_status_wx_voting
      → (d' : DeviceMgr c) × StartsToVote ip d d'
  starts_to_vote ip d live short other =
      let (d', set, live', statuses) =
        get_status-set_status login ip device_status_wx_voting d live short in
      (
        d',
        record {
          set = set;
          live = live';
          one_more = omega (
            arith,
            get_status_count-set_status login ip device_status_wx_voting d d'
                device_status_wx_voting set,
            no_share ip d _ refl other,
          );
          statuses = statuses;
        },
      )

module _ (b : Boost) (c : Connector) (login : Login) (j : Json) where
  abbrev pub with_devices : DeviceMgr c → Common c login → Common c login
  with_devices d w = record w { shared = record w.shared { devices = d } }

  pub send-vote :
      (s : Session j) (w : Common c login) (pt : j.Ptree) (acc : Text) (d : DeviceMgr c)
      → set_status c login s.ip device_status_wx_voting w.shared.devices ≡ some d
      → (s' : Session j) × (step b c login j (runs true) (past_gate pt acc s) w
          ≡ some (returns (s', with_devices d w)))
        × (s'.pc ≡ reading acc)
  unfolding step
  send-vote s w pt acc d e = (
    record (at_gate pt acc s) {
      pc = reading acc;
      messages =
          message b c login j (some pt) acc (past_gate pt acc s) (with_devices d w) ∷ s.messages;
    },
    rw e refl,
    refl,
  )
