-- ===== src/Examples/Phones.antt =====
-- A pool that serves one phone by object 3, and a new connection of the same phone, object 7.
use schedule_center.Base.{true, false, [], ◌∷◌, some, ◌≡◌, refl, arith}
use schedule_center.Base.Text.{text_eq}
use schedule_center.Phones.{Store, PhonePool, start}
use schedule_center.Phones.Lists.{lookup}
use schedule_center.Phones.Pool.{Ok, IsNew}
use schedule_center.Phones.Start.{Started, start-Started}
use schedule_center.Examples.{ip_a, server, login}
use schedule_center.Examples.Devices.{phones}

abbrev objects : Store
objects _ = record { peer = ip_a; is_open = true; reset = false; reading = false; written = [] }

abbrev pool : PhonePool server login
pool = record { connections = 3 ∷ []; store = objects; devices = phones }

pool-Ok : Ok pool
unfolding lookup text_eq
pool-Ok = record { open_all = (refl, tt); distinct = (tt, tt); live = (refl, refl) }

seven-IsNew : IsNew 7 pool
unfolding lookup text_eq
seven-IsNew = record { opened = refl; short = omega arith; absent = λ e. ground arith }

start-Started_example :
    (s' : PhonePool server login) × (start server login 7 pool ≡ some s') × Started 7 pool s'
start-Started_example = start-Started 7 pool pool-Ok seven-IsNew
