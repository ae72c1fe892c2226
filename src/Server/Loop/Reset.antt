-- ===== src/Server/Loop/Reset.antt =====
-- A phone that resets its connection (src/common/pho_conn_pool.cpp: stop and stop_all, whose
-- `remote_endpoint` then throws; inc/public/task_processor.hpp: start, whose `run` it leaves).
use schedule_center.Base.{ℕ, ◌≡◌}
use schedule_center.Base.Text.{Text}
use schedule_center.Boost.{Boost}
use schedule_center.Json.{Json}
use schedule_center.Phones
use schedule_center.Phones.{other_error, set_ip_status}
use schedule_center.Server.{Server}
use schedule_center.Server.Loop.{Turn, reads_phone, signalled}

-- The turns in which the server asks for the address of the phone at this position: the end of its
-- read, and a signal, which stops every phone.
abbrev pub Asks : ℕ → Turn → Type 0
Asks n (reads_phone m other_error buffer) = m ≡ n
Asks n signalled = Unit
Asks _ _ = ⊥
