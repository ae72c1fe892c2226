-- ===== src/Lib.antt =====
-- Verification of the schedule centre: a server that phones and one scheduling client connect to. It
-- keeps the status of each phone and the state of each WeChat account, takes orders for votes from
-- the client, and lets sessions on the idle phones cast them.
--
-- The parts and their files:
--   Base: names, lists, bytes (std::string and C strings), std::map and std::set, shared objects.
--   Mysql: what device_mgr and wx_account_mgr use of MySQL Connector/C++ (ext/mysql/include), as an
--     interface `Connector`, with the commands over their `con` and `stmt` pointers.
--   Devices: device_mgr (src/common/device_mgr.cpp, inc/common/device_mgr.hpp). The state is the map
--     `devices_pro` and the two pointers; each method is the function of its name.
--   WorkQueue: work_queue (inc/public/work_queue.hpp). The methods are split where the code gives its
--     mutex up, and `Step` lets the threads make these parts in any order.
--   Accounts: wx_account_mgr (src/wx/wx_account_mgr.cpp, inc/wx/wx_account_mgr.hpp). The state is
--     `accounts_pro`, `idle_accounts` and the two pointers. Accounts.Data holds the properties and
--     the queries, Accounts.Sql the connection, Accounts.Load `init` and `load_data`. Accounts.Race
--     has the two calls that hand out accounts step by step, with the nodes of the std::list.
--     Accounts.Book states what the methods promise, without order and database.
--   Protocol: inc/public/protocol_define.h, and the bytes of an int.
--   Phones: pho_conn_pool and phone_connection (src/common/pho_conn_pool.cpp, phone_connection.cpp).
--     The state is the set of pointers, the objects behind them, and the device_mgr that they call.
--   Json: property trees with their parser, and tasks_mgr, as interfaces.
--   Schedule: sche_conn_pool and schedule_connection (src/common/sche_conn_pool.cpp,
--     schedule_connection.cpp). Orders become tasks of tasks_mgr, whose work_queue hands them out.
--   Boost: what the sessions use of boost::format, lexical_cast and the base64 iterators.
--   Sessions: what an answer of a phone does (src/wx/wx_vote_session.cpp,
--     keep_wx_account_session.cpp: handle_read), and the counts of wx_vote. Answers change the
--     accounts, the phones' statuses and the count of votes, which are one state here. Sessions.Wire
--     has the messages to the phones and takes the answers out of the buffer.
--   Threads: the sessions (src/common/a_session.cpp with the two above) as threads: where one stands
--     (`Pc`), what can happen (`Input`), and the step that follows.
--     Threads.Running has schedules of several sessions and the slots of a phone's signal.
--   TaskProcessor: task_processor (inc/public/task_processor.hpp, task.hpp): posted tasks, timers and
--     the wrappers that catch what these throw.
--   Server: main_task (src/common/main_task.cpp): the acceptors, the start and the end of the server,
--     with keep_wx_account_task's start and do_task. It holds both pools, the sessions and the timers.
--     Server.Loop is the loop of the io_service, which runs the handlers one after another: its
--     schedule (`Turn`) is an argument. Server.Whole interleaves it with the sessions'
--     threads and the worker's.
--   Daily: keep_wx_account_task (src/wx/keep_wx_account_task.cpp): the times of a day's runs and the
--     phones on which a task starts sessions.
--   Worker: the worker of main_task (src/common/main_task.cpp) and wx_vote::do_task
--     (src/wx/wx_vote.cpp), which starts the sessions of Threads on the idle phones and joins them.
--     The schedule of their steps is an argument; Server.Whole has all threads in one schedule.
--   Config: config_mgr (src/common/config_mgr.cpp), over the interface of property trees.
--   Startup: main (src/mpsp/main.cpp): the message queue that shows that the program runs, the
--     initialisation of the managers, and the server with the loop of Server.Loop.
--   Examples: concrete runs.
--
-- How the code is read: `none` as the result of a step is a run that C++ leaves undefined (a call
-- through a NULL pointer, a write past the end of an array) or, where a file says so, an exception
-- that leaves it. Exceptions of the database are the values of `Outcome`. An int is its 32-bit
-- pattern. A method that holds its lock throughout is one step. In `get_idle_not_vote_account` and
-- `get_idle_not_daily_task_account`, which do not, the one-step functions stand for an undisturbed
-- call; so do `reset_all_everyday_task`, whose loop holds no lock, and the sessions' calls of
-- `find_connection`. What is said of schedules of threads holds where these calls are not disturbed.
--
-- Bounds: a name or ip of 500 bytes fits the 640 bytes of a query buffer, and a name and a url of
-- 6000 bytes together fit the 6400 bytes of that of `set_vote_status`. Decimal printing runs on fuel
-- 10, the digits of 2 ^ 32 - 1. The loop over the hours of a day runs on fuel 24. The other functions
-- recurse on lists.
--
-- Not modelled: Boost (asio, threads, property trees, signals, conversions) and MySQL
-- Connector/C++ are not in the repository as sources, so what the code uses of them is an
-- interface or a step. tasks_mgr is called, but neither its header nor its source is in the
-- repository. Of the sessions, a call of `start` by the restart signal, on the io_service's thread
-- and beside the session's own, is a run that C++ leaves undefined, and the static stringstream is
-- taken to be empty. A schedule of sessions and one of the loop end with the first exception,
-- which ends the server. `main` that has run a schedule of the loop to its end without a stop is
-- taken to be still running. What the worker's `pop_task` gives in the whole server is an
-- argument. Of main_task, the registration of signals is left out. Debug printing and memory that
-- leaks are left out.
pub mod Base
pub mod Mysql
pub mod Devices
pub mod WorkQueue
pub mod Accounts
pub mod Protocol
pub mod Phones
pub mod Json
pub mod Boost
pub mod Schedule
pub mod Sessions
pub mod Threads
pub mod TaskProcessor
pub mod Server
pub mod Config
pub mod Startup
pub mod Daily
pub mod Worker
mod Examples
