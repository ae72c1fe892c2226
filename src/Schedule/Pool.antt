-- ===== src/Schedule/Pool.antt =====
-- sche_conn_pool (src/common/sche_conn_pool.cpp): how many connections it keeps.
use schedule_center.Base.{ℕ, ◌≤◌, List, [], ◌∷◌, ◌≡◌, refl, arith, length, ap}
use schedule_center.Base.Pointers.{insert_ptr, erase_ptr}
use schedule_center.Schedule.{SchePool, start_reading, close_socket, start, stop}

length-erase_ptr : (p : ℕ) (l : List ℕ) → length (erase_ptr p l) ≤ length l
unfolding erase_ptr
length-erase_ptr p [] = omega arith
length-erase_ptr p (q ∷ l) = ground (arith, length-erase_ptr p l)

insert_ptr-nil : (p : ℕ) (l : List ℕ) → length l ≡ 0 → length (insert_ptr p l) ≡ 1
unfolding insert_ptr
insert_ptr-nil p [] e = refl
insert_ptr-nil p (q ∷ l) e = absurd (omega arith)

close_socket-connections : (p : ℕ) (s : SchePool) → (close_socket p s).connections ≡ s.connections
unfolding close_socket
close_socket-connections p s = ground arith

pub stop-length : (p : ℕ) (s : SchePool) → length (stop p s).connections ≤ length s.connections
unfolding stop
stop-length p s = omega (
  arith,
  ap length (close_socket-connections p (record s { connections = erase_ptr p s.connections })),
  length-erase_ptr p s.connections,
)

pub start-length :
    (p : ℕ) (s : SchePool) → length s.connections ≤ 1 → length (start p s).connections ≤ 1
unfolding start start_reading
start-length p s h = ground (arith, stop-length p s, insert_ptr-nil p s.connections)
