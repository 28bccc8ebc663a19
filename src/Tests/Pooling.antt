-- ===== src/Tests/Pooling.antt =====
-- The client pool of Core/TcpClientPool.cpp.
use message_bus_all_in_one_f.Common.{some}
use message_bus_all_in_one_f.ClientPool.{
  ClientPool, PoolSock, Dest, new_pool, add_tcp_sock, get_tcp_sock,
}
use message_bus_all_in_one_f.ClientPool.Turns.{Turn, start, after, add, PoolReach-Turn}
use message_bus_all_in_one_f.Tests.Data.{ab}

abbrev dest : Dest
dest = (ab, 5)

abbrev conn_one : PoolSock
conn_one = record { address = 100; fd = 3; dest = some dest }

abbrev conn_two : PoolSock
conn_two = record { address = 200; fd = 4; dest = some dest }

abbrev two_conns : ClientPool
two_conns = (add_tcp_sock (add_tcp_sock new_pool (some conn_one)).0 (some conn_two)).0

PoolReach-Turn_example : Turn two_conns dest (get_tcp_sock two_conns dest)
PoolReach-Turn_example =
    PoolReach-Turn two_conns dest (after (after start (add (some conn_one))) (add (some conn_two)))
