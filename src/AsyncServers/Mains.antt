-- ===== src/AsyncServers/Mains.antt =====
-- The `main`s of the two asynchronous servers.
use boost_asio_study.AsyncTcpServer
use boost_asio_study.HttpAcceptor
