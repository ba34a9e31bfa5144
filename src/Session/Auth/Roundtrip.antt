-- ===== src/Session/Auth/Roundtrip.antt =====
-- From the row that a registration makes to the login that reads it.
use h_go.Store.{Store}
use h_go.Outside.{Outside}
use h_go.Session.{Session}
