-- ===== src/Packet/Requests/Dangling.antt =====
-- CXRPCObjectClientInServer.cpp, Create and UnCreate: what the session of the connection knows afterwards.
use Prim.Native.String.{String}
use konsan_net.Prelude.{◌≡◌, Option, some, string_key}
use konsan_net.Server.Session.{ConnectionSession, find_object}
use konsan_net.Packet.Requests.{Proxy, ClientInServer}

-- The session still has the object under its guid.
pub record Dangling (o : ClientInServer) (end : Option Proxy) : Type 0 where
  pub connection : Proxy
  pub left : end ≡ some connection
  pub session : ConnectionSession
  pub has_session : connection.session ≡ some session
  pub object : find_object o.object_id session ≡ some o.address
