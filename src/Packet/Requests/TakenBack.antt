-- ===== src/Packet/Requests/TakenBack.antt =====
-- CXRPCObjectClientInServer.cpp, SendPacketData: a request that was not sent leaves no trace.
use konsan_net.Prelude.{ℕ, zero, suc, ◌≡◌, none, some, find, string_key, false}
use Prim.Native.String.{String}
use konsan_net.Packet.Sender.{Sending}
use konsan_net.Packet.Requests.{RpcRequest, Proxy, ClientInServer, expect_reply}

-- Nothing of the request is left: the object waits for what it waited for, and so does the connection.
pub record TakenBack (o : ClientInServer) (p : Proxy) (left : ClientInServer) : Type 0 where
  pub requests : left.requests ≡ o.requests
  pub tasks : left.creating_tasks ≡ o.creating_tasks
  pub connection : Proxy
  pub attached : left.attached_connection ≡ some connection
  pub rpc_obj : connection.rpc_obj ≡ p.rpc_obj

-- The object waits for the reply to the request, and its connection gives it the reply.
pub record Asked (r : RpcRequest) (o asking : ClientInServer) : Type 0 where
  pub request : find r.request_id asking.requests ≡ some r
  pub connection : Proxy
  pub attached : asking.attached_connection ≡ some connection
  pub rpc_obj :
      o.aligned_id_with_server ≡ false → find r.request_id connection.rpc_obj ≡ some o.address

unfoldable pub Answered : RpcRequest → ClientInServer → Proxy → ℕ → ClientInServer → Type 0
Answered r o p zero n = Asked r o n
Answered r o p (suc e) n = TakenBack o p n

module _ (r : RpcRequest) (o : ClientInServer) (p : Proxy)
    (fresh : find r.request_id o.requests ≡ none)
    (unknown : find r.request_id p.rpc_obj ≡ none) where
  abbrev expecting : Proxy
  expecting = expect_reply o.aligned_id_with_server r.request_id o.address p
