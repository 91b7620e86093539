-- ===== src/Client/Packets/Faults.antt =====
-- CXTcpClient.cpp: a larger packet makes SendPacket use a buffer that it has freed.
use konsan_net.Prelude.{
  ℕ, ◌^◌, ◌<◌, ◌≤◌, ◌≡◌, true, false, not, ◌&&◌, none, List, length, arith, add32,
}
use konsan_net.Client.Tcp.{TcpClient, Socket}
use konsan_net.Client.Packets.{
  Outside, packet_data_len, is_coded, has_room, set_send_buffer_size, grow_send_buffers, resized,
  sized_buffers, send_in_buffers, send_packet,
}

-- SendPacket of data that does not lie in the send buffer, for which the buffers have no room and new ones
-- are allocated, is a fault: the body is written or summed through a pointer that was taken before, and its
-- buffer was freed.
pub send_packet-stale :
    (o : Outside) (code : ℕ) (pb_data : List ℕ) (c : TcpClient) (s : Socket)
    → length pb_data ≤ 2 ^ 30
    → (is_coded c.encrypt_type c.compress_type && not o.has_parser) ≡ false
    → o.has_memory ≡ true
    → c.real_send_buffer < c.allocated
    → has_room (add32 (length pb_data) packet_data_len) c.send_buffer_len ≡ false
    → send_packet o false code pb_data c s ≡ none
unfolding grow_send_buffers send_packet resized sized_buffers set_send_buffer_size send_in_buffers
send_packet-stale o code pb_data c s small parser memory old no_room = ground arith
