-- ===== src/Callbacks/Sockets.antt =====
-- The callbacks of streams and sockets after moves.
-- src/Stream.cpp, src/TcpSocket.cpp, src/Pipe.cpp and src/UdpSocket.cpp.
use moe_uv.Base.{ℕ, ◌<◌, ◌≡◌, ◌≢◌, ◌^◌, some}
use moe_uv.Handle.{get_self}
use moe_uv.Handle.Members.{Objects, members_of, members_of-moved}
use moe_uv.Pipe.Members.{PipeMembers, move_pipe, assign_pipe}
use moe_uv.Stream.Members.{StreamMembers, move_stream, assign_stream}
use moe_uv.TcpSocket.Members as Tcp
use moe_uv.UdpSocket.Members as Udp
use moe_uv.Uv.{Libuv, World, Object}

module _ {S : Type 0} (uv : Libuv S) (self org : ℕ) (o : Object) (w : World S) where
  -- After both kinds of move, the events of the handle go to the same callbacks as before.
  abbrev pub Kept : {C : Type 0} → (ℕ → C) → Objects S C → Objects S C → Type 0
  Kept members moved assigned =
      (members_of uv o.handle moved ≡ members_of uv o.handle (w, members))
      × (members_of uv o.handle assigned ≡ members_of uv o.handle (w, members))

  module _ (at : w.objects org ≡ some o) (ne : self ≢ org) (low : self < 2 ^ 63)
      (some_handle : o.handle ≢ 0) where
    -- Where a handle names the object that owns it, and a stream, a TCP socket, a pipe or a socket for
    -- datagrams is moved into a new object or assigned to another one, the events of the handle go to the
    -- same callbacks as before, whatever the move leaves of the functions that are moved from.
    pub moved_events :
        (m1 : ℕ → StreamMembers) (m2 : ℕ → Tcp.TcpMembers) (m3 : ℕ → PipeMembers)
        (m4 : ℕ → Udp.UdpMembers) (l1 : StreamMembers) (l2 : Tcp.TcpMembers) (l3 : PipeMembers)
        (l4 : Udp.UdpMembers)
        → get_self uv o.handle w ≡ org
        → Kept m1 (move_stream uv self org l1 (w, m1)) (assign_stream uv self org l1 (w, m1))
          × Kept m2
              (Tcp.move_socket uv self org l2 (w, m2))
              (Tcp.assign_socket uv self org l2 (w, m2))
          × Kept m3 (move_pipe uv self org l3 (w, m3)) (assign_pipe uv self org l3 (w, m3))
          × Kept m4
              (Udp.move_socket uv self org l4 (w, m4))
              (Udp.assign_socket uv self org l4 (w, m4))
    unfolding move_stream assign_stream Tcp.move_socket Tcp.assign_socket move_pipe assign_pipe
        Udp.move_socket Udp.assign_socket
    moved_events m1 m2 m3 m4 l1 l2 l3 l4 names = (
      members_of-moved uv self org o w at low some_handle l1 m1 ne names,
      members_of-moved uv self org o w at low some_handle l2 m2 ne names,
      members_of-moved uv self org o w at low some_handle l3 m3 ne names,
      members_of-moved uv self org o w at low some_handle l4 m4 ne names,
    )
