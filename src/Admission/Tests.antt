-- ===== src/Admission/Tests.antt =====
-- The admission of a concrete connection.
use wgtcp.Base.{ℕ, ◌+◌, ◌≡◌, ◌||◌, ◌&&◌, true, false, length, All, ok, Bool}
use wgtcp.Net.{SockAddr, inet}
use wgtcp.Admission.{
  Device, TempPeer, add_tcp_socket_to_list, mark_connection_authenticated, cleanup_worker,
  claim_all, is_alive, has_time,
}
use wgtcp.Admission.Counts.{IsAdmitted}
use wgtcp.Admission.Claim.{cleanup_worker-IsAdmitted}
use wgtcp.Admission.Reach.{fresh, added, authenticated, new_device, Reaches-IsAdmitted}

abbrev nobody_local : ℕ → Bool
nobody_local a = false

abbrev client : SockAddr
client = record { family = inet; address = 0x0A000001; port = 4711; scope_id = 0 }

abbrev provisional : TempPeer
provisional = record { id = 1; is_dead = false }

abbrev one_connection : Device
one_connection =
    (add_tcp_socket_to_list nobody_local 100 true true (ok (client, 16)) 7 provisional new_device).1

Reaches-IsAdmitted_example :
    IsAdmitted nobody_local (mark_connection_authenticated 200 1 one_connection)
Reaches-IsAdmitted_example =
    Reaches-IsAdmitted nobody_local
      (authenticated (added fresh 100 true true (ok (client, 16)) 7 provisional) 200 1)

cleanup_worker-IsAdmitted_example :
    ((claim_all (length one_connection.connections + 1) 9000 true one_connection).1 ≡ true)
    × IsAdmitted nobody_local (cleanup_worker 9000 one_connection)
    × All
        (λ e. (e.initializing || (is_alive e.temp_peer && has_time 9000 e)) ≡ true)
        (cleanup_worker 9000 one_connection).connections
cleanup_worker-IsAdmitted_example =
    cleanup_worker-IsAdmitted nobody_local 9000 one_connection
      (Reaches-IsAdmitted nobody_local (added fresh 100 true true (ok (client, 16)) 7 provisional))
