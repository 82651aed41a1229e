-- ===== src/Xdmcp/Queries/Willing.antt =====
-- What WILLING says, and how often UNWILLING is sent: daemon/scdm-xdmcp-display-factory.c.
use scdm.Address.{Address}
use scdm.Prelude.{◌+◌, ◌<◌, ◌≡◌, refl, ◌∷◌, ◌++◌, arith, codes, leb, if◌then◌else◌}
use scdm.Xdmcp.Queries.{refresh_status, is_busy, send_willing, send_unwilling, or_sysid}
use scdm.Xdmcp.Sessions.{num_displays_from_host}
use scdm.Xdmcp.Send.{willing_packet, unwilling_packet}
use scdm.Xdmcp.Types.{Factory, Host}

refresh_status_zero :
    (host : Host) (factory : Factory)
    → factory.last_willing ≡ 0
    → refresh_status host factory
      ≡ record factory { last_status = or_sysid host.willing_output factory.sysid }
unfolding refresh_status
refresh_status_zero host factory z = ground (arith, z)

-- The time of the last WILLING is never written, so that it stays 0: every WILLING runs the script
-- again and sends what it says now, however short the time since the last one.
pub send_willing_never_cached :
    (host : Host) (address : Address) (factory : Factory)
    → factory.last_willing ≡ 0
    → let sent = send_willing host address factory in
      let status = or_sysid host.willing_output factory.sysid in
      (sent.last_willing ≡ 0)
      × (sent.last_status ≡ status)
      × (sent.sent
          ≡ (
            address,
            willing_packet factory.servhost (
                if is_busy host address factory
                then status ++ codes " (Server is busy)"
                else status),
          )
            ∷ factory.sent)
unfolding send_willing is_busy num_displays_from_host
send_willing_never_cached host address factory z =
    rw (refresh_status_zero host factory z) (z, refl, ground arith)

-- After an UNWILLING another one goes out exactly when more than a second has passed.
pub send_unwilling_twice :
    (host later : Host) (address next : Address) (factory : Factory)
    → factory.last_time + 1 < host.now
    → let first = send_unwilling host address factory in
      let packet = unwilling_packet factory.servhost in
      (first.sent ≡ (address, packet) ∷ factory.sent)
      × ((send_unwilling later next first).sent
          ≡ (if leb later.now (host.now + 1) then first.sent else (next, packet) ∷ first.sent))
unfolding send_unwilling
send_unwilling_twice host later address next factory h = ground (arith, h)
