-- ===== src/Logging/Delivery.antt =====
-- When a log line is delivered (logging/papertrail.go).
use aibap_mcp.Base.{◌≡◌, refl, Option, none, some, Text, ok, err, arith}
use aibap_mcp.Logging.{
  Net, Sent, connected, connect, write_on, after_connect, send, close_any, retry, handle,
}

module _ (n : Net) where
  -- The endpoint can be dialed, and takes a line on a connection just dialed.
  abbrev pub Reachable : Type 0
  Reachable =
      (w : n.World)
      → (c : n.Conn) × (n.dial w).0 ≡ ok c
        × ((line : Text) → (n.write c line (n.dial w).1).0 ≡ ok tt)

  -- The line was written without an error on a connection that the handler keeps, and that was the
  -- last that happened.
  abbrev pub Delivered : Text → Sent n → Type 0
  Delivered line x =
      (c : n.Conn) × (w : n.World) × ((n.write c line w).0 ≡ ok tt)
      × (x ≡ (ok tt, some c, (n.write c line w).1))

  connect-Delivered :
      (line : Text) (w : n.World) → Reachable → Delivered line (after_connect n line (connect n w))
  unfolding after_connect connect connected write_on
  connect-Delivered line w h =
      let (c, q, q') = h w in (c, (n.dial w).1, q' line, ground (arith, q, q' line))

  retry-Delivered :
      (line : Text) (x : Sent n)
      → Reachable
      → ((x.0 ≡ ok tt) → Delivered line x)
      → Delivered line (retry n line x)
  unfolding retry
  retry-Delivered line (ok _, conn, w) h k = k refl
  retry-Delivered line (err e, conn, w) h k = connect-Delivered line (close_any n conn w) h

  send-Delivered :
      (line : Text) (conn : Option n.Conn) (w : n.World)
      → Reachable
      → (send n line conn w).0 ≡ ok tt
      → Delivered line (send n line conn w)
  unfolding send write_on
  send-Delivered line none w r h = connect-Delivered line w r
  send-Delivered line (some c) w r h = (c, w, h, ground (arith, h))

  -- If the endpoint can be dialed and takes a line on a connection just dialed, then, whatever the
  -- state of the connection that the handler has, `Handle` ends with a write of the whole line that
  -- succeeds, on the connection that the handler keeps, and reports no error.
  pub handle-Delivered :
      (line : Text) (conn : Option n.Conn) (w : n.World)
      → Reachable
      → Delivered line (handle n line conn w)
  unfolding handle
  handle-Delivered line conn w h =
      retry-Delivered line (send n line conn w) h (send-Delivered line conn w h)
