-- ===== src/RunnerHub/Superseded.antt =====
-- What a device's state is after its runner came and went.
use open_cuttles.Base.{none, eq_iff, ℕ, String, ◌≡◌, ◌<◌, true, false, some, arith}
use open_cuttles.RunnerHub.{
  is_session, report, close_previous, close, Reply, Hub, online, connect, hang_up, disconnect,
  post_result,
}

-- A runner that dials in again is online under a new session, and its earlier session is closed.
-- When the earlier stream then ends the new session stays registered, but the last thing reported
-- for the device is that it is offline.
pub supersede-hang_up :
    (device : String) (n : ℕ) (h : Hub)
    → h.sessions device ≡ some n
    → n < h.allocated
    → let (m, g) = connect device h in
      let after = hang_up device n g in
      ((g.heap n).closed ≡ true)
      × (after.sessions device ≡ some m)
      × (online device after ≡ true)
      × (after.reported device ≡ some false)
unfolding connect hang_up online close_previous report is_session close
supersede-hang_up device n h e old = rw e (ground (arith, eq_iff device device))

-- After a credential is revoked the device is offline and the session that was open is closed. A
-- result that its runner still posts changes nothing: it is answered 401 where its token is refused,
-- and 410 where the token was accepted before it was revoked.
pub disconnect-post_result :
    (device : String) (n : ℕ) (h : Hub) (r : Reply)
    → h.sessions device ≡ some n
    → let (was_online, g) = disconnect device h in
      (was_online ≡ true)
      × (online device g ≡ false)
      × ((g.heap n).closed ≡ true)
      × (post_result none (some r) g ≡ (401, g))
      × (post_result (some device) (some r) g ≡ (410, g))
unfolding disconnect online post_result close
disconnect-post_result device n h r e = rw (e, disconnect) (ground (arith, eq_iff device device))
